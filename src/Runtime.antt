-- ===== src/Runtime.antt =====
-- What the modelled code takes from Python values and from the `re` module: objects of any type,
-- floating point numbers, Unicode case mapping and pattern matching. A row is a `dict` with text
-- keys.
use bmu.Prelude.{String, Bool, Option, none, some, List, [], ◌∷◌, Result}
use bmu.Prelude.{if◌then◌else◌, ◌==◌, string_eq}

pub record Runtime : Type 1 where
  pub Object : Type 0
  pub Float : Type 0
  -- A text as an object, and the test that an object is a given text.
  pub text : String → Object
  pub is_text : Object → String → Bool
  pub is_none : Object → Bool
  -- `bool(o)`
  pub is_true : Object → Bool
  -- `str(o)`.
  pub str : Object → String
  -- `float(o)`: `none` is a ValueError or a TypeError, and an error any other exception, such as the
  -- OverflowError of a large `int`.
  pub float : Object → Result (Option Float)
  pub feq : Float → Float → Bool
  pub flt : Float → Float → Bool
  pub fle : Float → Float → Bool
  pub lower : String → String
  -- `bool(re.search(pattern, text, re.IGNORECASE))`, with its `re.error`.
  pub re_search : String → String → Result Bool
  -- `pattern.sub(replacement, text)` of a multi-line pattern.
  pub re_sub : String → String → String → String

abbrev pub Row : Runtime → Type 0
Row py = List (String × py.Object)

-- `row.get(field)`
unfoldable pub row_get {ℓ} : {A : Type ℓ} → String → List (String × A) → Option A
row_get k [] = none
row_get k ((j, v) ∷ rest) = if j == k then some v else row_get k rest

-- `row[field] = value`
unfoldable pub row_set {ℓ} : {A : Type ℓ} → String → A → List (String × A) → List (String × A)
row_set k v [] = (k, v) ∷ []
row_set k v ((j, w) ∷ rest) = if j == k then (j, v) ∷ rest else (j, w) ∷ row_set k v rest
