-- ===== src/Web/Search.antt =====
-- src/kiroku/web/routes/search.py: the blocks of lines around the hits, the escaping of a literal
-- text for ILIKE, and the pages. The test of a line is an argument; for terms it is `terms_hit`. The
-- number of lines of context is from 0 on.
pub mod Context
use Prim.Native.Char.{code}
use Prim.Native.String.{◌++◌ as ◌<>◌}
use bmu.Prelude.{
  ℕ, zero, suc, ◌+◌, ◌-◌, ◌*◌, String, Bool, true, false, ◌&&◌, ◌||◌, not, Option, none, some,
}
use bmu.Prelude.{List, [], ◌∷◌, ◌++◌, map, any, ltb, length, if◌then◌else◌, ◌==◌, nat_eq}
use bmu.Text.{is_empty, splitlines, has_infix}

abbrev pub page_size : ℕ
page_size = 50

-- `any(t in line.lower() for t in [t.lower() for t in terms])`
unfoldable pub terms_hit : (String → String) → List String → String → Bool
unfolding has_infix
terms_hit lower terms line = any (λ t. has_infix (lower t) (lower line)) terms

-- `range(lo, lo + n)`
unfoldable pub count_up : ℕ → ℕ → List ℕ
count_up lo zero = []
count_up lo (suc n) = lo ∷ count_up (suc lo) n

abbrev smaller : ℕ → ℕ → ℕ
smaller a b = if ltb a b then a else b

-- `range(max(0, i - context), min(count, i + context + 1))`
unfoldable pub window : ℕ → ℕ → ℕ → List ℕ
unfolding count_up
window context count i = count_up (i - context) (smaller count (i + context + 1) - (i - context))

-- A number in a sorted list without repetition.
unfoldable pub insert_sorted : ℕ → List ℕ → List ℕ
insert_sorted k [] = k ∷ []
insert_sorted k (j ∷ js) =
    let rest = insert_sorted k js in
    if k == j then j ∷ js else if ltb k j then k ∷ j ∷ js else j ∷ rest

-- `hits.update(…)`, on the set in its order.
unfoldable pub add_hits : List ℕ → List ℕ → List ℕ
unfolding insert_sorted
add_hits [] hits = hits
add_hits (k ∷ ks) hits = insert_sorted k (add_hits ks hits)

-- `sorted(hits)`, from the line with the number `i` on.
unfoldable pub hits_from : (String → Bool) → ℕ → ℕ → ℕ → List String → List ℕ
unfolding window add_hits
hits_from is_hit context count i [] = []
hits_from is_hit context count i (line ∷ lines) =
    let rest = hits_from is_hit context count (suc i) lines in
    if is_hit line then add_hits (window context count i) rest else rest

-- The runs of numbers without a gap, made from the right.
unfoldable pub blocks_of : List ℕ → List (List ℕ)
blocks_of [] = []
blocks_of (i ∷ is) = elim (blocks_of is) [
  | [] ↦ (i ∷ []) ∷ []
  | b ∷ bs ↦ elim b [
    | [] ↦ (i ∷ []) ∷ bs
    | j ∷ js ↦ if ltb (i + 1) j then (i ∷ []) ∷ (j ∷ js) ∷ bs else (i ∷ j ∷ js) ∷ bs
  ]
]

pub record Line : Type 0 where
  pub num : ℕ
  pub text : String
  pub hit : Bool

pub record Block : Type 0 where
  pub start_line : ℕ
  pub lines : List Line

-- `lines[j]`, of a line that is there.
unfoldable pub line_at : ℕ → List String → String
line_at j [] = ""
line_at zero (line ∷ lines) = line
line_at (suc j) (line ∷ lines) = line_at j lines

unfoldable pub block_from : (String → Bool) → List String → List ℕ → Block
unfolding line_at
block_from is_hit lines b = record {
  start_line = elim b [ [] ↦ 1 | j ∷ js ↦ j + 1 ];
  lines =
      map (λ j. record { num = j + 1; text = line_at j lines; hit = is_hit (line_at j lines) }) b;
}

-- The numbers of the lines of `_extract_context`, by block.
unfoldable pub context_blocks : (String → Bool) → ℕ → List String → List (List ℕ)
unfolding blocks_of hits_from
context_blocks is_hit context lines = blocks_of (hits_from is_hit context (length lines) 0 lines)

-- `_extract_context`; the flag says that there is something to search for.
unfoldable pub extract_context : (String → Bool) → Bool → ℕ → String → List Block
unfolding context_blocks block_from splitlines
extract_context is_hit has_query context content =
    if is_empty content || not has_query
    then []
    else map (block_from is_hit (splitlines content))
        (context_blocks is_hit context (splitlines content))

-- `s.replace(c, …)` of a character by an escape in front of it.
unfoldable pub escape_char : ℕ → String → String
escape_char k String.[] = ""
escape_char k (String.◌∷◌ c s) =
    let rest = String.◌∷◌ c (escape_char k s) in if code c == k then String.◌∷◌ "\\" rest else rest

unfoldable pub ilike_pattern : String → String
unfolding escape_char
ilike_pattern q = "%" <> (escape_char b'_' (escape_char b'%' (escape_char b'\\' q)) <> "%")

-- The number of rows to pass over, for a page that may be below the first.
unfoldable pub page_offset : ℕ → ℕ
page_offset page = (page - 1) * page_size

-- The rows of a page out of those that were fetched, one more than a page, and whether there is a
-- next page.
unfoldable pub page_rows {ℓ} : {A : Type ℓ} → ℕ → List A → List A × Bool
page_rows zero [] = ([], false)
page_rows zero (x ∷ xs) = ([], true)
page_rows (suc n) [] = ([], false)
page_rows (suc n) (x ∷ xs) = let (rest, more) = page_rows n xs in (x ∷ rest, more)
