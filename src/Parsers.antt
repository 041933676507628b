-- ===== src/Parsers.antt =====
-- src/kiroku/parsers.py. The template engines are packages, and are parameters; so is the `re`
-- module through which `_clean` removes the routing-engine lines.
pub mod Tables
use Prim.Native.String.{◌++◌ as ◌<>◌}
use bmu.Prelude.{ℕ, suc, String, Option, none, some, List, [], ◌∷◌, ◌++◌, map}
use bmu.Prelude.{Result, ok, err, ◌>>=◌, if◌then◌else◌, ◌==◌, string_eq}
use bmu.Text.{is_empty, strip, rstrip, splitlines, decimal}
use bmu.Runtime.{Runtime, Row, row_set}

-- An item of a parsed list: a dict, or some other value.
pub data Item (py : Runtime) : Type 0 where
  dict : Row py → Item py
  other : py.Object → Item py

-- What `parse` returns: `None`, a list, or one dict.
pub data Parsed (py : Runtime) : Type 0 where
  nothing : Parsed py
  listing : List (Item py) → Parsed py
  mapping : Row py → Parsed py

-- An item of what TTP returns may be a list.
pub data TtpItem (py : Runtime) : Type 0 where
  group : List (Item py) → TtpItem py
  single : Item py → TtpItem py

pub data TtpResult (py : Runtime) : Type 0 where
  items : List (TtpItem py) → TtpResult py
  structure : Row py → TtpResult py

-- A match of the `parse` package.
pub record Match (py : Runtime) : Type 0 where
  pub named : Row py
  pub fixed : List py.Object

pub record Engines (py : Runtime) : Type 1 where
  -- `TextFSM(template)`, then `ParseText`: the header and the rows of values.
  pub textfsm : String → String → Result (List String × List (List py.Object))
  pub ttp : String → String → Result (TtpResult py)
  -- A list of items as one object.
  pub list_object : List (Item py) → py.Object
  pub Pattern : Type 0
  pub compile : String → Result Pattern
  pub match_line : Pattern → String → Option (Match py)
  pub search_line : Pattern → String → Option (Match py)
  -- `str(XSLT(stylesheet)(payload))`
  pub transform : String → String → Result String

abbrev indicator : String
indicator = "^\\{[a-z][a-z0-9]*(?::\\d+)?\\}\\s*$"

-- `dict(zip(header, values))`, over the pairs that are in already.
unfoldable pub zip_dict {ℓ} :
    {A : Type ℓ} → List (String × A) → List String → List A → List (String × A)
unfolding row_set
zip_dict d [] vs = d
zip_dict d (k ∷ ks) [] = d
zip_dict d (k ∷ ks) (v ∷ vs) = zip_dict (row_set k v d) ks vs

-- `{f"_{i}": v for i, v in enumerate(fixed)}`, from the index on.
unfoldable pub numbered {ℓ} : {A : Type ℓ} → ℕ → List A → List (String × A)
unfolding decimal
numbered i [] = []
numbered i (v ∷ vs) = ("_" <> decimal i, v) ∷ numbered (suc i) vs

module _ (py : Runtime) where
  -- `_clean`
  unfoldable pub clean : String → String
  clean payload = py.re_sub indicator "" payload

  module _ (engines : Engines py) where
    unfoldable pub textfsm : String → String → Result (Parsed py)
    unfolding zip_dict
    textfsm template payload = do
      (header, rows) ← engines.textfsm template payload
      ok (listing (map (λ r. dict (zip_dict [] header r)) rows))

    -- An item that stays in the outer list.
    unfoldable pub outer : TtpItem py → Item py
    outer (group xs) = other (engines.list_object xs)
    outer (single x) = x

    unfoldable pub flatten : TtpResult py → Parsed py
    unfolding outer
    flatten (items (group xs ∷ [])) = listing xs
    flatten (items raw) = listing (map outer raw)
    flatten (structure d) = mapping d

    unfoldable pub ttp : String → String → Result (Parsed py)
    unfolding flatten
    ttp template payload = do raw ← engines.ttp template payload; ok (flatten raw)

    -- The dict of a match, if it has named or numbered fields.
    unfoldable pub match_row : Match py → List (Item py)
    unfolding numbered
    match_row m = elim m.named [
      | [] ↦ elim m.fixed [ [] ↦ [] | v ∷ vs ↦ dict (numbered 0 m.fixed) ∷ [] ]
      | p ∷ ps ↦ dict m.named ∷ []
    ]

    unfoldable pub match_line : engines.Pattern → String → List (Item py)
    unfolding match_row
    match_line compiled line =
        if is_empty line then [] else elim (engines.match_line compiled line) [
          | some m ↦ match_row m
          | none ↦ elim (engines.search_line compiled line) [ some m ↦ match_row m | none ↦ [] ]
        ]

    unfoldable pub match_lines : engines.Pattern → List String → List (Item py)
    unfolding match_line rstrip
    match_lines compiled [] = []
    match_lines compiled (line ∷ rest) =
        match_line compiled (rstrip line) ++ match_lines compiled rest

    -- `_parse_lib`
    unfoldable pub parse_lib : String → String → Result (Parsed py)
    unfolding match_lines strip splitlines
    parse_lib template payload = do
      compiled ← engines.compile (strip template)
      ok (listing (match_lines compiled (splitlines payload)))

    unfoldable pub xslt : String → String → Result (Parsed py)
    xslt stylesheet payload = do
      result ← engines.transform stylesheet payload
      ok (mapping (("transformed", py.text result) ∷ []))

    abbrev pick : String → String → String → Result (Parsed py)
    unfolding textfsm ttp xslt parse_lib
    pick parser_type body payload =
        if parser_type == "textfsm"
        then textfsm body payload
        else if parser_type == "ttp"
        then ttp body payload
        else if parser_type == "xslt"
        then xslt body payload
        else if parser_type == "parse"
        then parse_lib body payload
        else err ("unknown parser type: " <> parser_type)

    unfoldable pub parse : Option String → Option String → String → Result (Parsed py)
    unfolding clean textfsm ttp xslt parse_lib
    parse none body payload = ok nothing
    parse (some parser_type) none payload = ok nothing
    parse (some parser_type) (some body) payload =
        if is_empty parser_type
        then ok nothing
        else if is_empty body
        then ok nothing
        else pick parser_type body (clean payload)
