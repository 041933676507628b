-- ===== src/Parsers/Tables.antt =====
-- The rows that `_textfsm` of src/kiroku/parsers.py builds with `dict(zip(header, values))`.
use bmu.Prelude.{String, ◌≡◌, ◌≢◌, refl, sym, ◌∙◌, false, some, List, [], ◌∷◌, inl, inr, arith}
use bmu.Prelude.{In, All, Distinct, map, ok, ap, length, All₂, string_eq, beq_refl}
use bmu.Runtime.{Runtime, Row, row_get, row_set}
use bmu.Text.{is_empty}
use bmu.Parsers.{Item, dict, listing, Engines, zip_dict, clean, textfsm, parse}

module _ {A : Type 0} where
  row_get-row_set_same :
      (k : String) (v : A) (d : List (String × A)) → row_get k (row_set k v d) ≡ some v
  unfolding row_get row_set
  row_get-row_set_same k v [] = ground (arith, beq_refl k)
  row_get-row_set_same k v (p ∷ d) = ground (arith, beq_refl k, row_get-row_set_same k v d)

  row_get-row_set_other :
      (k j : String) (v : A) (d : List (String × A))
      → j ≢ k
      → row_get k (row_set j v d) ≡ row_get k d
  unfolding row_get row_set
  row_get-row_set_other k j v [] h = ground (arith, h, string_eq.same_iff j k)
  row_get-row_set_other k j v (p ∷ d) h = ground (
    arith,
    h,
    string_eq.same_iff p.0 j,
    string_eq.same_iff p.0 k,
    row_get-row_set_other k j v d h,
  )

  -- Later columns leave an earlier one as it is.
  zip_dict-keeps :
      (k : String) (v : A) (d : List (String × A)) (ks : List String) (vs : List A)
      → ¬ (In k ks)
      → row_get k d ≡ some v
      → row_get k (zip_dict d ks vs) ≡ some v
  unfolding zip_dict
  zip_dict-keeps k v d [] vs fresh h = h
  zip_dict-keeps k v d (j ∷ ks) [] fresh h = h
  zip_dict-keeps k v d (j ∷ ks) (w ∷ vs) fresh h =
      zip_dict-keeps k v (row_set j w d) ks vs (λ m. fresh (inr m))
        (row_get-row_set_other k j w d (λ e. fresh (inl (sym e))) ∙ h)

  -- A header without repetition and a row of values as long as it: the dict has each value under
  -- the name of its column.
  pub zip_dict-All₂ :
      (d : List (String × A)) (header : List String) (row : List A)
      → Distinct header
      → length header ≡ length row
      → All₂ (λ k v. row_get k (zip_dict d header row) ≡ some v) header row
  unfolding zip_dict
  zip_dict-All₂ d [] [] distinct same = tt
  zip_dict-All₂ d [] (v ∷ vs) distinct same = absurd (omega arith)
  zip_dict-All₂ d (k ∷ ks) [] distinct same = absurd (omega arith)
  zip_dict-All₂ d (k ∷ ks) (v ∷ vs) distinct same = (
    zip_dict-keeps k v (row_set k v d) ks vs distinct.0 (row_get-row_set_same k v d),
    zip_dict-All₂ (row_set k v d) ks vs distinct.1 (omega arith),
  )

abbrev dicts_of : {A : Type 0} → List String → List (List A) → List (List (String × A))
dicts_of header rows = map (λ r. zip_dict [] header r) rows

dicts_of-All₂ :
    {A : Type 0} (header : List String) (rows : List (List A))
    → Distinct header
    → All (λ r. length header ≡ length r) rows
    → All₂ (λ r d. All₂ (λ k v. row_get k d ≡ some v) header r) rows (dicts_of header rows)
dicts_of-All₂ header [] distinct same = tt
dicts_of-All₂ header (r ∷ rs) distinct same =
    (zip_dict-All₂ [] header r distinct same.0, dicts_of-All₂ header rs distinct same.1)

map-dicts_of :
    (py : Runtime) (header : List String) (rows : List (List py.Object))
    → map {B = Item py} (λ r. dict (zip_dict [] header r)) rows
      ≡ map {B = Item py} (λ (d : Row py). dict d) (dicts_of header rows)
map-dicts_of py header [] = refl
map-dicts_of py header (r ∷ rs) =
    ap (λ rest. dict (zip_dict [] header r) ∷ rest) (map-dicts_of py header rs)

-- A TextFSM template that gives, on the cleaned payload, a header without repetition and rows as
-- long as it: `parse` returns one dict for each row, in order, which has each value of the row under
-- the name of its column.
pub parse_textfsm :
    (py : Runtime) (engines : Engines py) (body payload : String) (header : List String)
    (rows : List (List py.Object))
    → is_empty body ≡ false
    → engines.textfsm body (clean py payload) ≡ ok (header, rows)
    → Distinct header
    → All (λ r. length header ≡ length r) rows
    → (ds : List (Row py)) × (parse py engines (some "textfsm") (some body) payload
        ≡ ok (listing (map (λ d. dict d) ds)))
      × All₂ (λ r d. All₂ (λ k v. row_get k d ≡ some v) header r) rows ds
unfolding parse textfsm
parse_textfsm py engines body payload header rows full got distinct same = (
  dicts_of header rows,
  ground (arith, full, got, map-dicts_of py header rows),
  dicts_of-All₂ header rows distinct same,
)
