-- ===== src/Web/Import/Counted.antt =====
-- All or nothing: `import_csv` of src/kiroku/web/import_devices.py.
use bmu.Prelude.{any}
use bmu.Prelude.{
  ℕ, suc, ◌+◌, ◌≡◌, refl, String, true, false, not, ◌⊎◌, inl, inr, is_some, List, [], ◌∷◌, map, ok,
  tally, tally-append, length, length-append, keep, arith, Bool-cases, Result-cases,
}
use bmu.Runtime.{row_get}
use bmu.Models.Credential.{Credential}
use bmu.Models.Device.{DeviceGroup}
use bmu.Web.Import.{
  CsvRow, Csv, Entry, RowResult, Cells, find_name, entry_name, cell, check_row, normalize_headers,
  required,
}
use bmu.Web.Import.Loading.{new_entry, Progress, apply_row, reject_row, import_row, import_rows}
use bmu.Web.Import.Writing.{Imported, any_failed, finish, begin, commit, has_repeat, import_csv}

-- The rows without an error are those that change or make a device.
record IsCounted (rows : ℕ) (p : Progress) : Type 0 where
  pub good : tally (λ (r : RowResult). r.is_ok) p.results ≡ length p.added + p.updates
  pub whole : length p.results ≡ rows

IsCounted-from_zero : (n : ℕ) (p : Progress) → IsCounted (0 + n) p → IsCounted n p
IsCounted-from_zero n p h = record { good = h.good; whole = omega (arith, h.whole) }

all_good :
    (rs : List RowResult)
    → any_failed rs ≡ false
    → tally (λ (r : RowResult). r.is_ok) rs ≡ length rs
all_good [] h = refl
all_good (r ∷ rs) h = ground (arith, h, all_good rs)

pub any_failed-map :
    (rs : List RowResult)
    → any_failed (map (λ (r : RowResult). record r { message = r.action }) rs) ≡ any_failed rs
any_failed-map [] = refl
any_failed-map (r ∷ rs) = ground (arith, any_failed-map rs)

module _ (csv : Csv) (headers : List (String × String)) (groups : List DeviceGroup)
    (creds : List Credential) (next_id : ℕ) where
  apply_row-IsCounted :
      (n line : ℕ) (c : Cells) (p : Progress)
      → IsCounted n p
      → IsCounted (n + 1) (apply_row csv headers groups creds next_id line c p)
  unfolding apply_row
  apply_row-IsCounted n line c p h =
      let good = λ (r : RowResult). r.is_ok in
      elim (Bool-cases (is_some (find_name entry_name c.name p.entries))) [
        | inl old ↦
            let r : RowResult = record {
              line = line;
              name = c.name;
              is_ok = true;
              message = "will be updated";
              action = "update";
            } in
            record {
              good = ground (arith, old, h.good, tally-append good p.results (r ∷ []));
              whole = ground (arith, old, h.whole, length-append p.results (r ∷ []));
            }
        | inr new ↦
            let r : RowResult = record {
              line = line;
              name = c.name;
              is_ok = true;
              message = "will be created";
              action = "create";
            } in
            record {
              good = ground (
                arith,
                new,
                h.good,
                tally-append good p.results (r ∷ []),
                length-append p.added (new_entry (next_id + length p.added) c ∷ []),
              );
              whole = ground (arith, new, h.whole, length-append p.results (r ∷ []));
            }
      ]

  reject_row-IsCounted :
      (n line : ℕ) (name message : String) (p : Progress)
      → IsCounted n p
      → IsCounted (n + 1) (reject_row csv headers groups creds next_id line name message p)
  unfolding reject_row
  reject_row-IsCounted n line name message p h = record {
    good = omega (arith, h.good, tally-append (λ (r : RowResult). r.is_ok) p.results _);
    whole = omega (arith, h.whole, length-append p.results _);
  }

  import_rows-IsCounted :
      (n line : ℕ) (rows : List CsvRow) (p : Progress)
      → IsCounted n p
      → IsCounted (n + length rows) (import_rows csv headers groups creds next_id line rows p)
  unfolding import_rows import_row
  import_rows-IsCounted n line [] p h = record { good = h.good; whole = omega (arith, h.whole) }
  import_rows-IsCounted n line (row ∷ rows) p h =
      let next = import_row csv headers groups creds next_id line row p in
      let counted : IsCounted (n + 1) next =
        elim (Result-cases (check_row csv headers groups creds p.seen row)) [
          | inr (e, bad) ↦
              rw (bad, import_row) (reject_row-IsCounted n line (cell headers row "name") e p h)
          | inl (c, good) ↦ rw (good, import_row) (apply_row-IsCounted n line c p h)
        ] in
      let rest = import_rows-IsCounted (n + 1) (suc line) rows next counted in
      record { good = rest.good; whole = omega (arith, rest.whole) }

module _ (csv : Csv) (groups : List DeviceGroup) (creds : List Credential) (next_id : ℕ) where
  -- The loop over the rows of a file.
  abbrev pub looped : List String → List CsvRow → List Entry → Progress
  looped fields rows entries =
      import_rows csv (normalize_headers csv.lower fields) groups creds next_id 2 rows
        (begin csv groups creds next_id entries)

  -- An import that ends at the header, or in the loop.
  pub import_csv-cases :
      (entries : List Entry) (raw : String) (fields : List String) (rows : List CsvRow)
      (r : Imported)
      → csv.reader raw ≡ ok (fields, rows)
      → import_csv csv groups creds next_id entries raw ≡ ok r
      → ((any_failed r.results ≡ true) × (r.entries ≡ entries) × (r.created + r.updated ≡ 0))
        ⊎ (r ≡ finish csv groups creds next_id entries (looped fields rows entries))
  unfolding import_csv commit
  import_csv-cases entries raw fields rows r read done =
      go (keep (λ h. not (is_some (row_get h (normalize_headers csv.lower fields)))) required) refl
    where
      go :
          (ms : List String)
          → keep (λ h. not (is_some (row_get h (normalize_headers csv.lower fields)))) required ≡ ms
          → ((any_failed r.results ≡ true) × (r.entries ≡ entries) × (r.created + r.updated ≡ 0))
            ⊎ (r ≡ finish csv groups creds next_id entries (looped fields rows entries))
      go [] e =
          let whole = finish csv groups creds next_id entries (looped fields rows entries) in
          elim (Bool-cases (any_failed whole.results)) [
            | inl bad ↦ inr (ground (arith, read, e, bad, done))
            | inr good ↦
                elim (Bool-cases (any (λ (x : Entry). has_repeat x.group_ids) whole.entries)) [
                  | inl twice ↦ absurd (ground (arith, read, e, good, twice, done))
                  | inr once ↦ inr (ground (arith, read, e, good, once, done))
                ]
          ]
      go (m ∷ ms) e = inl (ground (arith, read, e, done))

  finish-whole :
      (entries : List Entry) (n : ℕ) (p : Progress) (r : Imported)
      → IsCounted n p
      → r ≡ finish csv groups creds next_id entries p
      → ((any_failed r.results ≡ true) × (r.entries ≡ entries) × (r.created + r.updated ≡ 0))
        ⊎ ((any_failed r.results ≡ false) × (r.created + r.updated ≡ n))
  unfolding finish
  finish-whole entries n p r h same = elim (Bool-cases (any_failed p.results)) [
    | inl bad ↦ inl (ground (arith, same, bad))
    | inr good ↦ inr (
      ground (arith, same, good, any_failed-map p.results),
      ground (arith, same, good, h.good, h.whole, all_good p.results good),
    )
  ]

  -- An import whose file could be read, and that returns, has an error in some row and leaves the
  -- devices as they were, or has none, and then each row has created or updated a device.
  pub import_csv_whole :
      (entries : List Entry) (raw : String) (fields : List String) (rows : List CsvRow)
      (r : Imported)
      → csv.reader raw ≡ ok (fields, rows)
      → import_csv csv groups creds next_id entries raw ≡ ok r
      → ((any_failed r.results ≡ true) × (r.entries ≡ entries) × (r.created + r.updated ≡ 0))
        ⊎ ((any_failed r.results ≡ false) × (r.created + r.updated ≡ length rows))
  import_csv_whole entries raw fields rows r read done =
      elim (import_csv-cases entries raw fields rows r read done) [
        | inl stopped ↦ inl stopped
        | inr ran ↦
            finish-whole entries (length rows) (looped fields rows entries) r
              (IsCounted-from_zero (length rows) (looped fields rows entries) (
                import_rows-IsCounted csv (normalize_headers csv.lower fields) groups creds next_id
                  0 2 rows (begin csv groups creds next_id entries)
                  (record { good = refl; whole = refl })))
              ran
      ]
