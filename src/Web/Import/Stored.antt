-- ===== src/Web/Import/Stored.antt =====
-- The loop of `import_csv` of src/kiroku/web/import_devices.py keeps what its rows have stored.
use bmu.Prelude.{
  ℕ, suc, ◌≡◌, refl, sym, ap, ◌∙◌, subst, String, true, false, inl, inr, is_some, List, [], ◌∷◌,
  ◌++◌, ok, contains, arith, Bool-cases, Result-cases, if◌then◌else◌, ◌==◌, string_eq, nat_eq, All,
  ◌||◌,
}
use bmu.Models.Credential.{Credential}
use bmu.Models.Device.{DeviceGroup}
use bmu.Web.Import.{
  CsvRow, Csv, Entry, RowResult, Cells, find_name, entry_name, cell, check_row, normalize_headers,
}
use bmu.Web.Import.Loading.{Progress, apply_row, reject_row, import_row, import_rows}
use bmu.Web.Import.Writing.{Imported, any_failed, finish, begin, import_csv}
use bmu.Web.Import.Counted.{looped, import_csv-cases}
use bmu.Web.Import.Read.{IsRead, check_row-IsRead}
use bmu.Web.Import.Found.{
  IsStored, table, IsSeen, apply_row-other, apply_row-IsSeen, apply_row-IsStored,
}

any_failed-append :
    (rs ss : List RowResult) → any_failed (rs ++ ss) ≡ (any_failed rs || any_failed ss)
any_failed-append [] ss = refl
any_failed-append (r ∷ rs) ss = ground (arith, any_failed-append rs ss)

module _ (csv : Csv) (headers : List (String × String)) (groups : List DeviceGroup)
    (creds : List Credential) (next_id : ℕ) where
  abbrev Here : CsvRow → Progress → Type 0
  Here row p = IsStored headers row (table p) × (contains (cell headers row "name") p.seen ≡ true)

  apply_row-Here :
      (line : ℕ) (row other : CsvRow) (c : Cells) (p : Progress)
      → IsRead csv headers groups creds p.seen other c
      → Here row p
      → Here row (apply_row csv headers groups creds next_id line c p)
  unfolding apply_row
  apply_row-Here line row other c p read ((e, at, host, role, pool), seen) =
      let n = cell headers row "name" in
      let apart : (n == c.name) ≡ false = elim (Bool-cases (n == c.name)) [
        | inr different ↦ different
        | inl same ↦
            let n_c = (string_eq.same_iff n c.name).0 same in
            absurd (ground (arith, seen, read.new, ap (λ m. contains m p.seen) n_c))
      ] in
      (
        (
          e,
          apply_row-other csv headers groups creds next_id line c n p apart ∙ at,
          host,
          role,
          pool,
        ),
        ground (arith, seen, Bool-cases (is_some (find_name entry_name c.name p.entries))),
      )

  import_row-Here :
      (line : ℕ) (row other : CsvRow) (p : Progress)
      → Here row p
      → Here row (import_row csv headers groups creds next_id line other p)
  unfolding import_row reject_row
  import_row-Here line row other p h =
      elim (Result-cases (check_row csv headers groups creds p.seen other)) [
        | inr (x, bad) ↦ rw (bad, import_row) h
        | inl (c, good) ↦
            rw (good, import_row)
              (apply_row-Here line row other c p
                (check_row-IsRead csv headers groups creds p.seen other c good) h)
      ]

  import_rows-Here :
      (line : ℕ) (row : CsvRow) (rows : List CsvRow) (p : Progress)
      → Here row p
      → Here row (import_rows csv headers groups creds next_id line rows p)
  unfolding import_rows
  import_rows-Here line row [] p h = h
  import_rows-Here line row (other ∷ rows) p h =
      import_rows-Here (suc line) row rows
        (import_row csv headers groups creds next_id line other p)
        (import_row-Here line row other p h)

  import_row-IsSeen :
      (line : ℕ) (row : CsvRow) (p : Progress)
      → IsSeen csv headers groups creds next_id p
      → IsSeen csv headers groups creds next_id
          (import_row csv headers groups creds next_id line row p)
  unfolding import_row reject_row
  import_row-IsSeen line row p h =
      elim (Result-cases (check_row csv headers groups creds p.seen row)) [
        | inr (x, bad) ↦ rw (bad, import_row) h
        | inl (c, good) ↦
            rw (good, import_row) (apply_row-IsSeen csv headers groups creds next_id line c p h)
      ]

  -- A row that failed stays failed.
  import_row-failed :
      (line : ℕ) (row : CsvRow) (p : Progress)
      → any_failed p.results ≡ true
      → any_failed (import_row csv headers groups creds next_id line row p).results ≡ true
  unfolding import_row reject_row apply_row
  import_row-failed line row p h =
      elim (Result-cases (check_row csv headers groups creds p.seen row)) [
        | inr (x, bad) ↦ rw (bad, import_row) (rw (any_failed-append p.results _, h) refl)
        | inl (c, good) ↦ elim (Bool-cases (is_some (find_name entry_name c.name p.entries))) [
          | inl old ↦ rw (good, import_row, old) (rw (any_failed-append p.results _, h) refl)
          | inr new ↦ rw (good, import_row, new) (rw (any_failed-append p.results _, h) refl)
        ]
      ]

  import_rows-failed :
      (line : ℕ) (rows : List CsvRow) (p : Progress)
      → any_failed p.results ≡ true
      → any_failed (import_rows csv headers groups creds next_id line rows p).results ≡ true
  unfolding import_rows
  import_rows-failed line [] p h = h
  import_rows-failed line (row ∷ rows) p h =
      import_rows-failed (suc line) rows (import_row csv headers groups creds next_id line row p)
        (import_row-failed line row p h)

  -- The row at hand is stored if it does not fail.
  import_row-IsStored :
      (line : ℕ) (row : CsvRow) (p : Progress)
      → IsSeen csv headers groups creds next_id p
      → any_failed (import_row csv headers groups creds next_id line row p).results ≡ false
      → Here row (import_row csv headers groups creds next_id line row p)
  unfolding import_row reject_row apply_row
  import_row-IsStored line row p h fine =
      elim (Result-cases (check_row csv headers groups creds p.seen row)) [
        | inr (x, bad) ↦
            absurd
              (ground (arith, bad, fine, any_failed-append p.results (rejection line row x p ∷ [])))
        | inl (c, good) ↦
            let read = check_row-IsRead csv headers groups creds p.seen row c good in
            rw (good, import_row)
              (
                apply_row-IsStored csv headers groups creds next_id line row c p h read,
                subst
                    (λ n.
                      contains n (apply_row csv headers groups creds next_id line c p).seen ≡ true)
                    read.name
                    (ground (
                      arith,
                      string_eq.same_iff c.name c.name,
                      Bool-cases (is_some (find_name entry_name c.name p.entries)),
                    )),
              )
      ]
    where
      rejection : ℕ → CsvRow → String → Progress → RowResult
      rejection line row message p = record {
        line = line;
        name = cell headers row "name";
        is_ok = false;
        message = message;
        action =
            if is_some (find_name entry_name (cell headers row "name") p.entries)
            then "update"
            else "create";
      }

  import_rows-IsStored :
      (line : ℕ) (rows : List CsvRow) (p : Progress)
      → IsSeen csv headers groups creds next_id p
      → any_failed (import_rows csv headers groups creds next_id line rows p).results ≡ false
      → All
          (λ row.
            IsStored headers row (table (import_rows csv headers groups creds next_id line rows p)))
          rows
  unfolding import_rows
  import_rows-IsStored line [] p h fine = tt
  import_rows-IsStored line (row ∷ rows) p h fine =
      let next = import_row csv headers groups creds next_id line row p in
      let good : any_failed next.results ≡ false = elim (Bool-cases (any_failed next.results)) [
        | inr good ↦ good
        | inl bad ↦ absurd (ground (arith, fine, import_rows-failed (suc line) rows next bad))
      ] in
      (
        (import_rows-Here (suc line) row rows next (import_row-IsStored line row p h good)).0,
        import_rows-IsStored (suc line) rows next (import_row-IsSeen line row p h) fine,
      )

module _ (csv : Csv) (groups : List DeviceGroup) (creds : List Credential) (next_id : ℕ) where
  -- After an import without an error, each row of the file is found again: there is a device with
  -- the name and the host name of the row, and with its role and its pool if their cells are not
  -- blank.
  pub import_csv-find_entry :
      (entries : List Entry) (raw : String) (fields : List String) (rows : List CsvRow)
      (r : Imported)
      → csv.reader raw ≡ ok (fields, rows)
      → import_csv csv groups creds next_id entries raw ≡ ok r
      → any_failed r.results ≡ false
      → All (λ row. IsStored (normalize_headers csv.lower fields) row r.entries) rows
  unfolding finish find_name
  import_csv-find_entry entries raw fields rows r read done fine =
      let headers = normalize_headers csv.lower fields in
      let p = looped csv groups creds next_id fields rows entries in
      elim (import_csv-cases csv groups creds next_id entries raw fields rows r read done) [
        | inl stopped ↦ absurd (ground (arith, stopped.0, fine))
        | inr ran ↦ elim (Bool-cases (any_failed p.results)) [
          | inl bad ↦ absurd (ground (arith, ran, bad, fine))
          | inr good ↦
              let written : r.entries ≡ table p = ground (arith, ran, good) in
              subst (λ es. All (λ row. IsStored headers row es) rows) (sym written)
                (import_rows-IsStored csv headers groups creds next_id 2 rows
                  (begin csv groups creds next_id entries) (λ n e. refl) good)
        ]
      ]
