-- ===== src/Web/Import/Kept.antt =====
-- What `import_csv` of src/kiroku/web/import_devices.py keeps of the devices that are there.
use mathlib.Core.List.{append_assoc, append-nil}
use bmu.Prelude.{
  ℕ, suc, ◌≡◌, refl, sym, ap, ◌∙◌, String, inl, inr, some, is_some, List, [], ◌∷◌, ◌++◌, ok, arith,
  Bool-cases, Result-cases, ◌==◌, string_eq, nat_eq,
}
use bmu.Models.Credential.{Credential}
use bmu.Models.Device.{DeviceGroup}
use bmu.Web.Import.{CsvRow, Csv, Entry, Cells, find_name, entry_name, check_row, normalize_headers}
use bmu.Web.Import.Loading.{Progress, update_entry, apply_row, reject_row, import_row, import_rows}
use bmu.Web.Import.Writing.{Imported, any_failed, finish, begin, import_csv}
use bmu.Web.Import.Counted.{looped, import_csv-cases}
use bmu.Web.Import.Names.{find_entry, find_entry-update_named, find_entry-append, name-update_entry}

-- The device is the same one, with what the file has no column for, and has its groups and maybe
-- more.
abbrev pub Keeps : Entry → Entry → Type 0
Keeps e e' =
    (e'.device.id ≡ e.device.id)
    × (e'.device.name ≡ e.device.name)
    × (e'.device.custom_platform_id ≡ e.device.custom_platform_id)
    × (e'.device.connect_timeout ≡ e.device.connect_timeout)
    × (e'.device.command_timeout ≡ e.device.command_timeout)
    × (e'.device.latest_backup_path ≡ e.device.latest_backup_path)
    × ((more : List ℕ) × (e'.group_ids ≡ e.group_ids ++ more))

Keeps-refl : (e : Entry) → Keeps e e
Keeps-refl e = (refl, refl, refl, refl, refl, refl, ([], sym (append-nil e.group_ids)))

Keeps-trans : (a b c : Entry) → Keeps a b → Keeps b c → Keeps a c
Keeps-trans a b c (i, n, p, t, u, l, (xs, g)) (i', n', p', t', u', l', (ys, g')) = (
  i' ∙ i,
  n' ∙ n,
  p' ∙ p,
  t' ∙ t,
  u' ∙ u,
  l' ∙ l,
  (xs ++ ys, g' ∙ (ap (λ l. l ++ ys) g ∙ append_assoc a.group_ids xs ys)),
)

Keeps-update_entry : (c : Cells) (e : Entry) → Keeps e (update_entry c e)
unfolding update_entry
Keeps-update_entry c e = (refl, refl, refl, refl, refl, refl, (_, refl))

-- A device of the table, found again.
abbrev Found : String → Entry → List Entry → Type 0
Found n e es = (e' : Entry) × (find_entry n es ≡ some e') × Keeps e e'

module _ (csv : Csv) (headers : List (String × String)) (groups : List DeviceGroup)
    (creds : List Credential) (next_id : ℕ) where
  apply_row-Found :
      (line : ℕ) (c : Cells) (n : String) (e : Entry) (p : Progress)
      → Found n e p.entries
      → Found n e (apply_row csv headers groups creds next_id line c p).entries
  unfolding apply_row
  apply_row-Found line c n e p (e₁, at, kept) =
      elim (Bool-cases (is_some (find_name entry_name c.name p.entries))) [
        | inr new ↦ (e₁, ground (arith, new, at), kept)
        | inl old ↦
            let step =
              find_entry-update_named c.name n (update_entry c) p.entries (name-update_entry c) in
            elim (Bool-cases (n == c.name)) [
              | inl this ↦ (
                update_entry c e₁,
                ground (arith, old, this, step, at),
                Keeps-trans e e₁ (update_entry c e₁) kept (Keeps-update_entry c e₁),
              )
              | inr other ↦ (e₁, ground (arith, old, other, step, at), kept)
            ]
      ]

  import_row-Found :
      (line : ℕ) (row : CsvRow) (n : String) (e : Entry) (p : Progress)
      → Found n e p.entries
      → Found n e (import_row csv headers groups creds next_id line row p).entries
  unfolding import_row reject_row
  import_row-Found line row n e p h =
      elim (Result-cases (check_row csv headers groups creds p.seen row)) [
        | inr (x, bad) ↦ rw (bad, import_row) h
        | inl (c, good) ↦ rw (good, import_row) (apply_row-Found line c n e p h)
      ]

  import_rows-Found :
      (line : ℕ) (rows : List CsvRow) (n : String) (e : Entry) (p : Progress)
      → Found n e p.entries
      → Found n e (import_rows csv headers groups creds next_id line rows p).entries
  unfolding import_rows
  import_rows-Found line [] n e p h = h
  import_rows-Found line (row ∷ rows) n e p h =
      import_rows-Found (suc line) rows n e (import_row csv headers groups creds next_id line row p)
        (import_row-Found line row n e p h)

module _ (csv : Csv) (groups : List DeviceGroup) (creds : List Credential) (next_id : ℕ) where
  finish-Found :
      (n : String) (e : Entry) (entries : List Entry) (p : Progress)
      → find_entry n entries ≡ some e
      → Found n e p.entries
      → Found n e (finish csv groups creds next_id entries p).entries
  unfolding finish
  finish-Found n e entries p there (e', at, kept) = elim (Bool-cases (any_failed p.results)) [
    | inl bad ↦ (e, ground (arith, bad, there), Keeps-refl e)
    | inr good ↦ (e', ground (arith, good, at, find_entry-append n p.entries p.added), kept)
  ]

  -- Whatever the file says, an import that returns has each device that was there, under its name
  -- and with its id, its custom platform, its timeouts and the path of its latest backup; it has its
  -- groups, and maybe more behind them.
  pub import_csv-Keeps :
      (n : String) (e : Entry) (entries : List Entry) (raw : String) (fields : List String)
      (rows : List CsvRow) (r : Imported)
      → csv.reader raw ≡ ok (fields, rows)
      → import_csv csv groups creds next_id entries raw ≡ ok r
      → find_entry n entries ≡ some e
      → (e' : Entry) × (find_entry n r.entries ≡ some e') × Keeps e e'
  import_csv-Keeps n e entries raw fields rows r read done there =
      elim (import_csv-cases csv groups creds next_id entries raw fields rows r read done) [
        | inl stopped ↦ (e, ap (find_entry n) stopped.1 ∙ there, Keeps-refl e)
        | inr ran ↦
            let p = looped csv groups creds next_id fields rows entries in
            let (e', at, kept) = finish-Found n e entries p there (
              import_rows-Found csv (normalize_headers csv.lower fields) groups creds next_id 2 rows
                n e (begin csv groups creds next_id entries) (e, there, Keeps-refl e)) in
            (e', ap (λ (x : Imported). find_entry n x.entries) ran ∙ at, kept)
      ]
