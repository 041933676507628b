-- ===== src/Web/Import/Found.antt =====
-- What `import_csv` of src/kiroku/web/import_devices.py writes: each row is found again.
use bmu.Prelude.{
  ℕ, ◌+◌, ◌≡◌, refl, sym, subst, String, false, ◌⊎◌, inl, inr, Option, none, some, is_some, List,
  [], ◌∷◌, ◌++◌, contains, length, arith, Bool-cases, Option-cases, if◌then◌else◌, ◌==◌, string_eq,
  nat_eq,
}
use bmu.Text.{nonempty}
use bmu.Models.Credential.{Credential}
use bmu.Models.Device.{DeviceGroup}
use bmu.Web.Import.{CsvRow, Csv, Entry, Cells, find_name, entry_name, cell}
use bmu.Web.Import.Loading.{Progress, replaced, new_entry, update_entry, update_named, apply_row}
use bmu.Web.Import.Names.{find_entry, find_entry-update_named, find_entry-append, name-update_entry}
use bmu.Web.Import.Read.{IsRead}

-- A cell is blank, or the field has its text.
abbrev pub Carries : String → Option String → Type 0
Carries text field = (nonempty text ≡ none) ⊎ (field ≡ nonempty text)

-- A row of the file, in a table of devices.
abbrev pub IsStored : List (String × String) → CsvRow → List Entry → Type 0
IsStored headers row es =
    (e : Entry) × (find_entry (cell headers row "name") es ≡ some e)
    × (e.device.hostname ≡ cell headers row "hostname")
    × Carries (cell headers row "role") e.device.role
    × Carries (cell headers row "worker_pool") e.device.worker_pool

abbrev pub table : Progress → List Entry
table p = p.entries ++ p.added

find_entry-one :
    (n : String) (e : Entry) → find_entry n (e ∷ []) ≡ (if entry_name e == n then some e else none)
unfolding find_name
find_entry-one n e = refl

name-new_entry : (id : ℕ) (c : Cells) → entry_name (new_entry id c) ≡ c.name
unfolding new_entry
name-new_entry id c = refl

module _ (csv : Csv) (headers : List (String × String)) (groups : List DeviceGroup)
    (creds : List Credential) (next_id : ℕ) where
  -- A row changes nothing under another name.
  pub apply_row-other :
      (line : ℕ) (c : Cells) (n : String) (p : Progress)
      → (n == c.name) ≡ false
      → find_entry n (table (apply_row csv headers groups creds next_id line c p))
        ≡ find_entry n (table p)
  unfolding apply_row
  apply_row-other line c n p other =
      elim (Bool-cases (is_some (find_name entry_name c.name p.entries))) [
        | inl old ↦ ground (
          arith,
          old,
          other,
          find_entry-append n p.entries p.added,
          find_entry-append n (update_named c.name (update_entry c) p.entries) p.added,
          find_entry-update_named c.name n (update_entry c) p.entries (name-update_entry c),
        )
        | inr new ↦
            let e = new_entry (next_id + length p.added) c in
            let flip : (entry_name e == n) ≡ false = ground (
              arith,
              other,
              name-new_entry (next_id + length p.added) c,
              string_eq.same_iff n c.name,
              string_eq.same_iff (entry_name e) n,
            ) in
            ground (
              arith,
              new,
              flip,
              find_entry-append n p.entries p.added,
              find_entry-append n p.entries (p.added ++ e ∷ []),
              find_entry-append n p.added (e ∷ []),
              find_entry-one n e,
            )
      ]

  -- The names of the new devices have been seen.
  abbrev pub IsSeen : Progress → Type 0
  IsSeen p = (n : String) → contains n p.seen ≡ false → find_entry n p.added ≡ none

  pub apply_row-IsSeen :
      (line : ℕ) (c : Cells) (p : Progress)
      → IsSeen p
      → IsSeen (apply_row csv headers groups creds next_id line c p)
  unfolding apply_row
  apply_row-IsSeen line c p h n fresh =
      elim (Bool-cases (is_some (find_name entry_name c.name p.entries))) [
        | inl old ↦ ground (arith, old, fresh, h n)
        | inr new ↦
            let e = new_entry (next_id + length p.added) c in
            let apart : (n == c.name) ≡ false = ground (arith, new, fresh) in
            let flip : (entry_name e == n) ≡ false = ground (
              arith,
              apart,
              name-new_entry (next_id + length p.added) c,
              string_eq.same_iff n c.name,
              string_eq.same_iff (entry_name e) n,
            ) in
            ground (
              arith,
              new,
              fresh,
              flip,
              h n,
              find_entry-append n p.added (e ∷ []),
              find_entry-one n e,
            )
      ]

  -- A row that passed its checks is stored.
  pub apply_row-IsStored :
      (line : ℕ) (row : CsvRow) (c : Cells) (p : Progress)
      → IsSeen p
      → IsRead csv headers groups creds p.seen row c
      → IsStored headers row (table (apply_row csv headers groups creds next_id line c p))
  unfolding apply_row update_entry new_entry
  apply_row-IsStored line row c p h read =
      elim (Option-cases (find_name entry_name c.name p.entries)) [
        | inr (e, there) ↦
            let step =
              find_entry-update_named c.name c.name (update_entry c) p.entries
                (name-update_entry c) in
            (
              update_entry c e,
              subst
                  (λ n.
                    find_entry n (table (apply_row csv headers groups creds next_id line c p))
                    ≡ some (update_entry c e))
                  read.name
                  (ground (
                    arith,
                    there,
                    step,
                    string_eq.same_iff c.name c.name,
                    find_entry-append c.name (update_named c.name (update_entry c) p.entries)
                        p.added,
                  )),
              read.hostname,
              carried c.role e.device.role (cell headers row "role") read.role,
              carried c.worker_pool e.device.worker_pool (cell headers row "worker_pool")
                  read.worker_pool,
            )
        | inl gone ↦
            let e = new_entry (next_id + length p.added) c in
            (
              e,
              subst
                  (λ n.
                    find_entry n (table (apply_row csv headers groups creds next_id line c p))
                    ≡ some e)
                  read.name
                  (ground (
                    arith,
                    gone,
                    h c.name read.new,
                    string_eq.same_iff c.name c.name,
                    find_entry-append c.name p.entries (p.added ++ e ∷ []),
                    find_entry-append c.name p.added (e ∷ []),
                    find_entry-one c.name e,
                  )),
              read.hostname,
              inr read.role,
              inr read.worker_pool,
            )
      ]
    where
      carried :
          (new old : Option String) (text : String)
          → new ≡ nonempty text
          → Carries text (replaced new old)
      carried none old text e = inl (sym e)
      carried (some s) old text e = inr e
