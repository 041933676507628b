-- ===== src/Web/Import/Loading.antt =====
-- The loop of `import_csv` of src/kiroku/web/import_devices.py over the rows that were
-- read.
use bmu.Prelude.{ℕ, suc, ◌+◌, String, true, false, not, Option, none, some, is_some}
use bmu.Prelude.{List, [], ◌∷◌, ◌++◌, map, ok, err, length, contains, keep}
use bmu.Prelude.{if◌then◌else◌, ◌==◌, nat_eq, string_eq}
use bmu.Models.Credential.{Credential}
use bmu.Models.Device.{DeviceGroup}
use bmu.Web.Import.{CsvRow, Csv, Entry, RowResult, Cells, find_name, entry_name, cell, check_row}

-- A cell that is not blank replaces the value.
abbrev pub replaced {ℓ} : {A : Type ℓ} → Option A → Option A → Option A
replaced none old = old
replaced (some a) old = some a

abbrev group_id : DeviceGroup → ℕ
group_id g = g.id

-- The groups of a row, added to those of the device.
abbrev pub add_groups : List ℕ → List DeviceGroup → List ℕ
add_groups ids matched = ids ++ keep (λ i. not (contains i ids)) (map group_id matched)

unfoldable pub update_entry : Cells → Entry → Entry
update_entry c e =
    let d = e.device in
    record {
      device = record d {
        hostname = c.hostname;
        port = replaced c.port d.port;
        description = replaced c.description d.description;
        make = replaced c.make d.make;
        model = replaced c.model d.model;
        role = replaced c.role d.role;
        platform = replaced c.platform d.platform;
        transport = replaced c.transport d.transport;
        driver_kind = replaced c.driver_kind d.driver_kind;
        credential_id = elim c.credential [ none ↦ d.credential_id | some x ↦ some x.id ];
        credential = replaced c.credential d.credential;
        enabled = elim c.enabled [ none ↦ d.enabled | some b ↦ b ];
        worker_pool = replaced c.worker_pool d.worker_pool;
      };
      group_ids = add_groups e.group_ids c.matched;
    }

unfoldable pub new_entry : ℕ → Cells → Entry
new_entry id c = record {
  device = record {
    id = id;
    name = c.name;
    hostname = c.hostname;
    port = c.port;
    description = c.description;
    platform = c.platform;
    custom_platform_id = none;
    custom_platform = none;
    transport = c.transport;
    driver_kind = c.driver_kind;
    connect_timeout = none;
    command_timeout = none;
    credential_id = elim c.credential [ none ↦ none | some x ↦ some x.id ];
    credential = c.credential;
    make = c.make;
    model = c.model;
    role = c.role;
    enabled = elim c.enabled [ none ↦ true | some b ↦ b ];
    worker_pool = c.worker_pool;
    latest_backup_path = none;
    latest_backup_at = none;
  };
  group_ids = map group_id c.matched;
}

unfoldable pub update_named : String → (Entry → Entry) → List Entry → List Entry
update_named n f [] = []
update_named n f (e ∷ es) = (if entry_name e == n then f e else e) ∷ update_named n f es

-- Where the loop over the rows is: the devices that were there, with the changes so far; the new
-- ones; how many rows changed a device; the names so far; and the results.
pub record Progress : Type 0 where
  pub entries : List Entry
  pub added : List Entry
  pub updates : ℕ
  pub seen : List String
  pub results : List RowResult

module _ (csv : Csv) (headers : List (String × String)) (groups : List DeviceGroup)
    (creds : List Credential) (next_id : ℕ) where
  abbrev pub action_of : Progress → String → String
  action_of p name = if is_some (find_name entry_name name p.entries) then "update" else "create"

  -- A row that passed its checks.
  unfoldable pub apply_row : ℕ → Cells → Progress → Progress
  unfolding find_name update_entry new_entry update_named
  apply_row line c p =
      let seen = c.name ∷ p.seen in
      if is_some (find_name entry_name c.name p.entries)
      then record p {
        entries = update_named c.name (update_entry c) p.entries;
        updates = p.updates + 1;
        seen = seen;
        results =
            p.results
            ++ record {
              line = line;
              name = c.name;
              is_ok = true;
              message = "will be updated";
              action = "update";
            }
              ∷ [];
      }
      else record p {
        added = p.added ++ new_entry (next_id + length p.added) c ∷ [];
        seen = seen;
        results =
            p.results
            ++ record {
              line = line;
              name = c.name;
              is_ok = true;
              message = "will be created";
              action = "create";
            }
              ∷ [];
      }

  -- A row that did not.
  unfoldable pub reject_row : ℕ → String → String → Progress → Progress
  unfolding find_name
  reject_row line name message p = record p {
    results =
        p.results
        ++ record {
          line = line;
          name = name;
          is_ok = false;
          message = message;
          action = action_of p name;
        }
          ∷ [];
  }

  unfoldable pub import_row : ℕ → CsvRow → Progress → Progress
  unfolding check_row cell apply_row reject_row
  import_row line row p = elim (check_row csv headers groups creds p.seen row) [
    | err e ↦ reject_row line (cell headers row "name") e p
    | ok c ↦ apply_row line c p
  ]

  unfoldable pub import_rows : ℕ → List CsvRow → Progress → Progress
  unfolding import_row
  import_rows line [] p = p
  import_rows line (row ∷ rows) p = import_rows (suc line) rows (import_row line row p)
