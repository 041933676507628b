-- ===== src/Web/Import/Writing.antt =====
-- The end of `import_csv` of src/kiroku/web/import_devices.py, which writes all rows or none, and the
-- answer of `import_devices` of src/kiroku/web/routes/api/devices.py.
use Prim.Native.String.{◌++◌ as ◌<>◌}
use bmu.Prelude.{ℕ, String, Bool, false, not, Option, none, some, is_some}
use bmu.Prelude.{
  List, [], ◌∷◌, ◌++◌, map, Result, ok, err, ◌>>=◌, any, contains, ◌||◌, tally, length, keep,
}
use bmu.Prelude.{if◌then◌else◌, ◌==◌, nat_eq, string_eq}
use bmu.Text.{is_empty, join}
use bmu.Runtime.{row_get}
use bmu.Models.Credential.{Credential}
use bmu.Models.Device.{DeviceGroup}
use bmu.Web.Import.{Csv, Entry, RowResult, normalize_headers, required}
use bmu.Web.Import.Loading.{Progress, import_rows}

-- The results, how many devices were created and updated, and the table.
pub record Imported : Type 0 where
  pub results : List RowResult
  pub created : ℕ
  pub updated : ℕ
  pub entries : List Entry

-- A number that comes twice.
unfoldable pub has_repeat : List ℕ → Bool
has_repeat [] = false
has_repeat (i ∷ is) = contains i is || has_repeat is

abbrev pub any_failed : List RowResult → Bool
any_failed rs = any (λ (r : RowResult). not r.is_ok) rs

module _ (csv : Csv) (groups : List DeviceGroup) (creds : List Credential) (next_id : ℕ) where
  -- The end of `import_csv`: all rows are written, or none.
  unfoldable pub finish : List Entry → Progress → Imported
  finish entries p =
      if any_failed p.results
      then record { results = p.results; created = 0; updated = 0; entries = entries }
      else record {
        results = map (λ (r : RowResult). record r { message = r.action }) p.results;
        created = length p.added;
        updated = p.updates;
        entries = p.entries ++ p.added;
      }

  -- `db.commit()`: a device that has a group twice breaks the key of `device_group_memberships`. The
  -- devices that were there have none twice.
  unfoldable pub commit : Imported → Result Imported
  commit done =
      if any_failed done.results
      then ok done
      else if any (λ (e : Entry). has_repeat e.group_ids) done.entries
      then err "duplicate key value violates unique constraint"
      else ok done

  abbrev pub begin : List Entry → Progress
  begin entries = record { entries = entries; added = []; updates = 0; seen = []; results = [] }

  unfoldable pub import_csv : List Entry → String → Result Imported
  unfolding normalize_headers import_rows finish commit row_get join
  import_csv entries raw = do
    (fields, rows) ← csv.reader raw
    let headers = normalize_headers csv.lower fields
    let missing = keep (λ h. not (is_some (row_get h headers))) required
    elim missing as (λ x. Result Imported) [
      | m ∷ ms ↦ ok (record {
        results =
            record {
              line = 1;
              name = "";
              is_ok = false;
              message = "missing required column(s): " <> join ", " (m ∷ ms);
              action = "create";
            }
            ∷ [];
        created = 0;
        updated = 0;
        entries = entries;
      })
      | [] ↦
          commit
            (finish entries (import_rows csv headers groups creds next_id 2 rows (begin entries)))
    ]

  -- The answer of the route, and the table.
  pub record ImportAnswer : Type 0 where
    pub is_ok : Bool
    pub created : ℕ
    pub updated : ℕ
    pub errors : ℕ
    pub rows : List RowResult
    pub error : Option String
    pub entries : List Entry

  abbrev no_data : String
  no_data = "No CSV data provided. Send a multipart file field or a raw CSV body."

  -- `import_devices`, behind the reading of the body.
  unfoldable pub import_devices : List Entry → String → ImportAnswer
  unfolding import_csv
  import_devices entries raw =
      let refused : String → ImportAnswer = λ message. record {
        is_ok = false;
        created = 0;
        updated = 0;
        errors = 1;
        rows = [];
        error = some message;
        entries = entries;
      } in
      if is_empty raw then refused no_data else elim (import_csv entries raw) [
        | err e ↦ refused e
        | ok r ↦
            let errors = tally (λ (x : RowResult). not x.is_ok) r.results in
            record {
              is_ok = errors == 0;
              created = r.created;
              updated = r.updated;
              errors = errors;
              rows = r.results;
              error = none;
              entries = r.entries;
            }
      ]
