-- ===== src/Tests/Import.antt =====
-- The theorems on the import of devices, at concrete inputs.
use bmu.Prelude.{
  ◌+◌, ◌≡◌, refl, ◌⊎◌, String, true, false, none, some, List, [], ◌∷◌, Result, ok, err, All, length,
  map_ok, if◌then◌else◌, ◌==◌, string_eq,
}
use bmu.Models.Device.{Device}
use bmu.Web.Import.{CsvRow, Csv, Entry, normalize_headers, find_name}
use bmu.Web.Import.Writing.{Imported, any_failed, has_repeat, commit, import_csv}
use bmu.Web.Import.Counted.{import_csv_whole}
use bmu.Web.Import.Names.{find_entry}
use bmu.Web.Import.Kept.{Keeps, import_csv-Keeps}
use bmu.Web.Import.Found.{IsStored}
use bmu.Web.Import.Stored.{import_csv-find_entry}
use bmu.Tests.Values.{device_with, group}

abbrev header : List String
header = "Name" ∷ "hostname" ∷ "group" ∷ "role" ∷ []

abbrev line : String → String → String → String → CsvRow
line name hostname groups role =
    ("Name", some name)
    ∷ ("hostname", some hostname)
    ∷ ("group", some groups)
    ∷ ("role", some role)
    ∷ []

-- A row for a device that is there, and one for a new device.
abbrev lines : List CsvRow
lines = line "r1" "10.0.0.9" "core" "" ∷ line "r2" "10.0.0.2" "core" "edge" ∷ []

abbrev csv : Csv
csv = record {
  reader = λ raw. if raw == "file" then ok (header, lines) else err "not a file";
  int = λ s. err "not a number";
  repr = λ s. s;
  lower = λ s. if s == "Name" then "name" else s;
}

abbrev there : List Entry
there = record { device = device_with 1 none; group_ids = [] } ∷ []

abbrev done : Result Imported
done = import_csv csv (group ∷ []) [] 2 there "file"

abbrev updated : Device
updated = record (device_with 1 none) { hostname = "10.0.0.9" }

abbrev created : Device
created = record (device_with 2 none) {
  name = "r2";
  hostname = "10.0.0.2";
  platform = none;
  role = some "edge";
}

abbrev outcome : Imported
outcome = record {
  results =
      record { line = 2; name = "r1"; is_ok = true; message = "update"; action = "update" }
      ∷ record { line = 3; name = "r2"; is_ok = true; message = "create"; action = "create" }
      ∷ [];
  created = 1;
  updated = 1;
  entries =
      record { device = updated; group_ids = 3 ∷ [] }
      ∷ record { device = created; group_ids = 3 ∷ [] }
      ∷ [];
}

done_example : done ≡ ok outcome
unfolding import_csv commit has_repeat map_ok
done_example = refl

import_csv_whole_example :
    ((any_failed outcome.results ≡ true)
      × (outcome.entries ≡ there)
      × (outcome.created + outcome.updated ≡ 0))
    ⊎ ((any_failed outcome.results ≡ false) × (outcome.created + outcome.updated ≡ length lines))
import_csv_whole_example =
    import_csv_whole csv (group ∷ []) [] 2 there "file" header lines outcome refl done_example

import_csv-Keeps_example :
    (e' : Entry) × (find_entry "r1" outcome.entries ≡ some e')
    × Keeps (record { device = device_with 1 none; group_ids = [] }) e'
unfolding find_name
import_csv-Keeps_example =
    import_csv-Keeps csv (group ∷ []) [] 2 "r1"
      (record { device = device_with 1 none; group_ids = [] }) there "file" header lines outcome
      refl done_example refl

import_csv-find_entry_example :
    All (λ row. IsStored (normalize_headers csv.lower header) row outcome.entries) lines
import_csv-find_entry_example =
    import_csv-find_entry csv (group ∷ []) [] 2 there "file" header lines outcome refl done_example
      refl
