-- ===== src/Recorder/State.antt =====
-- What the recorder of src/kiroku/recorder/runner.py works on: the rows of the database, and what
-- it keeps in memory and on disk. `group_names` is the relationship `device.groups`, by device id.
use bmu.Prelude.{ℕ, String, Option, List, [], ◌∷◌, ◌++◌, if◌then◌else◌, ◌==◌, nat_eq}
use bmu.Runtime.{Runtime}
use bmu.Models.Device.{Device}
use bmu.Models.Run.{Run, RunBatch}
use bmu.Models.Compliance.{CompliancePolicy}
use bmu.Compliance.{PolicyResult}
use bmu.Recorder.Store.{Git, Store}

-- src/kiroku/models/device_config.py
pub record DeviceConfig : Type 0 where
  pub device_id : ℕ
  pub batch_id : Option ℕ
  pub captured_at : Option ℕ
  pub content : Option String

-- src/kiroku/models/cve_scan.py
pub record CveResult (py : Runtime) : Type 0 where
  pub cve_id : py.Object
  pub cvss_v3_score : Option py.Object
  pub severity : Option py.Object
  pub summary : Option py.Object
  pub published_at : Option ℕ
  pub url : Option py.Object

pub record CveScan (py : Runtime) : Type 0 where
  pub run_id : ℕ
  pub device_id : ℕ
  pub cpe : String
  pub version_found : Option String
  pub raw_version : Option String
  pub scanned_at : ℕ
  pub results : List (CveResult py)

pub record Rows (py : Runtime) : Type 0 where
  pub runs : List Run
  pub batches : List RunBatch
  pub devices : List Device
  pub group_names : ℕ → List String
  pub configs : List DeviceConfig
  pub scans : List (CveScan py)
  pub policies : List CompliancePolicy
  pub results : List (PolicyResult py)

-- The store, and the paths that are written and not committed, by batch.
pub record Memory (git : Git) : Type 0 where
  pub store : Store git
  pub staged : List (ℕ × List String)

-- `batch_staged.setdefault(batch_id, []).append(path)`
unfoldable pub stage_path : ℕ → String → List (ℕ × List String) → List (ℕ × List String)
stage_path k path [] = (k, path ∷ []) ∷ []
stage_path k path ((j, paths) ∷ rest) =
    if j == k then (j, paths ++ path ∷ []) ∷ rest else (j, paths) ∷ stage_path k path rest

-- `batch_staged.get(batch_id, [])`
unfoldable pub staged_paths : ℕ → List (ℕ × List String) → List String
staged_paths k [] = []
staged_paths k ((j, paths) ∷ rest) = if j == k then paths else staged_paths k rest

-- `batch_staged` after `pop(batch_id, [])`
unfoldable pub unstage : ℕ → List (ℕ × List String) → List (ℕ × List String)
unstage k [] = []
unstage k ((j, paths) ∷ rest) = if j == k then rest else (j, paths) ∷ unstage k rest

-- `INSERT INTO device_configs … ON CONFLICT (device_id) DO UPDATE`
unfoldable pub upsert_config : DeviceConfig → List DeviceConfig → List DeviceConfig
upsert_config c [] = c ∷ []
upsert_config c (row ∷ rest) =
    if row.device_id == c.device_id then c ∷ rest else row ∷ upsert_config c rest
