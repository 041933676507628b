-- ===== src/Compliance/Results.antt =====
-- The table of compliance results under `upsert_compliance_results` of src/kiroku/compliance.py.
use bmu.Prelude.{ℕ, ◌≡◌, refl, Bool, ◌&&◌, List, [], ◌∷◌, arith}
use bmu.Prelude.{Option, none, some, or_else, if◌then◌else◌, ◌==◌, nat_eq}
use bmu.Runtime.{Runtime}
use bmu.Compliance.{PolicyResult, upsert, upsert_compliance_results}

module _ (py : Runtime) where
  abbrev same_key : ℕ → ℕ → PolicyResult py → Bool
  same_key p d r = r.policy_id == p && r.device_id == d

  -- The row of a policy and a device in the table.
  abbrev pub result_for : ℕ → ℕ → List (PolicyResult py) → Option (PolicyResult py)
  result_for p d [] = none
  result_for p d (r ∷ rs) = if same_key p d r then some r else result_for p d rs

  -- The last of the results for a policy and a device.
  abbrev pub latest : ℕ → ℕ → List (PolicyResult py) → Option (PolicyResult py)
  latest p d [] = none
  latest p d (r ∷ rs) = or_else (latest p d rs) (if same_key p d r then some r else none)

  -- No two rows have the same key: the constraint uq_compliance_results_policy_device.
  abbrev pub IsKeyed : List (PolicyResult py) → Type 0
  IsKeyed [] = Unit
  IsKeyed (r ∷ rs) = (result_for r.policy_id r.device_id rs ≡ none) × IsKeyed rs

  result_for-upsert :
      (p d : ℕ) (r : PolicyResult py) (table : List (PolicyResult py))
      → result_for p d (upsert py r table)
        ≡ (if same_key p d r then some r else result_for p d table)
  unfolding upsert
  result_for-upsert p d r [] = refl
  result_for-upsert p d r (row ∷ rest) = ground (arith, result_for-upsert p d r rest)

  upsert-IsKeyed :
      (r : PolicyResult py) (table : List (PolicyResult py))
      → IsKeyed table
      → IsKeyed (upsert py r table)
  unfolding upsert
  upsert-IsKeyed r [] h = (refl, tt)
  upsert-IsKeyed r (row ∷ rest) h =
      ground
        (arith, upsert-IsKeyed r rest h.1, result_for-upsert row.policy_id row.device_id r rest)

  -- After the upserts the table holds, for each policy and device, the last of the new results,
  -- and the old row where there is no new one.
  pub result_for-upsert_compliance_results :
      (p d : ℕ) (table rs : List (PolicyResult py))
      → result_for p d (upsert_compliance_results py table rs)
        ≡ or_else (latest p d rs) (result_for p d table)
  unfolding upsert_compliance_results
  result_for-upsert_compliance_results p d table [] = refl
  result_for-upsert_compliance_results p d table (r ∷ rs) = ground (
    arith,
    result_for-upsert_compliance_results p d (upsert py r table) rs,
    result_for-upsert p d r table,
  )

  -- The upserts keep the table to one row for each policy and device.
  pub upsert_compliance_results-IsKeyed :
      (table rs : List (PolicyResult py))
      → IsKeyed table
      → IsKeyed (upsert_compliance_results py table rs)
  unfolding upsert_compliance_results
  upsert_compliance_results-IsKeyed table [] h = h
  upsert_compliance_results-IsKeyed table (r ∷ rs) h =
      upsert_compliance_results-IsKeyed (upsert py r table) rs (upsert-IsKeyed r table h)
