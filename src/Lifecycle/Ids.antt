-- ===== src/Lifecycle/Ids.antt =====
-- The ids of the runs that `fire_job` of src/kiroku/dispatch.py makes.
use bmu.Prelude.{
  ℕ, suc, ◌+◌, ◌≡◌, refl, ap, String, Option, none, some, List, [], ◌∷◌, ◌++◌, map, arith, inl, inr,
  tally, length, Result-cases, All, ◌==◌, nat_eq, if◌then◌else◌, find_row, find_row, ltb, leb, ◌&&◌,
}
use bmu.Runtime.{Runtime}
use bmu.Settings.{Settings}
use bmu.Models.Credential.{Credential}
use bmu.Models.Job.{Job}
use bmu.Models.Run.{Run, RunBatch}
use bmu.Credentials.{Secrets}
use bmu.Queue.{Redis, Codec, publish_job}
use bmu.Dispatch.Specs.{Target, spec_for}
use bmu.Dispatch.Fire.{new_runs, fail_runs, publish_all}
use bmu.Dispatch.NewRuns.{IsSettled, is_failed}
use bmu.Recorder.Payload.{batch_id}
use bmu.Recorder.Reaping.{open_runs}
use bmu.Lifecycle.Tables.{runs_with}

abbrev pub runs_in : List (Target × Run) → List Run
runs_in pairs = map (λ (p : Target × Run). p.1) pairs

-- The ids are the numbers from the next one on, each once.
pub runs_with-new_runs :
    (i id : ℕ) (job : Job) (schedule_id : Option ℕ) (batch_id : ℕ) (ts : List Target)
    → runs_with i (runs_in (new_runs id job schedule_id batch_id ts))
      ≡ (if leb id i && ltb i (id + length ts) then 1 else 0)
unfolding new_runs
runs_with-new_runs i id job schedule_id batch_id [] = ground arith
runs_with-new_runs i id job schedule_id batch_id ((d, g) ∷ ts) =
    ground (arith, runs_with-new_runs i (suc id) job schedule_id batch_id ts)

pub runs_with-fail_runs :
    (i : ℕ) (message : String) (now : ℕ) (pairs : List (Target × Run))
    → runs_with i (fail_runs message now pairs) ≡ runs_with i (runs_in pairs)
unfolding fail_runs
runs_with-fail_runs i message now [] = refl
runs_with-fail_runs i message now ((t, r) ∷ rest) =
    ground (arith, runs_with-fail_runs i message now rest)

module _ (redis : Redis) (settings : Settings) {py : Runtime} (codec : Codec py) (secrets : Secrets)
    (repr : String → String) where
  pub runs_with-publish_all :
      (i : ℕ) (s : redis.State) (default : Option Credential) (job : Job) (schedule_id : Option ℕ)
      (now : ℕ) (pairs : List (Target × Run))
      → runs_with i
          (publish_all redis settings codec secrets repr s default job schedule_id now pairs).runs
        ≡ runs_with i (runs_in pairs)
  unfolding publish_all
  runs_with-publish_all i s default job schedule_id now [] = refl
  runs_with-publish_all i s default job schedule_id now ((t, run) ∷ rest) =
      elim (Result-cases (spec_for secrets default job schedule_id t run)) [
        | inr (e, bad) ↦ rw (bad, publish_all) refl
        | inl (none, got) ↦
            rw (got, publish_all)
              (ap (λ n. (if run.id == i then 1 else 0) + n)
                (runs_with-publish_all i s default job schedule_id now rest))
        | inl (some spec, got) ↦ elim (Result-cases (publish_job redis settings codec s spec)) [
          | inr (e, bad) ↦ rw (got, bad, publish_all) refl
          | inl ((id, s'), sent) ↦
              rw (got, sent, publish_all)
                (ap (λ n. (if run.id == i then 1 else 0) + n)
                  (runs_with-publish_all i s' default job schedule_id now rest))
        ]
      ]

-- The open runs among new ones: those of the batch that have not failed.
pub open_runs-IsSettled :
    (k batch : ℕ) (rs : List Run)
    → All (IsSettled batch) rs
    → open_runs k rs + (if k == batch then tally is_failed rs else 0)
      ≡ (if k == batch then length rs else 0)
open_runs-IsSettled k batch [] h = ground arith
open_runs-IsSettled k batch (r ∷ rs) h =
    ground (arith, open_runs-IsSettled k batch rs h.1, h.0.0, h.0.1)

pub find_row-append :
    (k : ℕ) (xs ys : List RunBatch)
    → find_row batch_id k (xs ++ ys)
      ≡ elim (find_row batch_id k xs) [ none ↦ find_row batch_id k ys | some x ↦ some x ]
unfolding find_row
find_row-append k [] ys = refl
find_row-append k (x ∷ xs) ys = ground (arith, find_row-append k xs ys)
