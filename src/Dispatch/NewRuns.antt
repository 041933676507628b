-- ===== src/Dispatch/NewRuns.antt =====
-- The runs that `fire_job` of src/kiroku/dispatch.py makes, and what its loops leave of them.
use bmu.Prelude.{
  subst, ℕ, suc, ◌+◌, String, ◌≡◌, ◌≢◌, refl, ap, Bool, true, false, List, [], ◌∷◌, ◌++◌, map,
  arith,
}
use bmu.Prelude.{Option, none, some, tally, All, length}
use bmu.Prelude.{inl, inr, ◌⊎◌}
use bmu.Models.Job.{Job}
use bmu.Models.Run.{Run, pending, failed}
use bmu.Queue.{Redis, value}
use bmu.Dispatch.Specs.{Target, target_ids}
use bmu.Dispatch.Fire.{new_runs, fail_runs, fail_run}

-- The entries that were ever added to the streams: XADD adds one at the end.
pub record IsLog (redis : Redis) : Type 0 where
  pub added : redis.State → List (String × String)
  pub xadd_adds :
      (s : redis.State) (stream body : String) (max_len : ℕ) (id : String) (s' : redis.State)
      → redis.xadd s stream body max_len ≡ value (id, s')
      → added s' ≡ added s ++ (stream, body) ∷ []

abbrev pub is_failed : Run → Bool
is_failed r = elim r.status [ failed ↦ true | _ ↦ false ]

-- A new run of the batch waits for its result, or has failed with an error and is over.
abbrev pub IsSettled : ℕ → Run → Type 0
IsSettled batch_id r =
    (r.batch_id ≡ some batch_id)
    × (((r.status ≡ pending) × (r.finished_at ≡ none))
        ⊎ ((r.status ≡ failed) × (r.finished_at ≢ none) × (r.error ≢ none)))

abbrev pub IsNew : ℕ → Target × Run → Type 0
IsNew batch_id (t, r) =
    (r.batch_id ≡ some batch_id)
    × (r.status ≡ pending)
    × (r.finished_at ≡ none)
    × (r.device_id ≡ t.0.id)

pub new_runs-IsNew :
    (id : ℕ) (job : Job) (schedule_id : Option ℕ) (batch_id : ℕ) (ts : List Target)
    → All (IsNew batch_id) (new_runs id job schedule_id batch_id ts)
unfolding new_runs
new_runs-IsNew id job schedule_id batch_id [] = tt
new_runs-IsNew id job schedule_id batch_id ((d, g) ∷ ts) =
    ((refl, refl, refl, refl), new_runs-IsNew (suc id) job schedule_id batch_id ts)

pub length-new_runs :
    (id : ℕ) (job : Job) (schedule_id : Option ℕ) (batch_id : ℕ) (ts : List Target)
    → length (new_runs id job schedule_id batch_id ts) ≡ length ts
unfolding new_runs
length-new_runs id job schedule_id batch_id [] = refl
length-new_runs id job schedule_id batch_id ((d, g) ∷ ts) =
    ap suc (length-new_runs (suc id) job schedule_id batch_id ts)

-- The device ids of runs.
abbrev pub device_ids : List Run → List ℕ
device_ids rs = map (λ r. r.device_id) rs

pub pair_devices :
    (id : ℕ) (job : Job) (schedule_id : Option ℕ) (batch_id : ℕ) (ts : List Target)
    → map (λ (p : Target × Run). p.1.device_id) (new_runs id job schedule_id batch_id ts)
      ≡ target_ids ts
unfolding new_runs
pair_devices id job schedule_id batch_id [] = refl
pair_devices id job schedule_id batch_id ((d, g) ∷ ts) =
    ap (λ l. d.id ∷ l) (pair_devices (suc id) job schedule_id batch_id ts)

-- What is said of the runs that a loop leaves for given pairs.
pub record Runs (batch_id failures : ℕ) (pairs : List (Target × Run)) (rs : List Run) : Type 0 where
  pub devices : device_ids rs ≡ map (λ (p : Target × Run). p.1.device_id) pairs
  pub settled : All (IsSettled batch_id) rs
  pub counted : tally is_failed rs ≡ failures

pub Runs-fail :
    {batch_id failures : ℕ} {pairs : List (Target × Run)} {rs : List Run} (message : String)
    (now : ℕ) (t : Target) (r : Run)
    → IsNew batch_id (t, r)
    → Runs batch_id failures pairs rs
    → Runs batch_id (failures + 1) ((t, r) ∷ pairs) (fail_run message now r ∷ rs)
Runs-fail message now t r h later = record {
  devices = ap (λ l. r.device_id ∷ l) later.devices;
  settled = ((h.0, inr (refl, (λ e. cc), (λ e. cc))), later.settled);
  counted = omega (arith, later.counted);
}

pub Runs-wait :
    {batch_id failures : ℕ} {pairs : List (Target × Run)} {rs : List Run} (t : Target) (r : Run)
    → IsNew batch_id (t, r)
    → Runs batch_id failures pairs rs
    → Runs batch_id failures ((t, r) ∷ pairs) (r ∷ rs)
Runs-wait t r h later = record {
  devices = ap (λ l. r.device_id ∷ l) later.devices;
  settled = ((h.0, inl (h.1, h.2)), later.settled);
  counted = ground (arith, later.counted, h.1);
}

pub fail_runs-Runs :
    (message : String) (now batch_id : ℕ) (pairs : List (Target × Run))
    → All (IsNew batch_id) pairs
    → Runs batch_id (length pairs) pairs (fail_runs message now pairs)
unfolding fail_runs
fail_runs-Runs message now batch_id [] h = record { devices = refl; settled = tt; counted = refl }
fail_runs-Runs message now batch_id ((t, r) ∷ rest) h =
    subst (λ n. Runs batch_id n ((t, r) ∷ rest) (fail_runs message now ((t, r) ∷ rest)))
      (add_one (length rest))
      (Runs-fail message now t r h.0 (fail_runs-Runs message now batch_id rest h.1))
  where
    add_one : (n : ℕ) → n + 1 ≡ suc n
    add_one n = omega arith

pub waiting-Runs :
    (batch_id : ℕ) (pairs : List (Target × Run))
    → All (IsNew batch_id) pairs
    → Runs batch_id 0 pairs (map (λ (p : Target × Run). p.1) pairs)
waiting-Runs batch_id [] h = record { devices = refl; settled = tt; counted = refl }
waiting-Runs batch_id ((t, r) ∷ rest) h = Runs-wait t r h.0 (waiting-Runs batch_id rest h.1)
