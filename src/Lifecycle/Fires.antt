-- ===== src/Lifecycle/Fires.antt =====
-- A new batch of `fire_job` of src/kiroku/dispatch.py is balanced, and its ids are new.
use bmu.Prelude.{
  ℕ, suc, ◌+◌, ◌≡◌, refl, sym, ap, ◌∙◌, subst, String, Option, none, some, List, [], ◌∷◌, ◌++◌,
  arith, inl, inr, ◌⊎◌, tally-append, length, Result-cases, Bool-cases, ◌==◌, nat_eq, if◌then◌else◌,
  find_row, ltb, leb, ◌&&◌, false,
}
use bmu.Runtime.{Runtime}
use bmu.Settings.{Settings}
use bmu.Models.Job.{Job}
use bmu.Models.Run.{Run, RunBatch}
use bmu.Credentials.{Secrets}
use bmu.Queue.{Redis, Codec}
use bmu.Dispatch.Specs.{Db, Target, target_ids, device_group_pairs, default_credential}
use bmu.Dispatch.Fire.{Fired, new_runs, count_streams, capacity_error, publish_all, fire_job}
use bmu.Dispatch.NewRuns.{device_ids}
use bmu.Dispatch.Added.{IsAdded, capacity_error_unfilled, fire_job-runs}
use bmu.Recorder.Payload.{batch_id}
use bmu.Recorder.Reaping.{open_runs}
use bmu.Lifecycle.Tables.{runs_with, IsBalanced, IsSound}
use bmu.Lifecycle.NewBatch.{new_balance, apart_row, apart_runs}
use bmu.Lifecycle.Ids.{runs_with-new_runs, runs_with-publish_all}

length-device_ids : (rs : List Run) → length (device_ids rs) ≡ length rs
length-device_ids [] = refl
length-device_ids (r ∷ rs) = ap suc (length-device_ids rs)

length-target_ids : (ts : List Target) → length (target_ids ts) ≡ length ts
length-target_ids [] = refl
length-target_ids (t ∷ ts) = ap suc (length-target_ids ts)

IsAdded-IsSound :
    (db after : Db) (job : Job) (batch : RunBatch) (rs : List Run)
    → IsAdded db after job batch rs
    → IsSound db.runs db.batches db.next_run db.next_batch
    → ((i : ℕ)
        → runs_with i after.runs
          ≡ runs_with i db.runs
            + (if leb db.next_run i && ltb i (db.next_run + batch.total) then 1 else 0))
    → IsSound after.runs after.batches after.next_run after.next_batch
IsAdded-IsSound db after job batch rs new sound ids =
    let whole : length rs ≡ batch.total = omega (
      arith,
      new.total,
      ap length new.devices,
      length-device_ids rs,
      length-target_ids (device_group_pairs job),
    ) in
    let (absent, idle) = sound.fresh_batch db.next_batch (omega arith) in
    let absent' = ap (λ j. find_row batch_id j db.batches) new.id ∙ absent in
    let idle' = ap (λ j. open_runs j db.runs) new.id ∙ idle in
    record {
      unique = λ i.
          ground (arith, ids i, sound.unique i, sound.fresh_run i, Bool-cases (leb db.next_run i));
      fresh_run = λ i e. ground (arith, ids i, new.next_run, e, sound.fresh_run i);
      fresh_batch = λ k e.
          let other : (k == batch.id) ≡ false = ground (arith, new.next_batch, new.id, e) in
          let (gone, quiet) = sound.fresh_batch k (omega (arith, new.next_batch, e)) in
          (
            ap (λ bs. find_row batch_id k bs) new.batches ∙ apart_row k db.batches batch other gone,
            ap (open_runs k) new.runs
                ∙ (apart_runs k batch.id db.runs rs other new.settled ∙ quiet),
          );
      positive = omega (arith, new.next_batch);
      no_zero =
          ap (λ bs. find_row batch_id 0 bs) new.batches
          ∙ apart_row 0 db.batches batch (ground (arith, new.id, sound.positive)) sound.no_zero;
      balanced = λ k.
          subst (λ bs. IsBalanced k after.runs bs) (sym new.batches)
            (subst (λ r. IsBalanced k r (db.batches ++ batch ∷ [])) (sym new.runs)
              (new_balance k db.runs rs db.batches batch absent' idle' new.settled new.counted whole
                new.succeeded (inl new.waits) (sound.balanced k)));
    }

module _ (redis : Redis) (settings : Settings) {py : Runtime} (codec : Codec py) (secrets : Secrets)
    (repr : String → String) where
  abbrev fired :
      Db
      → redis.State
      → Job
      → Option ℕ
      → Option String
      → ℕ
      → ℕ
      → Fired redis settings codec secrets repr
  fired db s job schedule_id schedule_name now created =
      fire_job redis settings codec secrets repr db s job schedule_id schedule_name now created

  -- The runs with an id, before and after.
  fire_job-ids :
      (db : Db) (s : redis.State) (job : Job) (schedule_id : Option ℕ)
      (schedule_name : Option String) (now created i : ℕ)
      → let after = (fired db s job schedule_id schedule_name now created).db in
        (after ≡ db)
        ⊎ (runs_with i after.runs
            ≡ runs_with i db.runs
              + (if leb db.next_run i && ltb i (db.next_run + length (device_group_pairs job))
                  then 1
                  else 0))
  unfolding fire_job
  fire_job-ids db s job schedule_id schedule_name now created i =
      let targets = device_group_pairs job in
      let counts = count_streams settings [] targets in
      let pairs = new_runs db.next_run job schedule_id db.next_batch targets in
      let default = default_credential db.credentials in
      let p = publish_all redis settings codec secrets repr s default job schedule_id now pairs in
      elim (Result-cases (capacity_error redis settings codec secrets repr s counts)) [
        | inr (e, bad) ↦ inl (ground (arith, bad))
        | inl (some message, full) ↦
            absurd (capacity_error_unfilled redis settings codec secrets repr s counts message full)
        | inl (none, room) ↦ inr (
            ground (
              arith,
              room,
              tally-append (λ (r : Run). r.id == i) db.runs p.runs,
              runs_with-publish_all redis settings codec secrets repr i s default job schedule_id
                  now pairs,
              runs_with-new_runs i db.next_run job schedule_id db.next_batch targets,
            ))
      ]

  -- Whatever `fire_job` answers, the rows stay sound.
  pub fire_job-IsSound :
      (db : Db) (s : redis.State) (job : Job) (schedule_id : Option ℕ)
      (schedule_name : Option String) (now created : ℕ)
      → IsSound db.runs db.batches db.next_run db.next_batch
      → let after = (fired db s job schedule_id schedule_name now created).db in
        IsSound after.runs after.batches after.next_run after.next_batch
  fire_job-IsSound db s job schedule_id schedule_name now created sound =
      let after = (fired db s job schedule_id schedule_name now created).db in
      let unchanged : after ≡ db
          → IsSound after.runs after.batches after.next_run after.next_batch =
        λ same.
          subst (λ (d : Db). IsSound d.runs d.batches d.next_run d.next_batch) (sym same) sound in
      elim (fire_job-runs redis settings codec secrets repr db s job schedule_id schedule_name now
        created) [
          | inl (same, streams, e, full, raised) ↦ unchanged same
          | inr (batch, rs, room, new, answered) ↦
              IsAdded-IsSound db after job batch rs new sound (λ i.
                elim (fire_job-ids db s job schedule_id schedule_name now created i) [
                  | inl same ↦
                      absurd (omega (arith, new.next_batch, ap (λ (d : Db). d.next_batch) same))
                  | inr ids ↦
                      ids
                      ∙ ap
                          (λ n.
                            runs_with i db.runs
                            + (if leb db.next_run i && ltb i (db.next_run + n) then 1 else 0))
                          (sym new.total)
                ])
        ]
