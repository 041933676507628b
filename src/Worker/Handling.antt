-- ===== src/Worker/Handling.antt =====
-- What a worker leaves of a job that it has handled: `_handle` of src/kiroku/worker/runner.py.
use bmu.Prelude.{String, ◌≡◌, refl, List, [], ◌∷◌, ◌++◌, arith}
use bmu.Prelude.{Result, ok, err, Option-cases, Result-cases, inl, inr, ◌⊎◌, ◌∙◌}
use bmu.Runtime.{Runtime}
use bmu.Settings.{Settings, effective_job_stream}
use bmu.Models.Credential.{CredentialMaterial}
use bmu.Jobs.{JobSpec, JobResult}
use bmu.Queue.{Redis, Codec, Reply, value, response_error, failure, raised, publish_result, ack_job}
use bmu.Dispatch.NewRuns.{IsLog}
use bmu.Worker.{material_of, failure_result, result_of, handle}

-- XACK and XDEL add no entry.
pub record IsKept (redis : Redis) (log : IsLog redis) : Type 0 where
  pub xack_keeps :
      (s : redis.State) (stream group id : String) (s' : redis.State)
      → redis.xack s stream group id ≡ value s'
      → log.added s' ≡ log.added s
  pub xdel_keeps :
      (s : redis.State) (stream : String) (ids : List String) (s' : redis.State)
      → redis.xdel s stream ids ≡ value s'
      → log.added s' ≡ log.added s

Reply-cases :
    {A : Type 0} (r : Reply A) → ((a : A) × (r ≡ value a)) ⊎ ((e : String) × (raised r ≡ err e))
Reply-cases (value a) = inl (a, refl)
Reply-cases (response_error e) = inr (e, refl)
Reply-cases (failure e) = inr (e, refl)

raised_ok : {A : Type 0} (r : Reply A) (a : A) → raised r ≡ ok a → r ≡ value a
raised_ok (value b) a h = cc
raised_ok (response_error e) a h = absurd (cc)
raised_ok (failure e) a h = absurd (cc)

module _ {py : Runtime} (redis : Redis) (log : IsLog redis) (kept : IsKept redis log)
    (settings : Settings) (codec : Codec py)
    (execute : JobSpec → CredentialMaterial → Result (JobResult py))
    (crash_text : String → String) where
  -- The published result is of the job's run.
  result_of-run_id :
      (now later : String) (spec : JobSpec)
      → ((m : CredentialMaterial) (r : JobResult py)
          → execute spec m ≡ ok r
          → r.run_id ≡ spec.run_id)
      → (result_of redis settings codec execute crash_text now later spec).run_id ≡ spec.run_id
  unfolding result_of failure_result
  result_of-run_id now later spec own = elim (Option-cases spec.credential_material) [
    | inl absent ↦ ground (arith, absent)
    | inr (m, there) ↦ elim (Result-cases (execute spec (material_of m))) [
      | inl (r, good) ↦ ground (arith, there, good, own (material_of m) r good)
      | inr (e, bad) ↦ ground (arith, there, bad)
    ]
  ]

  ack_job-kept :
      (s s' : redis.State) (id : String)
      → ack_job redis settings s id ≡ ok s'
      → log.added s' ≡ log.added s
  unfolding ack_job
  ack_job-kept s s' id h =
      let stream = effective_job_stream settings in
      elim (Reply-cases (redis.xack s stream settings.job_consumer_group id)) [
        | inr (e, bad) ↦ absurd (ground (arith, bad, h))
        | inl (t, acked) ↦
            kept.xdel_keeps t stream (id ∷ []) s'
              (raised_ok (redis.xdel t stream (id ∷ [])) s' (ground (arith, acked, h)))
            ∙ kept.xack_keeps s stream settings.job_consumer_group id t acked
      ]

  -- When a worker has handled a job, whatever became of the job itself, it has added one result to
  -- the result stream and nothing else, and the result is of the job's run. What runs the job must
  -- give its results the run of the job.
  pub handle-added :
      (now later : String) (s s' : redis.State) (msg_id : String) (spec : JobSpec)
      → ((m : CredentialMaterial) (r : JobResult py)
          → execute spec m ≡ ok r
          → r.run_id ≡ spec.run_id)
      → handle redis settings codec execute crash_text now later s msg_id spec ≡ ok s'
      → (r : JobResult py) × (r.run_id ≡ spec.run_id)
        × (log.added s' ≡ log.added s ++ (settings.result_stream, codec.dump_result r) ∷ [])
  unfolding handle publish_result
  handle-added now later s s' msg_id spec own h =
      let r = result_of redis settings codec execute crash_text now later spec in
      elim (Reply-cases (
        redis.xadd s settings.result_stream (codec.dump_result r) settings.result_stream_max_len)) [
          | inr (e, bad) ↦ absurd (ground (arith, bad, h))
          | inl ((id, t), sent) ↦ (
            r,
            result_of-run_id now later spec own,
            ack_job-kept t s' msg_id (ground (arith, sent, h))
                ∙ log.xadd_adds s settings.result_stream (codec.dump_result r)
                    settings.result_stream_max_len id t sent,
          )
        ]
