-- ===== src/Dispatch/Streams.antt =====
-- The check of the streams before a job of src/kiroku/dispatch.py fires: what it counts, and what
-- it lets through.
use bmu.Prelude.{
  subst, sym, ap, ◌↔◌, Option-cases, ℕ, ◌+◌, ◌≤◌, ◌<◌, String, ◌≡◌, refl, false, List, [], ◌∷◌,
  arith,
}
use bmu.Prelude.{Option, none, some, ok, tally, In, ltb}
use bmu.Prelude.{◌==◌, string_eq, beq_refl, inl, inr, Result-cases, Bool-cases}
use bmu.Runtime.{Runtime}
use bmu.Settings.{Settings}
use bmu.Models.Credential.{Credential}
use bmu.Models.Job.{Job}
use bmu.Models.Run.{Run}
use bmu.Jobs.{JobSpec}
use bmu.Credentials.{Secrets, resolve_credential}
use bmu.Queue.{Redis, Codec, job_stream_for, job_stream_pressure}
use bmu.Dispatch.Specs.{Target, pool_of, or_text, credential_of, spec_for}
use bmu.Dispatch.Tallies.{
  count_of, stream_of, count_of-count_streams, tally_pos, tally_some, AreApart,
  count_streams-AreApart,
}
use bmu.Dispatch.Fire.{count_streams, capacity_error}

room_le : (u n m : ℕ) → ltb m (u + n) ≡ false → u + n ≤ m
room_le u n m h = ground arith

module _ (redis : Redis) (settings : Settings) {py : Runtime} (codec : Codec py) (secrets : Secrets)
    (repr : String → String) where
  -- The jobs that `job_stream_pressure` takes for undelivered, and so many more, stay within the
  -- high-water mark.
  abbrev pub HasRoom : redis.State → String → ℕ → Type 0
  HasRoom s stream count =
      (undelivered : ℕ) × (max_len : ℕ) × (job_stream_pressure redis settings s stream
        ≡ ok (undelivered, max_len))
      × (undelivered + count ≤ settings.high_water)

  capacity_error-HasRoom :
      (s : redis.State) (counts : List (String × ℕ)) (stream : String)
      → capacity_error redis settings codec secrets repr s counts ≡ ok none
      → 0 < count_of stream counts
      → HasRoom s stream (count_of stream counts)
  unfolding capacity_error
  capacity_error-HasRoom s [] stream h pos = absurd (omega arith)
  capacity_error-HasRoom s ((k, n) ∷ rest) stream h pos =
      elim (Result-cases (job_stream_pressure redis settings s k)) [
        | inr (e, bad) ↦ absurd (ground (arith, bad))
        | inl ((u, max_len), good) ↦ elim (Bool-cases (ltb settings.high_water (u + n))) [
          | inl full ↦ absurd (ground (arith, good, full))
          | inr room ↦ elim (Bool-cases (k == stream)) [
            | inl same ↦ (
              u,
              max_len,
              subst (λ x. job_stream_pressure redis settings s x ≡ ok (u, max_len))
                  ((string_eq.same_iff k stream).0 same) good,
              rw same (room_le u n settings.high_water room),
            )
            | inr other ↦ rw other (
                capacity_error-HasRoom s rest stream (ground (arith, good, room)) (rw other at pos))
          ]
        ]
      ]

  -- A job is let through only if, for each of its targets, the stream of that target has room
  -- below the high-water mark for all of the job's targets with the same stream.
  capacity_error-none :
      (s : redis.State) (ts : List Target) (t : Target)
      → capacity_error redis settings codec secrets repr s (count_streams settings [] ts) ≡ ok none
      → In t ts
      → HasRoom s
          (stream_of settings t)
          (tally (λ x. stream_of settings x == stream_of settings t) ts)
  capacity_error-none s ts t h m =
      let counted = count_of-count_streams settings (stream_of settings t) [] ts in
      let some_target =
        tally_pos (λ x. stream_of settings x == stream_of settings t) ts t m
          (beq_refl (stream_of settings t)) in
      let (u, max_len, p, room) =
        capacity_error-HasRoom s (count_streams settings [] ts) (stream_of settings t) h
          (omega arith) in
      (u, max_len, p, omega arith)

  capacity_error_quiet :
      (s : redis.State) (counts : List (String × ℕ))
      → AreApart counts
      → ((stream : String) → 0 < count_of stream counts → HasRoom s stream (count_of stream counts))
      → capacity_error redis settings codec secrets repr s counts ≡ ok none
  unfolding capacity_error
  capacity_error_quiet s [] apart room = refl
  capacity_error_quiet s ((k, n) ∷ rest) apart room =
      let here : count_of k ((k, n) ∷ rest) ≡ n = rw (beq_refl k) refl in
      let (u, max_len, pressure, within) = room k (omega (arith, here, apart.0)) in
      let later = capacity_error_quiet s rest apart.2 (λ stream pos.
        elim (Bool-cases (k == stream)) [
          | inl same ↦ absurd (
              omega (
                arith,
                pos,
                apart.1,
                ap (λ x. count_of x rest) ((string_eq.same_iff k stream).0 same),
              ))
          | inr other ↦ rw other at (room stream (rw other pos))
        ]) in
      ground (arith, pressure, here, within, later)

  -- The check of the streams lets a job through exactly if, for each of its targets, the undelivered
  -- jobs of its stream, as `job_stream_pressure` counts them, and all targets of the job with that
  -- stream are together within the high-water mark.
  pub capacity_error_iff :
      (s : redis.State) (ts : List Target)
      → (capacity_error redis settings codec secrets repr s (count_streams settings [] ts)
          ≡ ok none)
        ↔ ((t : Target)
            → In t ts
            → HasRoom s
                (stream_of settings t)
                (tally (λ x. stream_of settings x == stream_of settings t) ts))
  capacity_error_iff s ts = (
    λ h t m. capacity_error-none s ts t h m,
    λ room.
        capacity_error_quiet s (count_streams settings [] ts)
          (count_streams-AreApart settings [] ts tt)
          (λ stream pos.
            let counted : count_of stream (count_streams settings [] ts)
                ≡ tally (λ x. stream_of settings x == stream) ts =
              omega (arith, count_of-count_streams settings stream [] ts) in
            let (t, m, same) =
              tally_some (λ x. stream_of settings x == stream) ts (omega (arith, counted, pos)) in
            let this = (string_eq.same_iff (stream_of settings t) stream).0 same in
            subst (λ n. HasRoom s stream n) (sym counted)
              (subst (λ k. HasRoom s k (tally (λ x. stream_of settings x == k) ts)) this
                (room t m))),
  )

job_stream_for-or_text :
    (settings : Settings) (pool : Option String)
    → job_stream_for settings (or_text pool none) ≡ job_stream_for settings pool
unfolding job_stream_for
job_stream_for-or_text settings none = refl
job_stream_for-or_text settings (some String.[]) = refl
job_stream_for-or_text settings (some (String.◌∷◌ c p)) = refl

spec_for-worker_pool :
    (secrets : Secrets) (default : Option Credential) (job : Job) (schedule_id : Option ℕ)
    (t : Target) (run : Run) (spec : JobSpec)
    → spec_for secrets default job schedule_id t run ≡ ok (some spec)
    → (spec.worker_pool ≡ or_text (pool_of t) none) × (spec.run_id ≡ run.id)
unfolding spec_for
spec_for-worker_pool secrets default job schedule_id (d, group) run spec h =
    elim (Option-cases (credential_of default (d, group))) [
      | inl absent ↦ absurd (ground (arith, absent))
      | inr (cred, found) ↦ elim (Result-cases (resolve_credential secrets cred)) [
        | inr (e, bad) ↦ absurd (ground (arith, found, bad))
        | inl (material, good) ↦ (ground (arith, found, good), ground (arith, found, good))
      ]
    ]

-- A spec is published to the stream that its target was counted for.
spec_for-stream :
    (secrets : Secrets) (settings : Settings) (default : Option Credential) (job : Job)
    (schedule_id : Option ℕ) (t : Target) (run : Run) (spec : JobSpec)
    → spec_for secrets default job schedule_id t run ≡ ok (some spec)
    → job_stream_for settings spec.worker_pool ≡ stream_of settings t
spec_for-stream secrets settings default job schedule_id t run spec h =
    rw (spec_for-worker_pool secrets default job schedule_id t run spec h).0
      (job_stream_for-or_text settings (pool_of t))
