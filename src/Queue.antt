-- ===== src/Queue.antt =====
-- src/kiroku/queue.py. The Redis server is a parameter: its commands over an unknown state.
pub mod Unpack
use Prim.Native.String.{◌++◌ as ◌<>◌}
use bmu.Prelude.{
  ℕ, ◌-◌, String, Bool, true, false, not, Option, none, some, List, [], ◌∷◌, ◌++◌, map,
}
use bmu.Prelude.{Result, ok, err, ◌>>=◌, if◌then◌else◌, ◌==◌, string_eq}
use bmu.Text.{is_empty, has_infix}
use bmu.Runtime.{Runtime, row_get}
use bmu.Settings.{Settings, effective_job_stream}
use bmu.Jobs.{JobSpec, JobResult}

-- The reply to a command: a `redis.ResponseError` is told apart from the other exceptions.
pub data Reply {ℓ} (A : Type ℓ) : Type ℓ where
  value : A → Reply A
  response_error : String → Reply A
  failure : String → Reply A

-- An entry of a stream: its id, and its fields.
abbrev pub Entry : Type 0
Entry = String × List (String × String)

pub record GroupInfo : Type 0 where
  pub name : String
  pub entries_read : Option ℕ
  pub last_delivered_id : String

pub record Redis : Type 1 where
  pub State : Type 0
  pub xlen : State → String → Reply ℕ
  pub xinfo_groups : State → String → Reply (List GroupInfo)
  -- Stream, data field, approximate maximal length.
  pub xadd : State → String → String → ℕ → Reply (String × State)
  pub xgroup_create : State → String → String → Reply State
  -- Stream, group, consumer, count.
  pub xreadgroup : State → String → String → String → ℕ → Reply (List (String × List Entry) × State)
  pub xread : State → String → String → ℕ → Reply (List (String × List Entry))
  pub xack : State → String → String → String → Reply State
  pub xdel : State → String → List String → Reply State
  -- The keys that begin with a text.
  pub scan : State → String → Reply (List String)

-- A reply whose exceptions are not caught.
abbrev pub raised {ℓ} : {A : Type ℓ} → Reply A → Result A
raised (value a) = ok a
raised (response_error e) = err e
raised (failure e) = err e

-- The pydantic models' JSON.
pub record Codec (py : Runtime) : Type 0 where
  pub dump_spec : JobSpec → String
  pub load_spec : String → Option JobSpec
  pub dump_result : JobResult py → String
  pub load_result : String → Option (JobResult py)

unfoldable pub job_stream_for : Settings → Option String → String
job_stream_for s none = s.job_stream
job_stream_for s (some pool) = if is_empty pool then s.job_stream else s.job_stream <> (":" <> pool)

-- `entries-read` of the group, or 0 if it is not there.
unfoldable pub entries_read : String → List GroupInfo → ℕ
entries_read group [] = 0
entries_read group (g ∷ gs) =
    if g.name == group then elim g.entries_read [ none ↦ 0 | some n ↦ n ] else entries_read group gs

-- `last-delivered-id` of the group, or "0-0".
unfoldable pub last_delivered : String → List GroupInfo → String
last_delivered group [] = "0-0"
last_delivered group (g ∷ gs) =
    if g.name == group then g.last_delivered_id else last_delivered group gs

-- `_unpack`: the entries with a data field that decodes; the others are passed over.
unfoldable pub unpack_entries {ℓ} :
    {M : Type ℓ} → (String → Option M) → List Entry → List (String × M)
unfolding row_get
unpack_entries load [] = []
unpack_entries load ((id, fields) ∷ rest) =
    let others = unpack_entries load rest in
    elim (row_get "data" fields) [
      | none ↦ others
      | some d ↦
          if is_empty d then others else elim (load d) [ none ↦ others | some m ↦ (id, m) ∷ others ]
    ]

unfoldable pub unpack {ℓ} :
    {M : Type ℓ} → (String → Option M) → List (String × List Entry) → List (String × M)
unfolding unpack_entries
unpack load [] = []
unpack load ((stream, msgs) ∷ rest) = unpack_entries load msgs ++ unpack load rest

-- The ids of all entries.
unfoldable pub entry_ids : List (String × List Entry) → List String
entry_ids [] = []
entry_ids ((stream, msgs) ∷ rest) = map (λ (id, _). id) msgs ++ entry_ids rest

module _ (redis : Redis) (settings : Settings) where
  open redis use {State}

  unfoldable pub ensure_consumer_group : State → String → String → Result State
  unfolding has_infix
  ensure_consumer_group s stream group = elim (redis.xgroup_create s stream group) [
    | value s' ↦ ok s'
    | response_error e ↦ if not (has_infix "BUSYGROUP" e) then err e else ok s
    | failure e ↦ err e
  ]

  -- The pair of the undelivered count and the maximal length.
  unfoldable pub job_stream_pressure : State → String → Result (ℕ × ℕ)
  unfolding entries_read
  job_stream_pressure s stream = elim (redis.xlen s stream) [
    | response_error e ↦ ok (0, settings.stream_max_len)
    | failure e ↦ err e
    | value length ↦ elim (redis.xinfo_groups s stream) [
      | response_error e ↦ ok (length - 0, settings.stream_max_len)
      | failure e ↦ err e
      | value groups ↦
          ok (length - entries_read settings.job_consumer_group groups, settings.stream_max_len)
    ]
  ]

  module _ {py : Runtime} (codec : Codec py) where
    unfoldable pub publish_job : State → JobSpec → Result (String × State)
    unfolding job_stream_for
    publish_job s spec = raised (
        redis.xadd s (job_stream_for settings spec.worker_pool) (codec.dump_spec spec)
          settings.stream_max_len)

    unfoldable pub publish_result : State → JobResult py → Result (String × State)
    publish_result s result = raised (
        redis.xadd s settings.result_stream (codec.dump_result result)
          settings.result_stream_max_len)

    unfoldable pub read_jobs : State → String → ℕ → Result (List (String × JobSpec) × State)
    unfolding ensure_consumer_group unpack effective_job_stream
    read_jobs s consumer count = do
      let stream = effective_job_stream settings
      s₁ ← ensure_consumer_group s stream settings.job_consumer_group
      (entries, s₂) ← raised (redis.xreadgroup s₁ stream settings.job_consumer_group consumer count)
      ok (unpack codec.load_spec entries, s₂)

    unfoldable pub read_results : State → String → ℕ → Result (List (String × JobResult py) × State)
    unfolding ensure_consumer_group unpack
    read_results s consumer count = do
      s₁ ← ensure_consumer_group s settings.result_stream settings.result_consumer_group
      (entries, s₂) ←
          raised (
            redis.xreadgroup s₁ settings.result_stream settings.result_consumer_group consumer
              count)
      ok (unpack codec.load_result entries, s₂)

    -- The messages that were deleted, with the runs to cancel, and the new state.
    unfoldable pub purge_undelivered : State → String → String → Result (List (String × ℕ) × State)
    unfolding last_delivered unpack entry_ids
    purge_undelivered s stream group = elim (redis.xinfo_groups s stream) [
      | response_error e ↦ ok ([], s)
      | failure e ↦ err e
      | value groups ↦ elim (redis.xread s stream (last_delivered group groups) 10_000) [
        | response_error e ↦ ok ([], s)
        | failure e ↦ err e
        | value raw ↦
            let results = map (λ (id, spec). (id, spec.run_id)) (unpack codec.load_spec raw) in
            elim (entry_ids raw) [
              | [] ↦ ok (results, s)
              | id ∷ ids ↦ do s' ← raised (redis.xdel s stream (id ∷ ids)); ok (results, s')
            ]
      ]
    ]

  unfoldable pub ack_job : State → String → Result State
  unfolding effective_job_stream
  ack_job s id = do
    let stream = effective_job_stream settings
    s' ← raised (redis.xack s stream settings.job_consumer_group id)
    raised (redis.xdel s' stream (id ∷ []))

  unfoldable pub ack_result : State → String → Result State
  ack_result s id = do
    s' ← raised (redis.xack s settings.result_stream settings.result_consumer_group id)
    raised (redis.xdel s' settings.result_stream (id ∷ []))

  unfoldable pub job_stream_names : State → Result (List String)
  job_stream_names s = do
    names ← raised (redis.scan s settings.job_stream)
    ok (elim names [ [] ↦ settings.job_stream ∷ [] | n ∷ ns ↦ n ∷ ns ])
