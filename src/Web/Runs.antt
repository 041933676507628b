-- ===== src/Web/Runs.antt =====
-- src/kiroku/web/routes/runs.py: the filters of the list of batches, the display of parsed data, and
-- the cancellation of runs. SQL's ILIKE, the template sandbox and the JSON printer are parameters.
use Prim.Native.String.{◌++◌ as ◌<>◌}
use bmu.Prelude.{ℕ, ◌+◌, String, Bool, true, false, ◌&&◌, ◌||◌, Option, none, some}
use bmu.Prelude.{List, [], ◌∷◌, ◌++◌, map, Result, ok, err, ◌>>=◌, ltb, leb, tally, contains}
use bmu.Prelude.{if◌then◌else◌, ◌==◌, nat_eq, string_eq, find_row, update_row}
use bmu.Text.{is_empty, truthy}
use bmu.Runtime.{Runtime}
use bmu.Settings.{Settings}
use bmu.Parsers.{Item, dict, other, Parsed, nothing, listing, mapping}
use bmu.Models.Run.{Run, RunBatch, cancelled}
use bmu.Queue.{Redis, Codec, job_stream_names, purge_undelivered}
use bmu.Recorder.Store.{Git, file_path}
use bmu.Recorder.State.{Rows}
use bmu.Recorder.Payload.{device_id, batch_id, in_batch, key_of}
use bmu.Recorder.Reaper.{is_open}

-- The condition on the status that `list_batches` selects by.
unfoldable pub has_status : String → RunBatch → Bool
has_status status b =
    if status == "running"
    then ltb (b.succeeded + b.failed) b.total
    else if status == "failed"
    then ltb 0 b.failed
    else if status == "success"
    then b.succeeded == b.total && b.failed == 0
    else if status == "complete"
    then leb b.total (b.succeeded + b.failed)
    else true

unfoldable pub is_listed : (String → String → Bool) → String → String → String → RunBatch → Bool
unfolding has_status
is_listed ilike q kind status b =
    (is_empty q || ilike b.schedule_name ("%" <> (q <> "%")))
    && (is_empty kind || b.kind == kind)
    && has_status status b

-- `_changed_run_ids`; the changed files are those of `GitStore.changed_files`, or an exception of
-- the store.
unfoldable pub changed_run_ids :
    (git : Git) (py : Runtime) → Rows py → Result (List String) → List Run → List ℕ
unfolding find_row file_path
changed_run_ids git py rows (err e) runs = []
changed_run_ids git py rows (ok paths) [] = []
changed_run_ids git py rows (ok paths) (r ∷ rs) =
    let rest = changed_run_ids git py rows (ok paths) rs in
    elim (find_row device_id r.device_id rows.devices) [
      | none ↦ rest
      | some device ↦
          if contains (file_path git (first_group (rows.group_names device.id)) device.name) paths
          then r.id ∷ rest
          else rest
    ]
  where
    first_group : List String → String
    first_group [] = "ungrouped"
    first_group (g ∷ gs) = g

pub data Display (py : Runtime) : Type 0 where
  jinja2 : String → Display py
  jinja2_error : String → Display py
  table : List String → List (Item py) → Display py
  json : String → Display py

-- The keys of the first row, if it is a dict.
unfoldable pub headers_of : (py : Runtime) → List (Item py) → List String
headers_of py [] = []
headers_of py (other o ∷ rows) = []
headers_of py (dict r ∷ rows) = map (λ (p : String × py.Object). p.0) r

-- The display without a template.
unfoldable pub plain_display : (py : Runtime) → (Parsed py → String) → Parsed py → Display py
unfolding headers_of
plain_display py dumps (listing (dict r ∷ rows)) =
    table (headers_of py (dict r ∷ rows)) (dict r ∷ rows)
plain_display py dumps data_value = json (dumps data_value)

-- `data if isinstance(data, list) else [data]`
abbrev pub rows_shown : (py : Runtime) → Parsed py → List (Item py)
rows_shown py nothing = []
rows_shown py (listing items) = items
rows_shown py (mapping r) = dict r ∷ []

abbrev pub is_nothing : (py : Runtime) → Parsed py → Bool
is_nothing py nothing = true
is_nothing py (listing items) = false
is_nothing py (mapping r) = false

-- `_parsed_display`
unfoldable pub parsed_display :
    (py : Runtime)
    → (String → Parsed py → List (Item py) → List String → Result String)
    → (Parsed py → String)
    → Parsed py
    → Option String
    → Option (Display py)
unfolding headers_of plain_display
parsed_display py render dumps value template =
    if is_nothing py value
    then none
    else if truthy template
    then elim template [
      | none ↦ none
      | some t ↦ elim (render t value (rows_shown py value) (headers_of py (rows_shown py value))) [
        | ok html ↦ some (jinja2 html)
        | err e ↦ some (jinja2_error e)
      ]
    ]
    else some (plain_display py dumps value)

-- `run.status = CANCELLED` and the time, of a run that is open.
abbrev pub cancel_run : ℕ → Run → Run
cancel_run now r = record r { status = cancelled; finished_at = some now }

-- The batch with more failures; it is finished when all its results are in.
unfoldable pub credit : ℕ → ℕ → RunBatch → RunBatch
credit now count b = record b {
  failed = b.failed + count;
  finished_at = elim b.finished_at [
    | some t ↦ some t
    | none ↦ if leb b.total (b.succeeded + (b.failed + count)) then some now else none
  ];
}

-- The open runs of a batch, cancelled.
unfoldable pub cancel_open : ℕ → ℕ → List Run → List Run
cancel_open now k [] = []
cancel_open now k (r ∷ rs) =
    (if in_batch k r && is_open r then cancel_run now r else r) ∷ cancel_open now k rs

-- The open runs of a set of ids, cancelled.
unfoldable pub cancel_listed : ℕ → List ℕ → List Run → List Run
cancel_listed now ids [] = []
cancel_listed now ids (r ∷ rs) =
    (if contains r.id ids && is_open r then cancel_run now r else r) ∷ cancel_listed now ids rs

-- `batch_cancelled[k] = batch_cancelled.get(k, 0) + 1`
unfoldable pub count_batch : ℕ → List (ℕ × ℕ) → List (ℕ × ℕ)
count_batch k [] = (k, 1) ∷ []
count_batch k ((j, n) ∷ rest) =
    let later = count_batch k rest in if j == k then (j, n + 1) ∷ rest else (j, n) ∷ later

-- One run of the loop: the count of its batch goes up if it is cancelled.
unfoldable pub note_cancelled : List ℕ → Run → List (ℕ × ℕ) → List (ℕ × ℕ)
unfolding count_batch
note_cancelled ids r counts =
    if contains r.id ids && is_open r
    then elim (key_of r.batch_id) [ none ↦ counts | some k ↦ count_batch k counts ]
    else counts

-- The counts of the runs that are cancelled, by batch.
unfoldable pub count_cancelled : List ℕ → List (ℕ × ℕ) → List Run → List (ℕ × ℕ)
unfolding note_cancelled
count_cancelled ids counts [] = counts
count_cancelled ids counts (r ∷ rs) = count_cancelled ids (note_cancelled ids r counts) rs

unfoldable pub credit_all : ℕ → List (ℕ × ℕ) → List RunBatch → List RunBatch
unfolding credit update_row
credit_all now [] batches = batches
credit_all now ((k, n) ∷ rest) batches =
    credit_all now rest (update_row batch_id k (credit now n) batches)

module _ {py : Runtime} where
  -- `cancel_batch`
  unfoldable pub cancel_batch : ℕ → ℕ → Rows py → Rows py
  unfolding find_row update_row cancel_open credit
  cancel_batch now k rows = elim (find_row batch_id k rows.batches) [
    | none ↦ rows
    | some b ↦ elim b.finished_at [
      | some t ↦ rows
      | none ↦
          let count = tally (λ r. in_batch k r && is_open r) rows.runs in
          record rows {
            runs = cancel_open now k rows.runs;
            batches = update_row batch_id k (credit now count) rows.batches;
          }
    ]
  ]

  -- The rows of `purge_queue`, when the messages of these runs were purged.
  unfoldable pub cancel_purged : ℕ → List ℕ → Rows py → Rows py
  unfolding cancel_listed count_cancelled credit_all
  cancel_purged now ids rows = record rows {
    runs = cancel_listed now ids rows.runs;
    batches = credit_all now (count_cancelled ids [] rows.runs) rows.batches;
  }

  module _ (redis : Redis) (settings : Settings) (codec : Codec py) where
    -- The messages purged of some streams.
    unfoldable pub purge_streams :
        List String → redis.State → Result (List (String × ℕ) × redis.State)
    unfolding purge_undelivered
    purge_streams [] s = ok ([], s)
    purge_streams (stream ∷ streams) s = do
      (first, s') ← purge_undelivered redis settings codec s stream settings.job_consumer_group
      (rest, s'') ← purge_streams streams s'
      ok (first ++ rest, s'')

    unfoldable pub purge_queue : ℕ → redis.State → Rows py → Result (redis.State × Rows py)
    unfolding job_stream_names purge_streams cancel_purged
    purge_queue now s rows = do
      streams ← job_stream_names redis settings s
      (purged, s') ← purge_streams streams s
      ok (elim purged [
        | [] ↦ (s', rows)
        | p ∷ ps ↦ (s', cancel_purged now (map (λ (q : String × ℕ). q.1) (p ∷ ps)) rows)
      ])
