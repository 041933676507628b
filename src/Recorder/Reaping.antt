-- ===== src/Recorder/Reaping.antt =====
-- What the reaper leaves: `_reap_stale_batches` of src/kiroku/recorder/runner.py.
use bmu.Prelude.{
  ℕ, ◌≡◌, refl, sym, ap, ◌∙◌, subst, ◌⊎◌, inl, inr, true, false, ◌&&◌, String, Option, List, [],
  ◌∷◌, arith,
}
use bmu.Prelude.{
  if◌then◌else◌, update_row, tally, All, In, Some, All-map, All-of_In, Some-map, Option-cases,
  Bool-cases, ◌==◌, nat_eq,
}
use bmu.Runtime.{Runtime}
use bmu.Models.Run.{Run, RunBatch}
use bmu.Recorder.Store.{Git, commit_batch}
use bmu.Recorder.State.{Rows, Memory, staged_paths}
use bmu.Recorder.Payload.{in_batch, batch_id}
use bmu.Recorder.Reaper.{
  is_stale, is_open, fail_open, stamp_missing, reaped, reap_batch, reap_batches, stale_batches,
  reap_stale_batches, reap_message,
}

-- A batch that is not stale, or that a list has.
abbrev Listed : ℕ → List RunBatch → RunBatch → Type 0
Listed cutoff bs x = (is_stale cutoff x ≡ false) ⊎ Some (λ b. x.id ≡ b.id) bs

stale_batches-none :
    (cutoff : ℕ) (xs : List RunBatch)
    → All (λ x. is_stale cutoff x ≡ false) xs
    → stale_batches cutoff xs ≡ []
unfolding stale_batches
stale_batches-none cutoff [] h = refl
stale_batches-none cutoff (x ∷ xs) h = ground (arith, h, stale_batches-none cutoff xs h.1)

Some-stale_batches :
    (cutoff : ℕ) (x : RunBatch) (xs : List RunBatch)
    → In x xs
    → is_stale cutoff x ≡ true
    → In x (stale_batches cutoff xs)
unfolding stale_batches
Some-stale_batches cutoff x [] m h = m
Some-stale_batches cutoff x (y ∷ ys) (inl e) h =
    let s : is_stale cutoff y ≡ true = ap (is_stale cutoff) (sym e) ∙ h in ground (arith, s, e)
Some-stale_batches cutoff x (y ∷ ys) (inr m) h =
    let rest = Some-stale_batches cutoff x ys m h in
    ground (arith, rest, Bool-cases (is_stale cutoff y))

Listed-reaped :
    (cutoff now failures : ℕ) (sha : Option String) (b : RunBatch) (bs : List RunBatch)
    (x : RunBatch)
    → Listed cutoff (b ∷ bs) x
    → Listed cutoff bs (if x.id == b.id then reaped now sha failures x else x)
unfolding reaped is_stale
Listed-reaped cutoff now failures sha b bs x h = elim (Bool-cases (x.id == b.id)) [
  | inl same ↦ inl (ground (arith, same))
  | inr other ↦ ground (arith, other, h)
]

-- The reaped batch is no longer stale, and the others are as they were.
All-reaped :
    (cutoff now failures : ℕ) (sha : Option String) (b : RunBatch) (bs xs : List RunBatch)
    → All (Listed cutoff (b ∷ bs)) xs
    → All (Listed cutoff bs) (update_row batch_id b.id (reaped now sha failures) xs)
unfolding update_row reaped is_stale
All-reaped cutoff now failures sha b bs [] h = h
All-reaped cutoff now failures sha b bs (x ∷ xs) h = (
  Listed-reaped cutoff now failures sha b bs x h.0,
  All-reaped cutoff now failures sha b bs xs h.1,
)

-- The tables after the reaper.
All-not_stale : (cutoff : ℕ) (xs : List RunBatch) → All (Listed cutoff (stale_batches cutoff xs)) xs
All-not_stale cutoff xs = All-of_In (Listed cutoff (stale_batches cutoff xs)) xs (λ x m.
    elim (Bool-cases (is_stale cutoff x)) [
      | inr fresh ↦ inl fresh
      | inl stale ↦ inr (
          Some-map (λ b. x ≡ b) (λ b. x.id ≡ b.id) (stale_batches cutoff xs) (λ b e. ap batch_id e)
            (Some-stale_batches cutoff x xs m stale))
    ])

pub fail_open-none :
    (now k : ℕ) (rs : List Run) → tally (λ r. in_batch k r && is_open r) (fail_open now k rs) ≡ 0
unfolding fail_open
fail_open-none now k [] = refl
fail_open-none now k (r ∷ rs) =
    ground (arith, fail_open-none now k rs, Bool-cases (in_batch k r), Bool-cases (is_open r))

-- Neither a later batch nor a commit opens a run again.
fail_open-still :
    (now j k : ℕ) (rs : List Run)
    → tally (λ r. in_batch k r && is_open r) rs ≡ 0
    → tally (λ r. in_batch k r && is_open r) (fail_open now j rs) ≡ 0
unfolding fail_open
fail_open-still now j k [] h = refl
fail_open-still now j k (r ∷ rs) h = ground (
  arith,
  h,
  fail_open-still now j k rs,
  Bool-cases (in_batch k r),
  Bool-cases (in_batch j r),
  Bool-cases (is_open r),
)

pub stamp_missing-still :
    (j k : ℕ) (sha : String) (rs : List Run)
    → tally (λ r. in_batch k r && is_open r) (stamp_missing j sha rs)
      ≡ tally (λ r. in_batch k r && is_open r) rs
unfolding stamp_missing
stamp_missing-still j k sha [] = refl
stamp_missing-still j k sha (r ∷ rs) =
    ground
      (arith, stamp_missing-still j k sha rs, Option-cases r.commit_sha, Bool-cases (in_batch j r))

-- The number of runs of a batch that are pending or running.
abbrev pub open_runs : ℕ → List Run → ℕ
open_runs k rs = tally (λ r. in_batch k r && is_open r) rs

module _ (git : Git) (py : Runtime) where
  reap_batch-Listed :
      (cutoff now : ℕ) (b : RunBatch) (bs : List RunBatch) (rows : Rows py) (memory : Memory git)
      → All (Listed cutoff (b ∷ bs)) rows.batches
      → All (Listed cutoff bs) (reap_batch git py now b (rows, memory)).0.batches
  unfolding reap_batch
  reap_batch-Listed cutoff now b bs rows memory h =
      let paths = staged_paths b.id memory.staged in
      All-reaped cutoff now (open_runs b.id rows.runs)
        (commit_batch git memory.store paths (reap_message git py now b paths)).0 b bs rows.batches
        h

  reap_batches-none :
      (cutoff now : ℕ) (bs : List RunBatch) (rows : Rows py) (memory : Memory git)
      → All (Listed cutoff bs) rows.batches
      → stale_batches cutoff (reap_batches git py now bs (rows, memory)).0.batches ≡ []
  unfolding reap_batches
  reap_batches-none cutoff now [] rows memory h = stale_batches-none cutoff rows.batches (
      All-map (Listed cutoff []) (λ x. is_stale cutoff x ≡ false) rows.batches
        (λ x. elim [ inl e ↦ e | inr n ↦ absurd n ]) h)
  reap_batches-none cutoff now (b ∷ bs) rows memory h =
      let next = reap_batch git py now b (rows, memory) in
      reap_batches-none cutoff now bs next.0 next.1
        (reap_batch-Listed cutoff now b bs rows memory h)

  -- Whatever the rows are, no batch is stale when the reaper has run.
  pub reap_stale_batches_none :
      (cutoff now : ℕ) (rows : Rows py) (memory : Memory git)
      → stale_batches cutoff (reap_stale_batches git py cutoff now (rows, memory)).0.batches ≡ []
  unfolding reap_stale_batches
  reap_stale_batches_none cutoff now rows memory =
      reap_batches-none cutoff now (stale_batches cutoff rows.batches) rows memory
        (All-not_stale cutoff rows.batches)

  reap_batch-closes :
      (now : ℕ) (b : RunBatch) (rows : Rows py) (memory : Memory git)
      → open_runs b.id (reap_batch git py now b (rows, memory)).0.runs ≡ 0
  unfolding reap_batch
  reap_batch-closes now b rows memory =
      let paths = staged_paths b.id memory.staged in
      let runs = fail_open now b.id rows.runs in
      elim (Option-cases
        (commit_batch git memory.store paths (reap_message git py now b paths)).0) [
          | inl nothing ↦ ground (arith, nothing, fail_open-none now b.id rows.runs)
          | inr (c, eq) ↦
              ground
                (arith, eq, stamp_missing-still b.id b.id c runs, fail_open-none now b.id rows.runs)
        ]

  reap_batch-still :
      (now k : ℕ) (b : RunBatch) (rows : Rows py) (memory : Memory git)
      → open_runs k rows.runs ≡ 0
      → open_runs k (reap_batch git py now b (rows, memory)).0.runs ≡ 0
  unfolding reap_batch
  reap_batch-still now k b rows memory h =
      let paths = staged_paths b.id memory.staged in
      let runs = fail_open now b.id rows.runs in
      elim (Option-cases
        (commit_batch git memory.store paths (reap_message git py now b paths)).0) [
          | inl nothing ↦ ground (arith, nothing, fail_open-still now b.id k rows.runs h)
          | inr (c, eq) ↦
              ground (
                arith,
                eq,
                stamp_missing-still b.id k c runs,
                fail_open-still now b.id k rows.runs h,
              )
        ]

  reap_batches-still :
      (now k : ℕ) (bs : List RunBatch) (rows : Rows py) (memory : Memory git)
      → open_runs k rows.runs ≡ 0
      → open_runs k (reap_batches git py now bs (rows, memory)).0.runs ≡ 0
  unfolding reap_batches
  reap_batches-still now k [] rows memory h = h
  reap_batches-still now k (b ∷ bs) rows memory h =
      let next = reap_batch git py now b (rows, memory) in
      reap_batches-still now k bs next.0 next.1 (reap_batch-still now k b rows memory h)

  reap_batches-closes :
      (now : ℕ) (bs : List RunBatch) (b : RunBatch) (rows : Rows py) (memory : Memory git)
      → In b bs
      → open_runs b.id (reap_batches git py now bs (rows, memory)).0.runs ≡ 0
  unfolding reap_batches
  reap_batches-closes now [] b rows memory m = absurd m
  reap_batches-closes now (c ∷ bs) b rows memory (inl e) =
      let next = reap_batch git py now c (rows, memory) in
      reap_batches-still now b.id bs next.0 next.1 (
        subst (λ (x : RunBatch). open_runs x.id next.0.runs ≡ 0) (sym e)
          (reap_batch-closes now c rows memory))
  reap_batches-closes now (c ∷ bs) b rows memory (inr m) =
      let next = reap_batch git py now c (rows, memory) in
      reap_batches-closes now bs b next.0 next.1 m

  -- A batch of the table that is stale: when the reaper has run, none of its runs is pending or
  -- running.
  pub reap_stale_batches-closes :
      (cutoff now : ℕ) (b : RunBatch) (rows : Rows py) (memory : Memory git)
      → In b rows.batches
      → is_stale cutoff b ≡ true
      → open_runs b.id (reap_stale_batches git py cutoff now (rows, memory)).0.runs ≡ 0
  unfolding reap_stale_batches
  reap_stale_batches-closes cutoff now b rows memory m stale =
      reap_batches-closes now (stale_batches cutoff rows.batches) b rows memory
        (Some-stale_batches cutoff b rows.batches m stale)
