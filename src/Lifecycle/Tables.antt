-- ===== src/Lifecycle/Tables.antt =====
-- What the lifecycle of a batch says of the tables of runs and batches, whatever changes them.
use bmu.Prelude.{
  ℕ, ◌+◌, ◌≤◌, ◌<◌, ◌≡◌, refl, ◌∙◌, true, none, some, List, arith, inl, inr, tally, find_row,
  update_row, find_row-update_row, Option-cases, is_some, ◌==◌, nat_eq, if◌then◌else◌,
}
use bmu.Models.Run.{Run, RunBatch}
use bmu.Recorder.Payload.{batch_id}
use bmu.Recorder.Reaping.{open_runs}

-- How many runs have an id.
abbrev pub runs_with : ℕ → List Run → ℕ
runs_with i rs = tally (λ (r : Run). r.id == i) rs

-- The results of a batch that are in, and its runs that are open, make up its total; a finished
-- batch has no open run.
abbrev pub IsBalanced : ℕ → List Run → List RunBatch → Type 0
IsBalanced k runs batches =
    (b : RunBatch)
    → find_row batch_id k batches ≡ some b
    → (b.succeeded + b.failed + open_runs k runs ≡ b.total)
      × (is_some b.finished_at ≡ true → open_runs k runs ≡ 0)

-- The ids are new from the next ones on, no run's id occurs twice, and each batch is balanced.
pub record IsSound (runs : List Run) (batches : List RunBatch) (next_run next_batch : ℕ)
    : Type 0 where
  pub unique : (i : ℕ) → runs_with i runs ≤ 1
  pub fresh_run : (i : ℕ) → next_run ≤ i → runs_with i runs ≡ 0
  pub fresh_batch :
      (k : ℕ) → next_batch ≤ k → (find_row batch_id k batches ≡ none) × (open_runs k runs ≡ 0)
  pub positive : 0 < next_batch
  pub no_zero : find_row batch_id 0 batches ≡ none
  pub balanced : (k : ℕ) → IsBalanced k runs batches

-- A change that keeps all this: it adds no row, opens no run, and keeps the balance.
pub record IsMove (runs runs' : List Run) (batches batches' : List RunBatch) : Type 0 where
  pub ids : (i : ℕ) → runs_with i runs' ≡ runs_with i runs
  pub fewer : (k : ℕ) → open_runs k runs' ≤ open_runs k runs
  pub missing : (k : ℕ) → find_row batch_id k batches ≡ none → find_row batch_id k batches' ≡ none
  pub balance :
      (k : ℕ)
      → find_row batch_id 0 batches ≡ none
      → IsBalanced k runs batches
      → IsBalanced k runs' batches'

pub IsMove-IsSound :
    (runs runs' : List Run) (batches batches' : List RunBatch) (m n : ℕ)
    → IsMove runs runs' batches batches'
    → IsSound runs batches m n
    → IsSound runs' batches' m n
IsMove-IsSound runs runs' batches batches' m n move sound = record {
  unique = λ i. omega (arith, move.ids i, sound.unique i);
  fresh_run = λ i h. move.ids i ∙ sound.fresh_run i h;
  fresh_batch = λ k h. (
    move.missing k (sound.fresh_batch k h).0,
    omega (arith, move.fewer k, (sound.fresh_batch k h).1),
  );
  positive = sound.positive;
  no_zero = move.missing 0 sound.no_zero;
  balanced = λ k. move.balance k sound.no_zero (sound.balanced k);
}

pub IsMove-refl : (runs : List Run) (batches : List RunBatch) → IsMove runs runs batches batches
IsMove-refl runs batches = record {
  ids = λ i. refl;
  fewer = λ k. omega arith;
  missing = λ k h. h;
  balance = λ k z h. h;
}

pub IsMove-trans :
    (r r' r'' : List Run) (b b' b'' : List RunBatch)
    → IsMove r r' b b'
    → IsMove r' r'' b' b''
    → IsMove r r'' b b''
IsMove-trans r r' r'' b b' b'' f g = record {
  ids = λ i. g.ids i ∙ f.ids i;
  fewer = λ k. omega (arith, f.fewer k, g.fewer k);
  missing = λ k h. g.missing k (f.missing k h);
  balance = λ k z h. g.balance k (f.missing 0 z) (f.balance k z h);
}

-- A changed batch row comes from the row before.
pub find_row-before :
    (k j : ℕ) (f : RunBatch → RunBatch) (xs : List RunBatch) (y : RunBatch)
    → ((x : RunBatch) → (f x).id ≡ x.id)
    → find_row batch_id j (update_row batch_id k f xs) ≡ some y
    → (x : RunBatch) × (find_row batch_id j xs ≡ some x) × (y ≡ (if j == k then f x else x))
find_row-before k j f xs y keeps found = elim (Option-cases (find_row batch_id j xs)) [
  | inl absent ↦
      absurd
        (ground (arith, absent, found, find_row-update_row batch_id k j f xs (λ x e. keeps x ∙ e)))
  | inr (x, there) ↦ (
    x,
    there,
    ground (arith, there, found, find_row-update_row batch_id k j f xs (λ x e. keeps x ∙ e)),
  )
]

pub find_row_missing :
    (k j : ℕ) (f : RunBatch → RunBatch) (xs : List RunBatch)
    → ((x : RunBatch) → (f x).id ≡ x.id)
    → find_row batch_id j xs ≡ none
    → find_row batch_id j (update_row batch_id k f xs) ≡ none
find_row_missing k j f xs keeps absent =
    ground (arith, absent, find_row-update_row batch_id k j f xs (λ x e. keeps x ∙ e))
