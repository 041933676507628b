-- ===== src/Dispatch/Tallies.antt =====
-- The count of a job's targets by stream, in `fire_job` of src/kiroku/dispatch.py.
use bmu.Prelude.{ℕ, ◌+◌, ◌<◌, String, ◌≡◌, refl, Bool, true, List, [], ◌∷◌, arith}
use bmu.Prelude.{none, some, tally, In, if◌then◌else◌}
use bmu.Prelude.{◌==◌, string_eq, inl, inr, Bool-cases}
use bmu.Runtime.{row_get, row_set}
use bmu.Settings.{Settings}
use bmu.Queue.{job_stream_for}
use bmu.Dispatch.Specs.{Target, pool_of}
use bmu.Dispatch.Fire.{count_stream, count_streams}

-- `counts.get(stream, 0)`
abbrev pub count_of : String → List (String × ℕ) → ℕ
count_of stream [] = 0
count_of stream ((s, n) ∷ rest) = if s == stream then n else count_of stream rest

-- The stream that a target's job goes to.
abbrev pub stream_of : Settings → Target → String
stream_of settings t = job_stream_for settings (pool_of t)

count_of-row_set :
    (stream k : String) (n : ℕ) (counts : List (String × ℕ))
    → count_of stream (row_set k n counts) ≡ (if k == stream then n else count_of stream counts)
unfolding row_set
count_of-row_set stream k n [] = refl
count_of-row_set stream k n ((j, m) ∷ rest) = ground (
  arith,
  count_of-row_set stream k n rest,
  string_eq.same_iff j k,
  string_eq.same_iff j stream,
  string_eq.same_iff k stream,
)

row_get-eq_count :
    (k : String) (counts : List (String × ℕ))
    → elim (row_get k counts) [ none ↦ 0 | some n ↦ n ] ≡ count_of k counts
unfolding row_get
row_get-eq_count k [] = refl
row_get-eq_count k ((j, m) ∷ rest) = ground (arith, row_get-eq_count k rest)

count_of-count_stream :
    (stream k : String) (counts : List (String × ℕ))
    → count_of stream (count_stream k counts)
      ≡ count_of stream counts + (if k == stream then 1 else 0)
unfolding count_stream
count_of-count_stream stream k counts = ground (
  arith,
  count_of-row_set stream k (elim (row_get k counts) [ none ↦ 0 | some n ↦ n ] + 1) counts,
  row_get-eq_count k counts,
  string_eq.same_iff k stream,
)

pub count_of-count_streams :
    (settings : Settings) (stream : String) (counts : List (String × ℕ)) (ts : List Target)
    → count_of stream (count_streams settings counts ts)
      ≡ count_of stream counts + tally (λ t. stream_of settings t == stream) ts
unfolding count_streams
count_of-count_streams settings stream counts [] = omega arith
count_of-count_streams settings stream counts (t ∷ ts) = omega (
  arith,
  count_of-count_streams settings stream (count_stream (stream_of settings t) counts) ts,
  count_of-count_stream stream (stream_of settings t) counts,
)

pub tally_pos :
    {A : Type 0} (p : A → Bool) (xs : List A) (a : A) → In a xs → p a ≡ true → 0 < tally p xs
tally_pos p (x ∷ xs) a (inl same) h = ground (arith, h, same)
tally_pos p (x ∷ xs) a (inr m) h = omega (arith, tally_pos p xs a m h)
tally_pos p [] a m h = elim m [ ]

-- An item that a positive tally has counted.
pub tally_some :
    {A : Type 0} (p : A → Bool) (xs : List A) → 0 < tally p xs → (a : A) × In a xs × (p a ≡ true)
tally_some p [] h = absurd (omega (arith, h))
tally_some p (x ∷ xs) h = elim (Bool-cases (p x)) [
  | inl good ↦ (x, inl refl, good)
  | inr bad ↦ let (a, m, good) = tally_some p xs (ground (arith, bad, h)) in (a, inr m, good)
]

-- Positive counts under keys that come once.
abbrev pub AreApart : List (String × ℕ) → Type 0
AreApart [] = Unit
AreApart ((k, n) ∷ rest) = (0 < n) × (count_of k rest ≡ 0) × AreApart rest

row_set-AreApart :
    (k : String) (n : ℕ) (counts : List (String × ℕ))
    → 0 < n
    → AreApart counts
    → AreApart (row_set k n counts)
unfolding row_set
row_set-AreApart k n [] pos apart = (pos, refl, tt)
row_set-AreApart k n ((j, m) ∷ rest) pos apart = elim (Bool-cases (j == k)) [
  | inl same ↦ rw same (pos, apart.1, apart.2)
  | inr other ↦ rw other (
    apart.0,
    ground (
      arith,
      count_of-row_set j k n rest,
      apart.1,
      other,
      string_eq.same_iff j k,
      string_eq.same_iff k j,
    ),
    row_set-AreApart k n rest pos apart.2,
  )
]

pub count_streams-AreApart :
    (settings : Settings) (counts : List (String × ℕ)) (ts : List Target)
    → AreApart counts
    → AreApart (count_streams settings counts ts)
unfolding count_streams count_stream
count_streams-AreApart settings counts [] apart = apart
count_streams-AreApart settings counts (t ∷ ts) apart =
    let k = job_stream_for settings (pool_of t) in
    count_streams-AreApart settings (count_stream k counts) ts (
      row_set-AreApart k (elim (row_get k counts) [ none ↦ 0 | some n ↦ n ] + 1) counts
        (omega arith) apart)
