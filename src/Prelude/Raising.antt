-- ===== src/Prelude/Raising.antt =====
-- Comprehensions over a test or a function that may raise, against those over one that does not.
use mathlib.Core.Path.{◌≡◌, refl}
use mathlib.Core.Logic.{inl, inr}
use mathlib.Core.Bool.{Bool, not}
use mathlib.Core.List.{List, [], ◌∷◌}
use native.Mathlib.Omega.{arith}
use bmu.Prelude.Lists.{All₂, keep, All}
use bmu.Prelude.Results.{map_ok, Result, ok, ◌>>=◌, keep_ok, holds, Returns, Result-cases}

module _ {A : Type 0} where
  pub keep_ok-Returns :
      (p : A → Result Bool) (xs : List A)
      → All (λ x. Returns (p x)) xs
      → keep_ok p xs ≡ ok (keep (λ x. holds (p x)) xs)
  unfolding keep_ok
  keep_ok-Returns p [] h = refl
  keep_ok-Returns p (x ∷ xs) h = ground (arith, h.0.1, keep_ok-Returns p xs h.1)

  pub keep_ok-Returns-not :
      (p : A → Result Bool) (xs : List A)
      → All (λ x. Returns (p x)) xs
      → keep_ok (λ x. do b ← p x; ok (not b)) xs ≡ ok (keep (λ x. not (holds (p x))) xs)
  unfolding keep_ok
  keep_ok-Returns-not p [] h = refl
  keep_ok-Returns-not p (x ∷ xs) h = ground (arith, h.0.1, keep_ok-Returns-not p xs h.1)

  pub Returns-keep_ok :
      (p : A → Result Bool) (xs : List A) (ys : List A)
      → keep_ok p xs ≡ ok ys
      → All (λ x. Returns (p x)) xs
  unfolding keep_ok
  Returns-keep_ok p [] ys h = tt
  Returns-keep_ok p (x ∷ xs) ys h = elim (Result-cases (p x)) [
    | inr (e, bad) ↦ absurd (ground (arith, bad))
    | inl (b, good) ↦ elim (Result-cases (keep_ok p xs)) [
      | inr (e, bad) ↦ absurd (ground (arith, good, bad))
      | inl (rest, eq) ↦ ((b, good), Returns-keep_ok p xs rest eq)
    ]
  ]

  pub map_ok-All₂ :
      {B : Type 0} (f : A → Result B) (xs : List A) (ys : List B)
      → map_ok f xs ≡ ok ys
      → All₂ (λ x y. f x ≡ ok y) xs ys
  unfolding map_ok
  map_ok-All₂ f [] [] h = tt
  map_ok-All₂ f [] (y ∷ ys) h = absurd (ground arith)
  map_ok-All₂ f (x ∷ xs) ys h = elim (Result-cases (f x)) [
    | inr (e, bad) ↦ absurd (ground (arith, bad))
    | inl (y, good) ↦ elim (Result-cases (map_ok f xs)) [
      | inr (e, bad) ↦ absurd (ground (arith, good, bad))
      | inl (rest, eq) ↦
          let whole : ys ≡ y ∷ rest = ground (arith, good, eq) in
          rw whole (good, map_ok-All₂ f xs rest eq)
    ]
  ]
