-- ===== src/Prelude/Lists.antt =====
-- Lists over the native numbers: Python's `len`, `any`, `all`, comprehensions with a test, `in`.
use Prim.Native.Nat.{ℕ, suc, ◌+◌, ◌<◌}
use mathlib.Core.Path.{◌≡◌, refl, sym, subst}
use mathlib.Core.Logic.{◌⊎◌, inl, inr, ◌↔◌}
use mathlib.Core.Bool.{Bool, true, false, ◌&&◌, ◌||◌, not}
use mathlib.Core.List.{List, [], ◌∷◌, ◌++◌}
use native.Mathlib.Omega.{arith}
use bmu.Prelude.Tests.{if◌then◌else◌}
use bmu.Prelude.Equality.{Eq, ◌==◌}

module _ {ℓ} {A : Type ℓ} where
  abbrev pub length : List A → ℕ
  length [] = 0
  length (x ∷ xs) = suc (length xs)

  abbrev pub any : (A → Bool) → List A → Bool
  any p [] = false
  any p (x ∷ xs) = p x || any p xs

  abbrev pub all : (A → Bool) → List A → Bool
  all p [] = true
  all p (x ∷ xs) = p x && all p xs

  -- `[x for x in xs if p(x)]`
  abbrev pub keep : (A → Bool) → List A → List A
  keep p [] = []
  keep p (x ∷ xs) = let rest = keep p xs in if p x then x ∷ rest else rest

  -- The number of items that pass a test.
  abbrev pub tally : (A → Bool) → List A → ℕ
  tally p [] = 0
  tally p (x ∷ xs) = (if p x then 1 else 0) + tally p xs

-- Predicates by recursion: each item, some item, membership, no item twice.
module _ {A : Type 0} where
  abbrev pub All : (A → Type 0) → List A → Type 0
  All P [] = Unit
  All P (x ∷ xs) = P x × All P xs

  abbrev pub Some : (A → Type 0) → List A → Type 0
  Some P [] = ⊥
  Some P (x ∷ xs) = P x ⊎ Some P xs

  abbrev pub In : A → List A → Type 0
  In a xs = Some (λ x. a ≡ x) xs

  abbrev pub Distinct : List A → Type 0
  Distinct [] = Unit
  Distinct (x ∷ xs) = (¬ (In x xs)) × Distinct xs

  pub Some-append : (P : A → Type 0) (xs ys : List A) → Some P (xs ++ ys) ↔ (Some P xs ⊎ Some P ys)
  Some-append P [] ys = (λ h. inr h, elim [ inl h ↦ absurd h | inr h ↦ h ])
  Some-append P (x ∷ xs) ys = ground (arith, Some-append P xs ys)

  pub All-append :
      (P : A → Type 0) (front back : List A) → All P front → All P back → All P (front ++ back)
  All-append P [] back none_left rest = rest
  All-append P (x ∷ front) back (here, later) rest = (here, All-append P front back later rest)

  pub All-In : (P : A → Type 0) (xs : List A) (a : A) → All P xs → In a xs → P a
  All-In P (x ∷ xs) a h (inl e) = subst P (sym e) h.0
  All-In P (x ∷ xs) a h (inr m) = All-In P xs a h.1 m
  All-In P [] a h m = elim m [ ]

  pub All-of_In : (P : A → Type 0) (xs : List A) → ((a : A) → In a xs → P a) → All P xs
  All-of_In P [] h = tt
  All-of_In P (x ∷ xs) h = (h x (inl refl), All-of_In P xs (λ a m. h a (inr m)))

  pub any_iff : (p : A → Bool) (xs : List A) → (any p xs ≡ true) ↔ Some (λ x. p x ≡ true) xs
  any_iff p [] = (λ h. cc, λ h. absurd h)
  any_iff p (x ∷ xs) = ground (arith, any_iff p xs)

  pub all_iff : (p : A → Bool) (xs : List A) → (all p xs ≡ true) ↔ All (λ x. p x ≡ true) xs
  all_iff p [] = (λ h. tt, λ h. refl)
  all_iff p (x ∷ xs) = ground (arith, all_iff p xs)

  pub length-append : (xs ys : List A) → length (xs ++ ys) ≡ length xs + length ys
  length-append [] ys = omega arith
  length-append (x ∷ xs) ys = omega (arith, length-append xs ys)

  pub tally-append : (p : A → Bool) (xs ys : List A) → tally p (xs ++ ys) ≡ tally p xs + tally p ys
  tally-append p [] ys = omega arith
  tally-append p (x ∷ xs) ys = omega (arith, tally-append p xs ys)

-- `x in xs`
module _ {A : Type 0} ⦃e : Eq A⦄ where
  abbrev pub contains : A → List A → Bool
  contains a xs = any (λ x. a == x) xs

  pub contains_iff : (a : A) (xs : List A) → (contains a xs ≡ true) ↔ In a xs
  contains_iff a [] = (λ h. cc, λ h. absurd h)
  contains_iff a (x ∷ xs) = ground (arith, contains_iff a xs, e.same_iff a x)

module _ {A : Type 0} where
  pub keep-Some_iff :
      (p : A → Bool) (xs : List A) → (0 < length (keep p xs)) ↔ Some (λ x. p x ≡ true) xs
  keep-Some_iff p [] = (λ h. absurd (omega arith), λ h. absurd h)
  keep-Some_iff p (x ∷ xs) = ground (arith, keep-Some_iff p xs)

  pub keep_none_iff :
      (p : A → Bool) (xs : List A) → (length (keep p xs) ≡ 0) ↔ All (λ x. p x ≡ false) xs
  keep_none_iff p [] = (λ h. tt, λ h. refl)
  keep_none_iff p (x ∷ xs) = ground (arith, keep_none_iff p xs)

  pub Some-map : (P Q : A → Type 0) (xs : List A) → ((x : A) → P x → Q x) → Some P xs → Some Q xs
  Some-map P Q [] f h = h
  Some-map P Q (x ∷ xs) f (inl h) = inl (f x h)
  Some-map P Q (x ∷ xs) f (inr h) = inr (Some-map P Q xs f h)

  pub All-map : (P Q : A → Type 0) (xs : List A) → ((x : A) → P x → Q x) → All P xs → All Q xs
  All-map P Q [] f h = tt
  All-map P Q (x ∷ xs) f h = (f x h.0, All-map P Q xs f h.1)

  pub All-zip : (P Q : A → Type 0) (xs : List A) → All P xs → All Q xs → All (λ x. P x × Q x) xs
  All-zip P Q [] hp hq = tt
  All-zip P Q (x ∷ xs) hp hq = ((hp.0, hq.0), All-zip P Q xs hp.1 hq.1)

  pub keep-All_iff :
      (p : A → Bool) (xs : List A)
      → (length (keep (λ x. not (p x)) xs) ≡ 0) ↔ All (λ x. p x ≡ true) xs
  keep-All_iff p [] = (λ h. tt, λ h. refl)
  keep-All_iff p (x ∷ xs) = ground (arith, keep-All_iff p xs)

-- Two lists, item by item.
module _ {A B : Type 0} where
  abbrev pub All₂ : (A → B → Type 0) → List A → List B → Type 0
  All₂ R [] [] = Unit
  All₂ R (x ∷ xs) (y ∷ ys) = R x y × All₂ R xs ys
  All₂ R _ _ = ⊥

  pub Some-All₂ :
      (R : A → B → Type 0) (P : A → Type 0) (Q : B → Type 0) (xs : List A) (ys : List B)
      → ((x : A) (y : B) → R x y → P x ↔ Q y)
      → All₂ R xs ys
      → Some P xs ↔ Some Q ys
  Some-All₂ R P Q [] [] f h = (λ p. p, λ p. p)
  Some-All₂ R P Q (x ∷ xs) (y ∷ ys) f h = (
    elim [ inl p ↦ inl ((f x y h.0).0 p) | inr p ↦ inr ((Some-All₂ R P Q xs ys f h.1).0 p) ],
    elim [ inl p ↦ inl ((f x y h.0).1 p) | inr p ↦ inr ((Some-All₂ R P Q xs ys f h.1).1 p) ],
  )
  Some-All₂ R P Q [] (y ∷ ys) f h = absurd h
  Some-All₂ R P Q (x ∷ xs) [] f h = absurd h

  pub All₂-map :
      (R S : A → B → Type 0) (xs : List A) (ys : List B)
      → ((x : A) (y : B) → R x y → S x y)
      → All₂ R xs ys
      → All₂ S xs ys
  All₂-map R S [] [] f h = tt
  All₂-map R S (x ∷ xs) (y ∷ ys) f h = (f x y h.0, All₂-map R S xs ys f h.1)
  All₂-map R S [] (y ∷ ys) f h = absurd h
  All₂-map R S (x ∷ xs) [] f h = absurd h

module _ {A : Type 0} where
  pub Distinct-snoc : (xs : List A) (a : A) → Distinct xs → ¬ (In a xs) → Distinct (xs ++ a ∷ [])
  Distinct-snoc [] a h fresh = ((λ m. m), tt)
  Distinct-snoc (x ∷ xs) a h fresh = (
    λ m. elim ((Some-append (λ y. x ≡ y) xs (a ∷ [])).0 m) [
      | inl old ↦ h.0 old
      | inr (inl e) ↦ fresh (inl (sym e))
      | inr (inr e) ↦ e
    ],
    Distinct-snoc xs a h.1 (λ m. fresh (inr m)),
  )
