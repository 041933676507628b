-- ===== src/Prelude/Results.antt =====
-- Code that may raise: a value, or the text of the exception.
use mathlib.Core.Path.{◌≡◌, refl}
use mathlib.Core.Logic.{◌⊎◌, inl, inr}
use Prim.Native.String.{String}
use mathlib.Core.List.{List, [], ◌∷◌}
use mathlib.Core.Bool.{Bool, false}
use bmu.Prelude.Tests.{if◌then◌else◌}

pub data Result {ℓ} (A : Type ℓ) : Type ℓ where
  ok : A → Result A
  err : String → Result A

infixl 5 ◌>>=◌
abbrev pub ◌>>=◌ {ℓ κ} : {A : Type ℓ} {B : Type κ} → Result A → (A → Result B) → Result B
ok a >>= f = f a
err e >>= f = err e

module _ {ℓ} {A : Type ℓ} where
  -- `[x for x in xs if p(x)]`, where the test may raise.
  unfoldable pub keep_ok : (A → Result Bool) → List A → Result (List A)
  keep_ok p [] = ok []
  keep_ok p (x ∷ xs) = do passes ← p x; rest ← keep_ok p xs; ok (if passes then x ∷ rest else rest)

-- `[f(x) for x in xs]`, where `f` may raise.
module _ {ℓ κ} {A : Type ℓ} {B : Type κ} where
  unfoldable pub map_ok : (A → Result B) → List A → Result (List B)
  map_ok f [] = ok []
  map_ok f (x ∷ xs) = do y ← f x; rest ← map_ok f xs; ok (y ∷ rest)

  -- `try: … except Exception as exc: …`, the handler being given the text of the exception.
  abbrev pub catch : Result A → (A → B) → (String → B) → B
  catch (ok a) f h = f a
  catch (err e) f h = h e

-- The answer of a test that does not raise.
abbrev pub holds : Result Bool → Bool
holds (ok b) = b
holds (err e) = false

abbrev pub Returns {ℓ} : {A : Type ℓ} → Result A → Type ℓ
Returns {A = A} r = (a : A) × (r ≡ ok a)

pub Result-cases {ℓ} :
    {A : Type ℓ} (r : Result A) → ((a : A) × (r ≡ ok a)) ⊎ ((e : String) × (r ≡ err e))
Result-cases (ok a) = inl (a, refl)
Result-cases (err e) = inr (e, refl)
