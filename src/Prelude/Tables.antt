-- ===== src/Prelude/Tables.antt =====
-- A table as a list of rows with a key: `db.get`, and a change of the row with a key.
use Prim.Native.Nat.{ℕ}
use mathlib.Core.Path.{◌≡◌}
use mathlib.Core.Option.{Option, none, some}
use mathlib.Core.List.{List, [], ◌∷◌}
use native.Mathlib.Omega.{arith}
use bmu.Prelude.Tests.{if◌then◌else◌}
use bmu.Prelude.Equality.{◌==◌, nat_eq}

module _ {A : Type 0} (key : A → ℕ) where
  unfoldable pub find_row : ℕ → List A → Option A
  find_row k [] = none
  find_row k (x ∷ xs) = if key x == k then some x else find_row k xs

  unfoldable pub update_row : ℕ → (A → A) → List A → List A
  update_row k f [] = []
  update_row k f (x ∷ xs) = (if key x == k then f x else x) ∷ update_row k f xs

-- The row with a key is changed, and no other, by a change that keeps the key.
pub find_row-update_row :
    {A : Type 0} (key : A → ℕ) (k j : ℕ) (f : A → A) (xs : List A)
    → ((x : A) → key x ≡ k → key (f x) ≡ k)
    → find_row key j (update_row key k f xs) ≡ (
        if j == k
        then elim (find_row key j xs) [ none ↦ none | some x ↦ some (f x) ]
        else find_row key j xs)
unfolding find_row update_row
find_row-update_row key k j f [] h = ground arith
find_row-update_row key k j f (x ∷ xs) h = ground (arith, find_row-update_row key k j f xs h, h x)

pub key-find_row :
    {A : Type 0} (key : A → ℕ) (k : ℕ) (xs : List A) (x : A)
    → find_row key k xs ≡ some x
    → key x ≡ k
unfolding find_row
key-find_row key k [] x h = cc
key-find_row key k (y ∷ ys) x h = ground (arith, key-find_row key k ys x)

-- The changed row is found again.
pub find_row_changed :
    {A : Type 0} (key : A → ℕ) (k : ℕ) (f : A → A) (xs : List A) (x : A)
    → ((y : A) → key y ≡ k → key (f y) ≡ k)
    → find_row key k xs ≡ some x
    → find_row key k (update_row key k f xs) ≡ some (f x)
find_row_changed key k f xs x h found = ground (arith, find_row-update_row key k k f xs h, found)
