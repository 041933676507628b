-- ===== src/Prelude/Unseen.antt =====
-- Adding an item at the end of a list unless it is there: the loops that drop duplicates.
use mathlib.Core.Path.{◌≡◌, sym, subst}
use mathlib.Core.Logic.{◌⊎◌, inl, inr, ◌↔◌}
use mathlib.Core.List.{List, [], ◌∷◌, ◌++◌}
use native.Mathlib.Omega.{arith}
use bmu.Prelude.Tests.{if◌then◌else◌, Bool-cases}
use bmu.Prelude.Equality.{Eq}
use bmu.Prelude.Lists.{In, Distinct, contains, contains_iff, Some-append, Distinct-snoc}

module _ {A : Type 0} ⦃e : Eq A⦄ where
  abbrev pub add_new : A → List A → List A
  add_new a xs = if contains a xs then xs else xs ++ a ∷ []

  pub add_new-Distinct : (a : A) (xs : List A) → Distinct xs → Distinct (add_new a xs)
  add_new-Distinct a xs h = elim (Bool-cases (contains a xs)) [
    | inl old ↦ rw old h
    | inr new ↦ rw new (Distinct-snoc xs a h (λ m. ground (arith, (contains_iff a xs).1 m)))
  ]

  pub In-add_new : (b a : A) (xs : List A) → In b (add_new a xs) ↔ (In b xs ⊎ (b ≡ a))
  In-add_new b a xs = elim (Bool-cases (contains a xs)) [
    | inl old ↦ rw old (
      λ m. inl m,
      elim [ inl m ↦ m | inr same ↦ subst (λ x. In x xs) (sym same) ((contains_iff a xs).0 old) ],
    )
    | inr new ↦ rw new (
      λ m. elim ((Some-append (λ x. b ≡ x) xs (a ∷ [])).0 m) [
        | inl h ↦ inl h
        | inr (inl same) ↦ inr same
        | inr (inr none_left) ↦ absurd none_left
      ],
      λ m.
          (Some-append (λ x. b ≡ x) xs (a ∷ [])).1
            (elim m [ inl h ↦ inl h | inr same ↦ inr (inl same) ]),
    )
  ]
