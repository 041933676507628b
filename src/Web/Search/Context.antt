-- ===== src/Web/Search/Context.antt =====
-- Which lines `_extract_context` of src/kiroku/web/routes/search.py shows.
use bmu.Prelude.{
  ℕ, zero, suc, ◌+◌, ◌-◌, ◌≤◌, ◌<◌, ◌≡◌, refl, sym, subst, ap, ◌↔◌, ◌⊎◌, inl, inr, String, Bool,
  true, List, [], ◌∷◌, ◌++◌, arith, In, All, Bool-cases, ltb, length, if◌then◌else◌, ◌==◌, nat_eq,
}
use bmu.Web.Search.{count_up, window, insert_sorted, add_hits, hits_from, blocks_of, context_blocks}

-- A line within the context of a hit, the lines being numbered from `i` on.
abbrev pub Near : (String → Bool) → ℕ → ℕ → ℕ → List String → Type 0
Near is_hit context j i [] = ⊥
Near is_hit context j i (line ∷ lines) =
    ((is_hit line ≡ true) × (i ≤ j + context) × (j ≤ i + context))
    ⊎ Near is_hit context j (suc i) lines

-- The items of lists, one after the other.
abbrev pub shown : List (List ℕ) → List ℕ
shown [] = []
shown (b ∷ bs) = b ++ shown bs

-- Numbers that follow one another.
abbrev pub IsRun : List ℕ → Type 0
IsRun [] = Unit
IsRun (i ∷ []) = Unit
IsRun (i ∷ j ∷ js) = (j ≡ i + 1) × IsRun (j ∷ js)

-- Sorted without repetition, from a number on.
abbrev IsFrom : ℕ → List ℕ → Type 0
IsFrom lo [] = Unit
IsFrom lo (i ∷ is) = (lo ≤ i) × IsFrom (suc i) is

abbrev last_of : ℕ → List ℕ → ℕ
last_of i [] = i
last_of i (j ∷ js) = last_of j js

-- Blocks that have lines, with a line between each two.
abbrev pub IsApart : List (List ℕ) → Type 0
IsApart [] = Unit
IsApart ([] ∷ bs) = ⊥
IsApart ((i ∷ is) ∷ []) = Unit
IsApart ((i ∷ is) ∷ [] ∷ bs) = ⊥
IsApart ((i ∷ is) ∷ (j ∷ js) ∷ bs) = (last_of i is + 1 < j) × IsApart ((j ∷ js) ∷ bs)

In-count_up : (j lo n : ℕ) → In j (count_up lo n) ↔ ((lo ≤ j) × (j < lo + n))
unfolding count_up
In-count_up j lo zero = (λ m. absurd m, λ h. absurd (omega (arith, h.0, h.1)))
In-count_up j lo (suc n) = ground (arith, In-count_up j (suc lo) n)

In-window :
    (j context count i : ℕ)
    → j < count
    → In j (window context count i) ↔ ((i ≤ j + context) × (j ≤ i + context))
unfolding window
In-window j context count i below =
    let last = if ltb count (i + context + 1) then count else i + context + 1 in
    ground (arith, below, In-count_up j (i - context) (last - (i - context)))

In-insert_sorted : (j k : ℕ) (xs : List ℕ) → In j (insert_sorted k xs) ↔ ((j ≡ k) ⊎ In j xs)
unfolding insert_sorted
In-insert_sorted j k [] = (λ m. m, λ m. m)
In-insert_sorted j k (x ∷ xs) = ground (arith, In-insert_sorted j k xs)

In-add_hits : (j : ℕ) (ks hits : List ℕ) → In j (add_hits ks hits) ↔ (In j ks ⊎ In j hits)
unfolding add_hits
In-add_hits j [] hits = (λ m. inr m, elim [ inl m ↦ absurd m | inr m ↦ m ])
In-add_hits j (k ∷ ks) hits =
    ground (arith, In-add_hits j ks hits, In-insert_sorted j k (add_hits ks hits))

In-hits_from :
    (is_hit : String → Bool) (context count j i : ℕ) (lines : List String)
    → j < count
    → In j (hits_from is_hit context count i lines) ↔ Near is_hit context j i lines
unfolding hits_from
In-hits_from is_hit context count j i [] below = (λ m. m, λ m. m)
In-hits_from is_hit context count j i (line ∷ lines) below =
    let rest = hits_from is_hit context count (suc i) lines in
    ground (
      arith,
      In-hits_from is_hit context count j (suc i) lines below,
      In-add_hits j (window context count i) rest,
      In-window j context count i below,
    )

shown-blocks_of : (xs : List ℕ) → shown (blocks_of xs) ≡ xs
unfolding blocks_of
shown-blocks_of [] = refl
shown-blocks_of (i ∷ is) = go (blocks_of is) (shown-blocks_of is)
  where
    go :
        (bs : List (List ℕ))
        → shown bs ≡ is
        → shown (elim bs [
          | [] ↦ (i ∷ []) ∷ []
          | b ∷ rest ↦ elim b [
            | [] ↦ (i ∷ []) ∷ rest
            | j ∷ js ↦ if ltb (i + 1) j then (i ∷ []) ∷ (j ∷ js) ∷ rest else (i ∷ j ∷ js) ∷ rest
          ]
        ])
          ≡ i ∷ is
    go [] e = ap (λ l. i ∷ l) e
    go ([] ∷ bs) e = ap (λ l. i ∷ l) e
    go ((j ∷ js) ∷ bs) e = elim (Bool-cases (ltb (i + 1) j)) [
      | inl gap ↦ rw gap (ap (λ l. i ∷ l) e)
      | inr joined ↦ rw joined (ap (λ l. i ∷ l) e)
    ]

IsFrom-insert_sorted :
    (lo k : ℕ) (xs : List ℕ) → lo ≤ k → IsFrom lo xs → IsFrom lo (insert_sorted k xs)
unfolding insert_sorted
IsFrom-insert_sorted lo k [] h f = (h, tt)
IsFrom-insert_sorted lo k (x ∷ xs) h f = elim (Bool-cases (k == x)) [
  | inl same ↦ rw same f
  | inr other ↦ elim (Bool-cases (ltb k x)) [
    | inl before ↦ rw (other, before) (h, (ground (arith, before), f.1))
    | inr behind ↦
        rw (other, behind)
          (f.0, IsFrom-insert_sorted (suc x) k xs (ground (arith, other, behind)) f.1)
  ]
]

IsFrom-add_hits : (ks hits : List ℕ) → IsFrom 0 hits → IsFrom 0 (add_hits ks hits)
unfolding add_hits
IsFrom-add_hits [] hits f = f
IsFrom-add_hits (k ∷ ks) hits f =
    IsFrom-insert_sorted 0 k (add_hits ks hits) (omega arith) (IsFrom-add_hits ks hits f)

IsFrom-hits_from :
    (is_hit : String → Bool) (context count i : ℕ) (lines : List String)
    → IsFrom 0 (hits_from is_hit context count i lines)
unfolding hits_from
IsFrom-hits_from is_hit context count i [] = tt
IsFrom-hits_from is_hit context count i (line ∷ lines) =
    let rest = IsFrom-hits_from is_hit context count (suc i) lines in
    elim (Bool-cases (is_hit line)) [
      | inl hit ↦ rw (hit, hits_from) (IsFrom-add_hits (window context count i) _ rest)
      | inr miss ↦ rw (miss, hits_from) rest
    ]

-- The blocks of a sorted list are runs, with a gap between each two.
blocks_of-IsApart :
    (lo : ℕ) (xs : List ℕ) → IsFrom lo xs → All IsRun (blocks_of xs) × IsApart (blocks_of xs)
unfolding blocks_of
blocks_of-IsApart lo [] f = (tt, tt)
blocks_of-IsApart lo (i ∷ is) f =
    go (blocks_of is) (shown-blocks_of is) (blocks_of-IsApart (suc i) is f.1)
  where
    go :
        (bs : List (List ℕ))
        → shown bs ≡ is
        → All IsRun bs × IsApart bs
        → let joined = elim bs as (λ x. List (List ℕ)) [
          | [] ↦ (i ∷ []) ∷ []
          | b ∷ rest ↦ elim b as (λ x. List (List ℕ)) [
            | [] ↦ (i ∷ []) ∷ rest
            | j ∷ js ↦ if ltb (i + 1) j then (i ∷ []) ∷ (j ∷ js) ∷ rest else (i ∷ j ∷ js) ∷ rest
          ]
        ] in
          All IsRun joined × IsApart joined
    go [] e h = ((tt, tt), tt)
    go ([] ∷ bs) e h = absurd h.1
    go ((j ∷ js) ∷ bs) e h =
        let above : suc i ≤ j = (subst (IsFrom (suc i)) (sym e) f.1).0 in
        elim (Bool-cases (ltb (i + 1) j)) [
          | inl gap ↦ rw gap ((tt, h.0), (ground (arith, gap), h.1))
          | inr near ↦ rw near (((ground (arith, near, above), h.0.0), h.0.1), widen js bs h.1)
        ]
      where
        widen :
            (js : List ℕ) (bs : List (List ℕ))
            → IsApart ((j ∷ js) ∷ bs)
            → IsApart ((i ∷ j ∷ js) ∷ bs)
        widen js [] h = tt
        widen js ([] ∷ bs) h = h
        widen js ((k ∷ ks) ∷ bs) h = h

-- The lines that a search shows: those within the context of a hit and no other, in blocks of lines
-- that follow one another, with a line that is not shown between each two blocks.
pub context_blocks_lem :
    (is_hit : String → Bool) (context j : ℕ) (lines : List String)
    → j < length lines
    → (In j (shown (context_blocks is_hit context lines)) ↔ Near is_hit context j 0 lines)
      × All IsRun (context_blocks is_hit context lines)
      × IsApart (context_blocks is_hit context lines)
unfolding context_blocks
context_blocks_lem is_hit context j lines below =
    let hits = hits_from is_hit context (length lines) 0 lines in
    let same = shown-blocks_of hits in
    let (runs, apart) =
      blocks_of-IsApart 0 hits (IsFrom-hits_from is_hit context (length lines) 0 lines) in
    (
      subst (λ xs. In j xs ↔ Near is_hit context j 0 lines) (sym same)
          (In-hits_from is_hit context (length lines) j 0 lines below),
      runs,
      apart,
    )
