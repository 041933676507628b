-- ===== src/Recorder/DiffNumbers.antt =====
-- The line numbers that `diff_commits` of src/kiroku/recorder/git_store.py gives.
use text.Mathlib.Text.{starts_with}
use bmu.Prelude.{ℕ, zero, suc, ◌+◌, ◌≡◌, refl, String, Bool, true, false, Option, none, some}
use bmu.Prelude.{List, [], ◌∷◌, tally, All, if◌then◌else◌, arith, Bool-cases, ap, ◌∙◌, inl, inr}
use bmu.Recorder.Diff.{
  DiffRow, drop_newlines, hunk_start, hunk_numbers, is_hunk, is_file, on_old, on_new, body_row,
  diff_rows, step,
}

-- The numbers of the rows that have one, in the old or in the new file.
abbrev pub numbers : (DiffRow → Option ℕ) → List DiffRow → List ℕ
numbers f [] = []
numbers f (r ∷ rs) = let rest = numbers f rs in elim (f r) [ none ↦ rest | some n ↦ n ∷ rest ]

abbrev pub count_from : ℕ → ℕ → List ℕ
count_from start zero = []
count_from start (suc k) = start ∷ count_from (suc start) k

abbrev pub old_of : DiffRow → Option ℕ
old_of r = r.old_no

abbrev pub new_of : DiffRow → Option ℕ
new_of r = r.new_no

-- A line of a hunk.
abbrev pub IsBody : String → Type 0
IsBody line = (is_hunk (drop_newlines line) ≡ false) × (is_file (drop_newlines line) ≡ false)

abbrev pub old_lines : List String → ℕ
old_lines lines = tally (λ l. on_old (drop_newlines l)) lines

abbrev pub new_lines : List String → ℕ
new_lines lines = tally (λ l. on_new (drop_newlines l)) lines

body_row-numbers :
    (o n : ℕ) (text : String)
    → ((body_row o n text).old_no ≡ (if on_old text then some o else none))
      × ((body_row o n text).new_no ≡ (if on_new text then some n else none))
unfolding body_row on_old on_new
body_row-numbers o n text = elim (Bool-cases (starts_with text "-")) [
  | inl minus ↦ (ground (arith, minus), ground (arith, minus))
  | inr other ↦ elim (Bool-cases (starts_with text "+")) [
    | inl plus ↦ (ground (arith, other, plus), ground (arith, other, plus))
    | inr plain ↦ (ground (arith, other, plain), ground (arith, other, plain))
  ]
]

-- One row in front of rows that are numbered.
numbers-counted :
    (f : DiffRow → Option ℕ) (here : Bool) (n : ℕ) (r : DiffRow) (rs : List DiffRow) (k : ℕ)
    → f r ≡ (if here then some n else none)
    → numbers f rs ≡ count_from (step here n) k
    → numbers f (r ∷ rs) ≡ count_from n ((if here then 1 else 0) + k)
numbers-counted f true n r rs k first rest = ground (arith, first, rest)
numbers-counted f false n r rs k first rest = ground (arith, first, rest)

module _ (abs_int : String → Option ℕ) where
  diff_rows-numbers :
      (o n : ℕ) (lines : List String)
      → All IsBody lines
      → (numbers old_of (diff_rows abs_int o n lines) ≡ count_from o (old_lines lines))
        × (numbers new_of (diff_rows abs_int o n lines) ≡ count_from n (new_lines lines))
  unfolding diff_rows
  diff_rows-numbers o n [] h = (refl, refl)
  diff_rows-numbers o n (l ∷ ls) h =
      let text = drop_newlines l in
      let (old, new) = body_row-numbers o n text in
      let o' = step (on_old text) o in
      let n' = step (on_new text) n in
      let rest = diff_rows abs_int o' n' ls in
      let shown : diff_rows abs_int o n (l ∷ ls) ≡ body_row o n text ∷ rest =
        ground (arith, h.0.0, h.0.1) in
      let (olds, news) = diff_rows-numbers o' n' ls h.1 in
      (
        ap (numbers old_of) shown
            ∙ numbers-counted old_of (on_old text) o (body_row o n text) rest (old_lines ls) old
                olds,
        ap (numbers new_of) shown
            ∙ numbers-counted new_of (on_new text) n (body_row o n text) rest (new_lines ls) new
                news,
      )

  -- A header of a hunk whose two numbers read, and lines after it none of which is a header or begins
  -- with --- or +++: the rows of the old
  -- file are numbered from the first number on without a gap, as many as there are lines of that
  -- side, and so are those of the new file from the second.
  pub diff_rows_lem :
      (o n old_no new_no : ℕ) (head : String) (lines : List String)
      → is_hunk (drop_newlines head) ≡ true
      → hunk_start abs_int 1 (drop_newlines head) ≡ some o
      → hunk_start abs_int 2 (drop_newlines head) ≡ some n
      → All IsBody lines
      → (numbers old_of (diff_rows abs_int old_no new_no (head ∷ lines))
          ≡ count_from o (old_lines lines))
        × (numbers new_of (diff_rows abs_int old_no new_no (head ∷ lines))
            ≡ count_from n (new_lines lines))
  unfolding diff_rows hunk_numbers
  diff_rows_lem o n old_no new_no head lines hunk first second body =
      let (olds, news) = diff_rows-numbers o n lines body in
      (ground (arith, hunk, first, second, olds), ground (arith, hunk, first, second, news))
