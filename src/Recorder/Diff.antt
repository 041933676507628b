-- ===== src/Recorder/Diff.antt =====
-- `diff_commits` of src/kiroku/recorder/git_store.py: the rows that it makes of the lines of
-- `difflib.unified_diff`. `abs(int(s))` of a text is a parameter, which fails where `int` raises.
use text.Mathlib.Text.{starts_with}
use bmu.Prelude.{ℕ, zero, suc, String, Bool, ◌||◌, ◌&&◌, not, Option, none, some}
use bmu.Prelude.{List, [], ◌∷◌, if◌then◌else◌, ◌==◌, nat_eq}
use bmu.Text.{is_empty, split_once}
use Prim.Native.Char.{code}

pub data RowKind : Type 0 where
  context added removed header : RowKind

pub record DiffRow : Type 0 where
  pub kind : RowKind
  pub old_no : Option ℕ
  pub new_no : Option ℕ
  pub text : String

-- `line.rstrip("\n")`
unfoldable pub drop_newlines : String → String
drop_newlines String.[] = ""
drop_newlines (String.◌∷◌ c s) =
    let rest = drop_newlines s in if is_empty rest && code c == 10 then "" else String.◌∷◌ c rest

-- `text[1:]`
abbrev pub tail : String → String
tail String.[] = ""
tail (String.◌∷◌ c s) = s

-- `text.split(sep)[i]`, if there are so many parts.
unfoldable pub part : ℕ → ℕ → String → Option String
unfolding split_once
part sep zero s = some (elim (split_once sep s) [ none ↦ s | some (front, back) ↦ front ])
part sep (suc i) s = elim (split_once sep s) [ none ↦ none | some (front, back) ↦ part sep i back ]

unfoldable pub is_hunk : String → Bool
is_hunk text = starts_with text "@@"

unfoldable pub is_file : String → Bool
is_file text = starts_with text "---" || starts_with text "+++"

abbrev heading : String → DiffRow
heading text = record { kind = header; old_no = none; new_no = none; text = text }

-- A row of a hunk.
unfoldable pub body_row : ℕ → ℕ → String → DiffRow
body_row old_no new_no text =
    if starts_with text "-"
    then record { kind = removed; old_no = some old_no; new_no = none; text = tail text }
    else if starts_with text "+"
    then record { kind = added; old_no = none; new_no = some new_no; text = tail text }
    else record {
      kind = context;
      old_no = some old_no;
      new_no = some new_no;
      text = if starts_with text " " then tail text else text;
    }

unfoldable pub on_old : String → Bool
on_old text = starts_with text "-" || not (starts_with text "+")

unfoldable pub on_new : String → Bool
on_new text = not (starts_with text "-")

abbrev pub step : Bool → ℕ → ℕ
step b n = if b then suc n else n

module _ (abs_int : String → Option ℕ) where
  -- The number of one side in the header of a hunk.
  unfoldable pub hunk_start : ℕ → String → Option ℕ
  unfolding part
  hunk_start i text = elim (part b' ' i text) [
    | none ↦ none
    | some range ↦ elim (part b',' 0 range) [ none ↦ none | some start ↦ abs_int start ]
  ]

  -- The numbers after the header of a hunk: the first text that does not read leaves the rest.
  unfoldable pub hunk_numbers : String → ℕ → ℕ → ℕ × ℕ
  hunk_numbers text old_no new_no = elim (hunk_start 1 text) [
    | none ↦ (old_no, new_no)
    | some o ↦ elim (hunk_start 2 text) [ none ↦ (o, new_no) | some n ↦ (o, n) ]
  ]

  -- The loop over the lines, with the next numbers of both sides.
  unfoldable pub diff_rows : ℕ → ℕ → List String → List DiffRow
  diff_rows old_no new_no [] = []
  diff_rows old_no new_no (line ∷ lines) =
      let text = drop_newlines line in
      let (o, n) = hunk_numbers text old_no new_no in
      if is_hunk text
      then heading text ∷ diff_rows o n lines
      else if is_file text
      then heading text ∷ diff_rows old_no new_no lines
      else body_row old_no new_no text
        ∷ diff_rows (step (on_old text) old_no) (step (on_new text) new_no) lines
