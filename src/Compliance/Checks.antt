-- ===== src/Compliance/Checks.antt =====
-- What `_evaluate_check` of src/kiroku/compliance.py decides, mode by mode.
use text.Mathlib.TextEquality.{eq_iff}
use bmu.Prelude.{
  keep-All_iff, ap, ltb, nat_eq, ℕ, String, ◌≡◌, ◌≢◌, ◌↔◌, refl, Bool, true, false, not, List, [],
  ◌∷◌, arith,
}
use bmu.Prelude.{ok, holds, Returns, length, keep, keep_ok, All, Some, if◌then◌else◌}
use bmu.Prelude.{
  keep_ok-Returns, keep_ok-Returns-not, Returns-keep_ok, keep-Some_iff, keep_none_iff,
}
use bmu.Prelude.{Some-map, All-map, All-zip, Result-cases, ◌==◌, string_eq, inl, inr}
use bmu.Runtime.{Runtime, Row}
use bmu.Models.Compliance.{ComplianceCheck}
use bmu.Compliance.{CheckOutcome, status_text, satisfies, mode_passes, evaluate_check}

status_text_iff : (b : Bool) → (status_text b ≡ "pass") ↔ (b ≡ true)
status_text_iff true = (λ h. refl, λ h. refl)
status_text_iff false = (λ h. absurd (ne h), λ h. cc)
  where
    ne : ¬ (◌≡◌ {A = String} "fail" "pass")
    ne = ground (arith, eq_iff "fail" "pass")

mode_passes_any : (mode : String) (s f : ℕ) → mode ≡ "any" → mode_passes mode s f ≡ ltb 0 s
unfolding mode_passes
mode_passes_any mode s f m = rw m

mode_passes_all : (mode : String) (s f : ℕ) → mode ≡ "all" → mode_passes mode s f ≡ (f == 0)
unfolding mode_passes
mode_passes_all mode s f m = rw m

mode_passes_none : (mode : String) (s f : ℕ) → mode ≡ "none" → mode_passes mode s f ≡ (s == 0)
unfolding mode_passes
mode_passes_none mode s f m = rw m

module _ (py : Runtime) (check : ComplianceCheck) where
  -- The row passes, or fails, the condition of the check.
  abbrev pub Accepts : Row py → Type 0
  Accepts row = satisfies py row check ≡ ok true

  abbrev pub Rejects : Row py → Type 0
  Rejects row = satisfies py row check ≡ ok false

  abbrev verdict : Row py → Bool
  verdict row = holds (satisfies py row check)

  Accepts-of : (row : Row py) → verdict row ≡ true → Accepts row
  Accepts-of row h = ground arith

  verdict_of : (row : Row py) → Accepts row → verdict row ≡ true
  verdict_of row h = ground arith

  Rejects-of :
      (row : Row py) → (verdict row ≡ false) × Returns (satisfies py row check) → Rejects row
  Rejects-of row h = ground (arith, h.1.1)

  refused_of : (row : Row py) → Rejects row → verdict row ≡ false
  refused_of row h = ground arith

  abbrev passes : List (Row py) → Bool
  passes rows =
      mode_passes check.mode (length (keep verdict rows))
        (length (keep (λ r. not (verdict r)) rows))

  -- The outcome of a nonempty list of rows, by the rows that the condition selects.
  evaluate_check-parts :
      (r : Row py) (rs : List (Row py)) (o : CheckOutcome py)
      → evaluate_check py check (r ∷ rs) ≡ ok o
      → (o.status ≡ status_text (passes (r ∷ rs)))
        × (o.failing_rows ≡ (if passes (r ∷ rs) then [] else keep (λ x. not (verdict x)) (r ∷ rs)))
        × All (λ x. Returns (satisfies py x check)) (r ∷ rs)
  unfolding evaluate_check
  evaluate_check-parts r rs o h =
      elim (Result-cases (keep_ok (λ x. satisfies py x check) (r ∷ rs))) [
        | inr (e, bad) ↦ absurd (ground (arith, bad))
        | inl (ys, good) ↦
            let sound = Returns-keep_ok (λ x. satisfies py x check) (r ∷ rs) ys good in
            let e1 = keep_ok-Returns (λ x. satisfies py x check) (r ∷ rs) sound in
            let e2 = keep_ok-Returns-not (λ x. satisfies py x check) (r ∷ rs) sound in
            (ground (arith, e1, e2), ground (arith, e1, e2), sound)
      ]

  status_iff :
      (r : Row py) (rs : List (Row py)) (o : CheckOutcome py)
      → evaluate_check py check (r ∷ rs) ≡ ok o
      → (o.status ≡ "pass") ↔ (passes (r ∷ rs) ≡ true)
  status_iff r rs o h = rw (evaluate_check-parts r rs o h).0 (status_text_iff (passes (r ∷ rs)))

  empty_status :
      (o : CheckOutcome py)
      → evaluate_check py check [] ≡ ok o
      → (o.status ≡ "pass") ↔ ((check.mode == "none") ≡ true)
  unfolding evaluate_check
  empty_status o h = ground (arith, status_text_iff (check.mode == "none"))

  -- With mode "any" the check passes exactly when some row meets its condition.
  pub evaluate_check_any :
      (rows : List (Row py)) (o : CheckOutcome py)
      → check.mode ≡ "any"
      → evaluate_check py check rows ≡ ok o
      → (o.status ≡ "pass") ↔ Some Accepts rows
  evaluate_check_any [] o m h =
      ground (arith, empty_status o h, eq_iff check.mode "none", ap (λ t. t == "none") m)
  evaluate_check_any (r ∷ rs) o m h =
      let rows = r ∷ rs in
      let found = keep-Some_iff verdict rows in
      let decided : passes rows ≡ ltb 0 (length (keep verdict rows)) =
        mode_passes_any check.mode _ _ m in
      (
        λ good.
            Some-map (λ x. verdict x ≡ true) Accepts rows Accepts-of
              (found.0 (ground (arith, (status_iff r rs o h).0 good, decided))),
        λ some_row. (status_iff r rs o h).1 (
            ground (
              arith,
              found.1 (Some-map Accepts (λ x. verdict x ≡ true) rows verdict_of some_row),
              decided,
            )),
      )

  -- With mode "all" the check passes exactly when there is a row and every row meets its condition.
  pub evaluate_check-All :
      (rows : List (Row py)) (o : CheckOutcome py)
      → check.mode ≡ "all"
      → evaluate_check py check rows ≡ ok o
      → (o.status ≡ "pass") ↔ ((rows ≢ []) × All Accepts rows)
  evaluate_check-All [] o m h = (
    λ good. absurd (
        ground
          (arith, (empty_status o h).0 good, eq_iff check.mode "none", ap (λ t. t == "none") m)),
    λ rows. absurd (rows.0 refl),
  )
  evaluate_check-All (r ∷ rs) o m h =
      let rows = r ∷ rs in
      let found = keep-All_iff verdict rows in
      let decided : passes rows ≡ (length (keep (λ x. not (verdict x)) rows) == 0) =
        mode_passes_all check.mode _ _ m in
      (
        λ good. (
          λ e. cc,
          All-map (λ x. verdict x ≡ true) Accepts rows Accepts-of
              (found.0 (ground (arith, (status_iff r rs o h).0 good, decided))),
        ),
        λ every. (status_iff r rs o h).1 (
            ground (
              arith,
              found.1 (All-map Accepts (λ x. verdict x ≡ true) rows verdict_of every.1),
              decided,
            )),
      )

  -- With mode "none" the check passes exactly when every row fails its condition.
  pub evaluate_check_none :
      (rows : List (Row py)) (o : CheckOutcome py)
      → check.mode ≡ "none"
      → evaluate_check py check rows ≡ ok o
      → (o.status ≡ "pass") ↔ All Rejects rows
  evaluate_check_none [] o m h = (λ good. tt, λ every. (empty_status o h).1 (rw m))
  evaluate_check_none (r ∷ rs) o m h =
      let rows = r ∷ rs in
      let found = keep_none_iff verdict rows in
      let sound = (evaluate_check-parts r rs o h).2 in
      let decided : passes rows ≡ (length (keep verdict rows) == 0) =
        mode_passes_none check.mode _ _ m in
      (
        λ good. All-map _ Rejects rows Rejects-of (
            All-zip (λ x. verdict x ≡ false) (λ x. Returns (satisfies py x check)) rows
              (found.0 (ground (arith, (status_iff r rs o h).0 good, decided))) sound),
        λ every. (status_iff r rs o h).1 (
            ground (
              arith,
              found.1 (All-map Rejects (λ x. verdict x ≡ false) rows refused_of every),
              decided,
            )),
      )

  empty_rows : (o : CheckOutcome py) → evaluate_check py check [] ≡ ok o → o.failing_rows ≡ []
  unfolding evaluate_check
  empty_rows o h = ground arith

  -- The rows that a check reports are none if it passed, and else exactly the rows that do not meet
  -- its condition, in their order.
  pub failing_rows_lem :
      (rows : List (Row py)) (o : CheckOutcome py)
      → evaluate_check py check rows ≡ ok o
      → o.failing_rows
        ≡ (if o.status == "pass" then [] else keep (λ r. not (holds (satisfies py r check))) rows)
  failing_rows_lem [] o h = ground (arith, empty_rows o h)
  failing_rows_lem (r ∷ rs) o h =
      let (s, f, sound) = evaluate_check-parts r rs o h in
      ground (arith, status_iff r rs o h, f, eq_iff o.status "pass")
