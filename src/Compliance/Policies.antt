-- ===== src/Compliance/Policies.antt =====
-- What `evaluate_policy` and `run_policy_for_devices` of src/kiroku/compliance.py return.
use text.Mathlib.TextEquality.{eq_iff}
use bmu.Prelude.{ℕ, String, ◌≡◌, ◌≢◌, ◌↔◌, refl, Bool, true, not, List, [], ◌∷◌, arith}
use bmu.Prelude.{Option, none, some, ok, err, ◌>>=◌, Some, ◌&&◌}
use bmu.Prelude.{
  All₂-map, sym, ◌∙◌, ◌⊎◌, keep_ok, All₂, map_ok-All₂, Some-All₂, Result-cases, ◌==◌, string_eq,
  inl, inr, map_ok, any, any_iff, Some-map,
}
use bmu.Runtime.{Runtime, Row}
use bmu.Parsers.{Engines, Parsed, parse}
use bmu.Models.Compliance.{ComplianceCheck, CompliancePolicy}
use bmu.Compliance.{
  Detail, satisfies, CheckOutcome, PolicyResult, evaluate_check, rows_of, overall, evaluate_policy,
}
use bmu.Compliance.{device_result, run_policy_for_devices}

module _ (py : Runtime) where
  abbrev Escalates : CheckOutcome py → Type 0
  Escalates o = (o.status ≡ "fail") × (o.severity ≢ "info")

  abbrev critical : CheckOutcome py → Bool
  critical o = o.status == "fail" && o.severity == "critical"

  abbrev escalates : CheckOutcome py → Bool
  escalates o = o.status == "fail" && not (o.severity == "info")

  escalates_of_critical : (o : CheckOutcome py) → critical o ≡ true → escalates o ≡ true
  escalates_of_critical o h =
      ground
        (arith, eq_iff o.severity "critical", eq_iff o.severity "info", eq_iff "critical" "info")

  any-escalates : (os : List (CheckOutcome py)) → any critical os ≡ true → any escalates os ≡ true
  any-escalates [] h = h
  any-escalates (o ∷ os) h = ground (arith, escalates_of_critical o, any-escalates os)

  escalates_test : (o : CheckOutcome py) → (escalates o ≡ true) ↔ Escalates o
  escalates_test o = ground (arith, eq_iff o.status "fail", eq_iff o.severity "info")

  overall-any : (os : List (CheckOutcome py)) → (overall py os ≡ "fail") ↔ (any escalates os ≡ true)
  unfolding overall
  overall-any os =
      ground (arith, any-escalates os, eq_iff (overall py os) "fail", eq_iff "pass" "fail")

  overall_iff : (os : List (CheckOutcome py)) → (overall py os ≡ "fail") ↔ Some Escalates os
  overall_iff os = (
    λ h.
        Some-map _ Escalates os (λ o. (escalates_test o).0)
          ((any_iff escalates os).0 ((overall-any os).0 h)),
    λ h.
        (overall-any os).1
          ((any_iff escalates os).1 (Some-map Escalates _ os (λ o. (escalates_test o).1) h)),
  )

  severity_lem :
      (c : ComplianceCheck) (rows : List (Row py)) (o : CheckOutcome py)
      → evaluate_check py c rows ≡ ok o
      → o.severity ≡ c.severity
  unfolding evaluate_check
  severity_lem c [] o h = ground arith
  severity_lem c (r ∷ rs) o h = elim (Result-cases (keep_ok (λ x. satisfies py x c) (r ∷ rs))) [
    | inr (e, bad) ↦ absurd (ground (arith, bad))
    | inl (ys, good) ↦
        elim (Result-cases (keep_ok (λ x. do b ← satisfies py x c; ok (not b)) (r ∷ rs))) [
          | inr (e, bad) ↦ absurd (ground (arith, good, bad))
          | inl (zs, good') ↦ ground (arith, good, good')
        ]
  ]

  -- The check fails on the rows, and its severity is not "info".
  abbrev pub Fails : List (Row py) → ComplianceCheck → Type 0
  Fails rows c =
      (c.severity ≢ "info")
      × ((o : CheckOutcome py) × (evaluate_check py c rows ≡ ok o) × (o.status ≡ "fail"))

  Fails-iff :
      (rows : List (Row py)) (c : ComplianceCheck) (o : CheckOutcome py)
      → evaluate_check py c rows ≡ ok o
      → Fails rows c ↔ Escalates o
  Fails-iff rows c o h = (
    λ f. (ground (arith, f.1.1, f.1.2), λ e. f.0 (sym (severity_lem c rows o h) ∙ e)),
    λ x. (λ e. x.1 (severity_lem c rows o h ∙ e), (o, h, x.0)),
  )

  Escalates-iff :
      (rows : List (Row py)) (cs : List ComplianceCheck) (os : List (CheckOutcome py))
      → map_ok (λ c. evaluate_check py c rows) cs ≡ ok os
      → Some (Fails rows) cs ↔ Some Escalates os
  Escalates-iff rows cs os h =
      Some-All₂ (λ c o. evaluate_check py c rows ≡ ok o) (Fails rows) Escalates cs os
        (Fails-iff rows) (map_ok-All₂ (λ c. evaluate_check py c rows) cs os h)

  overall_two : (os : List (CheckOutcome py)) → (overall py os ≡ "fail") ⊎ (overall py os ≡ "pass")
  unfolding overall
  overall_two os = ground arith

  -- A policy whose text parses has the status "fail" exactly when one of its checks fails on the
  -- parsed rows and has another severity than "info", and else the status "pass".
  pub evaluate_policy_lem :
      (engines : Engines py) (policy : CompliancePolicy) (content status : String)
      (parsed : Parsed py) (details : List (Detail py))
      → parse py engines (some policy.parser_type) (some policy.parser_body) content ≡ ok parsed
      → evaluate_policy py engines policy content ≡ ok (status, details)
      → ((status ≡ "fail") ↔ Some (Fails (rows_of py parsed)) policy.checks)
        × ((status ≡ "fail") ⊎ (status ≡ "pass"))
  unfolding evaluate_policy
  evaluate_policy_lem engines policy content status parsed details p h =
      elim (Result-cases (map_ok (λ c. evaluate_check py c (rows_of py parsed)) policy.checks)) [
        | inr (e, bad) ↦ absurd (ground (arith, p, bad))
        | inl (os, good) ↦
            let same : status ≡ overall py os = ground (arith, p, good) in
            let fails = Escalates-iff (rows_of py parsed) policy.checks os good in
            rw same (
              (λ h. fails.1 ((overall_iff os).0 h), λ h. (overall_iff os).1 (fails.0 h)),
              overall_two os,
            )
      ]

  -- A policy has the status "error" exactly when parsing its text raised.
  pub evaluate_policy_error :
      (engines : Engines py) (policy : CompliancePolicy) (content status : String)
      (details : List (Detail py))
      → evaluate_policy py engines policy content ≡ ok (status, details)
      → (status ≡ "error") ↔ (
          (e : String) × (parse py engines
              (some policy.parser_type)
              (some policy.parser_body)
              content
            ≡ err e))
  unfolding evaluate_policy
  evaluate_policy_error engines policy content status details h =
      elim (Result-cases
        (parse py engines (some policy.parser_type) (some policy.parser_body) content)) [
          | inr (e, bad) ↦ (λ _. (e, bad), λ _. ground (arith, bad))
          | inl (parsed, good) ↦ (
            λ s.
                absurd
                  (elim (evaluate_policy_lem engines policy content status parsed details good
                    h).1 [
                      | inl f ↦ ground (arith, eq_iff "error" "fail")
                      | inr f ↦ ground (arith, eq_iff "error" "pass")
                    ]),
            λ x. absurd (ground (arith, x.1)),
          )
        ]

  status-ne-skip :
      (engines : Engines py) (policy : CompliancePolicy) (content status : String)
      (details : List (Detail py))
      → evaluate_policy py engines policy content ≡ ok (status, details)
      → status ≢ "skip"
  unfolding evaluate_policy
  status-ne-skip engines policy content status details h s =
      elim (Result-cases
        (parse py engines (some policy.parser_type) (some policy.parser_body) content)) [
          | inr (e, bad) ↦ ground (
            arith,
            (evaluate_policy_error engines policy content status details h).1 (e, bad),
            eq_iff "skip" "error",
          )
          | inl (parsed, good) ↦
              elim (evaluate_policy_lem engines policy content status parsed details good h).1 [
                | inl f ↦ ground (arith, eq_iff "skip" "fail")
                | inr f ↦ ground (arith, eq_iff "skip" "pass")
              ]
        ]

  -- The result belongs to the pair: same device, and skipped exactly if there is no text.
  abbrev pub Answers : ℕ × Option String → PolicyResult py → Type 0
  Answers (device_id, content) r =
      (r.device_id ≡ device_id) × ((r.status ≡ "skip") ↔ (content ≡ none))

  device_result-Answers :
      (engines : Engines py) (now : ℕ) (policy : CompliancePolicy) (pair : ℕ × Option String)
      (r : PolicyResult py)
      → device_result py engines now policy pair ≡ ok r
      → Answers pair r
  unfolding device_result
  device_result-Answers engines now policy (d, none) r h =
      (ground arith, (λ _. refl, λ _. ground arith))
  device_result-Answers engines now policy (d, some content) r h =
      elim (Result-cases (evaluate_policy py engines policy content)) [
        | inr (e, bad) ↦ absurd (ground (arith, bad))
        | inl ((status, details), good) ↦ (
          ground (arith, good),
          (
            λ s.
                absurd (
                  status-ne-skip engines policy content status details good (ground (arith, good))),
            λ e. absurd (cc),
          ),
        )
      ]

  -- A run that returns has one result for each device, in the order of the devices. A device is
  -- skipped exactly when it has no stored text.
  pub run_policy_for_devices-Answers :
      (engines : Engines py) (now : ℕ) (policy : CompliancePolicy)
      (pairs : List (ℕ × Option String)) (rs : List (PolicyResult py))
      → run_policy_for_devices py engines now policy pairs ≡ ok rs
      → All₂ Answers pairs rs
  unfolding run_policy_for_devices
  run_policy_for_devices-Answers engines now policy pairs rs h =
      All₂-map _ Answers pairs rs (device_result-Answers engines now policy)
        (map_ok-All₂ (device_result py engines now policy) pairs rs h)
