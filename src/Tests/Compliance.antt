-- ===== src/Tests/Compliance.antt =====
-- The theorems on the checks, the policies, the parsers and the queue, at concrete inputs.
use bmu.Prelude.{◌≡◌, ◌≢◌, ◌↔◌, refl, String, Option, none, some, List, [], ◌∷◌, arith, map}
use bmu.Prelude.{
  if◌then◌else◌, ◌==◌, string_eq, not, holds, nat_eq, ok, err, Some, All, All₂, In, Distinct,
  keep_ok, map_ok, inl, inr, ◌⊎◌, or_else, keep,
}
use bmu.Runtime.{Row, row_get, row_set}
use bmu.Parsers.{Parsed, dict, listing, zip_dict, textfsm, parse, clean}
use bmu.Parsers.Tables.{parse_textfsm}
use text.Mathlib.TextEquality.{eq_iff}
use bmu.Compliance.{
  outcome, CheckOutcome, PolicyResult, evaluate_check, mode_passes, satisfies, test_value, value_of,
  ordered, compare_floats, evaluate_policy, overall, rows_of, dicts, run_policy_for_devices,
  device_result, scoped_device_ids, upsert_compliance_results,
}
use bmu.Compliance.Checks.{
  Accepts, Rejects, evaluate_check_any, evaluate_check-All, evaluate_check_none, failing_rows_lem,
}
use bmu.Compliance.Policies.{
  Fails, Answers, evaluate_policy_lem, evaluate_policy_error, run_policy_for_devices-Answers,
}
use bmu.Compliance.Scope.{InGroups, ids, scoped_device_ids-In}
use bmu.Compliance.Results.{result_for, latest, result_for-upsert_compliance_results}
use bmu.Queue.{unpack, Entry}
use bmu.Queue.Unpack.{Carries, unpack_iff}
use bmu.Tests.Values.{python, engine, check_with, policy_with, group, device_with}

abbrev old_row : Row python
old_row = ("host", "r1") ∷ ("version", "1") ∷ []

abbrev new_row : Row python
new_row = ("host", "r2") ∷ ("version", "2") ∷ []

abbrev outcome_of : String → String → List (Row python) → CheckOutcome python
outcome_of mode status failing = record {
  check_id = 1;
  name = "version";
  field = "version";
  operator = "ge";
  expected = some "2";
  mode = mode;
  severity = "warning";
  description = none;
  status = status;
  failing_rows = failing;
}

outcome_any :
    evaluate_check python (check_with "ge" "2" "any") (old_row ∷ new_row ∷ [])
    ≡ ok (outcome_of "any" "pass" [])
unfolding evaluate_check mode_passes satisfies test_value value_of ordered compare_floats row_get
    keep_ok
outcome_any = refl

outcome_all :
    evaluate_check python (check_with "ge" "2" "all") (old_row ∷ new_row ∷ [])
    ≡ ok (outcome_of "all" "fail" (old_row ∷ []))
unfolding evaluate_check mode_passes satisfies test_value value_of ordered compare_floats row_get
    keep_ok
outcome_all = refl

outcome_none :
    evaluate_check python (check_with "ge" "2" "none") (old_row ∷ [])
    ≡ ok (outcome_of "none" "pass" [])
unfolding evaluate_check mode_passes satisfies test_value value_of ordered compare_floats row_get
    keep_ok
outcome_none = refl

evaluate_check_any_example :
    ((outcome_of "any" "pass" []).status ≡ "pass")
    ↔ Some (Accepts python (check_with "ge" "2" "any")) (old_row ∷ new_row ∷ [])
evaluate_check_any_example =
    evaluate_check_any python (check_with "ge" "2" "any") (old_row ∷ new_row ∷ [])
      (outcome_of "any" "pass" []) refl outcome_any

evaluate_check-All_example : ((outcome_of "all" "fail" (old_row ∷ [])).status ≡ "pass") ↔ (
    (old_row ∷ new_row ∷ [] ≢ [])
    × All (Accepts python (check_with "ge" "2" "all")) (old_row ∷ new_row ∷ []))
evaluate_check-All_example =
    evaluate_check-All python (check_with "ge" "2" "all") (old_row ∷ new_row ∷ [])
      (outcome_of "all" "fail" (old_row ∷ [])) refl outcome_all

evaluate_check_none_example :
    ((outcome_of "none" "pass" []).status ≡ "pass")
    ↔ All (Rejects python (check_with "ge" "2" "none")) (old_row ∷ [])
evaluate_check_none_example =
    evaluate_check_none python (check_with "ge" "2" "none") (old_row ∷ [])
      (outcome_of "none" "pass" []) refl outcome_none

failing_rows_example :
    old_row ∷ []
    ≡ keep
        (λ r. not (holds (satisfies python r (check_with "ge" "2" "all"))))
        (old_row ∷ new_row ∷ [])
failing_rows_example =
    failing_rows_lem python (check_with "ge" "2" "all") (old_row ∷ new_row ∷ [])
      (outcome_of "all" "fail" (old_row ∷ [])) outcome_all

abbrev failed_status : String
failed_status = "fail"

abbrev two_rows : Parsed python
two_rows = listing (dict old_row ∷ dict new_row ∷ [])

parsed_example :
    parse python engine (some "textfsm") (some "Value host") "show version" ≡ ok two_rows
unfolding parse textfsm zip_dict row_set clean
parsed_example = refl

policy_example :
    evaluate_policy python engine (policy_with (check_with "ge" "2" "all" ∷ [])) "show version"
    ≡ ok ("fail", outcome (outcome_of "all" "fail" (old_row ∷ [])) ∷ [])
unfolding evaluate_policy parse textfsm zip_dict row_set clean evaluate_check mode_passes satisfies
    test_value value_of ordered compare_floats row_get rows_of dicts overall map_ok keep_ok
policy_example = refl

evaluate_policy_example :
    ((failed_status ≡ "fail")
      ↔ Some (Fails python (rows_of python two_rows)) (check_with "ge" "2" "all" ∷ []))
    × ((failed_status ≡ "fail") ⊎ (failed_status ≡ "pass"))
evaluate_policy_example =
    evaluate_policy_lem python engine (policy_with (check_with "ge" "2" "all" ∷ [])) "show version"
      "fail" two_rows (outcome (outcome_of "all" "fail" (old_row ∷ [])) ∷ []) parsed_example
      policy_example

evaluate_policy_error_example : (failed_status ≡ "error") ↔ (
    (e : String) × (parse python engine (some "textfsm") (some "Value host") "show version"
      ≡ err e))
evaluate_policy_error_example =
    evaluate_policy_error python engine (policy_with (check_with "ge" "2" "all" ∷ []))
      "show version" "fail" (outcome (outcome_of "all" "fail" (old_row ∷ [])) ∷ []) policy_example

abbrev skipped : PolicyResult python
skipped = record { policy_id = 4; device_id = 1; evaluated_at = 50; status = "skip"; detail = [] }

abbrev failed_result : PolicyResult python
failed_result = record {
  policy_id = 4;
  device_id = 2;
  evaluated_at = 50;
  status = "fail";
  detail = outcome (outcome_of "all" "fail" (old_row ∷ [])) ∷ [];
}

devices_example :
    run_policy_for_devices python engine 50
      (policy_with (check_with "ge" "2" "all" ∷ []))
      ((1, none) ∷ (2, some "show version") ∷ [])
    ≡ ok (skipped ∷ failed_result ∷ [])
unfolding run_policy_for_devices device_result evaluate_policy parse textfsm zip_dict row_set clean
    evaluate_check mode_passes satisfies test_value value_of ordered compare_floats row_get rows_of
    dicts overall map_ok keep_ok
devices_example = refl

run_policy_for_devices_example :
    All₂ (Answers python) ((1, none) ∷ (2, some "show version") ∷ []) (skipped ∷ failed_result ∷ [])
run_policy_for_devices_example =
    run_policy_for_devices-Answers python engine 50 (policy_with (check_with "ge" "2" "all" ∷ []))
      ((1, none) ∷ (2, some "show version") ∷ []) (skipped ∷ failed_result ∷ []) devices_example

scoped_device_ids_example :
    Distinct (scoped_device_ids (policy_with []))
    × (In 2 (scoped_device_ids (policy_with []))
        ↔ (InGroups 2 (group ∷ []) ⊎ In 2 (ids (device_with 1 none ∷ []))))
scoped_device_ids_example = scoped_device_ids-In (policy_with []) 2

upserted_example :
    result_for python 4 2 (upsert_compliance_results python (skipped ∷ []) (failed_result ∷ []))
    ≡ or_else (latest python 4 2 (failed_result ∷ [])) (result_for python 4 2 (skipped ∷ []))
upserted_example =
    result_for-upsert_compliance_results python 4 2 (skipped ∷ []) (failed_result ∷ [])

host_version_Distinct : Distinct {A = String} ("host" ∷ "version" ∷ [])
host_version_Distinct =
    (elim [ inl e ↦ ground (arith, eq_iff "host" "version", e) | inr n ↦ n ], ((λ m. m), tt))

parse_textfsm_example :
    (ds : List (Row python)) × (parse python engine
        (some "textfsm")
        (some "Value host")
        "show version"
      ≡ ok (listing (map (λ d. dict d) ds)))
    × All₂
        (λ r d. All₂ (λ k v. row_get k d ≡ some v) ("host" ∷ "version" ∷ []) r)
        (("r1" ∷ "1" ∷ []) ∷ ("r2" ∷ "2" ∷ []) ∷ [])
        ds
parse_textfsm_example =
    parse_textfsm python engine "Value host" "show version" ("host" ∷ "version" ∷ [])
      (("r1" ∷ "1" ∷ []) ∷ ("r2" ∷ "2" ∷ []) ∷ []) refl refl host_version_Distinct
      (refl, (refl, tt))

-- A decoder that refuses one text.
abbrev load : String → Option String
load s = if s == "bad" then none else some s

unpack_example :
    In
      ("1-1", "r1")
      (unpack load
        (("jobs", ("1-0", ("data", "bad") ∷ []) ∷ ("1-1", ("data", "r1") ∷ []) ∷ []) ∷ []))
    ↔ Some
        (λ (stream : String × List Entry). Some (Carries load "1-1" "r1") stream.1)
        (("jobs", ("1-0", ("data", "bad") ∷ []) ∷ ("1-1", ("data", "r1") ∷ []) ∷ []) ∷ [])
unpack_example =
    unpack_iff load "1-1" "r1"
      (("jobs", ("1-0", ("data", "bad") ∷ []) ∷ ("1-1", ("data", "r1") ∷ []) ∷ []) ∷ [])
