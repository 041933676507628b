-- ===== src/Compliance.antt =====
-- src/kiroku/compliance.py
pub mod Checks
pub mod Policies
pub mod Scope
pub mod Results
use bmu.Prelude.{ℕ, zero, suc, String, Bool, true, false, ◌&&◌, ◌||◌, not, Option, none, some}
use bmu.Prelude.{List, [], ◌∷◌, ◌++◌, Result, ok, err, ◌>>=◌, keep_ok, map_ok, catch}
use bmu.Prelude.{ltb, length, any, contains, if◌then◌else◌, ◌==◌, nat_eq, string_eq}
use bmu.Text.{has_infix}
use bmu.Runtime.{Runtime, Row, row_get}
use bmu.Parsers.{Item, dict, other, Parsed, nothing, listing, mapping, Engines, parse}
use bmu.Models.Device.{Device, DeviceGroup}
use bmu.Models.Compliance.{ComplianceCheck, CompliancePolicy}

-- The dict that `_evaluate_check` returns.
pub record CheckOutcome (py : Runtime) : Type 0 where
  pub check_id : ℕ
  pub name : String
  pub field : String
  pub operator : String
  pub expected : Option String
  pub mode : String
  pub severity : String
  pub description : Option String
  pub status : String
  pub failing_rows : List (Row py)

-- An entry of the detail list: an outcome, or the text of a parse error.
pub data Detail (py : Runtime) : Type 0 where
  outcome : CheckOutcome py → Detail py
  parse_error : String → Detail py

-- The dict that `run_policy_for_devices` makes for each device.
pub record PolicyResult (py : Runtime) : Type 0 where
  pub policy_id : ℕ
  pub device_id : ℕ
  pub evaluated_at : ℕ
  pub status : String
  pub detail : List (Detail py)

-- `x or ""`
abbrev pub text_or_empty : Option String → String
text_or_empty none = ""
text_or_empty (some s) = s

abbrev pub status_text : Bool → String
status_text passed = if passed then "pass" else "fail"

-- The verdict of a mode, from the numbers of satisfying and of failing rows.
unfoldable pub mode_passes : String → ℕ → ℕ → Bool
mode_passes mode satisfying failing =
    if mode == "any"
    then ltb 0 satisfying
    else if mode == "all"
    then failing == 0
    else satisfying == 0

module _ (py : Runtime) where
  -- `a == b` after `_coerce`: as numbers if both texts are numbers.
  unfoldable pub coerced_eq : String → String → Result Bool
  coerced_eq a b = do
    left ← py.float (py.text a)
    elim left [
      | none ↦ ok (a == b)
      | some x ↦ do
        right ← py.float (py.text b)
        ok (elim right [ none ↦ a == b | some y ↦ py.feq x y ])
    ]

  -- The comparison of an order operator, once both sides are numbers.
  unfoldable pub compare_floats : String → py.Float → py.Float → Bool
  compare_floats op a b =
      if op == "gt"
      then py.flt b a
      else if op == "lt"
      then py.flt a b
      else if op == "ge"
      then py.fle b a
      else py.fle a b

  unfoldable pub ordered : String → py.Object → String → Result Bool
  unfolding compare_floats
  ordered op value expected = do
    left ← py.float value
    elim left [
      | none ↦ ok false
      | some a ↦ do
        right ← py.float (py.text expected)
        ok (elim right [ none ↦ false | some b ↦ compare_floats op a b ])
    ]

  -- `field in row and row[field] is not None and row[field] != ""`
  unfoldable pub present : Row py → String → Bool
  unfolding row_get
  present row field = elim (row_get field row) [
    | none ↦ false
    | some v ↦ not (py.is_none v) && not (py.is_text v "")
  ]

  -- `field not in row or row[field] is None or row[field] == ""`
  unfoldable pub missing : Row py → String → Bool
  unfolding row_get
  missing row field = elim (row_get field row) [
    | none ↦ true
    | some v ↦ py.is_none v || py.is_text v ""
  ]

  -- `row.get(field, "")`
  unfoldable pub value_of : Row py → String → py.Object
  unfolding row_get
  value_of row field = elim (row_get field row) [ none ↦ py.text "" | some v ↦ v ]

  -- The operators that look at the value of the field.
  unfoldable pub test_value : String → py.Object → String → Result Bool
  unfolding coerced_eq ordered has_infix
  test_value op value expected =
      if op == "eq"
      then coerced_eq (py.str value) expected
      else if op == "ne"
      then (do same ← coerced_eq (py.str value) expected; ok (not same))
      else if op == "contains"
      then ok (has_infix (py.lower expected) (py.lower (py.str value)))
      else if op == "not_contains"
      then ok (not (has_infix (py.lower expected) (py.lower (py.str value))))
      else if op == "regex"
      then py.re_search expected (py.str value)
      else if op == "gt" || op == "lt" || op == "ge" || op == "le"
      then ordered op value expected
      else ok false

  -- `_satisfies`
  unfoldable pub satisfies : Row py → ComplianceCheck → Result Bool
  unfolding present missing value_of test_value
  satisfies row check =
      if check.operator == "exists"
      then ok (present row check.field)
      else if check.operator == "not_exists"
      then ok (missing row check.field)
      else test_value check.operator (value_of row check.field) (text_or_empty check.expected)

  abbrev outcome_of : ComplianceCheck → Bool → List (Row py) → CheckOutcome py
  outcome_of check passed failing = record {
    check_id = check.id;
    name = check.name;
    field = check.field;
    operator = check.operator;
    expected = check.expected;
    mode = check.mode;
    severity = check.severity;
    description = check.description;
    status = status_text passed;
    failing_rows = failing;
  }

  -- `_evaluate_check`
  unfoldable pub evaluate_check : ComplianceCheck → List (Row py) → Result (CheckOutcome py)
  evaluate_check check [] = ok (outcome_of check (check.mode == "none") [])
  evaluate_check check (r ∷ rs) = do
    satisfying ← keep_ok (λ row. satisfies row check) (r ∷ rs)
    failing ← keep_ok (λ row. do b ← satisfies row check; ok (not b)) (r ∷ rs)
    let passed = mode_passes check.mode (length satisfying) (length failing)
    ok (outcome_of check passed (if not passed then failing else []))

  -- `[r for r in parsed if isinstance(r, dict)]`
  unfoldable pub dicts : List (Item py) → List (Row py)
  dicts [] = []
  dicts (dict r ∷ rest) = r ∷ dicts rest
  dicts (other o ∷ rest) = dicts rest

  unfoldable pub rows_of : Parsed py → List (Row py)
  unfolding dicts
  rows_of nothing = []
  rows_of (listing items) = dicts items
  rows_of (mapping d) = d ∷ []

  abbrev details : List (CheckOutcome py) → List (Detail py)
  details [] = []
  details (o ∷ os) = outcome o ∷ details os

  -- The overall status of the outcomes.
  unfoldable pub overall : List (CheckOutcome py) → String
  overall outcomes =
      let failed_critical = any (λ o. o.status == "fail" && o.severity == "critical") outcomes in
      let failed_any = any (λ o. o.status == "fail" && not (o.severity == "info")) outcomes in
      if failed_critical || failed_any then "fail" else "pass"

  module _ (engines : Engines py) where
    unfoldable pub evaluate_policy : CompliancePolicy → String → Result (String × List (Detail py))
    evaluate_policy policy content =
        catch (parse py engines (some policy.parser_type) (some policy.parser_body) content)
          (λ parsed. do
            outcomes ← map_ok (λ check. evaluate_check check (rows_of parsed)) policy.checks
            ok (overall outcomes, details outcomes))
          (λ message. ok ("error", parse_error message ∷ []))

    -- The result of one device.
    unfoldable pub device_result :
        ℕ → CompliancePolicy → ℕ × Option String → Result (PolicyResult py)
    device_result now policy (device_id, none) = ok (record {
      policy_id = policy.id;
      device_id = device_id;
      evaluated_at = now;
      status = "skip";
      detail = [];
    })
    device_result now policy (device_id, some content) = do
      (status, outcomes) ← evaluate_policy policy content
      ok (record {
        policy_id = policy.id;
        device_id = device_id;
        evaluated_at = now;
        status = status;
        detail = outcomes;
      })

    unfoldable pub run_policy_for_devices :
        ℕ → CompliancePolicy → List (ℕ × Option String) → Result (List (PolicyResult py))
    run_policy_for_devices now policy pairs = map_ok (device_result now policy) pairs

  -- `INSERT … ON CONFLICT (policy_id, device_id) DO UPDATE` into the table of results.
  unfoldable pub upsert : PolicyResult py → List (PolicyResult py) → List (PolicyResult py)
  upsert r [] = r ∷ []
  upsert r (row ∷ rest) =
      if row.policy_id == r.policy_id && row.device_id == r.device_id
      then record row { evaluated_at = r.evaluated_at; status = r.status; detail = r.detail } ∷ rest
      else row ∷ upsert r rest

  unfoldable pub upsert_compliance_results :
      List (PolicyResult py) → List (PolicyResult py) → List (PolicyResult py)
  unfolding upsert
  upsert_compliance_results table [] = table
  upsert_compliance_results table (r ∷ rs) = upsert_compliance_results (upsert r table) rs

-- The loops of `scoped_device_ids`: `seen` and `result` hold the same ids.
unfoldable pub add_unseen : List ℕ → List Device → List ℕ
add_unseen result [] = result
add_unseen result (d ∷ ds) =
    add_unseen (if contains d.id result then result else result ++ d.id ∷ []) ds

unfoldable pub add_groups : List ℕ → List DeviceGroup → List ℕ
unfolding add_unseen
add_groups result [] = result
add_groups result (g ∷ gs) = add_groups (add_unseen result g.devices) gs

unfoldable pub scoped_device_ids : CompliancePolicy → List ℕ
unfolding add_groups
scoped_device_ids policy = add_unseen (add_groups [] policy.device_groups) policy.devices
