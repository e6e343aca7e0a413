-- ===== src/Control/Steps.antt =====
-- `StopScenario` and `StopCurrentTest` (step.go): how a step asks that its scenario, another one, or the
-- test is stopped; with `firstNonBlank` (runtime_facade_support.go).
use loadstrike_go.Prelude.{
  ℕ, ◌+◌, Bool, true, not, List, [], ◌∷◌, Bytes, Option, none, some, trim_space, is_blank,
  if◌then◌else◌,
}
use loadstrike_go.Control.{ExecutionControl, stop_test, stop_scenario}

-- What the two methods read and write of a `stepRuntimeContext`; `scenario_cancellations` counts the
-- calls of `scenarioCancel`, and is `none` where that is nil.
pub record StepControl : Type 0 where
  pub scenario_name : Bytes
  pub stop_requested : Bool
  pub stop_scenario_name : Bytes
  pub stop_scenario_reason : Bytes
  pub stop_current_test : Bool
  pub stop_current_test_reason : Bytes
  pub execution_control : Option ExecutionControl
  pub scenario_cancellations : Option ℕ

unfoldable pub first_non_blank : List Bytes → Bytes
unfolding is_blank
first_non_blank [] = []
first_non_blank (value ∷ values) =
    let rest = first_non_blank values in if not (is_blank value) then value else rest

-- The name and the reason that the arguments give.
unfoldable pub named_scenario : Bytes → List Bytes → Bytes × Bytes
named_scenario own [] = (own, [])
named_scenario own (reason ∷ []) = (own, reason)
named_scenario own (name ∷ reason ∷ more) = (name, reason)

abbrev pub cancel_scenario : Option ℕ → Option ℕ
cancel_scenario none = none
cancel_scenario (some n) = some (n + 1)

unfoldable pub step_stop_test : StepControl → Bytes → StepControl
unfolding stop_test
step_stop_test c reason = record c {
  stop_current_test = true;
  stop_current_test_reason = reason;
  stop_requested = true;
  execution_control = stop_test c.execution_control reason;
  scenario_cancellations = cancel_scenario c.scenario_cancellations;
}

-- `strings.ToLower` and `strings.EqualFold`
module _ (to_lower : Bytes → Bytes) (equal_fold : Bytes → Bytes → Bool) where
  unfoldable pub effective_name : StepControl → List Bytes → Bytes
  unfolding first_non_blank named_scenario trim_space
  effective_name c args =
      first_non_blank (trim_space (named_scenario c.scenario_name args).0 ∷ c.scenario_name ∷ [])

  unfoldable pub step_stop_scenario : StepControl → List Bytes → StepControl
  unfolding effective_name named_scenario stop_scenario trim_space
  step_stop_scenario c args =
      let name = effective_name c args in
      let reason = (named_scenario c.scenario_name args).1 in
      record c {
        stop_requested = true;
        stop_scenario_name = name;
        stop_scenario_reason = reason;
        execution_control = stop_scenario to_lower c.execution_control name reason;
        scenario_cancellations =
            if equal_fold (trim_space name) c.scenario_name
            then cancel_scenario c.scenario_cancellations
            else c.scenario_cancellations;
      }
