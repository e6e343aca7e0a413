-- ===== src/Control.antt =====
-- `executionControl` (execution_control.go): which scenarios, and whether the test, are to stop.
pub mod Commands
pub mod Steps
pub mod Tests
use loadstrike_go.Prelude.{
  ℕ, ◌+◌, Bool, true, false, not, List, [], ◌∷◌, Bytes, Option, none, some, trim_space, is_blank,
  if◌then◌else◌, Table, find, store,
}

-- `cancellations` counts the calls of `testCancel`, which `newExecutionControl` always sets.
pub record ExecutionControl : Type 0 where
  pub test_stopped : Bool
  pub cancellations : ℕ
  pub stopped_scenarios : Table Bytes

-- `newExecutionControl`
unfoldable pub new_execution_control : ExecutionControl
new_execution_control = record { test_stopped = false; cancellations = 0; stopped_scenarios = [] }

-- The methods take their receiver as an option: `none` is nil.
unfoldable pub stop_test : Option ExecutionControl → Bytes → Option ExecutionControl
stop_test none reason = none
stop_test (some c) reason = some (record c {
  test_stopped = true;
  cancellations = if c.test_stopped then c.cancellations else c.cancellations + 1;
})

unfoldable pub should_stop_test : Option ExecutionControl → Bool
should_stop_test none = false
should_stop_test (some c) = c.test_stopped

abbrev pub is_present : {A : Type 0} → Option A → Bool
is_present none = false
is_present (some a) = true

-- `to_lower` is `strings.ToLower`.
module _ (to_lower : Bytes → Bytes) where
  unfoldable pub stop_scenario : Option ExecutionControl → Bytes → Bytes → Option ExecutionControl
  unfolding is_blank
  stop_scenario none scenario_name reason = none
  stop_scenario (some c) scenario_name reason = some (
      if is_blank scenario_name then c else record c {
        stopped_scenarios = store c.stopped_scenarios (to_lower (trim_space scenario_name)) reason;
      })

  unfoldable pub should_stop_scenario : Option ExecutionControl → Bytes → Bool
  should_stop_scenario none scenario_name = false
  should_stop_scenario (some c) scenario_name =
      is_present (find c.stopped_scenarios (to_lower (trim_space scenario_name)))
