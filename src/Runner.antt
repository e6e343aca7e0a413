-- ===== src/Runner.antt =====
-- `runnerState` (runner.go) and the traffic mixes that it takes (traffic_mix.go). A panic leaves the
-- runner with what was changed before it, so a method that may panic returns the runner beside it.
pub mod Mixes
pub mod Register
pub mod Tests
use loadstrike_go.Prelude.{
  ℕ, Bool, true, false, not, ◌&&◌, List, [], ◌∷◌, ◌++◌, Bytes, Option, none, some, is_blank, Result,
  ok, err, ◌>>=◌, if◌then◌else◌, ℤ, pos, ltb_ℤ, pos_part, neg_part,
}
use loadstrike_go.Scenario.{
  Parts, Panic, scenario_name_missing, scenario_missing, no_scenarios, no_total_load, no_shares,
  weight_not_positive, traffic_mix_name_missing, total_load_missing, shares_missing, nothing_to_run,
  is_empty, ScenarioDefinition, validate_scenario_value,
}

module _ (P : Parts) where
  open P use {Simulation}

  pub record ScenarioShare : Type 0 where
    pub scenario : ScenarioDefinition P
    pub weight : ℤ

  pub record TrafficMix : Type 0 where
    pub name : Bytes
    pub total_load : List Simulation
    pub scenario_mix : List ScenarioShare

  -- `LoadStrikeScenarioShare.Create`; `none` is a scenario without its native value.
  unfoldable pub create_share : Option (ScenarioDefinition P) → ℤ → Result Panic ScenarioShare
  create_share none weight = err scenario_missing
  create_share (some scenario) weight =
      if ltb_ℤ (pos 0) weight
      then ok (record { scenario = scenario; weight = weight })
      else err weight_not_positive

  -- `LoadStrikeTrafficMix.Create`
  unfoldable pub create_traffic_mix : Bytes → Result Panic TrafficMix
  unfolding is_blank
  create_traffic_mix name =
      if is_blank name
      then err traffic_mix_name_missing
      else ok (record { name = name; total_load = []; scenario_mix = [] })

  unfoldable pub with_total_load : TrafficMix → List Simulation → Result Panic TrafficMix
  with_total_load m total_load =
      if is_empty total_load then err no_total_load else ok (record m { total_load = total_load })

  unfoldable pub with_scenario_mix : TrafficMix → List ScenarioShare → Result Panic TrafficMix
  with_scenario_mix m scenario_mix =
      if is_empty scenario_mix then err no_shares else ok (record m { scenario_mix = scenario_mix })

  -- `Settings` is a map of custom settings and `Other` the rest of a `contextState`.
  module _ (Settings Other : Type 0) where
    pub record ContextState : Type 0 where
      pub custom_settings : Settings
      pub global_custom_settings : Settings
      pub other : Other
      pub scenarios : List (ScenarioDefinition P)
      pub traffic_mixes : List TrafficMix

    pub record RunnerState : Type 0 where
      pub scenarios : List (ScenarioDefinition P)
      pub traffic_mixes : List TrafficMix
      pub context : ContextState

    -- The end of a method that first validates and then appends.
    unfoldable pub append_scenario :
        RunnerState → ScenarioDefinition P → Result Panic (Unit {0}) → RunnerState × Option Panic
    append_scenario r scenario (ok _) =
        (record r { scenarios = r.scenarios ++ scenario ∷ [] }, none)
    append_scenario r scenario (err panic) = (r, some panic)

    unfoldable pub add_scenario_native :
        RunnerState → ScenarioDefinition P → RunnerState × Option Panic
    unfolding append_scenario validate_scenario_value
    add_scenario_native r scenario = append_scenario r scenario (validate_scenario_value P scenario)

    -- `AddScenario`; a nil scenario is refused by `normalizeScenarioLike`.
    unfoldable pub add_scenario :
        RunnerState → Option (ScenarioDefinition P) → RunnerState × Option Panic
    unfolding add_scenario_native
    add_scenario r none = (r, some scenario_missing)
    add_scenario r (some scenario) = add_scenario_native r scenario

    -- What follows is not reached after a panic.
    abbrev pub and_then :
        RunnerState × Option Panic
        → (RunnerState → RunnerState × Option Panic)
        → RunnerState × Option Panic
    and_then (r, none) next = next r
    and_then (r, some panic) next = (r, some panic)

    -- The loop of `AddScenarios`.
    unfoldable pub add_each :
        RunnerState → List (Option (ScenarioDefinition P)) → RunnerState × Option Panic
    unfolding add_scenario
    add_each r [] = (r, none)
    add_each r (scenario ∷ scenarios) =
        and_then (add_scenario r scenario) (λ r'. add_each r' scenarios)

    unfoldable pub add_scenarios :
        RunnerState → List (Option (ScenarioDefinition P)) → RunnerState × Option Panic
    unfolding add_each
    add_scenarios r scenarios =
        if is_empty scenarios then (r, some no_scenarios) else add_each r scenarios

    unfoldable pub add_traffic_mix : RunnerState → TrafficMix → RunnerState × Option Panic
    add_traffic_mix r mix =
        if is_empty mix.total_load
        then (r, some total_load_missing)
        else if is_empty mix.scenario_mix
        then (r, some shares_missing)
        else (record r { traffic_mixes = r.traffic_mixes ++ mix ∷ [] }, none)

    -- `BuildContext`; `clone` is `cloneKnownJSONCompatibleSettings` (runtime_settings.go).
    unfoldable pub build_context : (Settings → Settings) → RunnerState → Result Panic ContextState
    build_context clone r =
        if is_empty r.scenarios && is_empty r.traffic_mixes
        then err nothing_to_run
        else ok (record r.context {
          custom_settings = clone (r.context).custom_settings;
          global_custom_settings = clone (r.context).global_custom_settings;
          scenarios = r.scenarios;
          traffic_mixes = r.traffic_mixes;
        })

    -- The loop of `RegisterScenarios`.
    unfoldable pub register_each :
        RunnerState → List (ScenarioDefinition P) → RunnerState × Option Panic
    unfolding add_scenario_native
    register_each r [] = (r, none)
    register_each r (scenario ∷ scenarios) =
        and_then (add_scenario_native r scenario) (λ r'. register_each r' scenarios)

    unfoldable pub build_unless :
        (Settings → Settings) → RunnerState × Option Panic → Result Panic ContextState
    unfolding build_context
    build_unless clone (r, none) = build_context clone r
    build_unless clone (r, some panic) = err panic

    -- `RegisterScenarios` on the runner that `newRunnerState` made with `defaults`.
    unfoldable pub register_scenarios :
        (Settings → Settings)
        → ContextState
        → List (ScenarioDefinition P)
        → Result Panic ContextState
    unfolding register_each build_unless
    register_scenarios clone defaults scenarios =
        if is_empty scenarios
        then err no_scenarios
        else build_unless clone (
            register_each (record { scenarios = []; traffic_mixes = []; context = defaults })
              scenarios)
