-- ===== src/Scenario.antt =====
-- The scenario builders of scenario.go. A panic is an error value, and a value receiver gives a new
-- scenario.
pub mod Steps
pub mod Features
pub mod Tests
use loadstrike_go.Prelude.{
  is_among, ℕ, Bool, true, false, not, ◌||◌, List, [], ◌∷◌, ◌++◌, Bytes, Option, none, some,
  text_eq, trim_space, is_blank, Result, ok, err, ◌>>◌, reject_if, if◌then◌else◌, ℤ, pos,
}

-- The Go types that a scenario only stores; `to_lower` is `strings.ToLower` and `equal_fold` is
-- `strings.EqualFold`.
pub record Parts : Type 1 where
  pub Hook : Type 0
  pub Run : Type 0
  pub Seconds : Type 0
  pub zero_seconds : Seconds
  pub Simulation : Type 0
  pub Threshold : Type 0
  pub Tracking : Type 0
  pub Replay : Type 0
  pub to_lower : Bytes → Bytes
  pub equal_fold : Bytes → Bytes → Bool

pub data Panic : Type 0 where
  scenario_name_missing scenario_missing no_simulations no_thresholds declared_blank declared_twice
        no_steps step_name_missing step_run_missing no_scenarios no_total_load no_shares
        weight_not_positive traffic_mix_name_missing total_load_missing shares_missing
        nothing_to_run :
      Panic

abbrev pub is_none : {A : Type 0} → Option A → Bool
is_none none = true
is_none (some a) = false

abbrev pub is_empty : {A : Type 0} → List A → Bool
is_empty [] = true
is_empty (a ∷ rest) = false

-- The loop of `WithDeclaredSteps`, with the names seen so far.
unfoldable pub check_declared : List Bytes → List Bytes → Result Panic (Unit {0})
unfolding is_among is_blank
check_declared seen [] = ok tt
check_declared seen (name ∷ names) =
    reject_if (is_blank name) declared_blank
    >> reject_if (is_among name seen) declared_twice
    >> check_declared (name ∷ seen) names

module _ (P : Parts) where
  open P use {
    Hook, Run, Seconds, zero_seconds, Simulation, Threshold, Tracking, Replay, to_lower, equal_fold,
  }

  pub record ScenarioStep : Type 0 where
    pub name : Bytes
    pub run : Option Run

  pub record ScenarioDefinition : Type 0 where
    pub name : Bytes
    pub init : Option Hook
    pub clean : Option Hook
    pub weight : ℤ
    pub restart_iteration_on_fail : Bool
    pub max_fail_count : ℤ
    pub warm_up_duration_seconds : Seconds
    pub warm_up_disabled : Bool
    pub load_simulations : List Simulation
    pub thresholds : List Threshold
    pub tracking : Option Tracking
    pub steps : List ScenarioStep
    pub autopilot_http : Option Replay
    pub internal_license_features : List Bytes
    pub declared_step_names : List Bytes

  -- The literal `scenarioDefinition{Name: name}`.
  abbrev named_scenario : Bytes → ScenarioDefinition
  named_scenario name = record {
    name = name;
    init = none;
    clean = none;
    weight = pos 0;
    restart_iteration_on_fail = false;
    max_fail_count = pos 0;
    warm_up_duration_seconds = zero_seconds;
    warm_up_disabled = false;
    load_simulations = [];
    thresholds = [];
    tracking = none;
    steps = [];
    autopilot_http = none;
    internal_license_features = [];
    declared_step_names = [];
  }

  unfoldable pub empty_scenario : Bytes → Result Panic ScenarioDefinition
  unfolding is_blank
  empty_scenario name =
      if is_blank name then err scenario_name_missing else ok (named_scenario name)

  -- `createScenario` with the callback that `normalizeScenarioRun` made.
  unfoldable pub create_scenario : Bytes → Run → Result Panic ScenarioDefinition
  unfolding is_blank
  create_scenario name run =
      if is_blank name
      then err scenario_name_missing
      else ok (record (named_scenario name) { steps = record { name = name; run = some run } ∷ [] })

  unfoldable pub with_weight : ScenarioDefinition → ℤ → ScenarioDefinition
  with_weight s weight = record s { weight = weight }

  unfoldable pub with_restart_iteration_on_fail : ScenarioDefinition → Bool → ScenarioDefinition
  with_restart_iteration_on_fail s enabled = record s { restart_iteration_on_fail = enabled }

  unfoldable pub with_max_fail_count : ScenarioDefinition → ℤ → ScenarioDefinition
  with_max_fail_count s max_fail_count = record s { max_fail_count = max_fail_count }

  unfoldable pub with_warm_up_duration : ScenarioDefinition → Seconds → ScenarioDefinition
  with_warm_up_duration s seconds = record s {
    warm_up_duration_seconds = seconds;
    warm_up_disabled = false;
  }

  unfoldable pub without_warm_up : ScenarioDefinition → ScenarioDefinition
  without_warm_up s = record s { warm_up_disabled = true }

  unfoldable pub with_load_simulations :
      ScenarioDefinition → List Simulation → Result Panic ScenarioDefinition
  with_load_simulations s load_simulations =
      if is_empty load_simulations
      then err no_simulations
      else ok (record s { load_simulations = load_simulations })

  unfoldable pub with_thresholds :
      ScenarioDefinition → List Threshold → Result Panic ScenarioDefinition
  with_thresholds s thresholds =
      if is_empty thresholds then err no_thresholds else ok (record s { thresholds = thresholds })

  unfoldable pub with_tracking_configuration :
      ScenarioDefinition → Option Tracking → ScenarioDefinition
  with_tracking_configuration s tracking = record s { tracking = tracking }

  unfoldable pub with_declared_steps :
      ScenarioDefinition → List Bytes → Result Panic ScenarioDefinition
  unfolding check_declared
  with_declared_steps s step_names =
      check_declared [] step_names >> ok (record s { declared_step_names = step_names })

  -- The inner loop of `withInternalLicenseFeatures`: `alreadyAdded`.
  unfoldable pub is_added : List Bytes → Bytes → Bool
  unfolding trim_space
  is_added [] normalized = false
  is_added (existing ∷ rest) normalized =
      equal_fold (trim_space existing) normalized || is_added rest normalized

  -- One round of its outer loop, on the features so far.
  unfoldable pub add_feature : List Bytes → Bytes → List Bytes
  unfolding is_added trim_space text_eq
  add_feature features feature =
      let normalized = to_lower (trim_space feature) in
      if text_eq normalized [] || is_added features normalized
      then features
      else features ++ normalized ∷ []

  unfoldable pub add_features : List Bytes → List Bytes → List Bytes
  unfolding add_feature
  add_features features [] = features
  add_features features (feature ∷ rest) = add_features (add_feature features feature) rest

  unfoldable pub with_internal_license_features :
      ScenarioDefinition → List Bytes → ScenarioDefinition
  unfolding add_features
  with_internal_license_features s features = record s {
    internal_license_features = add_features s.internal_license_features features;
  }

  -- The loop of `WithSteps`.
  unfoldable pub check_steps : List ScenarioStep → Result Panic (Unit {0})
  unfolding is_blank
  check_steps [] = ok tt
  check_steps (step ∷ steps) =
      reject_if (is_blank step.name) step_name_missing
      >> reject_if (is_none step.run) step_run_missing
      >> check_steps steps

  unfoldable pub with_steps :
      ScenarioDefinition → List ScenarioStep → Result Panic ScenarioDefinition
  unfolding check_steps
  with_steps s steps =
      reject_if (is_empty steps) no_steps >> check_steps steps >> ok (record s { steps = steps })

  -- `validateScenarioValue`
  unfoldable pub validate_scenario_value : ScenarioDefinition → Result Panic (Unit {0})
  unfolding is_blank
  validate_scenario_value scenario = reject_if (is_blank scenario.name) scenario_name_missing
