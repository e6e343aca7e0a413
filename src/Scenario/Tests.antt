-- ===== src/Scenario/Tests.antt =====
-- A scenario whose stored values are numbers.
use loadstrike_go.Prelude.{
  is_among, ℕ, ◌≡◌, refl, true, false, [], ◌∷◌, codes, none, some, text_eq, trim_space, is_blank,
  ok, err, pos,
}
use loadstrike_go.Scenario.{
  Parts, declared_twice, ScenarioStep, ScenarioDefinition, check_declared, with_declared_steps,
}
use loadstrike_go.Scenario.Steps.{with_declared_steps_iff}

-- Texts have no case, and are equal where they are the same or the first has spaces around it.
abbrev pub numbers : Parts
numbers = record {
  Hook = ℕ;
  Run = ℕ;
  Seconds = ℕ;
  zero_seconds = 0;
  Simulation = ℕ;
  Threshold = ℕ;
  Tracking = ℕ;
  Replay = ℕ;
  to_lower = λ t. t;
  equal_fold = λ s t. text_eq s t;
}

-- Texts are equal where anything is.
abbrev loose : Parts
loose = record numbers { equal_fold = λ s t. true }

abbrev pub pay_step : ScenarioStep numbers
pay_step = record { name = codes "pay"; run = some 3 }

abbrev pub checkout : ScenarioDefinition numbers
checkout = record {
  name = codes "checkout";
  init = none;
  clean = none;
  weight = pos 1;
  restart_iteration_on_fail = false;
  max_fail_count = pos 0;
  warm_up_duration_seconds = 0;
  warm_up_disabled = false;
  load_simulations = [];
  thresholds = [];
  tracking = none;
  steps = [];
  autopilot_http = none;
  internal_license_features = [];
  declared_step_names = [];
}

with_declared_steps_iff_example :
    with_declared_steps numbers checkout (codes "a" ∷ codes "b" ∷ [])
    ≡ ok (record checkout { declared_step_names = codes "a" ∷ codes "b" ∷ [] })
unfolding is_among is_blank trim_space text_eq codes
with_declared_steps_iff_example =
    (with_declared_steps_iff numbers checkout (codes "a" ∷ codes "b" ∷ [])
        (record checkout { declared_step_names = codes "a" ∷ codes "b" ∷ [] })).1
      ((refl, (refl, tt)), (refl, (refl, tt)), refl)

declares_twice :
    (with_declared_steps numbers checkout (codes "a" ∷ codes "a" ∷ []) ≡ err declared_twice)
unfolding with_declared_steps check_declared is_among is_blank trim_space text_eq codes
declares_twice = refl

abbrev loose_checkout : ScenarioDefinition loose
loose_checkout = record {
  name = codes "checkout";
  init = none;
  clean = none;
  weight = pos 1;
  restart_iteration_on_fail = false;
  max_fail_count = pos 0;
  warm_up_duration_seconds = 0;
  warm_up_disabled = false;
  load_simulations = [];
  thresholds = [];
  tracking = none;
  steps = [];
  autopilot_http = none;
  internal_license_features = [];
  declared_step_names = [];
}
