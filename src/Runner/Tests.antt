-- ===== src/Runner/Tests.antt =====
-- A runner with one scenario and one traffic mix.
use loadstrike_go.Prelude.{
  ℕ, ◌≡◌, ◌↔◌, ◌++◌, true, false, refl, [], ◌∷◌, codes, none, some, text_eq, trim_space, is_blank,
  ok, pos,
}
use loadstrike_go.Scenario.Tests.{numbers, checkout}
use loadstrike_go.Runner.{
  ScenarioShare, TrafficMix, ContextState, RunnerState, register_scenarios, add_scenarios, is_empty,
}
use loadstrike_go.Runner.Register.{
  accepted, all_valid, add_scenarios-accepted, register_scenarios_iff,
}

abbrev defaults : ContextState numbers ℕ ℕ
defaults = record {
  custom_settings = 1;
  global_custom_settings = 2;
  other = 3;
  scenarios = [];
  traffic_mixes = [];
}

abbrev runner : RunnerState numbers ℕ ℕ
runner = record { scenarios = checkout ∷ []; traffic_mixes = []; context = defaults }

-- Only the first of the three is added.
adds_one : (accepted numbers (some checkout ∷ none ∷ some checkout ∷ []) ≡ checkout ∷ [])
unfolding accepted is_blank trim_space text_eq codes
adds_one = refl

abbrev registered : ContextState numbers ℕ ℕ
registered = record defaults {
  custom_settings = 1;
  global_custom_settings = 2;
  scenarios = checkout ∷ [];
  traffic_mixes = [];
}

register_scenarios_iff_example :
    register_scenarios numbers ℕ ℕ (λ s. s) defaults (checkout ∷ []) ≡ ok registered
unfolding is_blank trim_space text_eq codes
register_scenarios_iff_example =
    (register_scenarios_iff numbers ℕ ℕ (λ s. s) defaults registered (checkout ∷ [])).1
      (refl, (refl, tt), refl)

abbrev share : ScenarioShare numbers
share = record { scenario = checkout; weight = pos 2 }

abbrev empty_mix : TrafficMix numbers
empty_mix = record { name = codes "mix"; total_load = []; scenario_mix = [] }

-- The second is nil, so that the third is not reached.
add_scenarios-accepted_example :
    ((add_scenarios numbers ℕ ℕ runner (some checkout ∷ none ∷ some checkout ∷ [])).0
      ≡ record runner {
        scenarios =
            runner.scenarios ++ accepted numbers (some checkout ∷ none ∷ some checkout ∷ []);
      })
    × (((add_scenarios numbers ℕ ℕ runner (some checkout ∷ none ∷ some checkout ∷ [])).1 ≡ none) ↔ (
        (is_empty (some checkout ∷ none ∷ some checkout ∷ []) ≡ false)
        × (all_valid numbers (some checkout ∷ none ∷ some checkout ∷ []) ≡ true)))
add_scenarios-accepted_example =
    add_scenarios-accepted numbers ℕ ℕ runner (some checkout ∷ none ∷ some checkout ∷ [])
