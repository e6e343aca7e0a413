-- ===== src/Runner/Register.antt =====
-- Which scenarios a runner takes, and what it makes of them.
use loadstrike_go.Prelude.{
  ◌≡◌, ◌↔◌, inl, inr, refl, sym, Bool, true, false, not, ◌&&◌, List, [], ◌∷◌, ◌++◌, Option, none,
  some, is_blank, ok, if◌then◌else◌, All, Bool-cases, arith,
}
use mathlib.Core.List.{append-nil, append_assoc}
use loadstrike_go.Scenario.{
  scenario_missing, scenario_name_missing, Parts, Panic, ScenarioDefinition, is_empty,
  validate_scenario_value,
}
use loadstrike_go.Runner.{
  ContextState, RunnerState, append_scenario, add_scenario_native, add_scenario, add_each,
  add_scenarios, build_context, register_each, build_unless, register_scenarios,
}

module _ (P : Parts) where
  -- The scenarios before the first that is nil or has a blank name.
  unfoldable pub accepted : List (Option (ScenarioDefinition P)) → List (ScenarioDefinition P)
  accepted [] = []
  accepted (none ∷ rest) = []
  accepted (some s ∷ rest) = let later = accepted rest in if is_blank s.name then [] else s ∷ later

  -- No scenario is nil or has a blank name.
  unfoldable pub all_valid : List (Option (ScenarioDefinition P)) → Bool
  all_valid [] = true
  all_valid (none ∷ rest) = false
  all_valid (some s ∷ rest) = not (is_blank s.name) && all_valid rest

  abbrev pub IsNamed : ScenarioDefinition P → Type 0
  IsNamed s = is_blank s.name ≡ false

  module _ (Settings Other : Type 0) where
    add_scenario_native-named :
        (r : RunnerState P Settings Other) (s : ScenarioDefinition P)
        → is_blank s.name ≡ false
        → add_scenario_native P Settings Other r s
          ≡ (record r { scenarios = r.scenarios ++ s ∷ [] }, none)
    unfolding add_scenario_native append_scenario validate_scenario_value
    add_scenario_native-named r s h = rw h

    add_scenario_native-blank :
        (r : RunnerState P Settings Other) (s : ScenarioDefinition P)
        → is_blank s.name ≡ true
        → add_scenario_native P Settings Other r s ≡ (r, some scenario_name_missing)
    unfolding add_scenario_native append_scenario validate_scenario_value
    add_scenario_native-blank r s h = rw h

    add_scenario-some :
        (r : RunnerState P Settings Other) (s : ScenarioDefinition P)
        → add_scenario P Settings Other r (some s) ≡ add_scenario_native P Settings Other r s
    unfolding add_scenario
    add_scenario-some r s = refl

    add_scenario-none :
        (r : RunnerState P Settings Other)
        → add_scenario P Settings Other r none ≡ (r, some scenario_missing)
    unfolding add_scenario
    add_scenario-none r = refl

    add_each-named :
        (r : RunnerState P Settings Other) (s : ScenarioDefinition P)
        (rest : List (Option (ScenarioDefinition P)))
        → is_blank s.name ≡ false
        → add_each P Settings Other r (some s ∷ rest)
          ≡ add_each P Settings Other (record r { scenarios = r.scenarios ++ s ∷ [] }) rest
    unfolding add_each
    add_each-named r s rest h = rw (add_scenario-some r s, add_scenario_native-named r s h)

    add_each-blank :
        (r : RunnerState P Settings Other) (s : ScenarioDefinition P)
        (rest : List (Option (ScenarioDefinition P)))
        → is_blank s.name ≡ true
        → add_each P Settings Other r (some s ∷ rest) ≡ (r, some scenario_name_missing)
    unfolding add_each
    add_each-blank r s rest h = rw (add_scenario-some r s, add_scenario_native-blank r s h)

    add_each-none :
        (r : RunnerState P Settings Other) (rest : List (Option (ScenarioDefinition P)))
        → add_each P Settings Other r (none ∷ rest) ≡ (r, some scenario_missing)
    unfolding add_each
    add_each-none r rest = rw (add_scenario-none r)

    add_each-nil : (r : RunnerState P Settings Other) → add_each P Settings Other r [] ≡ (r, none)
    unfolding add_each
    add_each-nil r = refl

    unchanged : (r : RunnerState P Settings Other) → r ≡ record r { scenarios = r.scenarios ++ [] }
    unchanged r = rw (append-nil r.scenarios)

    add_each-accepted :
        (r : RunnerState P Settings Other) (scenarios : List (Option (ScenarioDefinition P)))
        → ((add_each P Settings Other r scenarios).0
            ≡ record r { scenarios = r.scenarios ++ accepted scenarios })
          × (((add_each P Settings Other r scenarios).1 ≡ none) ↔ (all_valid scenarios ≡ true))
    unfolding accepted all_valid
    add_each-accepted r [] = rw (add_each-nil r) (unchanged r, (λ h. refl, λ h. refl))
    add_each-accepted r (none ∷ rest) = rw (add_each-none r rest) (unchanged r, (λ h. cc, λ h. cc))
    add_each-accepted r (some s ∷ rest) =
        let later = add_each-accepted (record r { scenarios = r.scenarios ++ s ∷ [] }) rest in
        let together = append_assoc r.scenarios (s ∷ []) (accepted rest) in
        elim (Bool-cases (is_blank s.name)) [
          | inl h ↦ rw (h, add_each-blank r s rest h) (unchanged r, (λ k. cc, λ k. cc))
          | inr h ↦ rw (h, add_each-named r s rest h, sym together) later
        ]

    -- `AddScenarios` adds the scenarios before the first that is nil or has a blank name, keeps the
    -- rest of the runner, and panics unless there is a scenario and each of them is valid.
    pub add_scenarios-accepted :
        (r : RunnerState P Settings Other) (scenarios : List (Option (ScenarioDefinition P)))
        → ((add_scenarios P Settings Other r scenarios).0
            ≡ record r { scenarios = r.scenarios ++ accepted scenarios })
          × (((add_scenarios P Settings Other r scenarios).1 ≡ none)
              ↔ ((is_empty scenarios ≡ false) × (all_valid scenarios ≡ true)))
    unfolding add_scenarios accepted all_valid
    add_scenarios-accepted r [] = (unchanged r, (λ h. cc, λ h. cc))
    add_scenarios-accepted r (s ∷ rest) =
        let (state, valid) = add_each-accepted r (s ∷ rest) in
        (state, (λ h. (refl, valid.0 h), λ h. valid.1 (h.1)))

    register_each-named :
        (r : RunnerState P Settings Other) (scenarios : List (ScenarioDefinition P))
        → All IsNamed scenarios
        → register_each P Settings Other r scenarios
          ≡ (record r { scenarios = r.scenarios ++ scenarios }, none)
    unfolding register_each
    register_each-named r [] h = rw (append-nil r.scenarios)
    register_each-named r (s ∷ rest) h =
        let later =
          register_each-named (record r { scenarios = r.scenarios ++ s ∷ [] }) rest (h.1) in
        rw (add_scenario_native-named r s (h.0), later, append_assoc r.scenarios (s ∷ []) rest)

    register_each-none :
        (r : RunnerState P Settings Other) (scenarios : List (ScenarioDefinition P))
        → (register_each P Settings Other r scenarios).1 ≡ none
        → All IsNamed scenarios
    unfolding register_each
    register_each-none r [] h = tt
    register_each-none r (s ∷ rest) h =
        let later = register_each-none (record r { scenarios = r.scenarios ++ s ∷ [] }) rest in
        let named = add_scenario_native-named r s in
        let blank = add_scenario_native-blank r s in
        elim (Bool-cases (is_blank s.name)) [
          | inl k ↦ absurd (ground (arith, h, blank k))
          | inr k ↦ (k, later (ground (arith, h, named k)))
        ]

    build_unless-ok :
        (clone : Settings → Settings) (run : RunnerState P Settings Other × Option Panic)
        (context : ContextState P Settings Other)
        → build_unless P Settings Other clone run ≡ ok context
        → run.1 ≡ none
    unfolding build_unless
    build_unless-ok clone (r, none) context h = refl
    build_unless-ok clone (r, some panic) context h = cc

    -- `RegisterScenarios` gives a context just when there is a scenario and none has a blank name,
    -- and then it holds these scenarios in their order, no traffic mix, clones of the default
    -- settings, and the defaults for the rest.
    pub register_scenarios_iff :
        (clone : Settings → Settings) (defaults context : ContextState P Settings Other)
        (scenarios : List (ScenarioDefinition P))
        → (register_scenarios P Settings Other clone defaults scenarios ≡ ok context) ↔ (
            (is_empty scenarios ≡ false)
            × All IsNamed scenarios
            × (context ≡ record defaults {
              custom_settings = clone defaults.custom_settings;
              global_custom_settings = clone defaults.global_custom_settings;
              scenarios = scenarios;
              traffic_mixes = [];
            }))
    unfolding register_scenarios build_unless build_context
    register_scenarios_iff clone defaults context [] = (λ h. absurd cc, λ h. absurd cc)
    register_scenarios_iff clone defaults context (s ∷ rest) =
        let start : RunnerState P Settings Other = record {
          scenarios = [];
          traffic_mixes = [];
          context = defaults;
        } in
        let run = register_each-named start (s ∷ rest) in
        (
          λ h.
              let named = register_each-none start (s ∷ rest) (
                build_unless-ok clone (register_each P Settings Other start (s ∷ rest)) context
                  h) in
              (refl, named, ground (arith, h, run named)),
          λ h. ground (arith, run (h.1)),
        )
