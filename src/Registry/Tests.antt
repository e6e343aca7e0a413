-- ===== src/Registry/Tests.antt =====
-- A registry in which one scenario and one consumer are registered.
use loadstrike_go.Prelude.{
  ℕ, ◌≡◌, refl, [], ◌∷◌, Bytes, codes, text_eq, none, some, pos, find, store,
}
use loadstrike_go.Base64.{encode_raw_url, encode_char}
use loadstrike_go.Bridge.{InstanceKey, new_bridge, begin_close}
use loadstrike_go.Session.{new_session, shut}
use loadstrike_go.Registry.{
  Types, ScenarioDefinition, Registry, new_registry, primary_scenario_run, register_scenario,
  register_tracking_consume, next_callback_id, close_scenarios, shut_streams, close,
}
use loadstrike_go.Registry.Laws.{register-found}
use loadstrike_go.Registry.Closing.{close-quiet}

-- Every stored value is a number.
abbrev numbers : Types
numbers = record {
  Run = ℕ;
  Hook = ℕ;
  Plugin = ℕ;
  Sink = ℕ;
  Policy = ℕ;
  Evaluate = ℕ;
  Publish = ℕ;
  Produce = ℕ;
  Consume = ℕ;
  Context = ℕ;
  Value = ℕ;
  Event = ℕ;
}

abbrev first_bytes : Bytes
first_bytes = 1 ∷ 2 ∷ 3 ∷ []

abbrev checkout : ScenarioDefinition numbers
checkout = record {
  name = codes "checkout";
  steps = (codes "open", some 4) ∷ (codes "pay", none) ∷ [];
  init = some 5;
  clean = none;
}

abbrev checkout_id : Bytes
checkout_id = codes "scenario-AQID"

-- The scenario is found with the run of its first step.
register-found_example :
    find
      (((register_scenario numbers (new_registry numbers) checkout first_bytes).0).scenarios)
      ((register_scenario numbers (new_registry numbers) checkout first_bytes).1)
    ≡ some (record {
      scenario_name = codes "checkout";
      run = some 4;
      init = some 5;
      clean = none;
      state = new_bridge;
    })
unfolding primary_scenario_run new_registry
register-found_example =
    (register-found {T = numbers} (new_registry numbers) first_bytes checkout 1 1 1 1 1 1 1 [] [] 4
      refl).0

-- A scenario and a consumer, registered in a new registry.
abbrev with_scenario : Registry numbers
with_scenario = (register_scenario numbers (new_registry numbers) checkout first_bytes).0

abbrev with_both : Registry numbers
with_both = (register_tracking_consume numbers with_scenario 6 first_bytes).0

abbrev a_key : InstanceKey
a_key = record {
  run_identity = [];
  node_identity = [];
  partition_number = pos 0;
  scenario_name = codes "checkout";
  scenario_instance_id = [];
}

close-quiet_example :
    find
      ((close numbers with_both).observation_cancellations)
      (codes "observation-cancellation-AQID")
    ≡ none
unfolding find close close_scenarios shut_streams text_eq codes store new_registry register_scenario
    register_tracking_consume next_callback_id encode_raw_url encode_char
close-quiet_example =
    (close-quiet {T = numbers} with_both checkout_id (codes "tracking-consume-AQID")
      (codes "observation-cancellation-AQID")
      (record {
        scenario_name = codes "checkout";
        run = some 4;
        init = some 5;
        clean = none;
        state = (begin_close new_bridge).0;
      })
      (record { produce = none; consume = some 6; consume_stream = some (shut new_session) })
      (shut new_session) a_key refl refl refl refl).3
