-- ===== src/Control/Tests.antt =====
-- A control that is told to stop twice and to stop two scenarios, one with a blank name.
use loadstrike_go.Prelude.{
  ◌≡◌, refl, true, List, [], ◌∷◌, Bytes, codes, text_eq, trim_space, is_blank,
}
use loadstrike_go.Control.{should_stop_test, should_stop_scenario}
use loadstrike_go.Control.Commands.{
  Command, test, scenario, after, stops_scenario, stops_test, should_stop_scenario-after,
  should_stop_test-after,
}

abbrev commands : List Command
commands =
    scenario (codes "  ") [] ∷ scenario (codes " pay ") [] ∷ test (codes "late") ∷ test [] ∷ []

-- Names are compared as they stand.
abbrev same : Bytes → Bytes
same s = s

should_stop_scenario-after_example :
    should_stop_scenario same (after same commands) (codes "pay")
    ≡ stops_scenario same commands (codes "pay")
should_stop_scenario-after_example = should_stop_scenario-after same commands (codes "pay")

pay_stops : (stops_scenario same commands (codes "pay") ≡ true)
unfolding stops_scenario is_blank trim_space text_eq codes
pay_stops = refl

should_stop_test-after_example : should_stop_test (after same commands) ≡ stops_test same commands
should_stop_test-after_example = (should_stop_test-after same commands).0
