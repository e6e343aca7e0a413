-- ===== src/Control/Commands.antt =====
-- A control after any sequence of commands, and what its two questions then answer.
use loadstrike_go.Prelude.{
  ℕ, ◌≡◌, refl, sym, ap, ◌∙◌, Bool, true, false, not, ◌&&◌, ◌||◌, List, [], ◌∷◌, Bytes, Option,
  none, some, text_eq, trim_space, is_blank, if◌then◌else◌, find, store, Bool-cases, arith,
}
use loadstrike_go.Control.{
  ExecutionControl, new_execution_control, stop_test, should_stop_test, stop_scenario,
  should_stop_scenario,
}

pub data Command : Type 0 where
  test : Bytes → Command
  scenario : Bytes → Bytes → Command

abbrev pub times_canceled : Option ExecutionControl → ℕ
times_canceled none = 0
times_canceled (some c) = c.cancellations

fresh :
    (to_lower : Bytes → Bytes) (asked : Bytes)
    → should_stop_scenario to_lower (some new_execution_control) asked ≡ false
unfolding should_stop_scenario new_execution_control find
fresh to_lower asked = refl

module _ (to_lower : Bytes → Bytes) where
  -- The last command comes first.
  unfoldable pub after : List Command → Option ExecutionControl
  unfolding stop_test stop_scenario new_execution_control
  after [] = some new_execution_control
  after (test reason ∷ earlier) = stop_test (after earlier) reason
  after (scenario name reason ∷ earlier) = stop_scenario to_lower (after earlier) name reason

  -- Some command stops the test.
  unfoldable pub stops_test : List Command → Bool
  stops_test [] = false
  stops_test (test reason ∷ earlier) = true
  stops_test (scenario name reason ∷ earlier) = stops_test earlier

  -- Some command with a name that is not blank stops the scenario of that name, up to the spaces
  -- around it and its case.
  unfoldable pub stops_scenario : List Command → Bytes → Bool
  stops_scenario [] asked = false
  stops_scenario (test reason ∷ earlier) asked = stops_scenario earlier asked
  stops_scenario (scenario name reason ∷ earlier) asked =
      (not (is_blank name) && text_eq (to_lower (trim_space name)) (to_lower (trim_space asked)))
      || stops_scenario earlier asked

  after-some : (commands : List Command) → (c : ExecutionControl) × (after commands ≡ some c)
  unfolding after stop_test stop_scenario
  after-some [] = (new_execution_control, refl)
  after-some (test reason ∷ earlier) =
      let (c, e) = after-some earlier in (_, ap (λ o. stop_test o reason) e)
  after-some (scenario name reason ∷ earlier) =
      let (c, e) = after-some earlier in (_, ap (λ o. stop_scenario to_lower o name reason) e)

  stop_scenario-asked :
      (c : ExecutionControl) (name reason asked : Bytes)
      → should_stop_scenario to_lower (stop_scenario to_lower (some c) name reason) asked
        ≡ (not (is_blank name)
            && text_eq (to_lower (trim_space name)) (to_lower (trim_space asked)))
          || should_stop_scenario to_lower (some c) asked
  unfolding should_stop_scenario stop_scenario find store
  stop_scenario-asked c name reason asked = ground (
    arith,
    Bool-cases (is_blank name),
    Bool-cases (text_eq (to_lower (trim_space name)) (to_lower (trim_space asked))),
  )

  stop_test-asked :
      (c : ExecutionControl) (reason asked : Bytes)
      → should_stop_scenario to_lower (stop_test (some c) reason) asked
        ≡ should_stop_scenario to_lower (some c) asked
  unfolding should_stop_scenario stop_test
  stop_test-asked c reason asked = refl

  -- After any commands, the control answers that a scenario should stop just where one of them
  -- stopped it.
  pub should_stop_scenario-after :
      (commands : List Command) (asked : Bytes)
      → should_stop_scenario to_lower (after commands) asked ≡ stops_scenario commands asked
  unfolding after stops_scenario
  should_stop_scenario-after [] asked = fresh to_lower asked
  should_stop_scenario-after (test reason ∷ earlier) asked =
      let (c, e) = after-some earlier in
      let rest = should_stop_scenario-after earlier asked in
      rw e (
        stop_test-asked c reason asked
        ∙ ap (λ o. should_stop_scenario to_lower o asked) (sym e)
        ∙ rest)
  should_stop_scenario-after (scenario name reason ∷ earlier) asked =
      let (c, e) = after-some earlier in
      let rest = should_stop_scenario-after earlier asked in
      let step = stop_scenario-asked c name reason asked in ground (arith, e, rest, step)

  -- After any commands, the control answers that the test should stop just where one of them
  -- stopped it, and then its context has been canceled exactly once, else never.
  pub should_stop_test-after :
      (commands : List Command)
      → (should_stop_test (after commands) ≡ stops_test commands)
        × (times_canceled (after commands) ≡ (if stops_test commands then 1 else 0))
  unfolding after stops_test should_stop_test stop_test stop_scenario new_execution_control
  should_stop_test-after [] = (refl, refl)
  should_stop_test-after (test reason ∷ earlier) =
      let (c, e) = after-some earlier in
      let (asked, counted) = should_stop_test-after earlier in
      (
        ground (arith, e, asked, counted),
        ground (arith, e, asked, counted, Bool-cases c.test_stopped),
      )
  should_stop_test-after (scenario name reason ∷ earlier) =
      let (c, e) = after-some earlier in
      let (asked, counted) = should_stop_test-after earlier in
      (
        ground (arith, e, asked, counted, Bool-cases (is_blank name)),
        ground (arith, e, asked, counted, Bool-cases (is_blank name)),
      )
