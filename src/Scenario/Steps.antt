-- ===== src/Scenario/Steps.antt =====
-- Which step names and steps a scenario accepts.
use loadstrike_go.Prelude.{
  is_among, IsDistinct, ◌≡◌, ◌↔◌, refl, false, List, [], ◌∷◌, Bytes, text_eq_iff, is_blank, ok, All,
  Bool-cases, Result-cases, arith,
}
use loadstrike_go.Scenario.{
  Parts, ScenarioStep, ScenarioDefinition, is_none, is_empty, check_declared, with_declared_steps,
  check_steps, with_steps,
}

-- No name of the second list is in the first.
abbrev IsApart : List Bytes → List Bytes → Type 0
IsApart seen [] = Unit
IsApart seen (name ∷ names) = (is_among name seen ≡ false) × IsApart seen names

abbrev pub IsNamed : List Bytes → Type 0
IsNamed = All (λ name. is_blank name ≡ false)

IsApart-cons :
    (name : Bytes) (seen names : List Bytes)
    → IsApart (name ∷ seen) names ↔ ((is_among name names ≡ false) × IsApart seen names)
unfolding is_among
IsApart-cons name seen [] = (λ h. (refl, tt), λ h. tt)
IsApart-cons name seen (n ∷ names) =
    let rest = IsApart-cons name seen names in
    let same = text_eq_iff name n in
    let back = text_eq_iff n name in
    (
      λ h. (
        ground (arith, rest, same, back),
        (ground (arith, rest, same, back), ground (arith, rest, same, back)),
      ),
      λ h. (ground (arith, rest, same, back), ground (arith, rest, same, back)),
    )

check_declared_iff :
    (seen names : List Bytes)
    → (check_declared seen names ≡ ok tt) ↔ (IsNamed names × IsDistinct names × IsApart seen names)
unfolding check_declared
check_declared_iff seen [] = (λ h. (tt, tt, tt), λ h. refl)
check_declared_iff seen (name ∷ names) =
    let rest = check_declared_iff (name ∷ seen) names in
    let apart = IsApart-cons name seen names in
    let blank = Bool-cases (is_blank name) in
    let again = Bool-cases (is_among name seen) in
    let round = Result-cases (check_declared (name ∷ seen) names) in
    (
      λ h. (
        (ground (arith, rest, apart, blank, again), ground (arith, rest, apart, blank, again)),
        (ground (arith, rest, apart, blank, again), ground (arith, rest, apart, blank, again)),
        (ground (arith, rest, apart, blank, again), ground (arith, rest, apart, blank, again)),
      ),
      λ h. ground (arith, rest, apart),
    )

IsApart-nil : (names : List Bytes) → IsApart [] names
unfolding is_among
IsApart-nil [] = tt
IsApart-nil (n ∷ names) = (refl, IsApart-nil names)

module _ (P : Parts) where
  open P use {Run}

  -- A step has a name and something to run.
  abbrev pub IsRunnable : ScenarioStep P → Type 0
  IsRunnable step = (is_blank step.name ≡ false) × (is_none step.run ≡ false)

  check_steps_iff :
      (steps : List (ScenarioStep P)) → (check_steps P steps ≡ ok tt) ↔ All IsRunnable steps
  unfolding check_steps
  check_steps_iff [] = (λ h. tt, λ h. refl)
  check_steps_iff (step ∷ steps) =
      let rest = check_steps_iff steps in
      let blank = Bool-cases (is_blank step.name) in
      let idle = Bool-cases (is_none step.run) in
      (
        λ h. (
          (ground (arith, rest, blank, idle), ground (arith, rest, blank, idle)),
          ground (arith, rest, blank, idle),
        ),
        λ h. ground (arith, rest),
      )

  -- Step names are declared just when each is not blank and none stands twice, and then they are
  -- the declared names, in order, and the rest of the scenario is as it was.
  pub with_declared_steps_iff :
      (s : ScenarioDefinition P) (names : List Bytes) (after : ScenarioDefinition P)
      → (with_declared_steps P s names ≡ ok after)
        ↔ (IsNamed names × IsDistinct names × (after ≡ record s { declared_step_names = names }))
  unfolding with_declared_steps
  with_declared_steps_iff s names after =
      let checks = check_declared_iff [] names in
      let apart = IsApart-nil names in
      let run = Result-cases (check_declared [] names) in
      (
        λ h.
            (ground (arith, checks, run), ground (arith, checks, run), ground (arith, checks, run)),
        λ h. ground (arith, checks, apart),
      )

  -- Steps are accepted just when there is one, each has a name and each something to run, and then
  -- they replace the scenario's steps, the rest of which is as it was.
  pub with_steps_iff :
      (s : ScenarioDefinition P) (steps : List (ScenarioStep P)) (after : ScenarioDefinition P)
      → (with_steps P s steps ≡ ok after)
        ↔ ((is_empty steps ≡ false) × All IsRunnable steps × (after ≡ record s { steps = steps }))
  unfolding with_steps
  with_steps_iff s steps after =
      let checks = check_steps_iff steps in
      let run = Result-cases (check_steps P steps) in
      let empty = Bool-cases (is_empty steps) in
      (
        λ h. (
          ground (arith, checks, run, empty),
          ground (arith, checks, run, empty),
          ground (arith, checks, run, empty),
        ),
        λ h. ground (arith, checks),
      )
