-- ===== src/Runner/Mixes.antt =====
-- A traffic mix that the builders made is one that a runner takes.
use loadstrike_go.Prelude.{
  ◌≡◌, ◌↔◌, true, List, [], ◌∷◌, ◌++◌, Bytes, Option, none, some, is_blank, ok, Bool-cases, arith,
  ℤ, pos, ltb_ℤ,
}
use loadstrike_go.Scenario.{shares_missing, total_load_missing, Parts, is_empty, ScenarioDefinition}
use loadstrike_go.Runner.{
  ScenarioShare, TrafficMix, create_share, create_traffic_mix, with_total_load, with_scenario_mix,
  RunnerState, add_traffic_mix,
}

module _ (P : Parts) where
  open P use {Simulation}

  -- A share exists just for a scenario and a positive weight, and holds the two.
  pub create_share_iff :
      (scenario : Option (ScenarioDefinition P)) (weight : ℤ) (share : ScenarioShare P)
      → (create_share P scenario weight ≡ ok share) ↔ (
          (scenario ≡ some share.scenario)
          × (share.weight ≡ weight)
          × (ltb_ℤ (pos 0) weight ≡ true))
  unfolding create_share
  create_share_iff none weight share = (λ h. absurd cc, λ h. absurd cc)
  create_share_iff (some s) weight share =
      let positive = Bool-cases (ltb_ℤ (pos 0) weight) in
      (
        λ h. (ground (arith, positive), ground (arith, positive), ground (arith, positive)),
        λ h. ground (arith, positive),
      )

  -- A mix with a name that is not blank, to which a total load and shares are given in either
  -- order, is one mix, and `AddTrafficMix` appends it; without either of the two it is refused and
  -- the runner stays as it is.
  pub add_traffic_mix-built :
      (Settings Other : Type 0) (r : RunnerState P Settings Other) (m loaded shared : TrafficMix P)
      (name : Bytes) (load : List Simulation) (shares : List (ScenarioShare P))
      → create_traffic_mix P name ≡ ok m
      → with_total_load P m load ≡ ok loaded
      → with_scenario_mix P m shares ≡ ok shared
      → (let built : TrafficMix P = record {
        name = name;
        total_load = load;
        scenario_mix = shares;
      } in
          (with_scenario_mix P loaded shares ≡ ok built)
          × (with_total_load P shared load ≡ ok built)
          × (add_traffic_mix P Settings Other r built
              ≡ (record r { traffic_mixes = r.traffic_mixes ++ built ∷ [] }, none))
          × (add_traffic_mix P Settings Other r loaded ≡ (r, some shares_missing))
          × (add_traffic_mix P Settings Other r shared ≡ (r, some total_load_missing)))
  unfolding create_traffic_mix with_total_load with_scenario_mix add_traffic_mix
  add_traffic_mix-built Settings Other r m loaded shared name load shares hm hl hs =
      let b = Bool-cases (is_blank name) in
      let l = Bool-cases (is_empty load) in
      let s = Bool-cases (is_empty shares) in
      (
        ground (arith, b, l, s),
        ground (arith, b, l, s),
        ground (arith, b, l, s),
        ground (arith, b, l, s),
        ground (arith, b, l, s),
      )
