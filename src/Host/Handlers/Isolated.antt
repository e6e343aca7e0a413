-- ===== src/Host/Handlers/Isolated.antt =====
-- What a request of a scenario callback can change.
use loadstrike_go.Prelude.{
  ℕ, ◌≡◌, ◌⊎◌, ap, ◌∙◌, inl, inr, refl, Bool, true, ◌==◌, Bytes, codes, Option, some, find, text_eq,
  text_eq_iff, Bool-cases, arith,
}
use loadstrike_go.Host.Requests.{HookRequest}
use loadstrike_go.Host.Metadata.{Platform}
use loadstrike_go.Host.Routes.{path_parts}
use loadstrike_go.Host.Handlers.{State, HostedScenario, update, run_stage, handle_scenario}
use loadstrike_go.Host.Handlers.Separate.{
  Host, Built, HasRun, handle_scenario_cases, handle_scenario-table, Built-IsSeparate,
}

module _ (P : Platform) (Real : Type 0) (zero_real : Real) (to_real : ℕ → Real)
    (Payload V : Type 0) where
  -- The stages that work on the state.
  abbrev pub IsWorking : Bytes → Type 0
  IsWorking stage = (stage ≡ codes "step") ⊎ ((stage ≡ codes "init") ⊎ (stage ≡ codes "clean"))

  run_stage-idle :
      (max_int i : ℕ) (s : HostedScenario P Real zero_real to_real Payload V)
      (state : State P Real zero_real to_real Payload V) (stage : Bytes) (request : HookRequest)
      → IsWorking stage
        ⊎ ((run_stage P Real zero_real to_real Payload V max_int i s state stage request).0 ≡ state)
  unfolding run_stage
  run_stage-idle max_int i s state stage request = ground (
    arith,
    text_eq_iff stage (codes "step"),
    text_eq_iff stage (codes "init"),
    text_eq_iff stage (codes "clean"),
    Bool-cases (text_eq stage (codes "step")),
    Bool-cases (text_eq stage (codes "init")),
    Bool-cases (text_eq stage (codes "clean")),
    Bool-cases (text_eq stage (codes "metrics")),
  )

  update_self :
      (states : ℕ → State P Real zero_real to_real Payload V) (a : ℕ)
      (state : State P Real zero_real to_real Payload V)
      → update P Real zero_real to_real Payload V states a state a ≡ state
  unfolding update
  update_self states a state = ground arith

  -- A stage leaves the state of another scenario alone, and its own is left as the stage leaves it.
  HasRun-isolated :
      (max_int i : ℕ) (host after : Host P Real zero_real to_real Payload V) (is_post : Bool)
      (path : Bytes) (body : Option HookRequest) (other : Bytes)
      (s : HostedScenario P Real zero_real to_real Payload V)
      → Built P Real zero_real to_real Payload V host
      → find host.scenarios other ≡ some s
      → HasRun P Real zero_real to_real Payload V max_int i host after is_post path body
      → (after.states s.state ≡ host.states s.state)
        ⊎ ((is_post ≡ true)
            × ((stage : Bytes) × ((request : HookRequest) × ((path_parts path
                        (codes "/callbacks/scenario/")
                      ≡ some (other, stage))
                    × (body ≡ some request)
                    × IsWorking stage
                    × (after.states s.state
                        ≡ (run_stage P Real zero_real to_real Payload V max_int i s
                            (host.states s.state)
                            stage
                            request).0)))))
  unfolding update
  HasRun-isolated max_int i host after is_post path body other s b h r =
      elim (Bool-cases (s.state == (r.found).state)) [
        | inr differs ↦ inl (ap (λ x. x.states s.state) r.left ∙ rw (differs) refl)
        | inl equal ↦
            let address : s.state ≡ (r.found).state = ground (arith, equal) in
            let same_id : other ≡ r.id =
              (Built-IsSeparate P Real zero_real to_real Payload V b).apart other r.id s r.found h
                r.listed address in
            let same : s ≡ r.found = cc (h, r.listed, same_id) in
            let left : after.states s.state
                ≡ (run_stage P Real zero_real to_real Payload V max_int i s (host.states s.state)
                    r.stage r.request).0 =
              ap (λ x. x.states s.state) r.left
              ∙ rw (same) (update_self host.states (r.found).state _) in
            elim (run_stage-idle max_int i s (host.states s.state) r.stage r.request) [
              | inl working ↦ inr (
                r.posted,
                (r.stage, (r.request, (rw (same_id) r.routed, r.decoded, working, left))),
              )
              | inr idle ↦ inl (left ∙ idle)
            ]
      ]

  -- In a host that registrations and requests have made, where each scenario has a pointer to its state,
  -- a request keeps the table of scenarios, and it leaves the state of each of
  -- them as it was, but for the one that its path names, if it is a POST whose body is decoded and
  -- whose stage is `step`, `init` or `clean`: that one's state is what the stage makes of it.
  pub handle_scenario-isolated :
      (max_int i : ℕ) (host : Host P Real zero_real to_real Payload V) (is_post : Bool)
      (path : Bytes) (body : Option HookRequest) (other : Bytes)
      (s : HostedScenario P Real zero_real to_real Payload V)
      → Built P Real zero_real to_real Payload V host
      → find host.scenarios other ≡ some s
      → (let after =
            (handle_scenario P Real zero_real to_real Payload V max_int i host is_post path
              body).0 in
          (after.scenarios ≡ host.scenarios)
          × ((after.states s.state ≡ host.states s.state)
              ⊎ ((is_post ≡ true)
                  × ((stage : Bytes) × ((request : HookRequest) × ((path_parts path
                              (codes "/callbacks/scenario/")
                            ≡ some (other, stage))
                          × (body ≡ some request)
                          × IsWorking stage
                          × (after.states s.state
                              ≡ (run_stage P Real zero_real to_real Payload V max_int i s
                                  (host.states s.state)
                                  stage
                                  request).0)))))))
  handle_scenario-isolated max_int i host is_post path body other s b h = (
    (handle_scenario-table P Real zero_real to_real Payload V max_int i host is_post path body).0,
    elim (handle_scenario_cases P Real zero_real to_real Payload V max_int i host is_post path
        body) [
          | inl e ↦ inl (ap (λ x. x.states s.state) e)
          | inr r ↦ HasRun-isolated max_int i host _ is_post path body other s b h r
        ],
  )
