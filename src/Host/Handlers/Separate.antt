-- ===== src/Host/Handlers/Separate.antt =====
-- Hosts as registrations and requests make them: no two scenarios share a state.
use loadstrike_go.Prelude.{
  ℕ, ◌+◌, ◌<◌, ◌≡◌, ◌⊎◌, sym, ap, ◌∙◌, inl, inr, refl, Bool, true, false, [], Bytes, codes, Option,
  none, some, Table, find, store, text_eq, text_eq_iff, Option-cases, Bool-cases, arith,
}
use loadstrike_go.Host.Requests.{HookRequest}
use loadstrike_go.Host.Metadata.{Platform}
use loadstrike_go.Host.Routes.{path_parts}
use loadstrike_go.Host.Invoke.{Hook, Run}
use loadstrike_go.Host.Handlers.{
  State, HostedScenario, ScenarioHost, update, host_scenario, run_stage, handle_scenario,
}

module _ (P : Platform) (Real : Type 0) (zero_real : Real) (to_real : ℕ → Real)
    (Payload V : Type 0) where
  abbrev pub Host : Type 0
  Host = ScenarioHost P Real zero_real to_real Payload V

  -- A host as the program makes it: from none, by registrations and requests.
  pub data Built : Host → Type 0 where
    none_yet :
        (states : ℕ → State P Real zero_real to_real Payload V)
        → Built (record { closed = false; scenarios = []; states = states; fresh = 0 })
    registered :
        {host : Host}
        → Built host
        → (id name : Bytes) (run : Option (Run P Real zero_real to_real Payload V))
          (init clean : Option (Hook P Real zero_real to_real Payload V))
        → Built (host_scenario P Real zero_real to_real Payload V host id name run init clean)
    requested :
        {host : Host}
        → Built host
        → (max_int i : ℕ) (is_post : Bool) (path : Bytes) (body : Option HookRequest)
        → Built
            (handle_scenario P Real zero_real to_real Payload V max_int i host is_post path body).0

  -- No two identifiers lead to one state, and none to one that is not made yet.
  pub record IsSeparate (host : Host) : Type 0 where
    pub made :
        (id : Bytes) (s : HostedScenario P Real zero_real to_real Payload V)
        → find host.scenarios id ≡ some s
        → s.state < host.fresh
    pub apart :
        (id other : Bytes) (s t : HostedScenario P Real zero_real to_real Payload V)
        → find host.scenarios id ≡ some s
        → find host.scenarios other ≡ some t
        → s.state ≡ t.state
        → id ≡ other

  -- The request ran a stage: it named a scenario, and its body was decoded.
  pub record HasRun (max_int i : ℕ) (host after : Host) (is_post : Bool) (path : Bytes)
      (body : Option HookRequest) : Type 0 where
    pub id : Bytes
    pub stage : Bytes
    pub found : HostedScenario P Real zero_real to_real Payload V
    pub request : HookRequest
    pub posted : is_post ≡ true
    pub routed : path_parts path (codes "/callbacks/scenario/") ≡ some (id, stage)
    pub listed : find host.scenarios id ≡ some found
    pub decoded : body ≡ some request
    pub left : after ≡ record host {
      states =
          update P Real zero_real to_real Payload V host.states found.state
            (run_stage P Real zero_real to_real Payload V max_int i found
              (host.states found.state)
              stage
              request).0;
    }

  pub handle_scenario_cases :
      (max_int i : ℕ) (host : Host) (is_post : Bool) (path : Bytes) (body : Option HookRequest)
      → (let after =
            (handle_scenario P Real zero_real to_real Payload V max_int i host is_post path
              body).0 in
          (after ≡ host) ⊎ HasRun max_int i host after is_post path body)
  unfolding handle_scenario codes
  handle_scenario_cases max_int i host false path body = inl refl
  handle_scenario_cases max_int i host true path none =
      inl (elim (Option-cases (path_parts path (codes "/callbacks/scenario/"))) [
        | inl p ↦ ground (arith, p)
        | inr ((id, stage), p) ↦ ground (arith, p, Option-cases (find host.scenarios id))
      ])
  handle_scenario_cases max_int i host true path (some request) =
      elim (Option-cases (path_parts path (codes "/callbacks/scenario/"))) [
        | inl p ↦ inl (ground (arith, p))
        | inr ((id, stage), p) ↦ elim (Option-cases (find host.scenarios id)) [
          | inl q ↦ inl (ground (arith, p, q))
          | inr (s, q) ↦ inr (record {
            id = id;
            stage = stage;
            found = s;
            request = request;
            posted = refl;
            routed = p;
            listed = q;
            decoded = refl;
            left = ground (arith, p, q);
          })
        ]
      ]

  pub handle_scenario-table :
      (max_int i : ℕ) (host : Host) (is_post : Bool) (path : Bytes) (body : Option HookRequest)
      → (let after =
            (handle_scenario P Real zero_real to_real Payload V max_int i host is_post path
              body).0 in
          (after.scenarios ≡ host.scenarios) × (after.fresh ≡ host.fresh))
  handle_scenario-table max_int i host is_post path body =
      elim (handle_scenario_cases max_int i host is_post path body) [
        | inl e ↦ (ap (λ h. h.scenarios) e, ap (λ h. h.fresh) e)
        | inr r ↦ (ap (λ h. h.scenarios) r.left, ap (λ h. h.fresh) r.left)
      ]

  store-cases :
      (table : Table (HostedScenario P Real zero_real to_real Payload V)) (id other : Bytes)
      (s t : HostedScenario P Real zero_real to_real Payload V)
      → find (store table id s) other ≡ some t
      → ((other ≡ id) × (t ≡ s)) ⊎ (find table other ≡ some t)
  unfolding find store
  store-cases table id other s t h =
      ground (arith, h, text_eq_iff id other, Bool-cases (text_eq id other))

  store-IsSeparate :
      (host : Host) (id : Bytes) (s : HostedScenario P Real zero_real to_real Payload V)
      (states : ℕ → State P Real zero_real to_real Payload V) (closed : Bool)
      → s.state ≡ host.fresh
      → IsSeparate host
      → IsSeparate (record {
        closed = closed;
        scenarios = store host.scenarios id s;
        states = states;
        fresh = host.fresh + 1;
      })
  store-IsSeparate host id s states closed e inv = record {
    made = λ k t h. elim (store-cases host.scenarios id k s t h) [
      | inl (same, new) ↦ omega (arith, e, ap (λ x. x.state) new)
      | inr old ↦ omega (arith, inv.made k t old)
    ];
    apart = λ k l t u h g same. elim (store-cases host.scenarios id k s t h) [
      | inl (k_new, t_new) ↦ elim (store-cases host.scenarios id l s u g) [
        | inl (l_new, u_new) ↦ k_new ∙ sym l_new
        | inr old ↦ absurd (omega (arith, e, same, ap (λ x. x.state) t_new, inv.made l u old))
      ]
      | inr k_old ↦ elim (store-cases host.scenarios id l s u g) [
        | inl (l_new, u_new) ↦
            absurd (omega (arith, e, same, ap (λ x. x.state) u_new, inv.made k t k_old))
        | inr old ↦ inv.apart k l t u k_old old same
      ]
    ];
  }

  host_scenario-IsSeparate :
      (host : Host) (id name : Bytes) (run : Option (Run P Real zero_real to_real Payload V))
      (init clean : Option (Hook P Real zero_real to_real Payload V)) (closed : Bool)
      → host.closed ≡ closed
      → IsSeparate host
      → IsSeparate (host_scenario P Real zero_real to_real Payload V host id name run init clean)
  unfolding host_scenario
  host_scenario-IsSeparate host id name run init clean true e inv =
      rw (e) (record { made = inv.made; apart = inv.apart })
  host_scenario-IsSeparate host id name run init clean false e inv =
      rw (e) (store-IsSeparate host id _ _ false refl inv)

  pub Built-IsSeparate : {host : Host} → Built host → IsSeparate host
  unfolding find
  Built-IsSeparate (none_yet states) = record {
    made = λ id s h. absurd (cc h);
    apart = λ id other s t h. absurd (cc h);
  }
  Built-IsSeparate (registered {host} b id name run init clean) =
      host_scenario-IsSeparate host id name run init clean _ refl (Built-IsSeparate b)
  Built-IsSeparate (requested {host} b max_int i is_post path body) =
      let (same, same_fresh) = handle_scenario-table max_int i host is_post path body in
      let inv = Built-IsSeparate b in
      record {
        made = λ id s h. rw (same_fresh) (inv.made id s (rw (← same) h));
        apart = λ id other s t h k. inv.apart id other s t (rw (← same) h) (rw (← same) k);
      }
