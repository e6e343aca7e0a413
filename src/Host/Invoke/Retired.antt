-- ===== src/Host/Invoke/Retired.antt =====
-- A scenario instance after its clean callback.
use loadstrike_go.Prelude.{
  ℕ, ◌≡◌, refl, inl, inr, Bool, true, false, List, Bytes, Option, none, some, Result, ok, err,
  Result-cases, arith,
}
use loadstrike_go.Bridge.{InstanceKey, Bridge, begin_close}
use loadstrike_go.Bridge.Calls.{clean_instance}
use loadstrike_go.Bridge.Calls.Retire.{
  is_gone, clean_instance-gone, gone-refused, calls-gone, begin_close-gone,
}
use loadstrike_go.Metrics.{Metric}
use loadstrike_go.Host.Logs.{CallbackLog}
use loadstrike_go.Host.Requests.{HookRequest, HostError, gone, key_for_registration}
use loadstrike_go.Host.Metadata.{Platform, CallbackMetadata, callback_metadata}
use loadstrike_go.Host.Invoke.{
  Hook, Run, HookResponse, StepContext, invocation_number_to_int, parse_scenario_started,
  invoke_step, ScenarioState, hook_response, call_hook, invoke_hook, invoke_scenario_hook,
  step_response, invoke_scenario_step,
}

module _ (P : Platform) (Real : Type 0) (zero_real : Real) (to_real : ℕ → Real)
    (Payload V : Type 0) where
  hook_response-ok :
      (s t : ScenarioState P Real zero_real to_real Payload V)
      (hook : Option (Hook P Real zero_real to_real Payload V))
      (called : Bridge V
        × Result HostError (List (Metric Real zero_real to_real) × List CallbackLog))
      (response : HookResponse P Real zero_real to_real Payload V)
      → hook_response P Real zero_real to_real Payload V s hook called ≡ (t, ok response)
      → (result : List (Metric Real zero_real to_real) × List CallbackLog) × (called
          ≡ (t.bridge, ok result))
  unfolding hook_response
  hook_response-ok s t hook (bridge, err e) response h = absurd (cc h)
  hook_response-ok s t hook (bridge, ok (metrics, logs)) response h =
      ((metrics, logs), ground (arith, h))

  call_hook-gone :
      (i : ℕ) (s : Bridge V) (key : InstanceKey)
      (invoke : List (Bytes × V)
        → List (Bytes × V)
          × Result HostError (List (Metric Real zero_real to_real) × List CallbackLog))
      (complete : Bool)
      → is_gone s key ≡ true
      → call_hook P Real zero_real to_real Payload V i s key invoke complete ≡ (s, err gone)
  unfolding call_hook
  call_hook-gone i s key invoke true h = (gone-refused gone i invoke s key h).1
  call_hook-gone i s key invoke false h = (gone-refused gone i invoke s key h).0

  abbrev pub State : Type 0
  State = ScenarioState P Real zero_real to_real Payload V

  -- What may follow: any hooks and steps, of any instances and by any threads, and closing.
  pub data Later (s : State) : State → Type 0 where
    at_once : Later s s
    after_hook :
        {t : State}
        → Later s t
        → (i : ℕ) (name : Bytes) (request : HookRequest)
          (hook : Option (Hook P Real zero_real to_real Payload V)) (complete : Bool)
        → Later s
            (invoke_scenario_hook P Real zero_real to_real Payload V i t name request hook
              complete).0
    after_step :
        {t : State}
        → Later s t
        → (max_int i : ℕ) (name : Bytes) (request : HookRequest)
          (run : Option (Run P Real zero_real to_real Payload V))
        → Later s
            (invoke_scenario_step P Real zero_real to_real Payload V max_int i t name request run).0
    after_close : {t : State} → Later s t → Later s (record t { bridge = (begin_close t.bridge).0 })

  hook_response-bridge :
      (s : State) (hook : Option (Hook P Real zero_real to_real Payload V))
      (called : Bridge V
        × Result HostError (List (Metric Real zero_real to_real) × List CallbackLog))
      → ((hook_response P Real zero_real to_real Payload V s hook called).0).bridge ≡ called.0
  unfolding hook_response
  hook_response-bridge s hook (bridge, err e) = refl
  hook_response-bridge s hook (bridge, ok (metrics, logs)) = refl

  call_hook-keeps_gone :
      (i : ℕ) (s : Bridge V) (k key : InstanceKey)
      (invoke : List (Bytes × V)
        → List (Bytes × V)
          × Result HostError (List (Metric Real zero_real to_real) × List CallbackLog))
      (complete : Bool)
      → is_gone s key ≡ true
      → is_gone (call_hook P Real zero_real to_real Payload V i s k invoke complete).0 key ≡ true
  unfolding call_hook
  call_hook-keeps_gone i s k key invoke true h = (calls-gone gone i invoke s k key h).1
  call_hook-keeps_gone i s k key invoke false h = (calls-gone gone i invoke s k key h).0

  invoke_scenario_hook-gone :
      (i : ℕ) (t : State) (name : Bytes) (request : HookRequest)
      (hook : Option (Hook P Real zero_real to_real Payload V)) (complete : Bool)
      (key : InstanceKey)
      → is_gone t.bridge key ≡ true
      → is_gone
          ((invoke_scenario_hook P Real zero_real to_real Payload V i t name request hook
              complete).0
            ).bridge
          key
        ≡ true
  unfolding invoke_scenario_hook
  invoke_scenario_hook-gone i t name request hook complete key h =
      elim (Result-cases (key_for_registration request name)) [
        | inr (e, p) ↦ ground (arith, p, h)
        | inl (k, p) ↦ elim (Result-cases (callback_metadata P request)) [
          | inr (e, q) ↦ ground (arith, p, q, h)
          | inl (metadata, q) ↦
              let invoke =
                invoke_hook P Real zero_real to_real Payload V hook
                  (record { metadata = metadata }) in
              let called =
                call_hook P Real zero_real to_real Payload V i t.bridge k invoke complete in
              ground (
                arith,
                p,
                q,
                hook_response-bridge t hook called,
                call_hook-keeps_gone i t.bridge k key invoke complete h,
              )
        ]
      ]

  invoke_scenario_step-gone :
      (max_int i : ℕ) (t : State) (name : Bytes) (request : HookRequest)
      (run : Option (Run P Real zero_real to_real Payload V)) (key : InstanceKey)
      → is_gone t.bridge key ≡ true
      → is_gone
          ((invoke_scenario_step P Real zero_real to_real Payload V max_int i t name request run).0
            ).bridge
          key
        ≡ true
  unfolding invoke_scenario_step step_response
  invoke_scenario_step-gone max_int i t name request none key h =
      ground (arith, h, Result-cases (key_for_registration request name))
  invoke_scenario_step-gone max_int i t name request (some run) key h =
      elim (Result-cases (key_for_registration request name)) [
        | inr (e, p) ↦ ground (arith, p, h)
        | inl (k, p) ↦ elim (Result-cases (callback_metadata P request)) [
          | inr (e, q) ↦ ground (arith, p, q, h)
          | inl (metadata, q) ↦
              let context : StepContext P Real zero_real to_real Payload V = record {
                metadata = metadata;
                invocation_number = request.invocation_number;
                random_seed = invocation_number_to_int max_int request.invocation_number;
                scenario_timer_started = parse_scenario_started P request.scenario_started_utc;
              } in
              let kept =
                (calls-gone gone i (invoke_step P Real zero_real to_real Payload V run context)
                  t.bridge k key h).0 in
              ground (arith, p, q, kept)
        ]
      ]

  Later-gone :
      {s t : State} (key : InstanceKey)
      → Later s t
      → is_gone s.bridge key ≡ true
      → is_gone t.bridge key ≡ true
  Later-gone key at_once h = h
  Later-gone key (after_hook {t} earlier i name request hook complete) h =
      invoke_scenario_hook-gone i t name request hook complete key (Later-gone key earlier h)
  Later-gone key (after_step {t} earlier max_int i name request run) h =
      invoke_scenario_step-gone max_int i t name request run key (Later-gone key earlier h)
  Later-gone key (after_close {t} earlier) h = begin_close-gone t.bridge key

  -- What a clean callback that is answered without an error leaves.
  cleaned-gone :
      (i : ℕ) (s t : State) (name : Bytes) (request : HookRequest)
      (hook : Option (Hook P Real zero_real to_real Payload V)) (key : InstanceKey)
      (response : HookResponse P Real zero_real to_real Payload V)
      → key_for_registration request name ≡ ok key
      → invoke_scenario_hook P Real zero_real to_real Payload V i s name request hook true
        ≡ (t, ok response)
      → is_gone t.bridge key ≡ true
  unfolding invoke_scenario_hook call_hook
  cleaned-gone i s t name request hook key response k h =
      elim (Result-cases (callback_metadata P request)) [
        | inr (e, p) ↦ absurd (ground (arith, k, h, p))
        | inl (found, p) ↦
            let invoke =
              invoke_hook P Real zero_real to_real Payload V hook (record { metadata = found }) in
            let answered : hook_response P Real zero_real to_real Payload V s hook
                  (clean_instance gone i invoke s.bridge key)
                ≡ (t, ok response) =
              ground (arith, h, k, p) in
            let (result, called) =
              hook_response-ok s t hook (clean_instance gone i invoke s.bridge key) response
                answered in
            clean_instance-gone gone i invoke s.bridge t.bridge key result called
      ]

  -- Once a clean callback was answered without an error, then after any further hooks and steps, of this
  -- instance and of others, by any threads, and after closing, a hook or a step for the same instance
  -- whose metadata can be read is answered as gone and changes nothing: its callback does not run.
  pub invoke_scenario_hook-final :
      (i j max_int : ℕ) (s t u : State) (name other_name : Bytes) (request later : HookRequest)
      (hook next : Option (Hook P Real zero_real to_real Payload V))
      (run : Run P Real zero_real to_real Payload V) (complete : Bool) (key : InstanceKey)
      (metadata : CallbackMetadata P) (response : HookResponse P Real zero_real to_real Payload V)
      → key_for_registration request name ≡ ok key
      → invoke_scenario_hook P Real zero_real to_real Payload V i s name request hook true
        ≡ (t, ok response)
      → Later t u
      → key_for_registration later other_name ≡ ok key
      → callback_metadata P later ≡ ok metadata
      → (invoke_scenario_hook P Real zero_real to_real Payload V j u other_name later next complete
          ≡ (u, err gone))
        × (invoke_scenario_step P Real zero_real to_real Payload V max_int j u other_name later
              (some run)
            ≡ (u, err gone))
  unfolding invoke_scenario_hook invoke_scenario_step hook_response step_response
  invoke_scenario_hook-final i j max_int s t u name other_name request later hook next run complete
        key metadata response k h between l m =
      let final : is_gone u.bridge key ≡ true =
        Later-gone key between (cleaned-gone i s t name request hook key response k h) in
      let context : StepContext P Real zero_real to_real Payload V = record {
        metadata = metadata;
        invocation_number = later.invocation_number;
        random_seed = invocation_number_to_int max_int later.invocation_number;
        scenario_timer_started = parse_scenario_started P later.scenario_started_utc;
      } in
      let step = invoke_step P Real zero_real to_real Payload V run context in
      let called =
        call_hook-gone j u.bridge key
          (invoke_hook P Real zero_real to_real Payload V next (record { metadata = metadata }))
          complete final in
      (
        ground (arith, l, m, called),
        ground (arith, l, m, (gone-refused gone j step u.bridge key final).0),
      )
