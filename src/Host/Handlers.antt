-- ===== src/Host/Handlers.antt =====
-- The handlers of runtime_http_host.go for scenarios, tracking, thresholds, reporting publishers and
-- observation cancellations, as functions of the request's path and of its decoded body. The texts of
-- errors are left out.
pub mod Separate
pub mod Isolated
pub mod Tracking
pub mod Tests
use loadstrike_go.Prelude.{
  ℕ, ◌+◌, Bool, true, false, not, ◌&&◌, ◌||◌, List, [], ◌∷◌, Bytes, codes, Option, none, some,
  text_eq, ltb, ◌==◌, if◌then◌else◌, Table, find, store, Result, ok, err, ◌>>=◌, ◌>>◌, reject_if,
}
use loadstrike_go.Host.Thresholds.{ThresholdError}
use loadstrike_go.Bridge.{new_bridge}
use loadstrike_go.Session.{Session, Batch, ConsumeError, snapshot, is_final}
use loadstrike_go.Metrics.{MetricStats, snapshot_registered}
use loadstrike_go.Host.Requests.{
  HookRequest, HostError, identity_invalid, gone, not_runnable, log_failed, callback_failed,
}
use loadstrike_go.Host.Metadata.{Platform}
use loadstrike_go.Host.Routes.{path_parts, single_id, observation_id}
use loadstrike_go.Host.Invoke.{
  Hook, Run, HookResponse, StepResponse, ScenarioState, invoke_scenario_hook, invoke_scenario_step,
}

-- What a handler writes: an error with its status, a status 204, or a JSON value with status 200.
pub data Reply {ℓ} (A : Type ℓ) : Type ℓ where
  http_error : ℕ → Reply A
  no_content : Reply A
  json : A → Reply A

abbrev pub bad_request : ℕ
bad_request = 400

abbrev pub not_found : ℕ
not_found = 404

abbrev pub method_not_allowed : ℕ
method_not_allowed = 405

abbrev pub status_gone : ℕ
status_gone = 410

abbrev pub internal_server_error : ℕ
internal_server_error = 500

-- `writeRuntimeScenarioCallbackError`
unfoldable pub error_status : HostError → ℕ
error_status (identity_invalid e) = bad_request
error_status gone = status_gone
error_status not_runnable = internal_server_error
error_status (log_failed e) = internal_server_error
error_status (callback_failed message) = internal_server_error

-- A response, or the error of the callback.
unfoldable pub callback_reply {ℓ} : {A : Type ℓ} → Result HostError A → Reply A
unfolding error_status
callback_reply (ok response) = json response
callback_reply (err e) = http_error (error_status e)

-- What `json.Decoder` gave of a body: its first value, and whether the body ends after it.
pub record Body (A : Type 0) : Type 0 where
  pub value : Option A
  pub is_single : Bool

-- One JSON value, or a bad request.
unfoldable pub exactly_one {ℓ} : {A : Type 0} {B : Type ℓ} → Body A → (A → Reply B) → Reply B
exactly_one body next = elim body.value [
  | none ↦ http_error bad_request
  | some value ↦ if body.is_single then next value else http_error bad_request
]

-- What the registry found under an identifier that the path gave.
unfoldable pub found_under {ℓ κ} :
    {I : Type 0} {A : Type ℓ} {B : Type κ} → Option I → (I → Option A) → (A → Reply B) → Reply B
found_under none lookup next = http_error not_found
found_under (some id) lookup next = elim (lookup id) [
  | none ↦ http_error not_found
  | some a ↦ next a
]

unfoldable pub only_post {ℓ} : {A : Type ℓ} → Bool → Reply A → Reply A
only_post is_post reply = if is_post then reply else http_error method_not_allowed

abbrev pub threshold_reply : Result ThresholdError Bool → Reply Bool
threshold_reply (ok passed) = json passed
threshold_reply (err e) = http_error internal_server_error

-- `handleThresholdCallback`; the reply's value is `Passed`.
unfoldable pub handle_threshold :
    {R : Type 0}
    → (Bytes → Option (R → Result ThresholdError Bool))
    → Bool
    → Bytes
    → Body R
    → Reply Bool
unfolding only_post found_under exactly_one single_id codes
handle_threshold lookup is_post path body = only_post is_post (
    found_under (single_id path (codes "/callbacks/threshold/")) lookup
      (λ evaluate. exactly_one body (λ payload. threshold_reply (evaluate payload))))

abbrev pub publish_reply : Option Bytes → Reply (Unit {0})
publish_reply none = no_content
publish_reply (some e) = http_error internal_server_error

-- `handleReportingPublishCallback`; a publisher returns its error, if any.
unfoldable pub handle_reporting_publish :
    (Bytes → Option (Bytes → Bytes → Option Bytes))
    → Bool
    → Bytes
    → Body (Bytes × Bytes)
    → Reply (Unit {0})
unfolding only_post found_under exactly_one single_id codes
handle_reporting_publish lookup is_post path body = only_post is_post (
    found_under (single_id path (codes "/callbacks/reporting-publish/")) lookup
      (λ publish. exactly_one body (λ (topic, payload). publish_reply (publish topic payload))))

-- `handleObservationCancellationCallback`; a context tells whether it is done.
unfoldable pub handle_observation_cancellation :
    {C : Type 0} → (Bytes → Option C) → (C → Bool) → Bool → Bytes → Reply Bool
unfolding only_post found_under observation_id codes
handle_observation_cancellation lookup is_done is_post path = only_post is_post (
    found_under (observation_id path (codes "/callbacks/observation-cancellation/")) lookup
      (λ context. json (is_done context)))

-- The consume branch of `handleTrackingCallback`, on the result of a poll: events and `completed`.
unfoldable pub consume_reply : {E : Type 0} → Batch E → Reply (List E × Bool)
consume_reply b = elim b.failed [
  | none ↦ json (b.events, b.ended)
  | some e ↦ http_error internal_server_error
]

-- A tracking registration: the producer, which fails with a text, and what a poll of the session gives;
-- either is `none` where it is nil.
pub record TrackingParts (R A E : Type 0) : Type 0 where
  pub produce : Option (R → Result Bytes A)
  pub poll : Option (Batch E)

pub data TrackingReply (A E : Type 0) : Type 0 where
  produced : A → TrackingReply A E
  consumed : List E → Bool → TrackingReply A E

unfoldable pub produce_reply :
    {R A E : Type 0} → (R → Result Bytes A) → Option R → Reply (TrackingReply A E)
produce_reply produce none = http_error bad_request
produce_reply produce (some payload) = elim (produce payload) [
  | err e ↦ http_error internal_server_error
  | ok result ↦ json (produced result)
]

abbrev pub consumed_reply : {A E : Type 0} → Reply (List E × Bool) → Reply (TrackingReply A E)
consumed_reply (http_error status) = http_error status
consumed_reply no_content = no_content
consumed_reply (json (events, completed)) = json (consumed events completed)

-- The `switch stage` of `handleTrackingCallback`.
unfoldable pub tracking_stage :
    {R A E : Type 0} → TrackingParts R A E → Bytes → Option R → Reply (TrackingReply A E)
unfolding produce_reply consume_reply text_eq codes
tracking_stage parts stage body =
    if text_eq stage (codes "produce")
    then elim parts.produce [
      | none ↦ http_error not_found
      | some produce ↦ produce_reply produce body
    ]
    else if text_eq stage (codes "consume")
    then elim parts.poll [
      | none ↦ http_error not_found
      | some batch ↦ consumed_reply (consume_reply batch)
    ]
    else http_error not_found

-- `handleTrackingCallback`; `none` is a body that is not decoded.
unfoldable pub handle_tracking :
    {R A E : Type 0}
    → (Bytes → Option (TrackingParts R A E))
    → Bool
    → Bytes
    → Option R
    → Reply (TrackingReply A E)
unfolding only_post path_parts tracking_stage codes
handle_tracking lookup is_post path body =
    only_post is_post (elim (path_parts path (codes "/callbacks/tracking/")) [
      | none ↦ http_error not_found
      | some (id, stage) ↦ elim (lookup id) [
        | none ↦ http_error not_found
        | some parts ↦ tracking_stage parts stage body
      ]
    ])

module _ (P : Platform) (Real : Type 0) (zero_real : Real) (to_real : ℕ → Real)
    (Payload V : Type 0) where
  abbrev pub State : Type 0
  State = ScenarioState P Real zero_real to_real Payload V

  -- A registration of the registry; `state` is its pointer, as an address.
  pub record HostedScenario : Type 0 where
    pub scenario_name : Bytes
    pub run : Option (Run P Real zero_real to_real Payload V)
    pub init : Option (Hook P Real zero_real to_real Payload V)
    pub clean : Option (Hook P Real zero_real to_real Payload V)
    pub state : ℕ

  -- The scenarios of the registry and the states that their pointers lead to; `fresh` is the address of
  -- the next state that is made.
  pub record ScenarioHost : Type 0 where
    pub closed : Bool
    pub scenarios : Table HostedScenario
    pub states : ℕ → State
    pub fresh : ℕ

  unfoldable pub update : (ℕ → State) → ℕ → State → ℕ → State
  update states address state other = if other == address then state else states other

  -- `newRuntimeScenarioBridgeState`
  unfoldable pub new_state : State
  unfolding new_bridge
  new_state = record { bridge = new_bridge; registered_metrics = [] }

  -- `registerScenario` of a scenario's callbacks, under the identifier that it made.
  unfoldable pub host_scenario :
      ScenarioHost
      → Bytes
      → Bytes
      → Option (Run P Real zero_real to_real Payload V)
      → Option (Hook P Real zero_real to_real Payload V)
      → Option (Hook P Real zero_real to_real Payload V)
      → ScenarioHost
  unfolding update new_state store
  host_scenario host id name run init clean =
      let registration : HostedScenario = record {
        scenario_name = name;
        run = run;
        init = init;
        clean = clean;
        state = host.fresh;
      } in
      if host.closed then host else record host {
        scenarios = store host.scenarios id registration;
        states = update host.states host.fresh new_state;
        fresh = host.fresh + 1;
      }

  pub data ScenarioReply : Type 0 where
    of_step : StepResponse P Real zero_real to_real Payload V → ScenarioReply
    of_hook : HookResponse P Real zero_real to_real Payload V → ScenarioReply
    of_metrics : MetricStats Real zero_real to_real → ScenarioReply

  abbrev pub tagged {ℓ} :
      {A : Type ℓ} → (A → ScenarioReply) → Result HostError A → Result HostError ScenarioReply
  tagged tag (ok a) = ok (tag a)
  tagged tag (err e) = err e

  -- The `switch stage` on the state that the pointer leads to, with the state that it leaves.
  unfoldable pub run_stage :
      ℕ → ℕ → HostedScenario → State → Bytes → HookRequest → State × Reply ScenarioReply
  unfolding callback_reply snapshot_registered codes text_eq
  run_stage max_int i s state stage request =
      let (after_step, step) =
        invoke_scenario_step P Real zero_real to_real Payload V max_int i state s.scenario_name
          request s.run in
      let (after_init, init) =
        invoke_scenario_hook P Real zero_real to_real Payload V i state s.scenario_name request
          s.init false in
      let (after_clean, clean) =
        invoke_scenario_hook P Real zero_real to_real Payload V i state s.scenario_name request
          s.clean true in
      if text_eq stage (codes "step")
      then (after_step, callback_reply (tagged of_step step))
      else if text_eq stage (codes "init")
      then (after_init, callback_reply (tagged of_hook init))
      else if text_eq stage (codes "clean")
      then (after_clean, callback_reply (tagged of_hook clean))
      else if text_eq stage (codes "metrics")
      then (
        state,
        if state.bridge.closed
            then http_error (error_status gone)
            else json (
                of_metrics (
                  snapshot_registered Real zero_real to_real (record { counters = []; gauges = [] })
                    state.registered_metrics)),
      )
      else (state, http_error not_found)

  -- `handleScenarioCallback`; `none` is a body that is not decoded.
  unfoldable pub handle_scenario :
      ℕ → ℕ → ScenarioHost → Bool → Bytes → Option HookRequest → ScenarioHost × Reply ScenarioReply
  unfolding run_stage path_parts find update codes
  handle_scenario max_int i host is_post path body =
      if not is_post
      then (host, http_error method_not_allowed)
      else elim (path_parts path (codes "/callbacks/scenario/")) [
        | none ↦ (host, http_error not_found)
        | some (id, stage) ↦ elim (find host.scenarios id) [
          | none ↦ (host, http_error not_found)
          | some s ↦ elim body [
            | none ↦ (host, http_error bad_request)
            | some request ↦
                let (state, reply) = run_stage max_int i s (host.states s.state) stage request in
                (record host { states = update host.states s.state state }, reply)
          ]
        ]
      ]
