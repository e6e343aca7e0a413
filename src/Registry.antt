-- ===== src/Registry.antt =====
-- `runtimeCallbackRegistry` (runtime_callback_registry.go): the callbacks of a run under opaque
-- identifiers. Each registration and lookup is one section under `r.mu`.
pub mod Identifiers
pub mod Laws
pub mod Closing
pub mod Tests
use loadstrike_go.Prelude.{
  ℕ, ◌+◌, Bool, true, false, not, ◌&&◌, ◌||◌, List, [], ◌∷◌, ◌++◌, Bytes, codes, Option, none, some,
  text_eq, length, ltb, ◌==◌, if◌then◌else◌, Table, find, store,
}
use loadstrike_go.Base64.{encode_raw_url}
use loadstrike_go.Bridge.{InstanceKey, Bridge, new_bridge, begin_close}
use loadstrike_go.Session.{Session, new_session, shut}

-- The Go types that the registry only stores: callbacks and values of its callers.
pub record Types : Type 1 where
  pub Run : Type 0
  pub Hook : Type 0
  pub Plugin : Type 0
  pub Sink : Type 0
  pub Policy : Type 0
  pub Evaluate : Type 0
  pub Publish : Type 0
  pub Produce : Type 0
  pub Consume : Type 0
  pub Context : Type 0
  pub Value : Type 0
  pub Event : Type 0

-- `nextCallbackID` with the sixteen bytes that `rand.Read` gave; its failure is a panic.
unfoldable pub next_callback_id : Bytes → Bytes → Bytes
next_callback_id prefix random_bytes = prefix ++ (codes "-" ++ encode_raw_url random_bytes)

-- Which predicate of a threshold is evaluated, after its payload was checked for that scope.
pub data Scope : Type 0 where
  scenario_scope step_scope metric_scope : Scope

module _ (T : Types) where
  open T use {
    Run, Hook, Plugin, Sink, Policy, Evaluate, Publish, Produce, Consume, Context, Value, Event,
  }

  pub record RegisteredCallback : Type 0 where
    pub id : Bytes
    pub scenario_name : Bytes
    pub step_name : Bytes
    pub run : Run

  -- What `registerScenario` reads of a `scenarioDefinition`.
  pub record ScenarioDefinition : Type 0 where
    pub name : Bytes
    pub steps : List (Bytes × Option Run)
    pub init : Option Hook
    pub clean : Option Hook

  pub record ScenarioRegistration : Type 0 where
    pub scenario_name : Bytes
    pub run : Option Run
    pub init : Option Hook
    pub clean : Option Hook
    pub state : Bridge Value

  -- The predicates of a `ThresholdSpec`, which may be nil.
  pub record ThresholdPredicates : Type 0 where
    pub scenario_predicate : Option Evaluate
    pub step_predicate : Option Evaluate
    pub metric_predicate : Option Evaluate

  pub record TrackingRegistration : Type 0 where
    pub produce : Option Produce
    pub consume : Option Consume
    pub consume_stream : Option (Session Event)

  pub record Registry : Type 0 where
    pub closed : Bool
    pub callbacks : Table RegisteredCallback
    pub scenarios : Table ScenarioRegistration
    pub plugins : Table Plugin
    pub sinks : Table Sink
    pub policies : Table Policy
    pub tracking : Table TrackingRegistration
    pub thresholds : Table (Scope × Evaluate)
    pub publishers : Table Publish
    pub observation_cancellations : Table Context

  -- `newRuntimeCallbackRegistry`
  unfoldable pub new_registry : Registry
  new_registry = record {
    closed = false;
    callbacks = [];
    scenarios = [];
    plugins = [];
    sinks = [];
    policies = [];
    tracking = [];
    thresholds = [];
    publishers = [];
    observation_cancellations = [];
  }

  -- `primaryScenarioRun`
  unfoldable pub primary_scenario_run : List (Bytes × Option Run) → Option Run
  primary_scenario_run [] = none
  primary_scenario_run ((name, run) ∷ steps) = run

  -- `newRuntimeThresholdRegistration`
  unfoldable pub threshold_registration :
      Option Evaluate → Option Evaluate → Option Evaluate → Option (Scope × Evaluate)
  threshold_registration (some p) step metric = some (scenario_scope, p)
  threshold_registration none (some p) metric = some (step_scope, p)
  threshold_registration none none (some p) = some (metric_scope, p)
  threshold_registration none none none = none

  -- Each registration takes the random bytes of its identifier last; `[]` is Go's empty string.
  unfoldable pub register_scenario_step : Registry → Bytes → Bytes → Run → Bytes → Registry × Bytes
  register_scenario_step r scenario_name step_name run random_bytes =
      let id = next_callback_id (codes "step") random_bytes in
      let callback : RegisteredCallback = record {
        id = id;
        scenario_name = scenario_name;
        step_name = step_name;
        run = run;
      } in
      if r.closed then (r, []) else (record r { callbacks = store r.callbacks id callback }, id)

  unfoldable pub register_scenario : Registry → ScenarioDefinition → Bytes → Registry × Bytes
  unfolding primary_scenario_run new_bridge
  register_scenario r scenario random_bytes =
      let id = next_callback_id (codes "scenario") random_bytes in
      let registration : ScenarioRegistration = record {
        scenario_name = scenario.name;
        run = primary_scenario_run scenario.steps;
        init = scenario.init;
        clean = scenario.clean;
        state = new_bridge;
      } in
      if r.closed then (r, []) else (record r { scenarios = store r.scenarios id registration }, id)

  -- The registration and its `ok`, when the predicates gave a registration.
  unfoldable pub put_threshold :
      Registry → Option (Scope × Evaluate) → Bytes → Registry × Option Bytes
  put_threshold r none random_bytes = (r, none)
  put_threshold r (some registration) random_bytes =
      let id = next_callback_id (codes "threshold") random_bytes in
      if r.closed
      then (r, none)
      else (record r { thresholds = store r.thresholds id registration }, some id)

  unfoldable pub register_threshold :
      Registry → ThresholdPredicates → Bytes → Registry × Option Bytes
  unfolding put_threshold threshold_registration
  register_threshold r threshold random_bytes =
      put_threshold r
        (threshold_registration threshold.scenario_predicate threshold.step_predicate
          threshold.metric_predicate)
        random_bytes

  unfoldable pub register_reporting_publisher : Registry → Publish → Bytes → Registry × Bytes
  register_reporting_publisher r publish random_bytes =
      let id = next_callback_id (codes "reporting-publish") random_bytes in
      if r.closed then (r, []) else (record r { publishers = store r.publishers id publish }, id)

  unfoldable pub register_worker_plugin : Registry → Plugin → Bytes → Registry × Bytes
  register_worker_plugin r plugin random_bytes =
      let id = next_callback_id (codes "plugin") random_bytes in
      if r.closed then (r, []) else (record r { plugins = store r.plugins id plugin }, id)

  unfoldable pub register_reporting_sink : Registry → Sink → Bytes → Registry × Bytes
  register_reporting_sink r sink random_bytes =
      let id = next_callback_id (codes "sink") random_bytes in
      if r.closed then (r, []) else (record r { sinks = store r.sinks id sink }, id)

  unfoldable pub register_runtime_policy : Registry → Policy → Bytes → Registry × Bytes
  register_runtime_policy r policy random_bytes =
      let id = next_callback_id (codes "policy") random_bytes in
      if r.closed then (r, []) else (record r { policies = store r.policies id policy }, id)

  unfoldable pub register_tracking_produce : Registry → Produce → Bytes → Registry × Bytes
  register_tracking_produce r produce random_bytes =
      let id = next_callback_id (codes "tracking-produce") random_bytes in
      let registration : TrackingRegistration = record {
        produce = some produce;
        consume = none;
        consume_stream = none;
      } in
      if r.closed then (r, []) else (record r { tracking = store r.tracking id registration }, id)

  unfoldable pub register_tracking_consume : Registry → Consume → Bytes → Registry × Bytes
  unfolding new_session
  register_tracking_consume r consume random_bytes =
      let id = next_callback_id (codes "tracking-consume") random_bytes in
      let registration : TrackingRegistration = record {
        produce = none;
        consume = some consume;
        consume_stream = some new_session;
      } in
      if r.closed then (r, []) else (record r { tracking = store r.tracking id registration }, id)

  -- `none` is a nil context.
  unfoldable pub register_observation_cancellation :
      Registry → Option Context → Bytes → Registry × Bytes
  register_observation_cancellation r none random_bytes = (r, [])
  register_observation_cancellation r (some context) random_bytes =
      let id = next_callback_id (codes "observation-cancellation") random_bytes in
      if r.closed then (r, []) else (
        record r { observation_cancellations = store r.observation_cancellations id context },
        id,
      )

  -- The lookups of the registry, which work on a closed one too.
  abbrev pub lookup_callback : Registry → Bytes → Option RegisteredCallback
  lookup_callback r id = find r.callbacks id

  abbrev pub lookup_scenario : Registry → Bytes → Option ScenarioRegistration
  lookup_scenario r id = find r.scenarios id

  abbrev pub lookup_threshold : Registry → Bytes → Option (Scope × Evaluate)
  lookup_threshold r id = find r.thresholds id

  abbrev pub lookup_reporting_publisher : Registry → Bytes → Option Publish
  lookup_reporting_publisher r id = find r.publishers id

  abbrev pub lookup_worker_plugin : Registry → Bytes → Option Plugin
  lookup_worker_plugin r id = find r.plugins id

  abbrev pub lookup_reporting_sink : Registry → Bytes → Option Sink
  lookup_reporting_sink r id = find r.sinks id

  abbrev pub lookup_runtime_policy : Registry → Bytes → Option Policy
  lookup_runtime_policy r id = find r.policies id

  abbrev pub lookup_tracking : Registry → Bytes → Option TrackingRegistration
  lookup_tracking r id = find r.tracking id

  abbrev pub lookup_observation_cancellation : Registry → Bytes → Option Context
  lookup_observation_cancellation r id = find r.observation_cancellations id

  -- The loop of `Close` over the scenarios, under `r.mu`.
  unfoldable pub close_scenarios : Table ScenarioRegistration → Table ScenarioRegistration
  close_scenarios [] = []
  close_scenarios ((id, registration) ∷ rest) =
      (id, record registration { state = (begin_close registration.state).0 })
      ∷ close_scenarios rest

  abbrev shut_stream : Option (Session Event) → Option (Session Event)
  shut_stream none = none
  shut_stream (some session) = some (shut session)

  -- The loop of `Close` over the consumers.
  unfoldable pub shut_streams : Table TrackingRegistration → Table TrackingRegistration
  shut_streams [] = []
  shut_streams ((id, registration) ∷ rest) =
      (id, record registration { consume_stream = shut_stream registration.consume_stream })
      ∷ shut_streams rest

  -- `Close`, but for `finishClose`, whose wait is in Bridge/World.antt. A second call changes nothing.
  unfoldable pub close : Registry → Registry
  unfolding close_scenarios shut_streams
  close r = if r.closed then r else record r {
    closed = true;
    scenarios = close_scenarios r.scenarios;
    tracking = shut_streams r.tracking;
    observation_cancellations = [];
  }
