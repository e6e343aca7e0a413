-- ===== src/Host/Invoke.antt =====
-- `runtimeInvokeScenarioHook` and `runtimeInvokeScenarioStep` (runtime_http_host.go) as one thread runs
-- them: the callback of a request, on the data of its scenario instance. A callback is a function of its
-- context and the data, and gives the data it leaves, what it logged, and its outcome.
pub mod Retired
use loadstrike_go.Prelude.{
  ℕ, ◌+◌, ◌-◌, Bool, true, false, not, ◌&&◌, ◌||◌, List, [], ◌∷◌, Bytes, Option, none, some,
  text_eq, is_blank_utf8, ltb, if◌then◌else◌, ℤ, pos, negsuc, ltb_ℤ, Result, ok, err,
}
use loadstrike_go.Bridge.{InstanceKey, Bridge}
use loadstrike_go.Bridge.Calls.{with_instance, clean_instance}
use loadstrike_go.Metrics.{Metric, MetricDescriptor, describe}
use loadstrike_go.Host.Logs.{CallbackLog, LogError, new_log_buffer, append_logs, log_result}
use loadstrike_go.Host.Requests.{
  HookRequest, IdentityError, HostError, identity_invalid, gone, not_runnable, log_failed,
  callback_failed, NodeInfo, Partition, key_for_registration,
}
use loadstrike_go.Host.Metadata.{
  Platform, TestInfo, ScenarioInfo, CallbackMetadata, callback_metadata,
}

-- `runtimeInvocationNumberToInt`; `max_int` is the greatest `int` of the machine.
unfoldable pub invocation_number_to_int : ℕ → ℤ → ℤ
invocation_number_to_int max_int value =
    if ltb_ℤ (pos max_int) value
    then pos max_int
    else if ltb_ℤ value (negsuc max_int)
    then negsuc max_int
    else value

-- `runtimeParseScenarioStartedUTC`
unfoldable pub parse_scenario_started : (P : Platform) → Bytes → P.Time
unfolding is_blank_utf8
parse_scenario_started P value =
    if is_blank_utf8 value
    then P.zero_time
    else elim (P.parse_time value) [ none ↦ P.zero_time | some time ↦ time ]

-- What a callback leaves.
pub record Called (V A : Type 0) : Type 0 where
  pub values : List (Bytes × V)
  pub written : List CallbackLog
  pub outcome : A

abbrev pub identified {ℓ} : {A : Type ℓ} → Result IdentityError A → Result HostError A
identified (ok a) = ok a
identified (err e) = err (identity_invalid e)

-- The entries of a callback's log buffer, or its error.
unfoldable pub logs_of : List CallbackLog → Result HostError (List CallbackLog)
unfolding log_result append_logs new_log_buffer
logs_of written = elim (log_result (append_logs new_log_buffer written)) [
  | ok logs ↦ ok logs
  | err e ↦ err (log_failed e)
]

-- `Real` is `float64`; `Payload` is the payload of a reply; `V` is a value of an instance's data.
module _ (P : Platform) (Real : Type 0) (zero_real : Real) (to_real : ℕ → Real)
    (Payload V : Type 0) where
  pub record HookContext : Type 0 where
    pub metadata : CallbackMetadata P

  pub record StepContext : Type 0 where
    pub metadata : CallbackMetadata P
    pub invocation_number : ℤ
    pub random_seed : ℤ
    pub scenario_timer_started : P.Time

  -- What a step's reply and its context hold after the step.
  pub record StepReply : Type 0 where
    pub is_success : Bool
    pub status_code : Bytes
    pub message : Bytes
    pub size_bytes : ℤ
    pub custom_latency_ms : Real
    pub payload : Payload
    pub step_name : Bytes
    pub stop_scenario_name : Bytes
    pub stop_scenario_reason : Bytes
    pub stop_current_test : Bool
    pub stop_current_test_reason : Bytes

  pub record StepResponse : Type 0 where
    pub is_success : Bool
    pub status_code : Bytes
    pub message : Bytes
    pub size_bytes : ℤ
    pub custom_latency_ms : Real
    pub payload : Payload
    pub step_name : Bytes
    pub stop_scenario : Bool
    pub stop_scenario_name : Bytes
    pub stop_scenario_reason : Bytes
    pub stop_current_test : Bool
    pub stop_current_test_reason : Bytes
    pub logs : List CallbackLog

  pub record HookResponse : Type 0 where
    pub metrics : List (MetricDescriptor Real zero_real to_real)
    pub logs : List CallbackLog

  abbrev pub Metrics : Type 0
  Metrics = List (Metric Real zero_real to_real)

  abbrev pub Hook : Type 0
  Hook = HookContext → List (Bytes × V) → Called V (Result Bytes Metrics)

  abbrev pub Run : Type 0
  Run = StepContext → List (Bytes × V) → Called V StepReply

  -- `runtimeScenarioBridgeState` with its metrics.
  pub record ScenarioState : Type 0 where
    pub bridge : Bridge V
    pub registered_metrics : Metrics

  -- `invoke` of `runtimeInvokeScenarioHook`
  unfoldable pub hook_outcome :
      Called V (Result Bytes Metrics) → Result HostError (Metrics × List CallbackLog)
  unfolding logs_of
  hook_outcome called = elim called.outcome [
    | err e ↦ err (callback_failed e)
    | ok metrics ↦ elim (logs_of called.written) [ err e ↦ err e | ok logs ↦ ok (metrics, logs) ]
  ]

  unfoldable pub invoke_hook :
      Option Hook
      → HookContext
      → List (Bytes × V)
      → List (Bytes × V) × Result HostError (Metrics × List CallbackLog)
  unfolding hook_outcome
  invoke_hook none context values = (values, ok ([], []))
  invoke_hook (some hook) context values =
      let called = hook context values in (called.values, hook_outcome called)

  abbrev pub replaced : Option Hook → Metrics → Metrics → Metrics
  replaced none old new = old
  replaced (some hook) old new = new

  -- What follows the call of the instance.
  unfoldable pub hook_response :
      ScenarioState
      → Option Hook
      → Bridge V × Result HostError (Metrics × List CallbackLog)
      → ScenarioState × Result HostError HookResponse
  unfolding describe
  hook_response s hook (bridge, err e) = (record s { bridge = bridge }, err e)
  hook_response s hook (bridge, ok (metrics, logs)) =
      let registered = replaced hook s.registered_metrics metrics in
      (
        record { bridge = bridge; registered_metrics = registered },
        ok (record { metrics = describe Real zero_real to_real [] registered; logs = logs }),
      )

  -- `if complete`
  unfoldable pub call_hook :
      ℕ
      → Bridge V
      → InstanceKey
      → (List (Bytes × V) → List (Bytes × V) × Result HostError (Metrics × List CallbackLog))
      → Bool
      → Bridge V × Result HostError (Metrics × List CallbackLog)
  unfolding with_instance clean_instance
  call_hook i s key invoke true = clean_instance gone i invoke s key
  call_hook i s key invoke false = with_instance gone i invoke s key

  unfoldable pub invoke_scenario_hook :
      ℕ
      → ScenarioState
      → Bytes
      → HookRequest
      → Option Hook
      → Bool
      → ScenarioState × Result HostError HookResponse
  unfolding call_hook hook_response invoke_hook key_for_registration callback_metadata
  invoke_scenario_hook i s scenario_name request hook complete =
      elim (key_for_registration request scenario_name) [
        | err e ↦ (s, err (identity_invalid e))
        | ok key ↦ elim (callback_metadata P request) [
          | err e ↦ (s, err (identity_invalid e))
          | ok metadata ↦ hook_response s hook (
              call_hook i s.bridge key (invoke_hook hook (record { metadata = metadata })) complete)
        ]
      ]

  unfoldable pub step_outcome : Called V StepReply → Result HostError StepResponse
  unfolding logs_of text_eq
  step_outcome called = elim (logs_of called.written) [
    | err e ↦ err e
    | ok logs ↦ ok (record {
      is_success = called.outcome.is_success;
      status_code = called.outcome.status_code;
      message = called.outcome.message;
      size_bytes = called.outcome.size_bytes;
      custom_latency_ms = called.outcome.custom_latency_ms;
      payload = called.outcome.payload;
      step_name = called.outcome.step_name;
      stop_scenario = not (text_eq called.outcome.stop_scenario_name []);
      stop_scenario_name = called.outcome.stop_scenario_name;
      stop_scenario_reason = called.outcome.stop_scenario_reason;
      stop_current_test = called.outcome.stop_current_test;
      stop_current_test_reason = called.outcome.stop_current_test_reason;
      logs = logs;
    })
  ]

  unfoldable pub invoke_step :
      Run → StepContext → List (Bytes × V) → List (Bytes × V) × Result HostError StepResponse
  unfolding step_outcome
  invoke_step run context values =
      let called = run context values in (called.values, step_outcome called)

  unfoldable pub step_response :
      ScenarioState
      → Bridge V × Result HostError StepResponse
      → ScenarioState × Result HostError StepResponse
  step_response s (bridge, result) = (record s { bridge = bridge }, result)

  unfoldable pub invoke_scenario_step :
      ℕ
      → ℕ
      → ScenarioState
      → Bytes
      → HookRequest
      → Option Run
      → ScenarioState × Result HostError StepResponse
  unfolding step_response invoke_step with_instance key_for_registration callback_metadata
      invocation_number_to_int parse_scenario_started
  invoke_scenario_step max_int i s scenario_name request run =
      elim (key_for_registration request scenario_name) [
        | err e ↦ (s, err (identity_invalid e))
        | ok key ↦ elim run [
          | none ↦ (s, err not_runnable)
          | some run ↦ elim (callback_metadata P request) [
            | err e ↦ (s, err (identity_invalid e))
            | ok metadata ↦
                let context : StepContext = record {
                  metadata = metadata;
                  invocation_number = request.invocation_number;
                  random_seed = invocation_number_to_int max_int request.invocation_number;
                  scenario_timer_started = parse_scenario_started P request.scenario_started_utc;
                } in
                step_response s (with_instance gone i (invoke_step run context) s.bridge key)
          ]
        ]
      ]
