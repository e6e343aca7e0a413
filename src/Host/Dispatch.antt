-- ===== src/Host/Dispatch.antt =====
-- The handlers of worker plugins, reporting sinks and runtime policies (runtime_http_host.go): the stage
-- of a request chooses the call. The calls of a plugin, a sink or a policy are what its owner's code
-- does, so that each takes a function from the calls to their outcomes; values of a request that are
-- only handed on, with the zero value where a pointer is nil, are of a type of the caller.
pub mod Calls
use loadstrike_go.Prelude.{
  ℕ, Bool, true, false, not, ◌&&◌, ◌||◌, List, [], ◌∷◌, Bytes, codes, Option, none, some, text_eq,
  trim_space, if◌then◌else◌,
}
use loadstrike_go.Host.Routes.{trim_prefix}
use loadstrike_go.Host.Handlers.{
  Reply, http_error, no_content, json, bad_request, not_found, internal_server_error, only_post,
  found_under,
}

abbrev pub not_implemented : ℕ
not_implemented = 501

-- `strings.ToLower(strings.TrimSpace(payload.Stage))`; `strings.ToLower` is a parameter.
unfoldable pub stage_of : (Bytes → Bytes) → Bytes → Bytes
unfolding trim_space
stage_of to_lower stage = to_lower (trim_space stage)

-- The outcome of a call: its error, nothing, or a value.
pub data Outcome {ℓ} (A : Type ℓ) : Type ℓ where
  call_failed done : Outcome A
  returned : A → Outcome A

-- The reply after a call.
unfoldable pub outcome_reply {ℓ} : {A : Type ℓ} → Outcome A → Reply A
outcome_reply call_failed = http_error internal_server_error
outcome_reply done = no_content
outcome_reply (returned a) = json a

pub data PluginCall : Type 0 where
  plugin_init plugin_start plugin_get_data plugin_stop plugin_dispose : PluginCall

unfoldable pub plugin_call : (Bytes → Bytes) → Bytes → Option PluginCall
unfolding stage_of text_eq codes
plugin_call to_lower stage =
    if text_eq (stage_of to_lower stage) (codes "init")
    then some plugin_init
    else if text_eq (stage_of to_lower stage) (codes "start")
    then some plugin_start
    else if text_eq (stage_of to_lower stage) (codes "getdata")
    then some plugin_get_data
    else if text_eq (stage_of to_lower stage) (codes "stop")
    then some plugin_stop
    else if text_eq (stage_of to_lower stage) (codes "dispose")
    then some plugin_dispose
    else none

pub data SinkCall : Type 0 where
  sink_init sink_start save_realtime_stats save_realtime_metrics save_run_result
        save_iteration_batch complete_iteration_stream sink_stop sink_dispose :
      SinkCall

unfoldable pub sink_call : (Bytes → Bytes) → Bytes → Option SinkCall
unfolding stage_of text_eq codes
sink_call to_lower stage =
    if text_eq (stage_of to_lower stage) (codes "init")
    then some sink_init
    else if text_eq (stage_of to_lower stage) (codes "start")
    then some sink_start
    else if text_eq (stage_of to_lower stage) (codes "saverealtimestats")
    then some save_realtime_stats
    else if text_eq (stage_of to_lower stage) (codes "saverealtimemetrics")
    then some save_realtime_metrics
    else if text_eq (stage_of to_lower stage) (codes "saverunresult")
    then some save_run_result
    else if text_eq (stage_of to_lower stage) (codes "saveiterationbatch")
    then some save_iteration_batch
    else if text_eq (stage_of to_lower stage) (codes "completeiterationstream")
    then some complete_iteration_stream
    else if text_eq (stage_of to_lower stage) (codes "stop")
    then some sink_stop
    else if text_eq (stage_of to_lower stage) (codes "dispose")
    then some sink_dispose
    else none

-- The calls that only a `LoadStrikeIterationBatchSink` has.
abbrev pub is_of_iterations : SinkCall → Bool
is_of_iterations save_iteration_batch = true
is_of_iterations complete_iteration_stream = true
is_of_iterations _ = false

abbrev pub is_dispose : SinkCall → Bool
is_dispose sink_dispose = true
is_dispose _ = false

pub data PolicyCall : Type 0 where
  should_run_scenario before_scenario after_scenario before_step after_step : PolicyCall

unfoldable pub policy_call : (Bytes → Bytes) → Bytes → Option PolicyCall
unfolding stage_of text_eq codes
policy_call to_lower stage =
    if text_eq (stage_of to_lower stage) (codes "shouldrunscenario")
    then some should_run_scenario
    else if text_eq (stage_of to_lower stage) (codes "beforescenario")
    then some before_scenario
    else if text_eq (stage_of to_lower stage) (codes "afterscenario")
    then some after_scenario
    else if text_eq (stage_of to_lower stage) (codes "beforestep")
    then some before_step
    else if text_eq (stage_of to_lower stage) (codes "afterstep")
    then some after_step
    else none

-- A decoded body and the call that its stage asks for; none of them is a bad request or not found.
unfoldable pub staged {ℓ} :
    {R C : Type 0} {A : Type ℓ} → Option R → (R → Option C) → (R → C → Reply A) → Reply A
staged none call_of next = http_error bad_request
staged (some request) call_of next = elim (call_of request) [
  | none ↦ http_error not_found
  | some call ↦ next request call
]

-- `R` is a decoded request with its stage, `A` what `GetData` returns. `lookup` is the registry's.
module _ {R A : Type 0} (to_lower : Bytes → Bytes) (stage : R → Bytes) where
  -- `handlePluginCallback`
  unfoldable pub handle_plugin :
      (Bytes → Option (PluginCall → R → Outcome A)) → Bool → Bytes → Option R → Reply A
  unfolding only_post found_under staged plugin_call outcome_reply trim_prefix codes
  handle_plugin lookup is_post path body = only_post is_post (
      found_under (some (trim_prefix path (codes "/callbacks/plugin/"))) lookup (λ plugin.
        staged body (λ r. plugin_call to_lower (stage r))
          (λ r call. outcome_reply (plugin call r))))

  -- The reply of a sink, which may have no calls for iterations; what `Dispose` gives is dropped.
  unfoldable pub sink_reply : Bool → (SinkCall → R → Outcome A) → R → SinkCall → Reply A
  unfolding outcome_reply
  sink_reply has_iterations sink r call =
      if is_of_iterations call && not has_iterations
      then http_error not_implemented
      else if is_dispose call
      then no_content
      else outcome_reply (sink call r)

  -- `handleSinkCallback`; a sink is found with whether it is a `LoadStrikeIterationBatchSink`.
  unfoldable pub handle_sink :
      (Bytes → Option (Bool × (SinkCall → R → Outcome A))) → Bool → Bytes → Option R → Reply A
  unfolding only_post found_under staged sink_call sink_reply trim_prefix codes
  handle_sink lookup is_post path body = only_post is_post (
      found_under (some (trim_prefix path (codes "/callbacks/sink/"))) lookup
        (λ (has_iterations, sink).
          staged body (λ r. sink_call to_lower (stage r)) (sink_reply has_iterations sink)))

  -- `handlePolicyCallback`; `ShouldRun` is the value returned.
  unfoldable pub handle_policy :
      (Bytes → Option (PolicyCall → R → Outcome A)) → Bool → Bytes → Option R → Reply A
  unfolding only_post found_under staged policy_call outcome_reply trim_prefix codes
  handle_policy lookup is_post path body = only_post is_post (
      found_under (some (trim_prefix path (codes "/callbacks/policy/"))) lookup (λ policy.
        staged body (λ r. policy_call to_lower (stage r))
          (λ r call. outcome_reply (policy call r))))
