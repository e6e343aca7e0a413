-- ===== src/Host/Thresholds.antt =====
-- The threshold requests of runtime_http_host.go, and the evaluation of a registered threshold
-- (`newRuntimeThresholdRegistration`, runtime_callback_registry.go).
pub mod Scopes
use loadstrike_go.Prelude.{
  ℕ, ◌+◌, Bool, true, false, not, Bytes, codes, Option, none, some, text_eq, ◌==◌, if◌then◌else◌,
  Result, ok, err, ◌>>◌, reject_if,
}
use loadstrike_go.Registry.{Scope, scenario_scope, step_scope, metric_scope}

-- `runtimeHTTPThresholdRequest`: which of the three statistics are there.
pub record ThresholdRequest (Stats : Type 0) : Type 0 where
  pub scenario_stats : Option Stats
  pub step_stats : Option Stats
  pub metric_stats : Option Stats

abbrev pub is_given {ℓ} : {A : Type ℓ} → Option A → ℕ
is_given none = 0
is_given (some a) = 1

pub data ThresholdError : Type 0 where
  not_one_payload no_scenario_stats no_step_stats no_metric_stats unknown_scope predicate_failed :
      ThresholdError

abbrev pub is_missing {ℓ} : {A : Type ℓ} → Option A → Bool
is_missing none = true
is_missing (some a) = false

-- `validateForScope`
unfoldable pub validate_for_scope :
    {Stats : Type 0} → ThresholdRequest Stats → Bytes → Result ThresholdError (Unit {0})
unfolding text_eq codes
validate_for_scope r scope =
    reject_if
      (not (is_given r.scenario_stats + is_given r.step_stats + is_given r.metric_stats == 1))
      not_one_payload
    >> (if text_eq scope (codes "scenario")
        then reject_if (is_missing r.scenario_stats) no_scenario_stats
        else if text_eq scope (codes "step")
        then reject_if (is_missing r.step_stats) no_step_stats
        else if text_eq scope (codes "metric")
        then reject_if (is_missing r.metric_stats) no_metric_stats
        else err unknown_scope)

abbrev pub scope_name : Scope → Bytes
scope_name scenario_scope = codes "scenario"
scope_name step_scope = codes "step"
scope_name metric_scope = codes "metric"

abbrev pub stats_of : {Stats : Type 0} → Scope → ThresholdRequest Stats → Option Stats
stats_of scenario_scope r = r.scenario_stats
stats_of step_scope r = r.step_stats
stats_of metric_scope r = r.metric_stats

-- `invokeRuntimeThresholdPredicate` of a predicate on a pointer; `none` is a panic, as is a nil pointer.
unfoldable pub invoke_predicate :
    {Stats : Type 0} → (Stats → Option Bool) → Option Stats → Result ThresholdError Bool
invoke_predicate predicate none = err predicate_failed
invoke_predicate predicate (some stats) = elim (predicate stats) [
  | none ↦ err predicate_failed
  | some passed ↦ ok passed
]

-- `Evaluate` of the registration that `newRuntimeThresholdRegistration` made for a scope.
unfoldable pub evaluate_threshold :
    {Stats : Type 0}
    → Scope
    → (Stats → Option Bool)
    → ThresholdRequest Stats
    → Result ThresholdError Bool
unfolding validate_for_scope invoke_predicate codes
evaluate_threshold scope predicate r =
    validate_for_scope r (scope_name scope) >> invoke_predicate predicate (stats_of scope r)
