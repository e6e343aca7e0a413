-- ===== src/Host/Thresholds/Scopes.antt =====
-- Which thresholds are evaluated.
use loadstrike_go.Prelude.{
  ◌≡◌, ◌↔◌, inl, inr, Bool, codes, Option, none, some, text_eq, ok, Option-cases, arith,
}
use loadstrike_go.Registry.{Scope, scenario_scope, step_scope, metric_scope}
use loadstrike_go.Host.Thresholds.{
  ThresholdRequest, validate_for_scope, stats_of, invoke_predicate, evaluate_threshold,
}

abbrev pub OthersMissing : {Stats : Type 0} → Scope → ThresholdRequest Stats → Type 0
OthersMissing scenario_scope r = (r.step_stats ≡ none) × (r.metric_stats ≡ none)
OthersMissing step_scope r = (r.scenario_stats ≡ none) × (r.metric_stats ≡ none)
OthersMissing metric_scope r = (r.scenario_stats ≡ none) × (r.step_stats ≡ none)

-- A threshold is evaluated, with a result, exactly where the request has the statistics of its scope and
-- no others, and the predicate gives that result for them.
pub evaluate_threshold_iff :
    {Stats : Type 0} (scope : Scope) (predicate : Stats → Option Bool) (r : ThresholdRequest Stats)
    (passed : Bool)
    → (evaluate_threshold scope predicate r ≡ ok passed) ↔ (
        OthersMissing scope r
        × ((stats : Stats) × ((stats_of scope r ≡ some stats) × (predicate stats ≡ some passed))))
unfolding evaluate_threshold validate_for_scope invoke_predicate text_eq codes
evaluate_threshold_iff scenario_scope predicate r passed =
    let first = Option-cases r.step_stats in
    let second = Option-cases r.metric_stats in
    (
      λ h. elim (Option-cases r.scenario_stats) [
        | inl p ↦ absurd (ground (arith, h, p, first, second))
        | inr (stats, p) ↦ (
          (ground (arith, h, p, first, second), ground (arith, h, p, first, second)),
          (stats, (p, ground (arith, h, p, first, second, Option-cases (predicate stats)))),
        )
      ],
      λ ((a, b), (stats, (p, q))). ground (arith, a, b, p, q),
    )
evaluate_threshold_iff step_scope predicate r passed =
    let first = Option-cases r.scenario_stats in
    let second = Option-cases r.metric_stats in
    (
      λ h. elim (Option-cases r.step_stats) [
        | inl p ↦ absurd (ground (arith, h, p, first, second))
        | inr (stats, p) ↦ (
          (ground (arith, h, p, first, second), ground (arith, h, p, first, second)),
          (stats, (p, ground (arith, h, p, first, second, Option-cases (predicate stats)))),
        )
      ],
      λ ((a, b), (stats, (p, q))). ground (arith, a, b, p, q),
    )
evaluate_threshold_iff metric_scope predicate r passed =
    let first = Option-cases r.scenario_stats in
    let second = Option-cases r.step_stats in
    (
      λ h. elim (Option-cases r.metric_stats) [
        | inl p ↦ absurd (ground (arith, h, p, first, second))
        | inr (stats, p) ↦ (
          (ground (arith, h, p, first, second), ground (arith, h, p, first, second)),
          (stats, (p, ground (arith, h, p, first, second, Option-cases (predicate stats)))),
        )
      ],
      λ ((a, b), (stats, (p, q))). ground (arith, a, b, p, q),
    )
