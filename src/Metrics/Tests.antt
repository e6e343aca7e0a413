-- ===== src/Metrics/Tests.antt =====
-- Two metrics of the library and one of a caller.
use loadstrike_go.Prelude.{ℕ, ◌≡◌, List, [], ◌∷◌, map, codes}
use loadstrike_go.Metrics.{Metric, counter, gauge, other, snapshot_metrics, describe}
use loadstrike_go.Metrics.Snapshots.{
  described, counters_of, gauges_of, of_type, counter_result, gauge_result,
  snapshot_metrics-described,
}

abbrev metrics : List (Metric ℕ 0 (λ n. n))
metrics =
    counter (codes "orders") (codes "1") 7
    ∷ other (codes "own") []
    ∷ gauge (codes "load") (codes "%") 3
    ∷ []

snapshot_metrics-described_example :
    (let (stats, results) = snapshot_metrics ℕ 0 (λ n. n) (codes "checkout") metrics in
      (stats.counters ≡ counters_of ℕ 0 (λ n. n) (codes "checkout") metrics)
      × (stats.gauges ≡ gauges_of ℕ 0 (λ n. n) (codes "checkout") metrics)
      × (map (described ℕ 0 (λ n. n)) results ≡ describe ℕ 0 (λ n. n) [] metrics)
      × (of_type ℕ 0 (λ n. n) (codes "counter") results
          ≡ map (counter_result ℕ 0 (λ n. n)) stats.counters)
      × (of_type ℕ 0 (λ n. n) (codes "gauge") results
          ≡ map (gauge_result ℕ 0 (λ n. n)) stats.gauges))
snapshot_metrics-described_example =
    snapshot_metrics-described ℕ 0 (λ n. n) (codes "checkout") metrics
