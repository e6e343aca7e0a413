-- ===== src/Metrics/Snapshots.antt =====
-- What a snapshot of metrics holds, and that it agrees with their descriptors.
use mathlib.Core.List.{append_assoc, append-nil}
use loadstrike_go.Prelude.{
  ℕ, ◌+◌, ◌%◌, ◌≡◌, sym, refl, ap, ◌∙◌, List, [], ◌∷◌, ◌++◌, map, Bytes, codes, text_eq,
  if◌then◌else◌, Bool-cases, arith,
}
use loadstrike_go.Metrics.{
  add_int64, Metric, counter, gauge, other, CounterStats, GaugeStats, MetricStats, MetricResult,
  collect, snapshot_metrics, MetricDescriptor, describe,
}

unfoldable pub add_each : ℕ → List ℕ → ℕ
unfolding add_int64
add_each value [] = value
add_each value (delta ∷ deltas) = add_each (add_int64 value delta) deltas

unfoldable pub total : List ℕ → ℕ
total [] = 0
total (delta ∷ deltas) = delta + total deltas

-- A counter that holds a 64-bit value and is added to, any number of times, holds the sum modulo
-- 2 ^ 64.
pub add_each-total :
    (value : ℕ) (deltas : List ℕ)
    → add_each (value % 18446744073709551616) deltas ≡ (value + total deltas) % 18446744073709551616
unfolding add_each add_int64 total
add_each-total value [] = omega arith
add_each-total value (delta ∷ deltas) =
    let rest = add_each-total (value + delta) deltas in
    let step : add_int64 (value % 18446744073709551616) delta
        ≡ (value + delta) % 18446744073709551616 =
      omega arith in
    rw step (rest ∙ ap (λ n. n % 18446744073709551616) (omega arith))

map-last :
    {A B : Type 0} (f : A → B) (xs : List A) (x : A) → map f (xs ++ x ∷ []) ≡ map f xs ++ f x ∷ []
map-last f [] x = refl
map-last f (y ∷ xs) x = ap (λ l. f y ∷ l) (map-last f xs x)

module _ (Real : Type 0) (zero_real : Real) (to_real : ℕ → Real) where
  -- The descriptor of a result.
  unfoldable pub described :
      MetricResult Real zero_real to_real → MetricDescriptor Real zero_real to_real
  described r = record {
    kind = r.type_name;
    metric_name = r.name;
    unit_of_measure = r.unit_of_measure;
  }

  map-described-collect :
      (scenario_name : Bytes) (metrics : List (Metric Real zero_real to_real))
      (stats : MetricStats Real zero_real to_real)
      (flattened : List (MetricResult Real zero_real to_real))
      → map described ((collect Real zero_real to_real scenario_name stats flattened metrics).1)
        ≡ describe Real zero_real to_real (map described flattened) metrics
  unfolding collect describe described
  map-described-collect scenario_name [] stats flattened = refl
  map-described-collect scenario_name (counter name unit value ∷ metrics) stats flattened =
      map-described-collect scenario_name metrics _ _
      ∙ ap (λ l. describe Real zero_real to_real l metrics) (map-last described flattened _)
  map-described-collect scenario_name (gauge name unit value ∷ metrics) stats flattened =
      map-described-collect scenario_name metrics _ _
      ∙ ap (λ l. describe Real zero_real to_real l metrics) (map-last described flattened _)
  map-described-collect scenario_name (other name unit ∷ metrics) stats flattened =
      map-described-collect scenario_name metrics stats flattened

  -- The statistics of the counters among metrics, and those of the gauges.
  unfoldable pub counters_of :
      Bytes → List (Metric Real zero_real to_real) → List (CounterStats Real zero_real to_real)
  counters_of scenario_name [] = []
  counters_of scenario_name (counter name unit value ∷ metrics) =
      record {
        metric_name = name;
        scenario_name = scenario_name;
        unit_of_measure = unit;
        value = value;
      }
      ∷ counters_of scenario_name metrics
  counters_of scenario_name (gauge name unit value ∷ metrics) = counters_of scenario_name metrics
  counters_of scenario_name (other name unit ∷ metrics) = counters_of scenario_name metrics

  unfoldable pub gauges_of :
      Bytes → List (Metric Real zero_real to_real) → List (GaugeStats Real zero_real to_real)
  gauges_of scenario_name [] = []
  gauges_of scenario_name (counter name unit value ∷ metrics) = gauges_of scenario_name metrics
  gauges_of scenario_name (gauge name unit value ∷ metrics) =
      record {
        metric_name = name;
        scenario_name = scenario_name;
        unit_of_measure = unit;
        value = value;
      }
      ∷ gauges_of scenario_name metrics
  gauges_of scenario_name (other name unit ∷ metrics) = gauges_of scenario_name metrics

  -- The result of a counter's statistics, and of a gauge's.
  unfoldable pub counter_result :
      CounterStats Real zero_real to_real → MetricResult Real zero_real to_real
  counter_result c = record {
    name = c.metric_name;
    scenario_name = c.scenario_name;
    type_name = codes "counter";
    value = to_real c.value;
    unit = c.unit_of_measure;
    unit_of_measure = c.unit_of_measure;
  }

  unfoldable pub gauge_result :
      GaugeStats Real zero_real to_real → MetricResult Real zero_real to_real
  gauge_result g = record {
    name = g.metric_name;
    scenario_name = g.scenario_name;
    type_name = codes "gauge";
    value = g.value;
    unit = g.unit_of_measure;
    unit_of_measure = g.unit_of_measure;
  }

  -- The results of a type.
  unfoldable pub of_type :
      Bytes
      → List (MetricResult Real zero_real to_real)
      → List (MetricResult Real zero_real to_real)
  unfolding text_eq
  of_type kind [] = []
  of_type kind (r ∷ results) =
      let rest = of_type kind results in if text_eq r.type_name kind then r ∷ rest else rest

  of_type-last :
      (kind : Bytes) (results : List (MetricResult Real zero_real to_real))
      (r : MetricResult Real zero_real to_real)
      → of_type kind (results ++ r ∷ []) ≡ of_type kind results ++ of_type kind (r ∷ [])
  unfolding of_type
  of_type-last kind [] r = refl
  of_type-last kind (x ∷ results) r =
      ground (arith, of_type-last kind results r, Bool-cases (text_eq x.type_name kind))

  collect-counters :
      (scenario_name : Bytes) (metrics : List (Metric Real zero_real to_real))
      (stats : MetricStats Real zero_real to_real)
      (flattened : List (MetricResult Real zero_real to_real))
      → ((collect Real zero_real to_real scenario_name stats flattened metrics).0).counters
        ≡ stats.counters ++ counters_of scenario_name metrics
  unfolding collect counters_of
  collect-counters scenario_name [] stats flattened = sym (append-nil stats.counters)
  collect-counters scenario_name (counter name unit value ∷ metrics) stats flattened =
      collect-counters scenario_name metrics _ _ ∙ append_assoc stats.counters _ _
  collect-counters scenario_name (gauge name unit value ∷ metrics) stats flattened =
      collect-counters scenario_name metrics _ _
  collect-counters scenario_name (other name unit ∷ metrics) stats flattened =
      collect-counters scenario_name metrics stats flattened

  collect-gauges :
      (scenario_name : Bytes) (metrics : List (Metric Real zero_real to_real))
      (stats : MetricStats Real zero_real to_real)
      (flattened : List (MetricResult Real zero_real to_real))
      → ((collect Real zero_real to_real scenario_name stats flattened metrics).0).gauges
        ≡ stats.gauges ++ gauges_of scenario_name metrics
  unfolding collect gauges_of
  collect-gauges scenario_name [] stats flattened = sym (append-nil stats.gauges)
  collect-gauges scenario_name (counter name unit value ∷ metrics) stats flattened =
      collect-gauges scenario_name metrics _ _
  collect-gauges scenario_name (gauge name unit value ∷ metrics) stats flattened =
      collect-gauges scenario_name metrics _ _ ∙ append_assoc stats.gauges _ _
  collect-gauges scenario_name (other name unit ∷ metrics) stats flattened =
      collect-gauges scenario_name metrics stats flattened

  -- The results so far of each type are those of the statistics so far.
  AreResults :
      MetricStats Real zero_real to_real × List (MetricResult Real zero_real to_real) → Type 0
  AreResults (stats, results) =
      (of_type (codes "counter") results ≡ map counter_result stats.counters)
      × (of_type (codes "gauge") results ≡ map gauge_result stats.gauges)

  collect-AreResults :
      (scenario_name : Bytes) (metrics : List (Metric Real zero_real to_real))
      (stats : MetricStats Real zero_real to_real)
      (flattened : List (MetricResult Real zero_real to_real))
      → AreResults (stats, flattened)
      → AreResults (collect Real zero_real to_real scenario_name stats flattened metrics)
  unfolding collect AreResults of_type counter_result gauge_result text_eq codes
  collect-AreResults scenario_name [] stats flattened h = h
  collect-AreResults scenario_name (counter name unit value ∷ metrics) stats flattened (h, k) =
      collect-AreResults scenario_name metrics _ _
        (rw (of_type-last, map-last, h) refl, rw (of_type-last, k) (append-nil _))
  collect-AreResults scenario_name (gauge name unit value ∷ metrics) stats flattened (h, k) =
      collect-AreResults scenario_name metrics _ _
        (rw (of_type-last, h) (append-nil _), rw (of_type-last, map-last, k) refl)
  collect-AreResults scenario_name (other name unit ∷ metrics) stats flattened h =
      collect-AreResults scenario_name metrics stats flattened h

  -- A snapshot's statistics are those of the counters and of the gauges among the metrics, with their
  -- names, units and values under the scenario's name. Its results are described by the metrics'
  -- descriptors, one for one and in their order; those of counters are the results of the statistics of
  -- counters, and those of gauges of the statistics of gauges.
  pub snapshot_metrics-described :
      (scenario_name : Bytes) (metrics : List (Metric Real zero_real to_real))
      → (let (stats, results) = snapshot_metrics Real zero_real to_real scenario_name metrics in
          (stats.counters ≡ counters_of scenario_name metrics)
          × (stats.gauges ≡ gauges_of scenario_name metrics)
          × (map described results ≡ describe Real zero_real to_real [] metrics)
          × (of_type (codes "counter") results ≡ map counter_result stats.counters)
          × (of_type (codes "gauge") results ≡ map gauge_result stats.gauges))
  unfolding snapshot_metrics AreResults of_type
  snapshot_metrics-described scenario_name metrics =
      let none_yet : MetricStats Real zero_real to_real = record { counters = []; gauges = [] } in
      let (counters, gauges) = collect-AreResults scenario_name metrics none_yet [] (refl, refl) in
      (
        collect-counters scenario_name metrics none_yet [],
        collect-gauges scenario_name metrics none_yet [],
        map-described-collect scenario_name metrics none_yet [],
        counters,
        gauges,
      )
