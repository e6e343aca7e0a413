-- ===== src/Metrics.antt =====
-- The metrics of metrics.go, and the metrics that a scenario bridge keeps
-- (runtime_callback_registry.go).
pub mod Snapshots
pub mod Tests
use loadstrike_go.Prelude.{
  ℕ, ◌+◌, ◌%◌, ◌^◌, Bool, List, [], ◌∷◌, ◌++◌, Bytes, codes, Option, none, some, text_eq,
  if◌then◌else◌,
}

-- An `int64` is the number that its 64 bits write; an addition wraps around.
unfoldable pub add_int64 : ℕ → ℕ → ℕ
add_int64 value delta = (value + delta) % 18446744073709551616

-- `Real` is `float64`, and `to_real` the conversion of an `int64` to it.
module _ (Real : Type 0) (zero_real : Real) (to_real : ℕ → Real) where
  -- A metric with its present value; `other` is an `IMetric` of a caller that is neither an
  -- `ICounter` nor an `IGauge`.
  pub data Metric : Type 0 where
    counter : Bytes → Bytes → ℕ → Metric
    gauge : Bytes → Bytes → Real → Metric
    other : Bytes → Bytes → Metric

  -- `none` is the panic.
  unfoldable pub create_counter : Bytes → Bytes → Option Metric
  unfolding text_eq
  create_counter metric_name unit_of_measure =
      if text_eq metric_name [] then none else some (counter metric_name unit_of_measure 0)

  unfoldable pub create_gauge : Bytes → Bytes → Option Metric
  unfolding text_eq
  create_gauge metric_name unit_of_measure =
      if text_eq metric_name [] then none else some (gauge metric_name unit_of_measure zero_real)

  pub record CounterStats : Type 0 where
    pub metric_name : Bytes
    pub scenario_name : Bytes
    pub unit_of_measure : Bytes
    pub value : ℕ

  pub record GaugeStats : Type 0 where
    pub metric_name : Bytes
    pub scenario_name : Bytes
    pub unit_of_measure : Bytes
    pub value : Real

  -- The durations, which a snapshot leaves at zero, are left out.
  pub record MetricStats : Type 0 where
    pub counters : List CounterStats
    pub gauges : List GaugeStats

  pub record MetricResult : Type 0 where
    pub name : Bytes
    pub scenario_name : Bytes
    pub type_name : Bytes
    pub value : Real
    pub unit : Bytes
    pub unit_of_measure : Bytes

  -- `register` of a metric that is not nil.
  unfoldable pub register : List Metric → Metric → List Metric
  register metrics metric = metrics ++ metric ∷ []

  -- The loop of `snapshot`, on the statistics and the results so far.
  unfoldable pub collect :
      Bytes → MetricStats → List MetricResult → List Metric → MetricStats × List MetricResult
  collect scenario_name stats flattened [] = (stats, flattened)
  collect scenario_name stats flattened (counter name unit value ∷ metrics) =
      collect scenario_name
        (record stats {
          counters =
              stats.counters
              ++ record {
                metric_name = name;
                scenario_name = scenario_name;
                unit_of_measure = unit;
                value = value;
              }
                ∷ [];
        })
        (flattened
          ++ record {
            name = name;
            scenario_name = scenario_name;
            type_name = codes "counter";
            value = to_real value;
            unit = unit;
            unit_of_measure = unit;
          }
            ∷ [])
        metrics
  collect scenario_name stats flattened (gauge name unit value ∷ metrics) =
      collect scenario_name
        (record stats {
          gauges =
              stats.gauges
              ++ record {
                metric_name = name;
                scenario_name = scenario_name;
                unit_of_measure = unit;
                value = value;
              }
                ∷ [];
        })
        (flattened
          ++ record {
            name = name;
            scenario_name = scenario_name;
            type_name = codes "gauge";
            value = value;
            unit = unit;
            unit_of_measure = unit;
          }
            ∷ [])
        metrics
  collect scenario_name stats flattened (other name unit ∷ metrics) =
      collect scenario_name stats flattened metrics

  unfoldable pub snapshot_metrics : Bytes → List Metric → MetricStats × List MetricResult
  unfolding collect
  snapshot_metrics scenario_name metrics =
      collect scenario_name (record { counters = []; gauges = [] }) [] metrics

  pub record MetricDescriptor : Type 0 where
    pub kind : Bytes
    pub metric_name : Bytes
    pub unit_of_measure : Bytes

  -- `runtimeMetricDescriptors`, its loop on the descriptors so far.
  unfoldable pub describe : List MetricDescriptor → List Metric → List MetricDescriptor
  describe descriptors [] = descriptors
  describe descriptors (counter name unit value ∷ metrics) =
      describe
        (descriptors
          ++ record { kind = codes "counter"; metric_name = name; unit_of_measure = unit } ∷ [])
        metrics
  describe descriptors (gauge name unit value ∷ metrics) =
      describe
        (descriptors
          ++ record { kind = codes "gauge"; metric_name = name; unit_of_measure = unit } ∷ [])
        metrics
  describe descriptors (other name unit ∷ metrics) = describe descriptors metrics

  -- `metricSnapshot` of the bridge's metrics, its loop on the statistics so far.
  unfoldable pub snapshot_registered : MetricStats → List Metric → MetricStats
  snapshot_registered stats [] = stats
  snapshot_registered stats (counter name unit value ∷ metrics) =
      snapshot_registered
        (record stats {
          counters =
              stats.counters
              ++ record {
                metric_name = name;
                scenario_name = [];
                unit_of_measure = unit;
                value = value;
              }
                ∷ [];
        })
        metrics
  snapshot_registered stats (gauge name unit value ∷ metrics) =
      snapshot_registered
        (record stats {
          gauges =
              stats.gauges
              ++ record {
                metric_name = name;
                scenario_name = [];
                unit_of_measure = unit;
                value = value;
              }
                ∷ [];
        })
        metrics
  snapshot_registered stats (other name unit ∷ metrics) = snapshot_registered stats metrics
