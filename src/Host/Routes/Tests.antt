-- ===== src/Host/Routes/Tests.antt =====
-- The addresses of one registered identifier.
use loadstrike_go.Prelude.{◌≡◌, ◌≢◌, refl, [], ◌∷◌, Bytes, codes, some, All, is_space, arith}
use loadstrike_go.Registry.{next_callback_id}
use loadstrike_go.Host.Routes.{
  scenario_callback_url, tracking_produce_callback_url, tracking_consume_callback_url,
  threshold_callback_url, reporting_publish_callback_url, observation_cancellation_callback_url,
  plugin_callback_url, sink_callback_url, policy_callback_url, trim_prefix, path_parts, single_id,
  observation_id,
}
use loadstrike_go.Host.Routes.RoundTrip.{IsPlain, callback_urls-routed}

step_stage : All IsPlain (codes "step")
unfolding codes is_space
step_stage = (
  (omega arith, omega arith, refl, omega arith),
  (
    (omega arith, omega arith, refl, omega arith),
    (
      (omega arith, omega arith, refl, omega arith),
      ((omega arith, omega arith, refl, omega arith), tt),
    ),
  ),
)

step_stage-nonempty : codes "step" ≢ []
unfolding codes
step_stage-nonempty = cc

abbrev random_bytes : Bytes
random_bytes = 1 ∷ 2 ∷ 255 ∷ 4 ∷ []

callback_urls-routed_example :
    (path_parts
        (scenario_callback_url [] (next_callback_id (codes "scenario") random_bytes) (codes "step"))
        (codes "/callbacks/scenario/")
      ≡ some (next_callback_id (codes "scenario") random_bytes, codes "step"))
    × (path_parts
          (tracking_produce_callback_url []
            (next_callback_id (codes "tracking-produce") random_bytes))
          (codes "/callbacks/tracking/")
        ≡ some (next_callback_id (codes "tracking-produce") random_bytes, codes "produce"))
    × (path_parts
          (tracking_consume_callback_url []
            (next_callback_id (codes "tracking-consume") random_bytes))
          (codes "/callbacks/tracking/")
        ≡ some (next_callback_id (codes "tracking-consume") random_bytes, codes "consume"))
    × (single_id
          (threshold_callback_url [] (next_callback_id (codes "threshold") random_bytes))
          (codes "/callbacks/threshold/")
        ≡ some (next_callback_id (codes "threshold") random_bytes))
    × (single_id
          (reporting_publish_callback_url []
            (next_callback_id (codes "reporting-publish") random_bytes))
          (codes "/callbacks/reporting-publish/")
        ≡ some (next_callback_id (codes "reporting-publish") random_bytes))
    × (observation_id
          (observation_cancellation_callback_url []
            (next_callback_id (codes "observation-cancellation") random_bytes))
          (codes "/callbacks/observation-cancellation/")
        ≡ some (next_callback_id (codes "observation-cancellation") random_bytes))
    × (trim_prefix
          (plugin_callback_url [] (next_callback_id (codes "plugin") random_bytes))
          (codes "/callbacks/plugin/")
        ≡ next_callback_id (codes "plugin") random_bytes)
    × (trim_prefix
          (sink_callback_url [] (next_callback_id (codes "sink") random_bytes))
          (codes "/callbacks/sink/")
        ≡ next_callback_id (codes "sink") random_bytes)
    × (trim_prefix
          (policy_callback_url [] (next_callback_id (codes "policy") random_bytes))
          (codes "/callbacks/policy/")
        ≡ next_callback_id (codes "policy") random_bytes)
callback_urls-routed_example =
    callback_urls-routed random_bytes (codes "step") step_stage-nonempty step_stage
