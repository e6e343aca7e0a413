-- ===== src/Registry/Laws.antt =====
-- What the registrations store under the identifiers that they return, and what a closed registry
-- does with them.
use loadstrike_go.Prelude.{◌≡◌, refl, false, Bytes, codes, Option, none, some, find-store}
use loadstrike_go.Bridge.{new_bridge}
use loadstrike_go.Session.{new_session}
use loadstrike_go.Registry.{
  Types, next_callback_id, scenario_scope, step_scope, metric_scope, ScenarioDefinition, Registry,
  primary_scenario_run, threshold_registration, register_scenario_step, register_scenario,
  put_threshold, register_threshold, register_reporting_publisher, register_worker_plugin,
  register_reporting_sink, register_runtime_policy, register_tracking_produce,
  register_tracking_consume, register_observation_cancellation, lookup_callback, lookup_scenario,
  lookup_threshold, lookup_reporting_publisher, lookup_worker_plugin, lookup_reporting_sink,
  lookup_runtime_policy, lookup_tracking, lookup_observation_cancellation,
}

module _ {T : Types} where
  open T use {
    Run, Hook, Plugin, Sink, Policy, Evaluate, Publish, Produce, Consume, Context, Value, Event,
  }

  -- While the registry is open, what is found under the identifier that a registration, other than
  -- that of a threshold, returns is what was registered: a scenario with the run of its first step
  -- and a new bridge, a consumer with a new session, a step with its identifier and names.
  pub register-found :
      (r : Registry T) (random_bytes : Bytes) (scenario : ScenarioDefinition T) (publish : Publish)
      (plugin : Plugin) (sink : Sink) (policy : Policy) (produce : Produce) (consume : Consume)
      (context : Context) (scenario_name step_name : Bytes) (run : Run)
      → r.closed ≡ false
      → (let (after, id) = register_scenario T r scenario random_bytes in
          lookup_scenario T after id
          ≡ some (record {
            scenario_name = scenario.name;
            run = primary_scenario_run T scenario.steps;
            init = scenario.init;
            clean = scenario.clean;
            state = new_bridge;
          }))
        × (let (after, id) = register_reporting_publisher T r publish random_bytes in
            lookup_reporting_publisher T after id ≡ some publish)
        × (let (after, id) = register_worker_plugin T r plugin random_bytes in
            lookup_worker_plugin T after id ≡ some plugin)
        × (let (after, id) = register_reporting_sink T r sink random_bytes in
            lookup_reporting_sink T after id ≡ some sink)
        × (let (after, id) = register_runtime_policy T r policy random_bytes in
            lookup_runtime_policy T after id ≡ some policy)
        × (let (after, id) = register_tracking_produce T r produce random_bytes in
            lookup_tracking T after id
            ≡ some (record { produce = some produce; consume = none; consume_stream = none }))
        × (let (after, id) = register_tracking_consume T r consume random_bytes in
            lookup_tracking T after id
            ≡ some (record {
              produce = none;
              consume = some consume;
              consume_stream = some new_session;
            }))
        × (let (after, id) = register_observation_cancellation T r (some context) random_bytes in
            lookup_observation_cancellation T after id ≡ some context)
        × (let (after, id) = register_scenario_step T r scenario_name step_name run random_bytes in
            lookup_callback T after id
            ≡ some (record {
              id = id;
              scenario_name = scenario_name;
              step_name = step_name;
              run = run;
            }))
  unfolding register_scenario_step register_scenario register_reporting_publisher
      register_worker_plugin register_reporting_sink register_runtime_policy
      register_tracking_produce register_tracking_consume register_observation_cancellation
  register-found r random_bytes scenario publish plugin sink policy produce consume context
        scenario_name step_name run h =
      (
        rw (h, find-store),
        rw (h, find-store),
        rw (h, find-store),
        rw (h, find-store),
        rw (h, find-store),
        rw (h, find-store),
        rw (h, find-store),
        rw (h, find-store),
        rw (h, find-store),
      )

  -- In an open registry, a threshold is registered under its scenario predicate where it has one, else under its step
  -- predicate, else under its metric predicate, and is refused where it has none.
  pub register_threshold-scope :
      (r : Registry T) (random_bytes : Bytes) (p : Evaluate) (step metric : Option Evaluate)
      → r.closed ≡ false
      → (let (after, id) =
            register_threshold T r
              (record {
                scenario_predicate = some p;
                step_predicate = step;
                metric_predicate = metric;
              })
              random_bytes in
          (id ≡ some (next_callback_id (codes "threshold") random_bytes))
          × (lookup_threshold T after (next_callback_id (codes "threshold") random_bytes)
              ≡ some (scenario_scope, p)))
        × (let (after, id) =
              register_threshold T r
                (record {
                  scenario_predicate = none;
                  step_predicate = some p;
                  metric_predicate = metric;
                })
                random_bytes in
            (id ≡ some (next_callback_id (codes "threshold") random_bytes))
            × (lookup_threshold T after (next_callback_id (codes "threshold") random_bytes)
                ≡ some (step_scope, p)))
        × (let (after, id) =
              register_threshold T r
                (record {
                  scenario_predicate = none;
                  step_predicate = none;
                  metric_predicate = some p;
                })
                random_bytes in
            (id ≡ some (next_callback_id (codes "threshold") random_bytes))
            × (lookup_threshold T after (next_callback_id (codes "threshold") random_bytes)
                ≡ some (metric_scope, p)))
        × (register_threshold T r
              (record { scenario_predicate = none; step_predicate = none; metric_predicate = none })
              random_bytes
            ≡ (r, none))
  unfolding register_threshold put_threshold threshold_registration
  register_threshold-scope r random_bytes p step metric h = (
    (rw (h), rw (h, find-store)),
    (rw (h), rw (h, find-store)),
    (rw (h), rw (h, find-store)),
    refl,
  )
