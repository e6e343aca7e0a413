-- ===== src/Host/Handlers/Tests.antt =====
-- Requests to a host of two scenarios, one threshold, one sink and one failed consumer.
use loadstrike_go.Prelude.{
  ℕ, ◌≡◌, ◌↔◌, refl, Bool, true, false, not, ◌&&◌, [], ◌∷◌, Bytes, codes, Option, none, some, find,
  store, text_eq, ◌⊎◌, is_blank_utf8, decode_utf8, read_rest, read_lead, is_blank, trim_space,
  trim_left, is_space, ok, ltb,
}
use loadstrike_go.Registry.{scenario_scope}
use loadstrike_go.Session.{Session, append, conclude, snapshot, failure}
use loadstrike_go.Manifest.Patterns.{strip_prefix}
use loadstrike_go.Host.Tests.{platform, request, clean_hook, run, before}
use loadstrike_go.Host.Routes.{
  trim_prefix, trim_slashes, trim_left_slashes, split_slashes, two_parts, path_parts,
}
use loadstrike_go.Host.Thresholds.{ThresholdRequest, stats_of, evaluate_threshold}
use loadstrike_go.Host.Handlers.{
  http_error, no_content, internal_server_error, HostedScenario, TrackingParts, handle_tracking,
  handle_scenario, ScenarioHost, host_scenario, run_stage,
}
use loadstrike_go.Host.Requests.{HookRequest}
use loadstrike_go.Host.Handlers.Separate.{Built, none_yet, registered}
use loadstrike_go.Host.Handlers.Isolated.{IsWorking, handle_scenario-isolated}
use loadstrike_go.Host.Thresholds.Scopes.{OthersMissing, evaluate_threshold_iff}
use loadstrike_go.Host.Handlers.Tracking.{handle_tracking-failed}
use loadstrike_go.Host.Dispatch.{
  Outcome, done, SinkCall, sink_dispose, stage_of, is_of_iterations, handle_sink,
}
use loadstrike_go.Host.Dispatch.Calls.{sink_stage_name, handle_sink_iff}

abbrev threshold_request : ThresholdRequest ℕ
threshold_request = record { scenario_stats = some 5; step_stats = none; metric_stats = none }

abbrev is_small : ℕ → Option Bool
is_small n = some (ltb n 10)

evaluate_threshold_iff_example :
    (evaluate_threshold scenario_scope is_small threshold_request ≡ ok true) ↔ (
      OthersMissing scenario_scope threshold_request
      × ((stats : ℕ) × ((stats_of scenario_scope threshold_request ≡ some stats)
            × (is_small stats ≡ some true))))
evaluate_threshold_iff_example =
    evaluate_threshold_iff scenario_scope is_small threshold_request true

-- Two scenarios, registered one after the other.
abbrev empty_host : ScenarioHost platform ℕ 0 (λ n. n) ℕ ℕ
empty_host = record { closed = false; scenarios = []; states = λ a. before; fresh = 0 }

abbrev one_host : ScenarioHost platform ℕ 0 (λ n. n) ℕ ℕ
one_host =
    host_scenario platform ℕ 0 (λ n. n) ℕ ℕ empty_host (codes "a") (codes "checkout") (some run)
      none (some clean_hook)

abbrev two_hosts : ScenarioHost platform ℕ 0 (λ n. n) ℕ ℕ
two_hosts =
    host_scenario platform ℕ 0 (λ n. n) ℕ ℕ one_host (codes "b") (codes "pay") (some run) none none

Built-two_hosts : Built platform ℕ 0 (λ n. n) ℕ ℕ two_hosts
Built-two_hosts =
    registered
      (registered (none_yet (λ a. before)) (codes "a") (codes "checkout") (some run) none
        (some clean_hook))
      (codes "b") (codes "pay") (some run) none none

abbrev second : HostedScenario platform ℕ 0 (λ n. n) ℕ ℕ
second = record {
  scenario_name = codes "pay";
  run = some run;
  init = none;
  clean = none;
  state = 1;
}

finds_second : find two_hosts.scenarios (codes "b") ≡ some second
unfolding host_scenario find store text_eq codes
finds_second = refl

-- The first is asked to clean.
abbrev cleaned_host : ScenarioHost platform ℕ 0 (λ n. n) ℕ ℕ
cleaned_host =
    (handle_scenario platform ℕ 0 (λ n. n) ℕ ℕ 100 0 two_hosts true
      (codes "/callbacks/scenario/a/clean") (some request)).0

handle_scenario-isolated_example :
    (cleaned_host.scenarios ≡ two_hosts.scenarios)
    × ((cleaned_host.states 1 ≡ two_hosts.states 1)
        ⊎ ((true ≡ true)
            × ((stage : Bytes) × ((r : HookRequest) × ((path_parts
                        (codes "/callbacks/scenario/a/clean")
                        (codes "/callbacks/scenario/")
                      ≡ some (codes "b", stage))
                    × (some request ≡ some r)
                    × IsWorking platform ℕ 0 (λ n. n) ℕ ℕ stage
                    × (cleaned_host.states 1
                        ≡ (run_stage platform ℕ 0
                            (λ n. n)
                            ℕ
                            ℕ
                            100
                            0
                            second
                            (two_hosts.states 1)
                            stage
                            r).0))))))
handle_scenario-isolated_example =
    handle_scenario-isolated platform ℕ 0 (λ n. n) ℕ ℕ 100 0 two_hosts true
      (codes "/callbacks/scenario/a/clean") (some request) (codes "b") second Built-two_hosts
      finds_second

abbrev sinks : Bytes → Option (Bool × (SinkCall → Bytes → Outcome ℕ))
sinks id = some (false, λ call r. done)

handle_sink_iff_example :
    (handle_sink
        (λ s. s)
        (λ r. r)
        sinks
        true
        (codes "/callbacks/sink/sink-1")
        (some (codes " stop "))
      ≡ no_content)
    ↔ ((true ≡ true)
        × ((found : Bool × (SinkCall → Bytes → Outcome ℕ)) × ((r : Bytes) × ((call : SinkCall)
                × ((sinks (trim_prefix (codes "/callbacks/sink/sink-1") (codes "/callbacks/sink/"))
                      ≡ some found)
                    × (some (codes " stop ") ≡ some r)
                    × (stage_of (λ s. s) r ≡ sink_stage_name call)
                    × (is_of_iterations call && not found.0 ≡ false)
                    × ((call ≡ sink_dispose) ⊎ (found.1 call r ≡ done)))))))
handle_sink_iff_example =
    handle_sink_iff (λ s. s) (λ r. r) sinks true (codes "/callbacks/sink/sink-1")
      (some (codes " stop "))

abbrev session : Session ℕ
session = record {
  started = true;
  messages = 1 ∷ [];
  completed = false;
  error = none;
  closed = false;
  has_cancel = true;
  is_canceled = false;
  wake = false;
}

abbrev parts : TrackingParts ℕ ℕ ℕ
parts = record {
  produce = none;
  poll = some (snapshot (conclude (append session 2) (some (failure (codes "lost"))))).1;
}

abbrev trackers : Bytes → Option (TrackingParts ℕ ℕ ℕ)
trackers id = some parts

consume_path :
    path_parts (codes "/callbacks/tracking/t/consume") (codes "/callbacks/tracking/")
    ≡ some (codes "t", codes "consume")
unfolding path_parts trim_prefix trim_slashes trim_left_slashes split_slashes two_parts strip_prefix
    is_blank_utf8 decode_utf8 read_rest read_lead is_blank trim_space trim_left is_space text_eq
    codes
consume_path = refl

handle_tracking-failed_example :
    (handle_tracking trackers true (codes "/callbacks/tracking/t/consume") none
      ≡ http_error internal_server_error)
    × ((snapshot (conclude (append session 2) (some (failure (codes "lost"))))).1.events
        ≡ 1 ∷ 2 ∷ [])
    × ((snapshot
          (snapshot (conclude (append session 2) (some (failure (codes "lost"))))).0).1.events
        ≡ [])
handle_tracking-failed_example =
    handle_tracking-failed session 2 (failure (codes "lost")) trackers
      (codes "/callbacks/tracking/t/consume") (codes "t") none none consume_path refl refl
