-- ===== src/Host/Tests.antt =====
-- One scenario of a host: its requests, its callbacks and what it answers.
use loadstrike_go.Prelude.{
  ℕ, ◌≤◌, ◌≡◌, ◌↔◌, refl, true, false, List, [], ◌∷◌, codes, none, some, text_eq, length, All,
  is_valid_utf8, is_blank_utf8, decode_utf8, read_rest, read_lead, is_blank, trim_space, trim_left,
  is_space, ◌==◌, pos, ◌≤ℤ◌, ok, err,
}
use loadstrike_go.Bridge.{
  InstanceKey, begin_close, enter, admit, is_admitted, complete, lookup, delete, contains, key_eq,
  int_eq,
}
use loadstrike_go.Bridge.World.{put, values_of}
use loadstrike_go.Bridge.Calls.{
  release, lock_admitted, admit_instance, clean_after, clean_admitted, clean_instance,
}
use loadstrike_go.Metrics.{describe}
use loadstrike_go.Settings.{clone_settings}
use loadstrike_go.Host.Logs.{
  CallbackLog, new_log_buffer, append_logs, log_result, total_bytes, maximum_log_count,
  maximum_log_bytes, IsText, append_logs_iff,
}
use loadstrike_go.Host.Requests.{
  HookRequest, gone, is_bad_identity, checked_partition, scenario_instance_key, check_info,
  check_partition, key_for_registration,
}
use loadstrike_go.Host.Metadata.{
  Platform, CallbackMetadata, metadata_of, callback_metadata, normalize_test_info,
  normalize_scenario_info,
}
use loadstrike_go.Host.Requests.Keys.{
  IsIdentity, InfoAgrees, PartitionAgrees, key_for_registration_iff,
}
use loadstrike_go.Host.Invoke.{
  Hook, Run, ScenarioState, logs_of, hook_outcome, invoke_hook, hook_response, call_hook,
  invoke_scenario_hook, invoke_scenario_step,
}
use loadstrike_go.Host.Invoke.Retired.{at_once, after_hook, after_close, invoke_scenario_hook-final}

abbrev pub platform : Platform
platform = record {
  Time = ℕ;
  zero_time = 0;
  is_zero_time = λ t. t == 0;
  parse_time = λ bytes. some 7;
  Snapshot = ℕ;
  empty_snapshot = 0;
  copy = λ v. some (some 1);
  heap = record { contents = λ visit. [] };
}

abbrev pub request : HookRequest
request = record {
  run_identity = codes "run";
  node_identity = codes "node";
  partition_number = some (pos 0);
  scenario_name = codes "checkout";
  scenario_instance_id = codes "1";
  invocation_number = pos 1;
  scenario_started_utc = [];
  test_info = some (record {
    test_suite = codes "suite";
    test_name = codes "test";
    session_id = codes "s";
    cluster_id = codes "c";
    created_utc = codes "2026-01-01T00:00:00Z";
  });
  node_info = some (record {
    node_type = pos 0;
    machine_name = codes "m";
    current_operation = [];
    current_operation_type = pos 0;
    cores_count = pos 4;
    dot_net_version = [];
    engine_version = [];
    os = codes "linux";
    processor = [];
  });
  scenario_info = some (record {
    instance_id = codes "1";
    instance_number = pos 0;
    scenario_duration_nanoseconds = pos 1000;
    scenario_name = codes "checkout";
    scenario_operation = pos 0;
  });
  partition = some (record { number = pos 0; count = pos 1 });
  custom_settings = none;
  global_custom_settings = none;
}

abbrev key : InstanceKey
key = record {
  run_identity = codes "run";
  node_identity = codes "node";
  partition_number = pos 0;
  scenario_name = codes "checkout";
  scenario_instance_id = codes "1";
}

has_key : key_for_registration request (codes "checkout") ≡ ok key
unfolding key_for_registration scenario_instance_key is_bad_identity checked_partition check_info
    check_partition is_valid_utf8 is_blank_utf8 decode_utf8 read_rest read_lead is_blank trim_space
    trim_left is_space text_eq codes int_eq
has_key = refl

key_for_registration_iff_example : (key_for_registration request (codes "checkout") ≡ ok key) ↔ (
    (IsIdentity request.run_identity
      × IsIdentity request.node_identity
      × IsIdentity request.scenario_name
      × IsIdentity request.scenario_instance_id
      × (request.partition_number ≡ some key.partition_number)
      × (pos 0 ≤ℤ key.partition_number)
      × (key ≡ record {
        run_identity = request.run_identity;
        node_identity = request.node_identity;
        partition_number = key.partition_number;
        scenario_name = request.scenario_name;
        scenario_instance_id = request.scenario_instance_id;
      }))
    × (request.scenario_name ≡ codes "checkout")
    × InfoAgrees request request.scenario_info
    × PartitionAgrees key.partition_number request.partition)
key_for_registration_iff_example = key_for_registration_iff request (codes "checkout") key

abbrev entries : List CallbackLog
entries = record { level = codes "info"; message = codes "hello" } ∷ []

append_logs_iff_example : (log_result (append_logs new_log_buffer entries) ≡ ok entries) ↔ (
    (entries ≡ entries)
    × All IsText entries
    × (length entries ≤ maximum_log_count)
    × (total_bytes entries ≤ maximum_log_bytes))
append_logs_iff_example = append_logs_iff entries entries

-- A clean callback that logs nothing and keeps a value, and a step.
abbrev metadata : CallbackMetadata platform
metadata = record {
  test_info = record {
    test_suite = codes "suite";
    test_name = codes "test";
    session_id = codes "s";
    session_id_alias = codes "s";
    cluster_id = codes "c";
    cluster_id_alias = codes "c";
    created_utc = 7;
    created = 7;
  };
  node_info = record {
    node_type = pos 0;
    machine_name = codes "m";
    current_operation = [];
    current_operation_type = pos 0;
    cores_count = pos 4;
    dot_net_version = [];
    engine_version = [];
    os = codes "linux";
    processor = [];
  };
  scenario_info = record {
    instance_id = codes "1";
    instance_id_alias = codes "1";
    instance_number = pos 0;
    scenario_duration = pos 1000;
    scenario_name = codes "checkout";
    scenario_operation = pos 0;
  };
  partition = record { number = pos 0; count = pos 1 };
  custom_settings = 0;
  global_custom_settings = 0;
}

abbrev pub clean_hook : Hook platform ℕ 0 (λ n. n) ℕ ℕ
clean_hook context values = record {
  values = (codes "kept", 1) ∷ values;
  written = [];
  outcome = ok [];
}

abbrev pub run : Run platform ℕ 0 (λ n. n) ℕ ℕ
run context values = record {
  values = values;
  written = [];
  outcome = record {
    is_success = true;
    status_code = codes "200";
    message = [];
    size_bytes = pos 0;
    custom_latency_ms = 0;
    payload = 0;
    step_name = [];
    stop_scenario_name = [];
    stop_scenario_reason = [];
    stop_current_test = false;
    stop_current_test_reason = [];
  };
}

abbrev pub before : ScenarioState platform ℕ 0 (λ n. n) ℕ ℕ
before = record {
  bridge = record { active = []; completed = []; closed = false; in_flight = 0; instances = [] };
  registered_metrics = [];
}

abbrev after : ScenarioState platform ℕ 0 (λ n. n) ℕ ℕ
after = record {
  bridge = record {
    active = [];
    completed = key ∷ [];
    closed = false;
    in_flight = 0;
    instances = record { owner = none; values = [] } ∷ [];
  };
  registered_metrics = [];
}

cleaned :
    invoke_scenario_hook platform ℕ 0
      (λ n. n)
      ℕ
      ℕ
      0
      before
      (codes "checkout")
      request
      (some clean_hook)
      true
    ≡ (after, ok (record { metrics = []; logs = [] }))
unfolding invoke_scenario_hook key_for_registration scenario_instance_key is_bad_identity
    checked_partition check_info check_partition is_valid_utf8 is_blank_utf8 decode_utf8 read_rest
    read_lead is_blank trim_space trim_left is_space text_eq codes int_eq callback_metadata
    metadata_of clone_settings normalize_test_info normalize_scenario_info hook_response call_hook
    invoke_hook hook_outcome logs_of log_result append_logs new_log_buffer clean_instance
    clean_admitted clean_after admit_instance lock_admitted admit is_admitted enter lookup contains
    delete key_eq complete release put values_of describe
cleaned = refl

cleaned-metadata : callback_metadata platform request ≡ ok metadata
unfolding callback_metadata metadata_of clone_settings normalize_test_info normalize_scenario_info
    is_blank_utf8 decode_utf8 read_rest read_lead is_blank trim_space trim_left is_space text_eq
    codes
cleaned-metadata = refl

-- Another instance is cleaned, and the bridge is closed.
abbrev other_request : HookRequest
other_request = record request {
  scenario_instance_id = codes "2";
  scenario_info = some (record {
    instance_id = codes "2";
    instance_number = pos 1;
    scenario_duration_nanoseconds = pos 1000;
    scenario_name = codes "checkout";
    scenario_operation = pos 0;
  });
}

abbrev other_cleaned : ScenarioState platform ℕ 0 (λ n. n) ℕ ℕ
other_cleaned =
    (invoke_scenario_hook platform ℕ 0 (λ n. n) ℕ ℕ 1 after (codes "checkout") other_request
      (some clean_hook) true).0

abbrev closed_then : ScenarioState platform ℕ 0 (λ n. n) ℕ ℕ
closed_then = record other_cleaned { bridge = (begin_close other_cleaned.bridge).0 }

invoke_scenario_hook-final_example :
    (invoke_scenario_hook platform ℕ 0
        (λ n. n)
        ℕ
        ℕ
        1
        closed_then
        (codes "checkout")
        request
        none
        false
      ≡ (closed_then, err gone))
    × (invoke_scenario_step platform ℕ 0
          (λ n. n)
          ℕ
          ℕ
          100
          1
          closed_then
          (codes "checkout")
          request
          (some run)
        ≡ (closed_then, err gone))
invoke_scenario_hook-final_example =
    invoke_scenario_hook-final platform ℕ 0 (λ n. n) ℕ ℕ 0 1 100 before after closed_then
      (codes "checkout") (codes "checkout") request request (some clean_hook) none run false key
      metadata (record { metrics = []; logs = [] }) has_key cleaned
      (after_close (after_hook at_once 1 (codes "checkout") other_request (some clean_hook) true))
      has_key cleaned-metadata
