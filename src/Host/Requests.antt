-- ===== src/Host/Requests.antt =====
-- `runtimeHTTPScenarioHookRequest` (runtime_http_host.go): which instance a callback is for.
pub mod Keys
use loadstrike_go.Prelude.{
  ℕ, Bool, true, false, not, ◌&&◌, ◌||◌, List, [], ◌∷◌, Bytes, Option, none, some, text_eq, length,
  is_valid_utf8, is_blank_utf8, ltb, if◌then◌else◌, ℤ, pos, negsuc, ltb_ℤ, Result, ok, err, ◌>>=◌,
  ◌>>◌, reject_if,
}
use loadstrike_go.Bridge.{InstanceKey, int_eq}
use loadstrike_go.Settings.{Value, Heap, SettingsError}
use loadstrike_go.Host.Logs.{LogError}

-- Why an identity is not accepted; each is `errRuntimeScenarioInstanceIdentityInvalid`.
pub data IdentityError : Type 0 where
  bad_identity bad_partition_number other_scenario_name other_info_name other_info_instance
        negative_info other_partition bad_partition_count missing_metadata bad_created_utc :
      IdentityError
  bad_custom_settings bad_global_settings : SettingsError → IdentityError

-- The errors of a scenario callback. A callback's own error is its text.
pub data HostError : Type 0 where
  identity_invalid : IdentityError → HostError
  gone not_runnable : HostError
  log_failed : LogError → HostError
  callback_failed : Bytes → HostError

pub record HttpTestInfo : Type 0 where
  pub test_suite : Bytes
  pub test_name : Bytes
  pub session_id : Bytes
  pub cluster_id : Bytes
  pub created_utc : Bytes

-- `runtimeHTTPNodeInfo`, and `nodeInfo`, which has the same fields.
pub record NodeInfo : Type 0 where
  pub node_type : ℤ
  pub machine_name : Bytes
  pub current_operation : Bytes
  pub current_operation_type : ℤ
  pub cores_count : ℤ
  pub dot_net_version : Bytes
  pub engine_version : Bytes
  pub os : Bytes
  pub processor : Bytes

pub record HttpScenarioInfo : Type 0 where
  pub instance_id : Bytes
  pub instance_number : ℤ
  pub scenario_duration_nanoseconds : ℤ
  pub scenario_name : Bytes
  pub scenario_operation : ℤ

pub record Partition : Type 0 where
  pub number : ℤ
  pub count : ℤ

-- The fields that the callbacks read.
pub record HookRequest : Type 0 where
  pub run_identity : Bytes
  pub node_identity : Bytes
  pub partition_number : Option ℤ
  pub scenario_name : Bytes
  pub scenario_instance_id : Bytes
  pub invocation_number : ℤ
  pub scenario_started_utc : Bytes
  pub test_info : Option HttpTestInfo
  pub node_info : Option NodeInfo
  pub scenario_info : Option HttpScenarioInfo
  pub partition : Option Partition
  pub custom_settings : Option Value
  pub global_custom_settings : Option Value

abbrev pub maximum_identity_bytes : ℕ
maximum_identity_bytes = 512

abbrev pub is_negative : ℤ → Bool
is_negative z = ltb_ℤ z (pos 0)

-- The test of one field in the loop of `scenarioInstanceKey`.
unfoldable pub is_bad_identity : Bytes → Bool
is_bad_identity value =
    not (is_valid_utf8 value) || is_blank_utf8 value || ltb maximum_identity_bytes (length value)

-- `r.PartitionNumber == nil || *r.PartitionNumber < 0`
unfoldable pub checked_partition : Option ℤ → Result IdentityError ℤ
checked_partition none = err bad_partition_number
checked_partition (some n) = reject_if (is_negative n) bad_partition_number >> ok n

unfoldable pub scenario_instance_key : HookRequest → Result IdentityError InstanceKey
unfolding is_bad_identity checked_partition
scenario_instance_key r = do
  reject_if (is_bad_identity r.run_identity) bad_identity
  reject_if (is_bad_identity r.node_identity) bad_identity
  reject_if (is_bad_identity r.scenario_name) bad_identity
  reject_if (is_bad_identity r.scenario_instance_id) bad_identity
  partition_number ← checked_partition r.partition_number
  ok (record {
    run_identity = r.run_identity;
    node_identity = r.node_identity;
    partition_number = partition_number;
    scenario_name = r.scenario_name;
    scenario_instance_id = r.scenario_instance_id;
  })

-- `if r.ScenarioInfo != nil`
unfoldable pub check_info : HookRequest → Option HttpScenarioInfo → Result IdentityError (Unit {0})
check_info r none = ok tt
check_info r (some info) = do
  reject_if (not (text_eq info.scenario_name r.scenario_name)) other_info_name
  reject_if (not (text_eq info.instance_id r.scenario_instance_id)) other_info_instance
  reject_if (is_negative info.instance_number || is_negative info.scenario_duration_nanoseconds)
      negative_info

-- `if r.Partition != nil`
unfoldable pub check_partition : InstanceKey → Option Partition → Result IdentityError (Unit {0})
unfolding int_eq
check_partition key none = ok tt
check_partition key (some partition) = do
  reject_if (not (int_eq partition.number key.partition_number)) other_partition
  reject_if (ltb_ℤ partition.count (pos 1)) bad_partition_count

unfoldable pub key_for_registration : HookRequest → Bytes → Result IdentityError InstanceKey
unfolding scenario_instance_key check_info check_partition
key_for_registration r registered_scenario_name = do
  key ← scenario_instance_key r
  reject_if (not (text_eq r.scenario_name registered_scenario_name)) other_scenario_name
  check_info r r.scenario_info
  check_partition key r.partition
  ok key
