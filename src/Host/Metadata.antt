-- ===== src/Host/Metadata.antt =====
-- `callbackMetadata` (runtime_http_host.go), with `normalizeTestInfo` and `normalizeScenarioInfo`
-- (results.go): what a request tells a callback.
use loadstrike_go.Prelude.{
  Bool, [], Bytes, Option, none, some, is_blank_utf8, if◌then◌else◌, ℤ, Result, ok, err, ◌>>=◌,
}
use loadstrike_go.Settings.{Value, Heap, SettingsError, clone_settings}
use loadstrike_go.Host.Requests.{
  HookRequest, HttpTestInfo, NodeInfo, HttpScenarioInfo, Partition, IdentityError, missing_metadata,
  bad_created_utc, bad_custom_settings, bad_global_settings,
}

-- Package time, encoding/json on settings, and the heap of the caller's settings. `parse_time` is
-- `time.Parse` with RFC3339Nano and `UTC`; `copy` marshals and unmarshals.
pub record Platform : Type 1 where
  pub Time : Type 0
  pub zero_time : Time
  pub is_zero_time : Time → Bool
  pub parse_time : Bytes → Option Time
  pub Snapshot : Type 0
  pub empty_snapshot : Snapshot
  pub copy : Value → Option (Option Snapshot)
  pub heap : Heap

-- `id` and `id_alias` are the two spellings, as `SessionID` and `SessionId`.
pub record ScenarioInfo : Type 0 where
  pub instance_id : Bytes
  pub instance_id_alias : Bytes
  pub instance_number : ℤ
  pub scenario_duration : ℤ
  pub scenario_name : Bytes
  pub scenario_operation : ℤ

unfoldable pub normalize_scenario_info : ScenarioInfo → ScenarioInfo
unfolding is_blank_utf8
normalize_scenario_info info =
    let instance_id =
      if is_blank_utf8 info.instance_id then info.instance_id_alias else info.instance_id in
    record info {
      instance_id = instance_id;
      instance_id_alias =
          if is_blank_utf8 info.instance_id_alias then instance_id else info.instance_id_alias;
    }

module _ (P : Platform) where
  pub record TestInfo : Type 0 where
    pub test_suite : Bytes
    pub test_name : Bytes
    pub session_id : Bytes
    pub session_id_alias : Bytes
    pub cluster_id : Bytes
    pub cluster_id_alias : Bytes
    pub created_utc : P.Time
    pub created : P.Time

  unfoldable pub normalize_test_info : TestInfo → TestInfo
  unfolding is_blank_utf8
  normalize_test_info info =
      let session_id =
        if is_blank_utf8 info.session_id then info.session_id_alias else info.session_id in
      let cluster_id =
        if is_blank_utf8 info.cluster_id then info.cluster_id_alias else info.cluster_id in
      let created_utc =
        if P.is_zero_time info.created_utc then info.created else info.created_utc in
      record info {
        session_id = session_id;
        session_id_alias =
            if is_blank_utf8 info.session_id_alias then session_id else info.session_id_alias;
        cluster_id = cluster_id;
        cluster_id_alias =
            if is_blank_utf8 info.cluster_id_alias then cluster_id else info.cluster_id_alias;
        created_utc = created_utc;
        created = if P.is_zero_time info.created then created_utc else info.created;
      }

  pub record CallbackMetadata : Type 0 where
    pub test_info : TestInfo
    pub node_info : NodeInfo
    pub scenario_info : ScenarioInfo
    pub partition : Partition
    pub custom_settings : P.Snapshot
    pub global_custom_settings : P.Snapshot

  -- An error of the settings, wrapped.
  abbrev pub or_identity {ℓ} :
      {A : Type ℓ}
      → Result SettingsError A
      → (SettingsError → IdentityError)
      → Result IdentityError A
  or_identity (ok a) wrap = ok a
  or_identity (err e) wrap = err (wrap e)

  abbrev pub or_created : Option P.Time → Result IdentityError P.Time
  or_created none = err bad_created_utc
  or_created (some time) = ok time

  -- What follows the test for missing values.
  unfoldable pub metadata_of :
      HookRequest
      → HttpTestInfo
      → NodeInfo
      → HttpScenarioInfo
      → Partition
      → Result IdentityError CallbackMetadata
  unfolding normalize_test_info normalize_scenario_info clone_settings
  metadata_of r test node info partition = do
    custom ←
        or_identity (clone_settings P.heap P.copy P.empty_snapshot r.custom_settings)
          bad_custom_settings
    global ←
        or_identity (clone_settings P.heap P.copy P.empty_snapshot r.global_custom_settings)
          bad_global_settings
    created ← or_created (P.parse_time test.created_utc)
    ok (record {
      test_info = normalize_test_info (record {
        test_suite = test.test_suite;
        test_name = test.test_name;
        session_id = test.session_id;
        session_id_alias = [];
        cluster_id = test.cluster_id;
        cluster_id_alias = [];
        created_utc = created;
        created = P.zero_time;
      });
      node_info = node;
      scenario_info = normalize_scenario_info (record {
        instance_id = info.instance_id;
        instance_id_alias = [];
        instance_number = info.instance_number;
        scenario_duration = info.scenario_duration_nanoseconds;
        scenario_name = info.scenario_name;
        scenario_operation = info.scenario_operation;
      });
      partition = partition;
      custom_settings = custom;
      global_custom_settings = global;
    })

  unfoldable pub callback_metadata : HookRequest → Result IdentityError CallbackMetadata
  unfolding metadata_of
  callback_metadata r = elim r.test_info [
    | none ↦ err missing_metadata
    | some test ↦ elim r.node_info [
      | none ↦ err missing_metadata
      | some node ↦ elim r.scenario_info [
        | none ↦ err missing_metadata
        | some info ↦ elim r.partition [
          | none ↦ err missing_metadata
          | some partition ↦ metadata_of r test node info partition
        ]
      ]
    ]
  ]
