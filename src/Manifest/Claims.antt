-- ===== src/Manifest/Claims.antt =====
-- The data of a runtime manifest: `runtimeArtifactClaims`, `runtimeArtifactSignature` and the
-- resolver's configuration (runtime_artifact.go), the trusted publisher keys and the constants of
-- runtime_manifest_v2.go. A machine integer is a natural number; its width is kept by `InRange`.
use Prim.Native.Nat.{ℕ, ◌*◌, ◌<◌}
use loadstrike_go.Prelude.{Bytes, codes, List}

pub record ArtifactClaims : Type 0 where
  pub arch : Bytes
  pub attestation_digest : Bytes
  pub attestation_media_type : Bytes
  pub build_flags : Bytes
  pub byte_length : ℕ  -- uint64
  pub download_url : Bytes
  pub executable : Bytes
  pub issued_at : ℕ  -- uint64
  pub manifest_version : ℕ  -- uint32
  pub not_before : ℕ  -- uint64
  pub os : Bytes
  pub protocol : ℕ  -- uint32
  pub publisher : Bytes
  pub release_id : Bytes
  pub repository : Bytes
  pub run_attempt : ℕ  -- uint32
  pub run_id : ℕ  -- uint64
  pub runtime_version : Bytes
  pub sdk : Bytes
  pub sha256 : Bytes
  pub source_ref : Bytes
  pub source_sha : Bytes
  pub toolchain : Bytes
  pub valid_until : ℕ  -- uint64
  pub workflow_identity : Bytes
  pub wrapper_commit : Bytes
  pub wrapper_go_mod_sum : Bytes
  pub wrapper_module : Bytes
  pub wrapper_sum : Bytes
  pub wrapper_tag_object : Bytes
  pub wrapper_tree : Bytes
  pub wrapper_version : Bytes

pub record ArtifactSignature : Type 0 where
  pub algorithm : Bytes
  pub key_id : Bytes
  pub signature : Bytes

pub record ArtifactManifest : Type 0 where
  pub schema_version : ℕ  -- uint32
  pub claims : ArtifactClaims
  pub signatures : List ArtifactSignature
  pub canonical_json : Bytes

pub record ResolverConfig : Type 0 where
  pub version : Bytes
  pub goos : Bytes
  pub goarch : Bytes

pub record TrustedKey : Type 0 where
  pub algorithm : Bytes
  pub key_id : Bytes
  pub public_key : Bytes
  pub activation : ℕ  -- uint64
  pub not_after : ℕ  -- uint64

abbrev pub u16_mod : ℕ
u16_mod = 65536

abbrev pub u32_mod : ℕ
u32_mod = 4294967296

abbrev pub u64_mod : ℕ
u64_mod = 18446744073709551616

-- The numbers fit the widths that the struct declares.
pub record InRange (c : ArtifactClaims) : Type 0 where
  pub byte_length_u64 : c.byte_length < u64_mod
  pub issued_at_u64 : c.issued_at < u64_mod
  pub manifest_version_u32 : c.manifest_version < u32_mod
  pub not_before_u64 : c.not_before < u64_mod
  pub protocol_u32 : c.protocol < u32_mod
  pub run_attempt_u32 : c.run_attempt < u32_mod
  pub run_id_u64 : c.run_id < u64_mod
  pub valid_until_u64 : c.valid_until < u64_mod

abbrev pub manifest_schema_version : ℕ
manifest_schema_version = 2

abbrev pub runtime_protocol_version : ℕ
runtime_protocol_version = 2

abbrev pub max_manifest_bytes : ℕ
max_manifest_bytes = 64 * 1024

abbrev pub max_manifest_payload_bytes : ℕ
max_manifest_payload_bytes = 16 * 1024

abbrev pub max_artifact_bytes : ℕ
max_artifact_bytes = 128 * 1024 * 1024

abbrev pub max_manifest_signatures : ℕ
max_manifest_signatures = 3

abbrev pub max_publisher_trusted_keys : ℕ
max_publisher_trusted_keys = 8

abbrev pub max_publisher_keyring_bytes : ℕ
max_publisher_keyring_bytes = 16 * 1024

abbrev pub max_manifest_support_seconds : ℕ
max_manifest_support_seconds = 1095 * 24 * 60 * 60

abbrev pub max_manifest_activation_skew : ℕ
max_manifest_activation_skew = 5 * 60

abbrev pub min_manifest_unix_second : ℕ
min_manifest_unix_second = 1700000000

abbrev pub max_manifest_unix_second : ℕ
max_manifest_unix_second = 4102444800

abbrev pub manifest_signature_version : Bytes
manifest_signature_version = codes "publisher-ed25519-v2"

abbrev pub manifest_signature_domain : Bytes
manifest_signature_domain = codes "loadstrike.runtime-manifest"

abbrev pub manifest_signature_purpose : Bytes
manifest_signature_purpose = codes "publisher-artifact-authentication"

abbrev pub manifest_production_origin : Bytes
manifest_production_origin = codes "https://licensing.loadstrike.com"

abbrev pub manifest_publisher : Bytes
manifest_publisher = codes "LoadStrike"

abbrev pub manifest_repository : Bytes
manifest_repository = codes "Meticulis/LoadStrike"

abbrev pub manifest_source_ref : Bytes
manifest_source_ref = codes "refs/heads/main"

abbrev pub manifest_workflow_identity : Bytes
manifest_workflow_identity =
    codes "Meticulis/LoadStrike/.github/workflows/main-delivery.yml@refs/heads/main"

abbrev pub manifest_wrapper_module : Bytes
manifest_wrapper_module = codes "loadstrike.com/sdk/go"

abbrev pub manifest_attestation_media : Bytes
manifest_attestation_media = codes "application/vnd.dev.sigstore.bundle+json;version=0.3"

abbrev pub manifest_publisher_key_prefix : Bytes
manifest_publisher_key_prefix = codes "sha256:"

abbrev pub manifest_v02_toolchain : Bytes
manifest_v02_toolchain = codes "go1.26.8"

-- The error texts of the manifest code, one constructor for each place that returns one.
pub data ManifestError : Type 0 where
  keyring_not_provisioned keyring_too_large keyring_not_ascii keyring_bad_count : ManifestError
  keyring_bad_json key_bad_fields key_bad_algorithm key_bad_fingerprint : ManifestError
  key_duplicate key_bad_interval trusted_key_invalid trusted_key_duplicate : ManifestError
  descriptor_bad_size descriptor_not_ascii descriptor_bad_json : ManifestError
  envelope_bad_fields claims_bad_fields signatures_bad_count : ManifestError
  signature_bad_fields descriptor_not_canonical bad_schema_version : ManifestError
  bad_manifest_version bad_sdk bad_runtime_version bad_platform bad_protocol : ManifestError
  bad_sha256 bad_byte_length bad_download_url bad_validity identity_mismatch : ManifestError
  bad_git_object bad_workflow_run bad_go_h1 bad_toolchain toolchain_mismatch : ManifestError
  bad_attestation version_mismatch platform_mismatch protocol_mismatch : ManifestError
  not_active expired bad_base64 : ManifestError
  signature_bad_identity signature_duplicate signature_unordered : ManifestError
  signature_algorithm_mismatch key_interval_exceeded signature_invalid : ManifestError
  no_trusted_signature payload_bad_algorithm payload_bad_key_id : ManifestError
  payload_bad_count payload_not_ascii payload_too_large : ManifestError
