-- ===== src/Manifest/Validate.antt =====
-- `validateRuntimeManifestV2Claims` (runtime_manifest_v2.go), in the order of its tests. It is cut in
-- three at places where the source goes from one group of tests to the next.
pub mod Sound
use loadstrike_go.Prelude.{
  ℕ, ◌+◌, ◌-◌, ◌%◌, Bool, true, false, not, ◌&&◌, ◌||◌, List, [], ◌∷◌, ◌++◌, Bytes, codes, Option,
  none, some, Result, ok, err, ◌>>=◌, ◌>>◌, reject_if, text_eq, has_prefix, length, ltb, ◌==◌,
  if◌then◌else◌, ℤ, pos, negsuc,
}
use loadstrike_go.Manifest.Claims.{
  ArtifactClaims, ResolverConfig, ManifestError, u64_mod, manifest_schema_version,
  runtime_protocol_version, max_artifact_bytes, max_manifest_support_seconds,
  max_manifest_activation_skew, min_manifest_unix_second, max_manifest_unix_second,
  manifest_production_origin, manifest_publisher, manifest_repository, manifest_source_ref,
  manifest_workflow_identity, manifest_wrapper_module, manifest_attestation_media,
  manifest_v02_toolchain, bad_manifest_version, bad_sdk, bad_runtime_version, bad_platform,
  bad_protocol, bad_sha256, bad_byte_length, bad_download_url, bad_validity, identity_mismatch,
  bad_git_object, bad_workflow_run, bad_toolchain, toolchain_mismatch, bad_attestation,
  version_mismatch, platform_mismatch, protocol_mismatch, not_active, expired,
}
use loadstrike_go.Manifest.Patterns.{
  is_lower_hex64, is_git_object, is_sha256_digest, is_canonical_version, is_canonical_toolchain,
}
use loadstrike_go.Manifest.Checksums.{validate_go_h1}

-- `a - b` on uint64 wraps.
abbrev pub sub_uint64 : ℕ → ℕ → ℕ
sub_uint64 a b = (a + u64_mod - b) % u64_mod

-- `expectedExecutables[platform]`
unfoldable pub expected_executable : Bytes → Option Bytes
expected_executable platform =
    if text_eq platform (codes "windows-amd64")
    then some (codes "loadstrike-runtime.exe")
    else if text_eq platform (codes "linux-amd64") || text_eq platform (codes "darwin-arm64")
    then some (codes "loadstrike-runtime")
    else none

-- `!supported || claims.Executable != executable`
unfoldable pub is_unsupported : Option Bytes → Bytes → Bool
is_unsupported none executable = true
is_unsupported (some expected) executable = not (text_eq executable expected)

unfoldable pub platform_of : ArtifactClaims → Bytes
platform_of claims = claims.os ++ (codes "-" ++ claims.arch)

unfoldable pub expected_url : ArtifactClaims → Bytes
unfolding platform_of
expected_url claims =
    manifest_production_origin
    ++ (codes "/runtime/"
        ++ (claims.runtime_version
            ++ (codes "/go/" ++ (platform_of claims ++ (codes "/" ++ claims.executable)))))

-- `expectedRuntimeManifestBuildFlags`
unfoldable pub expected_build_flags : Bytes → Bytes
expected_build_flags version =
    codes
      "-mod=readonly -trimpath -buildvcs=false -ldflags=-X=github.com/Meticulis/LoadStrike/sdk/go-runtime-private/internal/engine.moduleVersion=LOADSTRIKE_RUNTIME_VERSION:"
    ++ (version ++ codes " CGO_ENABLED=0")

unfoldable pub expected_release_id : ArtifactClaims → Bytes
unfolding platform_of
expected_release_id claims =
    codes "go-runtime/" ++ (claims.runtime_version ++ (codes "/" ++ platform_of claims))

unfoldable pub is_bad_interval : ArtifactClaims → Bool
is_bad_interval claims =
    ltb claims.issued_at min_manifest_unix_second
    || ltb claims.not_before claims.issued_at
    || ltb claims.valid_until claims.not_before
    || ltb max_manifest_unix_second claims.valid_until
    || ltb max_manifest_activation_skew (sub_uint64 claims.not_before claims.issued_at)
    || ltb max_manifest_support_seconds (sub_uint64 claims.valid_until claims.issued_at)

-- From the manifest version to the validity interval.
unfoldable pub validate_artifact : ArtifactClaims → Result ManifestError (Unit {0})
unfolding is_bad_interval
validate_artifact claims = do
  reject_if (not (claims.manifest_version == manifest_schema_version)) bad_manifest_version
  reject_if (not (text_eq claims.sdk (codes "go"))) bad_sdk
  reject_if
      (ltb 64 (length claims.runtime_version) || not (is_canonical_version claims.runtime_version))
      bad_runtime_version
  reject_if (is_unsupported (expected_executable (platform_of claims)) claims.executable)
      bad_platform
  reject_if (ltb claims.protocol 1 || ltb 2147483647 claims.protocol) bad_protocol
  reject_if (not (is_lower_hex64 claims.sha256)) bad_sha256
  reject_if (ltb claims.byte_length 1 || ltb max_artifact_bytes claims.byte_length) bad_byte_length
  reject_if (not (text_eq claims.download_url (expected_url claims))) bad_download_url
  reject_if (is_bad_interval claims) bad_validity

-- The map `fixed`: what a claim says and what it has to say.
unfoldable pub fixed_claims : ArtifactClaims → List (Bytes × Bytes)
fixed_claims claims =
    (claims.publisher, manifest_publisher)
    ∷ (claims.release_id, expected_release_id claims)
    ∷ (claims.repository, manifest_repository)
    ∷ (claims.source_ref, manifest_source_ref)
    ∷ (claims.workflow_identity, manifest_workflow_identity)
    ∷ (claims.wrapper_module, manifest_wrapper_module)
    ∷ (claims.wrapper_version, claims.runtime_version)
    ∷ (claims.build_flags, expected_build_flags claims.runtime_version)
    ∷ (claims.attestation_media_type, manifest_attestation_media)
    ∷ []

-- The loop over `fixed`. Go leaves the order of a map's keys open, and with it which of several
-- wrong claims the error names; the error here names none.
unfoldable pub match_fixed : List (Bytes × Bytes) → Result ManifestError (Unit {0})
match_fixed [] = ok tt
match_fixed ((actual, expected) ∷ rest) =
    if not (text_eq actual expected) then err identity_mismatch else match_fixed rest

unfoldable pub match_git_objects : List Bytes → Result ManifestError (Unit {0})
match_git_objects [] = ok tt
match_git_objects (value ∷ rest) =
    if not (is_git_object value) then err bad_git_object else match_git_objects rest

-- From the publisher's identity to the attestation digest.
unfoldable pub validate_provenance : ArtifactClaims → Result ManifestError (Unit {0})
validate_provenance claims = do
  match_fixed (fixed_claims claims)
  match_git_objects (
      claims.source_sha ∷ claims.wrapper_tag_object ∷ claims.wrapper_commit ∷ claims.wrapper_tree
      ∷ [])
  reject_if
      (ltb claims.run_id 1
        || ltb 9999999999999999999 claims.run_id
        || ltb claims.run_attempt 1
        || ltb 1000 claims.run_attempt)
      bad_workflow_run
  validate_go_h1 claims.wrapper_sum
  validate_go_h1 claims.wrapper_go_mod_sum
  reject_if (ltb 32 (length claims.toolchain) || not (is_canonical_toolchain claims.toolchain))
      bad_toolchain
  reject_if
      (has_prefix claims.runtime_version (codes "v0.2.")
        && not (text_eq claims.toolchain manifest_v02_toolchain))
      toolchain_mismatch
  reject_if (not (is_sha256_digest claims.attestation_digest)) bad_attestation

-- `nowUnix` is an int64, tested for its sign before it is compared as a uint64.
unfoldable pub is_inactive : ℤ → ℕ → Bool
is_inactive (pos now) not_before = ltb now not_before
is_inactive (negsuc n) not_before = true

-- The conversion to uint64 alone: a negative time was rejected before.
unfoldable pub is_expired : ℤ → ℕ → Bool
is_expired (pos now) valid_until = ltb valid_until now
is_expired (negsuc n) valid_until = ltb valid_until (u64_mod - (n + 1))

-- The resolver's version, platform and protocol, and the time.
unfoldable pub validate_target :
    ArtifactClaims → ResolverConfig → ℤ → Result ManifestError (Unit {0})
unfolding is_inactive is_expired
validate_target claims config now = do
  reject_if (not (text_eq claims.runtime_version config.version)) version_mismatch
  reject_if (not (text_eq claims.os config.goos) || not (text_eq claims.arch config.goarch))
      platform_mismatch
  reject_if (not (claims.protocol == runtime_protocol_version)) protocol_mismatch
  reject_if (is_inactive now claims.not_before) not_active
  reject_if (is_expired now claims.valid_until) expired

unfoldable pub validate_claims :
    ArtifactClaims → ResolverConfig → ℤ → Result ManifestError (Unit {0})
validate_claims claims config now = do
  validate_artifact claims
  validate_provenance claims
  validate_target claims config now
