-- ===== src/Manifest/Validate/Sound.antt =====
-- What the claims of an accepted descriptor say, with nothing of the order of the tests in it, and
-- the proof that the tests accept exactly those claims.
use loadstrike_go.Prelude.{
  ◌+◌, ◌≤◌, ◌≡◌, ◌↔◌, refl, true, false, Bytes, codes, List, [], ◌∷◌, All, Option, none, some, ok,
  length, text_eq_iff, has_prefix, arith, ℤ, pos, negsuc,
}
use loadstrike_go.Manifest.Claims.{
  ArtifactClaims, ResolverConfig, InRange, max_artifact_bytes, max_manifest_support_seconds,
  max_manifest_activation_skew, min_manifest_unix_second, max_manifest_unix_second,
  manifest_publisher, manifest_repository, manifest_source_ref, manifest_workflow_identity,
  manifest_wrapper_module, manifest_attestation_media, manifest_v02_toolchain,
}
use loadstrike_go.Manifest.Patterns.{
  is_lower_hex64, is_git_object, is_sha256_digest, is_canonical_version, is_canonical_toolchain,
}
use loadstrike_go.Manifest.Checksums.{validate_go_h1}
use loadstrike_go.Manifest.Validate.{
  expected_executable, platform_of, expected_url, expected_build_flags, expected_release_id,
  is_unsupported, fixed_claims, match_fixed, match_git_objects, validate_artifact,
  validate_provenance, validate_target, validate_claims,
}

-- The artifact: what it is, where it lies, and for how long it is supported.
pub record IsArtifact (c : ArtifactClaims) : Type 0 where
  pub second_version : c.manifest_version ≡ 2
  pub for_go : c.sdk ≡ codes "go"
  pub version_short : length c.runtime_version ≤ 64
  pub version_canonical : is_canonical_version c.runtime_version ≡ true
  pub platform_known : expected_executable (platform_of c) ≡ some c.executable
  pub protocol_positive : 1 ≤ c.protocol
  pub protocol_int32 : c.protocol ≤ 2147483647
  pub sha256_canonical : is_lower_hex64 c.sha256 ≡ true
  pub nonempty : 1 ≤ c.byte_length
  pub bounded : c.byte_length ≤ max_artifact_bytes
  pub from_production : c.download_url ≡ expected_url c
  pub issued_late : min_manifest_unix_second ≤ c.issued_at
  pub issued_first : c.issued_at ≤ c.not_before
  pub active_first : c.not_before ≤ c.valid_until
  pub valid_early : c.valid_until ≤ max_manifest_unix_second
  pub active_soon : c.not_before ≤ c.issued_at + max_manifest_activation_skew
  pub supported : c.valid_until ≤ c.issued_at + max_manifest_support_seconds

-- The publisher, its workflow and what both derive from the version and the platform.
pub record IsPublished (c : ArtifactClaims) : Type 0 where
  pub by_publisher : c.publisher ≡ manifest_publisher
  pub of_release : c.release_id ≡ expected_release_id c
  pub of_repository : c.repository ≡ manifest_repository
  pub of_source_ref : c.source_ref ≡ manifest_source_ref
  pub of_workflow : c.workflow_identity ≡ manifest_workflow_identity
  pub of_module : c.wrapper_module ≡ manifest_wrapper_module
  pub of_version : c.wrapper_version ≡ c.runtime_version
  pub of_flags : c.build_flags ≡ expected_build_flags c.runtime_version
  pub of_media : c.attestation_media_type ≡ manifest_attestation_media

-- The sources, the run of the workflow and the toolchain that the artifact was built from.
pub record IsBuild (c : ArtifactClaims) : Type 0 where
  pub source_object : is_git_object c.source_sha ≡ true
  pub tag_object : is_git_object c.wrapper_tag_object ≡ true
  pub commit_object : is_git_object c.wrapper_commit ≡ true
  pub tree_object : is_git_object c.wrapper_tree ≡ true
  pub run_known : 1 ≤ c.run_id
  pub run_bounded : c.run_id ≤ 9999999999999999999
  pub attempt_known : 1 ≤ c.run_attempt
  pub attempt_bounded : c.run_attempt ≤ 1000
  pub wrapper_checksum : validate_go_h1 c.wrapper_sum ≡ ok tt
  pub go_mod_checksum : validate_go_h1 c.wrapper_go_mod_sum ≡ ok tt
  pub toolchain_short : length c.toolchain ≤ 32
  pub toolchain_canonical : is_canonical_toolchain c.toolchain ≡ true
  pub toolchain_v02 :
      has_prefix c.runtime_version (codes "v0.2.") ≡ true → c.toolchain ≡ manifest_v02_toolchain
  pub attested : is_sha256_digest c.attestation_digest ≡ true

abbrev pub IsProvenance : ArtifactClaims → Type 0
IsProvenance c = IsPublished c × IsBuild c

-- The clock stands in the interval, both ends included.
abbrev pub IsActive : ArtifactClaims → ℤ → Type 0
IsActive c (pos t) = (c.not_before ≤ t) × (t ≤ c.valid_until)
IsActive c _ = ⊥

-- What this process asked for.
pub record IsTarget (c : ArtifactClaims) (config : ResolverConfig) (now : ℤ) : Type 0 where
  pub same_version : c.runtime_version ≡ config.version
  pub same_os : c.os ≡ config.goos
  pub same_arch : c.arch ≡ config.goarch
  pub same_protocol : c.protocol ≡ 2
  pub active : IsActive c now

is_unsupported_iff : (o : Option Bytes) (e : Bytes) → (is_unsupported o e ≡ false) ↔ (o ≡ some e)
unfolding is_unsupported
is_unsupported_iff none e = (λ h. ground arith, λ h. ground arith)
is_unsupported_iff (some x) e =
    (λ h. ground (arith, text_eq_iff e x), λ h. ground (arith, text_eq_iff e x))

validate_artifact_iff :
    (c : ArtifactClaims) → InRange c → (validate_artifact c ≡ ok tt) ↔ IsArtifact c
unfolding validate_artifact
validate_artifact_iff c r =
    let sdk = text_eq_iff c.sdk (codes "go") in
    let url = text_eq_iff c.download_url (expected_url c) in
    let platform = is_unsupported_iff (expected_executable (platform_of c)) c.executable in
    (λ h. ground (arith, sdk, url, platform), λ h. ground (arith, sdk, url, platform))

match_fixed_iff :
    (pairs : List (Bytes × Bytes)) → (match_fixed pairs ≡ ok tt) ↔ All (λ p. p.0 ≡ p.1) pairs
unfolding match_fixed
match_fixed_iff [] = (λ _. tt, λ _. refl)
match_fixed_iff ((actual, expected) ∷ rest) =
    let same = text_eq_iff actual expected in
    let others = match_fixed_iff rest in
    (λ h. ground (arith, same, others), λ h. ground (arith, same, others))

match_git_objects_iff :
    (values : List Bytes)
    → (match_git_objects values ≡ ok tt) ↔ All (λ v. is_git_object v ≡ true) values
unfolding match_git_objects
match_git_objects_iff [] = (λ _. tt, λ _. refl)
match_git_objects_iff (value ∷ rest) =
    let others = match_git_objects_iff rest in
    (λ h. ground (arith, others), λ h. ground (arith, others))

fixed_claims_iff : (c : ArtifactClaims) → (match_fixed (fixed_claims c) ≡ ok tt) ↔ IsPublished c
unfolding fixed_claims
fixed_claims_iff c =
    let same = match_fixed_iff (fixed_claims c) in
    (λ h. assumption (same.0 h), λ h. same.1 (assumption h))

validate_provenance_iff : (c : ArtifactClaims) → (validate_provenance c ≡ ok tt) ↔ IsProvenance c
unfolding validate_provenance
validate_provenance_iff c =
    let published = fixed_claims_iff c in
    let objects =
      match_git_objects_iff
        (c.source_sha ∷ c.wrapper_tag_object ∷ c.wrapper_commit ∷ c.wrapper_tree ∷ []) in
    let toolchain = text_eq_iff c.toolchain manifest_v02_toolchain in
    (
      λ h. ground (arith, published, objects, toolchain),
      λ h. ground (arith, published, objects, toolchain),
    )

validate_target_iff :
    (c : ArtifactClaims) (config : ResolverConfig) (now : ℤ)
    → (validate_target c config now ≡ ok tt) ↔ IsTarget c config now
unfolding validate_target
validate_target_iff c config (pos t) =
    let version = text_eq_iff c.runtime_version config.version in
    let os = text_eq_iff c.os config.goos in
    let arch = text_eq_iff c.arch config.goarch in
    (λ h. ground (arith, version, os, arch), λ h. ground (arith, version, os, arch))
validate_target_iff c config (negsuc n) = (λ h. ground arith, λ h. absurd h.active)

-- The tests accept a descriptor's claims exactly when they describe a well-formed artifact, of the
-- known publisher's workflow, for this process's version, platform and protocol, at a time of their
-- validity interval; the claims fit their integer widths.
pub validate_claims_iff :
    (c : ArtifactClaims) (config : ResolverConfig) (now : ℤ)
    → InRange c
    → (validate_claims c config now ≡ ok tt)
      ↔ (IsArtifact c × IsProvenance c × IsTarget c config now)
unfolding validate_claims
validate_claims_iff c config now r =
    let artifact = validate_artifact_iff c r in
    let provenance = validate_provenance_iff c in
    let target = validate_target_iff c config now in
    (
      λ h. ground (arith, artifact, provenance, target),
      λ h. ground (arith, artifact, provenance, target),
    )
