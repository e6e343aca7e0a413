-- ===== src/Manifest/Tests.antt =====
-- A descriptor that is accepted, under a hash and a signature check that stand for the real ones.
use loadstrike_go.Prelude.{
  ℕ, ◌≡◌, ◌≢◌, ◌≤◌, length, ◌↔◌, refl, Bool, [], ◌∷◌, Bytes, codes, Result, ok, err, text_eq,
  text_lt, has_prefix, replicate, arith, ℤ, pos, ok-inj,
}
use mathlib.Core.Path.{subst}
use mathlib.Core.List.{Memᴰ}
use loadstrike_go.Base64.{encode_char, decode_char, encode_std, decode_std}
use loadstrike_go.Manifest.Claims.{
  ArtifactClaims, ArtifactSignature, ArtifactManifest, ResolverConfig, TrustedKey, InRange,
  ManifestError, not_active,
}
use loadstrike_go.Manifest.Encoding.{
  encode_uint16, encode_uint32, encode_uint64, is_strict_ascii, frame,
}
use loadstrike_go.Manifest.Patterns.{
  is_lower_hex, all_lower_hex, is_lower_hex64, is_git_object, is_sha256_digest, strip_prefix,
  is_canonical_version, is_canonical_toolchain,
}
use loadstrike_go.Manifest.Checksums.{
  decode_canonical_base64, validate_go_h1, decode_canonical_base64_iff,
}
use loadstrike_go.Manifest.Payload.{
  is_numeric_field, payload_fields, write_fields, canonical_payload,
}
use loadstrike_go.Manifest.Payload.Injective.{canonical_payload-injective}
use loadstrike_go.Manifest.Validate.{
  expected_executable, is_unsupported, platform_of, expected_url, expected_build_flags,
  expected_release_id, validate_artifact, fixed_claims, match_fixed, match_git_objects,
  validate_provenance, validate_target, validate_claims,
}
use loadstrike_go.Manifest.Validate.Sound.{IsArtifact, IsProvenance, IsTarget, validate_claims_iff}
use loadstrike_go.Manifest.Verify.{
  hex_encode, find_key, is_known, is_seen, is_bad_key_interval, expected_key_id, is_invalid_key,
  index_keys, check_known, verify_signatures, verify_parsed, verify_manifest,
}
use loadstrike_go.Manifest.Verify.Trust.{IsSignedBy, Ascending}
use loadstrike_go.Manifest.Verify.Headline.{
  IsAuthentic, verify_manifest-IsAuthentic, verify_manifest-all_known,
}

abbrev pub claims : ArtifactClaims
claims = record {
  arch = codes "amd64";
  attestation_digest =
      codes "sha256:0000000000000000000000000000000000000000000000000000000000000000";
  attestation_media_type = codes "application/vnd.dev.sigstore.bundle+json;version=0.3";
  build_flags =
      codes
        "-mod=readonly -trimpath -buildvcs=false -ldflags=-X=github.com/Meticulis/LoadStrike/sdk/go-runtime-private/internal/engine.moduleVersion=LOADSTRIKE_RUNTIME_VERSION:v0.2.3 CGO_ENABLED=0";
  byte_length = 1000;
  download_url =
      codes "https://licensing.loadstrike.com/runtime/v0.2.3/go/linux-amd64/loadstrike-runtime";
  executable = codes "loadstrike-runtime";
  issued_at = 1800000000;
  manifest_version = 2;
  not_before = 1800000100;
  os = codes "linux";
  protocol = 2;
  publisher = codes "LoadStrike";
  release_id = codes "go-runtime/v0.2.3/linux-amd64";
  repository = codes "Meticulis/LoadStrike";
  run_attempt = 1;
  run_id = 42;
  runtime_version = codes "v0.2.3";
  sdk = codes "go";
  sha256 = codes "0000000000000000000000000000000000000000000000000000000000000000";
  source_ref = codes "refs/heads/main";
  source_sha = codes "0000000000000000000000000000000000000000";
  toolchain = codes "go1.26.8";
  valid_until = 1890000000;
  workflow_identity =
      codes "Meticulis/LoadStrike/.github/workflows/main-delivery.yml@refs/heads/main";
  wrapper_commit = codes "0000000000000000000000000000000000000000";
  wrapper_go_mod_sum = codes "h1:AAAAAAAAAAAAAAAAAAAAAAAAAAAAAAAAAAAAAAAAAAA=";
  wrapper_module = codes "loadstrike.com/sdk/go";
  wrapper_sum = codes "h1:AAAAAAAAAAAAAAAAAAAAAAAAAAAAAAAAAAAAAAAAAAA=";
  wrapper_tag_object = codes "0000000000000000000000000000000000000000";
  wrapper_tree = codes "0000000000000000000000000000000000000000";
  wrapper_version = codes "v0.2.3";
}

abbrev pub key_id : Bytes
key_id = codes "sha256:0000000000000000000000000000000000000000000000000000000000000000"

abbrev pub signature : ArtifactSignature
signature = record {
  algorithm = codes "publisher-ed25519-v2";
  key_id = key_id;
  signature =
      codes
        "AAAAAAAAAAAAAAAAAAAAAAAAAAAAAAAAAAAAAAAAAAAAAAAAAAAAAAAAAAAAAAAAAAAAAAAAAAAAAAAAAAAAAA==";
}

abbrev manifest : ArtifactManifest
manifest = record {
  schema_version = 2;
  claims = claims;
  signatures = signature ∷ [];
  canonical_json = [];
}

abbrev config : ResolverConfig
config = record { version = codes "v0.2.3"; goos = codes "linux"; goarch = codes "amd64" }

abbrev key : TrustedKey
key = record {
  algorithm = codes "publisher-ed25519-v2";
  key_id = key_id;
  public_key = replicate 32 7;
  activation = 1790000000;
  not_after = 1900000000;
}

abbrev now : ℤ
now = pos 1800000500

-- A hash and a signature check for the tests.
abbrev pub sum256 : Bytes → Bytes
sum256 content = replicate 32 0

abbrev pub ed25519_verify : Bytes → Bytes → Bytes → Bool
ed25519_verify public_key message signed = text_eq signed (replicate 64 0)

abbrev parse : Bytes → Result ManifestError ArtifactManifest
parse raw = ok manifest

claims-InRange : InRange claims
claims-InRange = omega arith

validates : validate_claims claims config now ≡ ok tt
unfolding validate_claims validate_artifact validate_provenance validate_target is_unsupported
    expected_executable platform_of expected_url expected_build_flags expected_release_id
    fixed_claims match_fixed match_git_objects validate_go_h1 decode_canonical_base64 decode_std
    decode_char encode_std encode_char strip_prefix is_lower_hex all_lower_hex is_lower_hex64
    is_git_object is_sha256_digest is_canonical_version is_canonical_toolchain text_eq has_prefix
    codes
validates = refl

verifies : verify_manifest sum256 ed25519_verify parse [] config (key ∷ []) now ≡ ok manifest
unfolding verify_manifest verify_parsed verify_signatures check_known index_keys is_invalid_key
    expected_key_id hex_encode find_key is_known is_seen is_bad_key_interval canonical_payload
    payload_fields write_fields is_numeric_field is_strict_ascii frame encode_uint16 encode_uint32
    encode_uint64 text_lt validate_claims validate_artifact validate_provenance validate_target
    is_unsupported expected_executable platform_of expected_url expected_build_flags
    expected_release_id fixed_claims match_fixed match_git_objects validate_go_h1
    decode_canonical_base64 decode_std decode_char encode_std encode_char strip_prefix is_lower_hex
    all_lower_hex is_lower_hex64 is_git_object is_sha256_digest is_canonical_version
    is_canonical_toolchain text_eq has_prefix codes
verifies = refl

-- The same descriptor before it is active.
too_early :
    verify_manifest sum256 ed25519_verify parse [] config (key ∷ []) (pos 1800000099)
    ≡ err not_active
unfolding verify_manifest verify_parsed verify_signatures validate_claims validate_artifact
    validate_provenance validate_target is_unsupported expected_executable platform_of expected_url
    expected_build_flags expected_release_id fixed_claims match_fixed match_git_objects
    validate_go_h1 decode_canonical_base64 decode_std decode_char encode_std encode_char
    strip_prefix is_lower_hex all_lower_hex is_lower_hex64 is_git_object is_sha256_digest
    is_canonical_version is_canonical_toolchain text_eq has_prefix codes
too_early = refl

abbrev IsManifest : ArtifactManifest → Type 0
IsManifest m = InRange m.claims

parsed-InRange : (m : ArtifactManifest) → parse [] ≡ ok m → InRange m.claims
parsed-InRange m h = subst IsManifest (ok-inj h) claims-InRange

verify_manifest-IsAuthentic_example :
    (parse [] ≡ ok manifest) × IsAuthentic sum256 ed25519_verify manifest config (key ∷ []) now
verify_manifest-IsAuthentic_example =
    verify_manifest-IsAuthentic sum256 ed25519_verify parse [] manifest config (key ∷ []) now
      parsed-InRange verifies

verify_manifest-all_known_example :
    Ascending (signature ∷ []) × IsSignedBy sum256 ed25519_verify claims signature key
verify_manifest-all_known_example =
    verify_manifest-all_known sum256 ed25519_verify parse [] manifest config (key ∷ []) now
      signature key verifies (Memᴰ.head refl) (Memᴰ.head refl) refl

validate_claims_iff_example :
    (validate_claims claims config now ≡ ok tt)
    ↔ (IsArtifact claims × IsProvenance claims × IsTarget claims config now)
validate_claims_iff_example = validate_claims_iff claims config now claims-InRange

abbrev payload : Result ManifestError Bytes
payload = canonical_payload claims (codes "publisher-ed25519-v2") key_id

abbrev payload_bytes : Bytes
payload_bytes = elim payload [ ok p ↦ p | err e ↦ [] ]

has_payload : canonical_payload claims (codes "publisher-ed25519-v2") key_id ≡ ok payload_bytes
unfolding canonical_payload payload_fields write_fields is_numeric_field is_strict_ascii frame
    encode_uint16 encode_uint32 encode_uint64 is_sha256_digest is_lower_hex all_lower_hex
    strip_prefix text_eq codes
has_payload = refl

canonical_payload-injective_example :
    (claims ≡ claims)
    × (codes "publisher-ed25519-v2" ≡ codes "publisher-ed25519-v2")
    × (key_id ≡ key_id)
canonical_payload-injective_example =
    canonical_payload-injective claims claims (codes "publisher-ed25519-v2")
      (codes "publisher-ed25519-v2") key_id key_id payload_bytes claims-InRange claims-InRange
      has_payload has_payload

decode_canonical_base64_iff_example :
    (decode_canonical_base64 (codes "AQID") 3 ≡ ok (1 ∷ 2 ∷ 3 ∷ [])) ↔ (
      (codes "AQID" ≢ [])
      × (length (codes "AQID") ≤ 512)
      × (codes "AQID" ≡ encode_std (1 ∷ 2 ∷ 3 ∷ []))
      × (length {A = ℕ} (1 ∷ 2 ∷ 3 ∷ []) ≡ 3))
decode_canonical_base64_iff_example =
    decode_canonical_base64_iff (codes "AQID") 3 (1 ∷ 2 ∷ 3 ∷ [])
      (omega arith, (omega arith, (omega arith, tt)))
