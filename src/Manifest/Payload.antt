-- ===== src/Manifest/Payload.antt =====
-- `runtimeManifestV2CanonicalPayload` (runtime_manifest_v2.go): the bytes that a publisher signs.
pub mod Injective
use loadstrike_go.Prelude.{
  ℕ, Bool, true, false, not, ◌&&◌, ◌||◌, List, [], ◌∷◌, ◌++◌, Bytes, Result, ok, err, ◌>>=◌, ◌>>◌,
  reject_if, text_eq, length, ltb, ◌==◌, if◌then◌else◌,
}
use loadstrike_go.Manifest.Claims.{
  ArtifactClaims, ManifestError, manifest_signature_domain, manifest_signature_purpose,
  manifest_signature_version, manifest_schema_version, max_manifest_payload_bytes,
  payload_bad_algorithm, payload_bad_key_id, payload_bad_count, payload_not_ascii,
  payload_too_large,
}
use loadstrike_go.Manifest.Encoding.{
  Field, encode_uint16, encode_uint32, encode_uint64, is_strict_ascii, frame,
}
use loadstrike_go.Manifest.Patterns.{is_sha256_digest}

-- `runtimeManifestNumericField`
unfoldable pub is_numeric_field : ℕ → Bool
is_numeric_field id =
    id == 3
    || id == 10
    || id == 15
    || id == 17
    || id == 20
    || id == 21
    || id == 22
    || id == 29
    || id == 30

unfoldable pub payload_fields : ArtifactClaims → Bytes → Bytes → List Field
payload_fields claims algorithm key_id =
    (1, manifest_signature_domain)
    ∷ (2, manifest_signature_purpose)
    ∷ (3, encode_uint32 manifest_schema_version)
    ∷ (4, algorithm)
    ∷ (5, key_id)
    ∷ (10, encode_uint32 manifest_version)
    ∷ (11, sdk)
    ∷ (12, runtime_version)
    ∷ (13, os)
    ∷ (14, arch)
    ∷ (15, encode_uint32 protocol)
    ∷ (16, sha256)
    ∷ (17, encode_uint64 byte_length)
    ∷ (18, download_url)
    ∷ (19, executable)
    ∷ (20, encode_uint64 issued_at)
    ∷ (21, encode_uint64 not_before)
    ∷ (22, encode_uint64 valid_until)
    ∷ (23, publisher)
    ∷ (24, release_id)
    ∷ (25, repository)
    ∷ (26, source_ref)
    ∷ (27, source_sha)
    ∷ (28, workflow_identity)
    ∷ (29, encode_uint64 run_id)
    ∷ (30, encode_uint32 run_attempt)
    ∷ (31, wrapper_module)
    ∷ (32, wrapper_version)
    ∷ (33, wrapper_sum)
    ∷ (34, wrapper_go_mod_sum)
    ∷ (35, wrapper_tag_object)
    ∷ (36, wrapper_commit)
    ∷ (37, wrapper_tree)
    ∷ (38, toolchain)
    ∷ (39, build_flags)
    ∷ (40, attestation_digest)
    ∷ (41, attestation_media_type)
    ∷ []
  where
    open claims use {
      manifest_version, sdk, runtime_version, os, arch, protocol, sha256, byte_length, download_url,
      executable, issued_at, not_before, valid_until, publisher, release_id, repository, source_ref,
      source_sha, workflow_identity, run_id, run_attempt, wrapper_module, wrapper_version,
      wrapper_sum, wrapper_go_mod_sum, wrapper_tag_object, wrapper_commit, wrapper_tree, toolchain,
      build_flags, attestation_digest, attestation_media_type,
    }

-- The loop over the fields; a write to a `bytes.Buffer` returns no error.
unfoldable pub write_fields : Bytes → List Field → Result ManifestError Bytes
write_fields payload [] = ok payload
write_fields payload ((id, value) ∷ fields) =
    if not (is_numeric_field id) && not (is_strict_ascii value)
    then err payload_not_ascii
    else write_fields (payload ++ frame (id, value)) fields

unfoldable pub canonical_payload : ArtifactClaims → Bytes → Bytes → Result ManifestError Bytes
canonical_payload claims algorithm key_id = do
  reject_if (not (text_eq algorithm manifest_signature_version)) payload_bad_algorithm
  reject_if (not (is_sha256_digest key_id)) payload_bad_key_id
  let fields = payload_fields claims algorithm key_id
  reject_if (not (length fields == 37)) payload_bad_count
  payload ← write_fields (encode_uint16 (length fields)) fields
  reject_if (ltb max_manifest_payload_bytes (length payload)) payload_too_large
  ok payload
