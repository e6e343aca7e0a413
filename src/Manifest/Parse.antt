-- ===== src/Manifest/Parse.antt =====
-- `parseRuntimeManifestV2`, `canonicalizeRuntimeManifestJSON` and `parseRuntimePublisherKeyring`
-- (runtime_manifest_v2.go).
pub mod Sound
pub mod Tests
use loadstrike_go.Prelude.{
  ℕ, suc, Bool, true, false, not, ◌||◌, List, [], ◌∷◌, ◌++◌, Bytes, codes, Option, none, some,
  text_eq, Table, find, length, is_among, is_blank, ltb, leb, ◌==◌, if◌then◌else◌, Result, ok, err,
  ◌>>=◌, ◌>>◌, reject_if,
}
use loadstrike_go.StrictJson.{Json, Decoded, JsonError, decode_strict_object, decode_strict_array}
use loadstrike_go.Manifest.Claims.{
  ArtifactClaims, ArtifactSignature, ArtifactManifest, TrustedKey, ManifestError,
  keyring_not_provisioned, keyring_too_large, keyring_not_ascii, keyring_bad_count,
  keyring_bad_json, key_bad_fields, key_bad_algorithm, key_bad_fingerprint, key_duplicate,
  key_bad_interval, descriptor_bad_size, descriptor_not_ascii, descriptor_bad_json,
  envelope_bad_fields, claims_bad_fields, signatures_bad_count, signature_bad_fields,
  descriptor_not_canonical, bad_schema_version, max_publisher_keyring_bytes,
  max_publisher_trusted_keys, max_manifest_bytes, max_manifest_signatures, manifest_schema_version,
  manifest_signature_version,
}
use loadstrike_go.Manifest.Encoding.{is_strict_ascii}
use loadstrike_go.Manifest.Checksums.{decode_canonical_base64}
use loadstrike_go.Manifest.Verify.{public_key_size, expected_key_id, is_seen, is_bad_key_interval}

-- The value that an entry of the keyring is decoded into.
pub record KeyEntry : Type 0 where
  pub activation : ℕ  -- uint64
  pub algorithm : Bytes
  pub key_id : Bytes
  pub not_after : ℕ  -- uint64
  pub public_key_raw_base64 : Bytes

-- `json.Unmarshal` into the types that the file uses, `json.Marshal` of a decoded value, and
-- `Decoder.Decode` of one value with `UseNumber`; `none` is an error.
pub record Values (J : Json) : Type 1 where
  pub Value : Type 0
  pub decode_any : J.Decoder → Option (Value × J.Decoder)
  pub marshal : Value → Option Bytes
  pub key_entry : Bytes → Option KeyEntry
  pub signature : Bytes → Option ArtifactSignature
  pub claims : Bytes → Option ArtifactClaims
  pub uint32 : Bytes → Option ℕ

abbrev pub key_fields : List Bytes
key_fields =
    codes "activation"
    ∷ codes "algorithm"
    ∷ codes "keyId"
    ∷ codes "notAfter"
    ∷ codes "publicKeyRawBase64"
    ∷ []

abbrev pub envelope_fields : List Bytes
envelope_fields = codes "claims" ∷ codes "schemaVersion" ∷ codes "signatures" ∷ []

abbrev pub signature_fields : List Bytes
signature_fields = codes "algorithm" ∷ codes "keyId" ∷ codes "signature" ∷ []

-- `runtimeManifestClaimFields`
abbrev pub claim_fields : List Bytes
claim_fields =
    codes "arch"
    ∷ codes "attestationDigest"
    ∷ codes "attestationMediaType"
    ∷ codes "buildFlags"
    ∷ codes "byteLength"
    ∷ codes "downloadUrl"
    ∷ codes "executable"
    ∷ codes "issuedAt"
    ∷ codes "manifestVersion"
    ∷ codes "notBefore"
    ∷ codes "os"
    ∷ codes "protocol"
    ∷ codes "publisher"
    ∷ codes "releaseId"
    ∷ codes "repository"
    ∷ codes "runAttempt"
    ∷ codes "runId"
    ∷ codes "runtimeVersion"
    ∷ codes "sdk"
    ∷ codes "sha256"
    ∷ codes "sourceRef"
    ∷ codes "sourceSha"
    ∷ codes "toolchain"
    ∷ codes "validUntil"
    ∷ codes "workflowIdentity"
    ∷ codes "wrapperCommit"
    ∷ codes "wrapperGoModSum"
    ∷ codes "wrapperModule"
    ∷ codes "wrapperSum"
    ∷ codes "wrapperTagObject"
    ∷ codes "wrapperTree"
    ∷ codes "wrapperVersion"
    ∷ []

-- `if err != nil { return ... }` with the error that the file gives there.
abbrev pub or_fail : {A : Type 0} → Option A → ManifestError → Result ManifestError A
or_fail none e = err e
or_fail (some a) e = ok a

abbrev pub or_json : {A : Type 0} → Result JsonError A → ManifestError → Result ManifestError A
or_json (ok a) e = ok a
or_json (err j) e = err e

-- The bytes of `envelopeFields["claims"]`, which are empty on a missing field.
abbrev pub value_of : Option Bytes → Bytes
value_of none = []
value_of (some value) = value

abbrev pub is_end : {D : Type 0} → Decoded D → Bool
is_end Decoded.end_of_input = true
is_end _ = false

module _ (J : Json) (V : Values J) where
  -- `canonicalizeRuntimeManifestJSON`
  unfoldable pub canonicalize : Bytes → Result ManifestError Bytes
  canonicalize raw = do
    (value, d) ← or_fail (V.decode_any (J.new_decoder raw)) descriptor_bad_json
    reject_if (not (is_end (J.decode d))) descriptor_bad_json
    encoded ← or_fail (V.marshal value) descriptor_bad_json
    ok (encoded ++ 10 ∷ [])

  -- An object of all the fields of a list.
  unfoldable pub decode_exact :
      Bytes → ℕ → List Bytes → ManifestError → ManifestError → Result ManifestError (Table Bytes)
  decode_exact content maximum_bytes allowed bad_json bad_fields = do
    fields ← or_json (decode_strict_object J (some content) maximum_bytes allowed) bad_json
    reject_if (not (length fields == length allowed)) bad_fields
    ok fields

  -- The loop over the signature entries.
  unfoldable pub parse_signatures : List Bytes → Result ManifestError (List ArtifactSignature)
  unfolding decode_exact
  parse_signatures [] = ok []
  parse_signatures (entry ∷ entries) = do
    fields ←
        decode_exact entry (length entry) signature_fields descriptor_bad_json signature_bad_fields
    signature ← or_fail (V.signature entry) descriptor_bad_json
    rest ← parse_signatures entries
    ok (signature ∷ rest)

  unfoldable pub parse_manifest : Bytes → Result ManifestError ArtifactManifest
  unfolding decode_exact parse_signatures canonicalize find text_eq
  parse_manifest raw = do
    reject_if (ltb (length raw) 1 || ltb max_manifest_bytes (length raw)) descriptor_bad_size
    reject_if (not (is_strict_ascii raw)) descriptor_not_ascii
    envelope ←
        decode_exact raw max_manifest_bytes envelope_fields descriptor_bad_json envelope_bad_fields
    let claims_raw = value_of (find envelope (codes "claims"))
    claims_found ←
        decode_exact claims_raw (length claims_raw) claim_fields descriptor_bad_json
          claims_bad_fields
    entries ←
        or_json
          (decode_strict_array J (value_of (find envelope (codes "signatures"))) max_manifest_bytes)
          descriptor_bad_json
    reject_if (ltb (length entries) 1 || ltb max_manifest_signatures (length entries))
        signatures_bad_count
    signatures ← parse_signatures entries
    canonical ← canonicalize raw
    reject_if (not (text_eq canonical raw)) descriptor_not_canonical
    schema_version ←
        or_fail (V.uint32 (value_of (find envelope (codes "schemaVersion")))) bad_schema_version
    reject_if (not (schema_version == manifest_schema_version)) bad_schema_version
    claims ← or_fail (V.claims claims_raw) descriptor_bad_json
    ok (record {
      schema_version = schema_version;
      claims = claims;
      signatures = signatures;
      canonical_json = canonical;
    })
