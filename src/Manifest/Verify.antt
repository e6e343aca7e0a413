-- ===== src/Manifest/Verify.antt =====
-- `verifyRuntimeManifestV2` (runtime_manifest_v2.go), behind the parser: the trusted keys, the claims
-- and the publisher signatures. SHA-256 and Ed25519 are parameters.
pub mod Index
pub mod Trust
pub mod Headline
use loadstrike_go.Prelude.{
  ℕ, ◌+◌, ◌/◌, ◌%◌, Bool, true, false, not, ◌&&◌, ◌||◌, List, [], ◌∷◌, ◌++◌, Bytes, Option, none,
  some, Result, ok, err, ◌>>=◌, ◌>>◌, reject_if, text_eq, text_lt, length, ltb, leb, ◌==◌,
  if◌then◌else◌, ℤ,
}
use loadstrike_go.Manifest.Claims.{
  ArtifactClaims, ArtifactSignature, ArtifactManifest, ResolverConfig, TrustedKey, ManifestError,
  max_publisher_trusted_keys, manifest_signature_version, manifest_publisher_key_prefix,
  min_manifest_unix_second, max_manifest_unix_second, keyring_not_provisioned, trusted_key_invalid,
  trusted_key_duplicate, signature_bad_identity, signature_duplicate, signature_unordered,
  signature_algorithm_mismatch, key_interval_exceeded, signature_invalid, no_trusted_signature,
}
use loadstrike_go.Manifest.Patterns.{is_sha256_digest}
use loadstrike_go.Manifest.Checksums.{decode_canonical_base64}
use loadstrike_go.Manifest.Payload.{canonical_payload}
use loadstrike_go.Manifest.Validate.{validate_claims}

abbrev pub public_key_size : ℕ
public_key_size = 32

abbrev pub signature_size : ℕ
signature_size = 64

abbrev hex_digit : ℕ → ℕ
hex_digit n = if ltb n 10 then n + 48 else n + 87

-- `hex.EncodeToString`
unfoldable pub hex_encode : Bytes → Bytes
hex_encode [] = []
hex_encode (b ∷ rest) = hex_digit (b / 16) ∷ hex_digit (b % 16) ∷ hex_encode rest

-- `trusted[keyID]`
unfoldable pub find_key : List TrustedKey → Bytes → Option TrustedKey
find_key [] key_id = none
find_key (key ∷ keys) key_id = if text_eq key.key_id key_id then some key else find_key keys key_id

unfoldable pub is_known : Option TrustedKey → Bool
is_known none = false
is_known (some key) = true

-- `seen[keyID]`
unfoldable pub is_seen : List Bytes → Bytes → Bool
is_seen [] key_id = false
is_seen (seen ∷ rest) key_id = text_eq seen key_id || is_seen rest key_id

unfoldable pub is_bad_key_interval : ℕ → ℕ → Bool
is_bad_key_interval activation not_after =
    ltb activation min_manifest_unix_second
    || leb not_after activation
    || ltb max_manifest_unix_second not_after

-- `crypto/sha256.Sum256` and `crypto/ed25519.Verify`
module _ (sum256 : Bytes → Bytes) (ed25519_verify : Bytes → Bytes → Bytes → Bool) where
  unfoldable pub expected_key_id : Bytes → Bytes
  expected_key_id public_key = manifest_publisher_key_prefix ++ hex_encode (sum256 public_key)

  unfoldable pub is_invalid_key : TrustedKey → Bool
  is_invalid_key key =
      not (text_eq key.algorithm manifest_signature_version)
      || not (is_sha256_digest key.key_id)
      || not (length key.public_key == public_key_size)
      || not (text_eq key.key_id (expected_key_id key.public_key))
      || is_bad_key_interval key.activation key.not_after

  -- The loop over the trusted keys; the map is the list of the keys put into it.
  unfoldable pub index_keys :
      List TrustedKey → List TrustedKey → Result ManifestError (List TrustedKey)
  index_keys trusted [] = ok trusted
  index_keys trusted (key ∷ keys) = do
    reject_if (is_invalid_key key) trusted_key_invalid
    reject_if (is_known (find_key trusted key.key_id)) trusted_key_duplicate
    index_keys (key ∷ trusted) keys

  -- The body of `if known`; `true` where the signature counts.
  unfoldable pub check_known :
      ArtifactClaims → ArtifactSignature → Bytes → Option TrustedKey → Result ManifestError Bool
  check_known claims signature decoded none = ok false
  check_known claims signature decoded (some key) = do
    reject_if (not (text_eq key.algorithm signature.algorithm)) signature_algorithm_mismatch
    reject_if (ltb claims.issued_at key.activation || ltb key.not_after claims.valid_until)
        key_interval_exceeded
    payload ← canonical_payload claims signature.algorithm signature.key_id
    reject_if (not (ed25519_verify key.public_key payload decoded)) signature_invalid
    ok true

  -- The loop over the signatures: `seen`, `trustedValid` and `previousKeyID` are its state.
  unfoldable pub verify_signatures :
      ArtifactClaims
      → List TrustedKey
      → List Bytes
      → ℕ
      → Bytes
      → List ArtifactSignature
      → Result ManifestError ℕ
  verify_signatures claims trusted seen trusted_valid previous [] = ok trusted_valid
  verify_signatures claims trusted seen trusted_valid previous (signature ∷ signatures) = do
    reject_if
        (not (text_eq signature.algorithm manifest_signature_version)
          || not (is_sha256_digest signature.key_id))
        signature_bad_identity
    reject_if (is_seen seen signature.key_id) signature_duplicate
    reject_if (not (text_eq previous []) && not (text_lt previous signature.key_id))
        signature_unordered
    decoded ← decode_canonical_base64 signature.signature signature_size
    counts ← check_known claims signature decoded (find_key trusted signature.key_id)
    verify_signatures claims trusted (signature.key_id ∷ seen)
        (if counts then trusted_valid + 1 else trusted_valid) signature.key_id signatures

  -- What follows the parser.
  unfoldable pub verify_parsed :
      ArtifactManifest
      → ResolverConfig
      → List TrustedKey
      → ℤ
      → Result ManifestError ArtifactManifest
  verify_parsed manifest config trusted_keys now = do
    validate_claims manifest.claims config now
    trusted ← index_keys [] trusted_keys
    trusted_valid ← verify_signatures manifest.claims trusted [] 0 [] manifest.signatures
    reject_if (trusted_valid == 0) no_trusted_signature
    ok manifest

  unfoldable pub verify_manifest :
      (Bytes → Result ManifestError ArtifactManifest)
      → Bytes
      → ResolverConfig
      → List TrustedKey
      → ℤ
      → Result ManifestError ArtifactManifest
  verify_manifest parse raw config trusted_keys now = do
    reject_if (ltb (length trusted_keys) 1 || ltb max_publisher_trusted_keys (length trusted_keys))
        keyring_not_provisioned
    manifest ← parse raw
    verify_parsed manifest config trusted_keys now
