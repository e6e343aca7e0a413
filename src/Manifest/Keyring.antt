-- ===== src/Manifest/Keyring.antt =====
-- `parseRuntimePublisherKeyring` (runtime_manifest_v2.go), and `verifyRuntimeManifest`
-- (runtime_download.go) on the keyring that it gives.
pub mod Sound
use loadstrike_go.Prelude.{
  ℕ, Bool, true, false, not, ◌||◌, List, [], ◌∷◌, Bytes, text_eq, length, is_blank, ltb, Result, ok,
  err, ◌>>=◌, ◌>>◌, reject_if, ℤ, ◌==◌,
}
use loadstrike_go.StrictJson.{Json, decode_strict_array}
use loadstrike_go.Manifest.Claims.{
  ArtifactManifest, ResolverConfig, TrustedKey, ManifestError, keyring_not_provisioned,
  keyring_too_large, keyring_not_ascii, keyring_bad_count, keyring_bad_json, key_bad_fields,
  key_bad_algorithm, key_bad_fingerprint, key_duplicate, key_bad_interval, descriptor_bad_size,
  max_publisher_keyring_bytes, max_publisher_trusted_keys, manifest_signature_version,
}
use loadstrike_go.Manifest.Encoding.{is_strict_ascii}
use loadstrike_go.Manifest.Checksums.{decode_canonical_base64}
use loadstrike_go.Manifest.Verify.{
  public_key_size, expected_key_id, is_seen, is_bad_key_interval, verify_manifest,
}
use loadstrike_go.Manifest.Parse.{
  KeyEntry, Values, key_fields, or_fail, or_json, decode_exact, parse_manifest,
}

module _ (J : Json) (V : Values J) (sum256 : Bytes → Bytes)
    (ed25519_verify : Bytes → Bytes → Bytes → Bool) where
  -- The checks of one entry that was decoded, after the fingerprints seen before it.
  unfoldable pub check_key : List Bytes → KeyEntry → Result ManifestError TrustedKey
  check_key seen value = do
    reject_if (not (text_eq value.algorithm manifest_signature_version)) key_bad_algorithm
    public_key ← decode_canonical_base64 value.public_key_raw_base64 public_key_size
    reject_if (not (text_eq value.key_id (expected_key_id sum256 ed25519_verify public_key)))
        key_bad_fingerprint
    reject_if (is_seen seen value.key_id) key_duplicate
    reject_if (is_bad_key_interval value.activation value.not_after) key_bad_interval
    ok (record {
      algorithm = value.algorithm;
      key_id = value.key_id;
      public_key = public_key;
      activation = value.activation;
      not_after = value.not_after;
    })

  -- The body of the loop.
  unfoldable pub parse_key : List Bytes → Bytes → Result ManifestError TrustedKey
  unfolding check_key
  parse_key seen entry = do
    fields ← decode_exact J V entry (length entry) key_fields keyring_bad_json key_bad_fields
    value ← or_fail (V.key_entry entry) keyring_bad_json
    check_key seen value

  unfoldable pub parse_keys : List Bytes → List Bytes → Result ManifestError (List TrustedKey)
  unfolding parse_key
  parse_keys seen [] = ok []
  parse_keys seen (entry ∷ entries) = do
    key ← parse_key seen entry
    keys ← parse_keys (key.key_id ∷ seen) entries
    ok (key ∷ keys)

  unfoldable pub parse_keyring : Bytes → Result ManifestError (List TrustedKey)
  unfolding parse_keys is_blank
  parse_keyring raw = do
    reject_if (is_blank raw) keyring_not_provisioned
    reject_if (ltb max_publisher_keyring_bytes (length raw)) keyring_too_large
    reject_if (not (is_strict_ascii raw)) keyring_not_ascii
    entries ← or_json (decode_strict_array J raw max_publisher_keyring_bytes) keyring_bad_json
    reject_if (ltb (length entries) 1 || ltb max_publisher_trusted_keys (length entries))
        keyring_bad_count
    parse_keys [] entries

  -- `verifyRuntimeManifest`: a descriptor is checked again from its canonical bytes, with the keys
  -- of `runtimePublisherTrustedKeysJSON`.
  unfoldable pub verify_runtime_manifest :
      Bytes → ArtifactManifest → ResolverConfig → ℤ → Result ManifestError (Unit {0})
  unfolding parse_keyring verify_manifest parse_manifest
  verify_runtime_manifest keys_json manifest config now = do
    keys ← parse_keyring keys_json
    reject_if (length manifest.canonical_json == 0) descriptor_bad_size
    verified ←
        verify_manifest sum256 ed25519_verify (parse_manifest J V) manifest.canonical_json config
          keys now
    ok tt
