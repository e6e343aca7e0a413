-- ===== src/Manifest/Keyring/Sound.antt =====
-- The keys of a keyring that was accepted are the keys that the verification of descriptors accepts.
use loadstrike_go.Prelude.{
  ℕ, ◌+◌, ◌*◌, ◌/◌, ◌%◌, ◌<◌, ◌≤◌, ◌≡◌, inl, inr, refl, Bool, true, false, List, [], ◌∷◌, Bytes,
  is_blank, codes, text_eq, text_eq-eq, length, ok, Result-cases, Bool-cases, arith, if◌then◌else◌,
  ltb,
}
use loadstrike_go.StrictJson.{Json, decode_strict_array}
use loadstrike_go.Base64.RoundTrip.{IsBytes}
use loadstrike_go.Manifest.Claims.{
  TrustedKey, keyring_bad_json, key_bad_fields, max_publisher_keyring_bytes,
  max_publisher_trusted_keys, manifest_signature_version,
}
use loadstrike_go.Manifest.Patterns.{
  is_lower_hex, all_lower_hex, is_lower_hex64, strip_prefix, or_false, is_sha256_digest,
}
use loadstrike_go.Manifest.Checksums.{decode_canonical_base64, decode_canonical_base64_sound}
use loadstrike_go.Manifest.Verify.{
  public_key_size, hex_encode, expected_key_id, is_seen, is_known, find_key, is_invalid_key,
  index_keys,
}
use loadstrike_go.Manifest.Encoding.{is_strict_ascii}
use loadstrike_go.Manifest.Parse.{KeyEntry, Values, key_fields, or_fail, or_json, decode_exact}
use loadstrike_go.Manifest.Keyring.{check_key, parse_key, parse_keys, parse_keyring}

length-hex_encode : (bytes : Bytes) → length (hex_encode bytes) ≡ 2 * length bytes
unfolding hex_encode
length-hex_encode [] = refl
length-hex_encode (b ∷ rest) = omega (arith, length-hex_encode rest)

is_lower_hex-digit : (n : ℕ) → n < 16 → is_lower_hex (if ltb n 10 then n + 48 else n + 87) ≡ true
unfolding is_lower_hex
is_lower_hex-digit n h = ground (arith, Bool-cases (ltb n 10))

all_lower_hex-hex_encode : (bytes : Bytes) → IsBytes bytes → all_lower_hex (hex_encode bytes) ≡ true
unfolding hex_encode all_lower_hex
all_lower_hex-hex_encode [] h = refl
all_lower_hex-hex_encode (b ∷ rest) (h, hs) =
    rw (is_lower_hex-digit (b / 16) (omega (arith, h)), is_lower_hex-digit (b % 16) (omega arith))
      (all_lower_hex-hex_encode rest hs)

-- What the documentation says of SHA-256: 32 bytes.
abbrev pub IsDigest : (Bytes → Bytes) → Type 0
IsDigest sum256 = (bytes : Bytes) → (length (sum256 bytes) ≡ 32) × IsBytes (sum256 bytes)

module _ (sum256 : Bytes → Bytes) (ed25519_verify : Bytes → Bytes → Bytes → Bool)
    (D : IsDigest sum256) where
  expected_key_id-digest :
      (public_key : Bytes)
      → is_sha256_digest (expected_key_id sum256 ed25519_verify public_key) ≡ true
  unfolding expected_key_id is_sha256_digest is_lower_hex64 strip_prefix or_false codes
  expected_key_id-digest public_key =
      let (n, b) = D public_key in
      ground (
        arith,
        length-hex_encode (sum256 public_key),
        all_lower_hex-hex_encode (sum256 public_key) b,
        n,
      )

  module _ (J : Json) (V : Values J) where
    check_key-valid :
        (seen : List Bytes) (value : KeyEntry) (key : TrustedKey)
        → check_key J V sum256 ed25519_verify seen value ≡ ok key
        → (is_invalid_key sum256 ed25519_verify key ≡ false) × (is_seen seen key.key_id ≡ false)
    unfolding check_key is_invalid_key
    check_key-valid seen value key h =
        elim (Result-cases (decode_canonical_base64 value.public_key_raw_base64 public_key_size)) [
          | inr (e, p) ↦ absurd (
              ground (arith, h, p, Bool-cases (text_eq value.algorithm manifest_signature_version)))
          | inl (bytes, p) ↦
              let (_, n, _) =
                decode_canonical_base64_sound value.public_key_raw_base64 public_key_size bytes p in
              let name = text_eq-eq value.key_id (expected_key_id sum256 ed25519_verify bytes) in
              ground (arith, h, p, n, name, expected_key_id-digest bytes)
        ]

    parse_key-valid :
        (seen : List Bytes) (entry : Bytes) (key : TrustedKey)
        → parse_key J V sum256 ed25519_verify seen entry ≡ ok key
        → (is_invalid_key sum256 ed25519_verify key ≡ false) × (is_seen seen key.key_id ≡ false)
    unfolding parse_key
    parse_key-valid seen entry key h =
        elim (Result-cases
          (decode_exact J V entry (length entry) key_fields keyring_bad_json key_bad_fields)) [
            | inr (e, p) ↦ absurd (ground (arith, h, p))
            | inl (fields, p) ↦ elim (Result-cases (or_fail (V.key_entry entry) keyring_bad_json)) [
              | inr (e, q) ↦ absurd (ground (arith, h, p, q))
              | inl (value, q) ↦ check_key-valid seen value key (ground (arith, h, p, q))
            ]
          ]

    -- The identifiers seen so far are those of the keys put into the map so far.
    Agrees : List Bytes → List TrustedKey → Type 0
    Agrees seen trusted =
        (key_id : Bytes) → is_known (find_key trusted key_id) ≡ is_seen seen key_id

    Agrees-add :
        (seen : List Bytes) (trusted : List TrustedKey) (key : TrustedKey)
        → Agrees seen trusted
        → Agrees (key.key_id ∷ seen) (key ∷ trusted)
    unfolding Agrees is_known find_key is_seen
    Agrees-add seen trusted key h key_id =
        ground (arith, h key_id, Bool-cases (text_eq key.key_id key_id))

    parse_keys-indexed :
        (entries : List Bytes) (seen : List Bytes) (trusted keys : List TrustedKey)
        → Agrees seen trusted
        → parse_keys J V sum256 ed25519_verify seen entries ≡ ok keys
        → (length keys ≡ length entries)
          × ((indexed : List TrustedKey) × (index_keys sum256 ed25519_verify trusted keys
                ≡ ok indexed))
    unfolding parse_keys index_keys Agrees
    parse_keys-indexed [] seen trusted keys a h =
        let e : keys ≡ [] = ground (arith, h) in (ground (arith, e), (trusted, ground (arith, e)))
    parse_keys-indexed (entry ∷ entries) seen trusted keys a h =
        elim (Result-cases (parse_key J V sum256 ed25519_verify seen entry)) [
          | inr (e, p) ↦ absurd (ground (arith, h, p))
          | inl (key, p) ↦
              elim (Result-cases
                (parse_keys J V sum256 ed25519_verify (key.key_id ∷ seen) entries)) [
                  | inr (e, q) ↦ absurd (ground (arith, h, p, q))
                  | inl (rest, q) ↦
                      let (valid, new) = parse_key-valid seen entry key p in
                      let (n, (indexed, i)) =
                        parse_keys-indexed entries (key.key_id ∷ seen) (key ∷ trusted) rest
                          (Agrees-add seen trusted key a) q in
                      let known = a key.key_id in
                      let e : keys ≡ key ∷ rest = ground (arith, h, p, q) in
                      (ground (arith, e, n), (indexed, ground (arith, e, i, valid, known, new)))
                ]
        ]

    -- Where SHA-256 gives 32 bytes: a keyring that is accepted has between one and eight keys, and the
    -- verification of a descriptor accepts each of them and finds no two of one identifier.
    pub parse_keyring-IsTrusted :
        (raw : Bytes) (keys : List TrustedKey)
        → parse_keyring J V sum256 ed25519_verify raw ≡ ok keys
        → (1 ≤ length keys)
          × (length keys ≤ max_publisher_trusted_keys)
          × ((indexed : List TrustedKey) × (index_keys sum256 ed25519_verify [] keys ≡ ok indexed))
    unfolding parse_keyring is_known find_key is_seen Agrees
    parse_keyring-IsTrusted raw keys h =
        let size = Bool-cases (ltb max_publisher_keyring_bytes (length raw)) in
        let blank = Bool-cases (is_blank raw) in
        let ascii = Bool-cases (is_strict_ascii raw) in
        elim (Result-cases
          (or_json (decode_strict_array J raw max_publisher_keyring_bytes) keyring_bad_json)) [
            | inr (e, p) ↦ absurd (ground (arith, h, p, size, blank, ascii))
            | inl (entries, p) ↦
                let few = Bool-cases (ltb (length entries) 1) in
                let many = Bool-cases (ltb max_publisher_trusted_keys (length entries)) in
                let parsed : parse_keys J V sum256 ed25519_verify [] entries ≡ ok keys =
                  ground (arith, h, p, size, blank, ascii, few, many) in
                let (n, (indexed, i)) =
                  parse_keys-indexed entries [] [] keys (λ key_id. refl) parsed in
                (
                  ground (arith, n, h, p, size, blank, ascii, few, many),
                  ground (arith, n, h, p, size, blank, ascii, few, many),
                  (indexed, i),
                )
          ]
