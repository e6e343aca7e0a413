-- ===== src/Manifest/Checksums.antt =====
-- `decodeCanonicalPaddedBase64` and `validateCanonicalGoH1` (runtime_manifest_v2.go).
use loadstrike_go.Prelude.{
  ℕ, ◌≤◌, ◌≡◌, ◌≢◌, ◌↔◌, ◌∙◌, ◌∷◌, false, not, ◌||◌, [], Bytes, codes, Option, none, some, Result,
  ok, err, text_eq, text_eq-eq, text_eq_refl, length, ltb, ◌==◌, if◌then◌else◌, arith,
}
use loadstrike_go.Base64.{encode_std, decode_std}
use loadstrike_go.Base64.RoundTrip.{IsBytes, decode-encode_std}
use loadstrike_go.Manifest.Claims.{ManifestError, bad_base64, bad_go_h1}
use loadstrike_go.Manifest.Patterns.{strip_prefix}

checked_length : Bytes → ℕ → Option Bytes → Result ManifestError Bytes
checked_length value expected_length none = err bad_base64
checked_length value expected_length (some decoded) =
    if not (length decoded == expected_length) || not (text_eq (encode_std decoded) value)
    then err bad_base64
    else ok decoded

unfoldable pub decode_canonical_base64 : Bytes → ℕ → Result ManifestError Bytes
unfolding checked_length
decode_canonical_base64 value expected_length =
    if text_eq value [] || ltb 512 (length value)
    then err bad_base64
    else checked_length value expected_length (decode_std value)

h1_body : Option Bytes → Result ManifestError (Unit {0})
h1_body none = err bad_go_h1
h1_body (some body) = elim (decode_canonical_base64 body 32) [
  | ok _ ↦ ok tt
  | err _ ↦ err bad_go_h1
]

unfoldable pub validate_go_h1 : Bytes → Result ManifestError (Unit {0})
unfolding h1_body
validate_go_h1 value = h1_body (strip_prefix (codes "h1:") value)

-- A text that is accepted is the encoding of the bytes that are returned, which are of the expected
-- length: no other spelling of those bytes is accepted.
pub decode_canonical_base64_sound :
    (value : Bytes) (n : ℕ) (decoded : Bytes)
    → decode_canonical_base64 value n ≡ ok decoded
    → (value ≡ encode_std decoded) × (length decoded ≡ n) × (length value ≤ 512)
unfolding decode_canonical_base64
decode_canonical_base64_sound value n decoded h =
    ground (arith, text_eq-eq (encode_std decoded) value)

text_eq_ne : (s t : Bytes) → s ≢ t → text_eq s t ≡ false
text_eq_ne s t h = ground (arith, text_eq-eq s t)

-- The encoding of any bytes is accepted at their length, as long as it is not empty and fits 512
-- characters, and gives those bytes.
pub decode_canonical_base64_complete :
    (bytes : Bytes)
    → IsBytes bytes
    → encode_std bytes ≢ []
    → length (encode_std bytes) ≤ 512
    → decode_canonical_base64 (encode_std bytes) (length bytes) ≡ ok bytes
unfolding decode_canonical_base64
decode_canonical_base64_complete bytes h nonempty short = ground (
  arith,
  decode-encode_std bytes h,
  text_eq_refl (encode_std bytes),
  text_eq_ne (encode_std bytes) [],
)

decode_canonical_base64-nonempty :
    (value : Bytes) (n : ℕ) (decoded : Bytes)
    → decode_canonical_base64 value n ≡ ok decoded
    → value ≢ []
unfolding decode_canonical_base64 text_eq
decode_canonical_base64-nonempty [] n decoded h e = absurd (ground (arith, h))
decode_canonical_base64-nonempty (c ∷ value) n decoded h e = cc

-- A text decodes to given bytes at an expected length exactly where it is not empty, has at most 512
-- characters, and is the padded standard encoding of those bytes, which are as many as expected: bytes
-- have one spelling only.
pub decode_canonical_base64_iff :
    (value : Bytes) (n : ℕ) (decoded : Bytes)
    → IsBytes decoded
    → (decode_canonical_base64 value n ≡ ok decoded)
      ↔ ((value ≢ []) × (length value ≤ 512) × (value ≡ encode_std decoded) × (length decoded ≡ n))
decode_canonical_base64_iff value n decoded b = (
  λ h.
      let (encoded, expected, short) = decode_canonical_base64_sound value n decoded h in
      (decode_canonical_base64-nonempty value n decoded h, short, encoded, expected),
  λ (nonempty, short, encoded, expected).
      rw (encoded, ← expected)
        (decode_canonical_base64_complete decoded b (λ e. nonempty (encoded ∙ e))
          (rw (← encoded) short)),
)
