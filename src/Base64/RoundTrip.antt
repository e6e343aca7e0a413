-- ===== src/Base64/RoundTrip.antt =====
-- Decoding what was encoded gives the bytes back, and the URL encoding is injective.
use loadstrike_go.Prelude.{
  ℕ, ◌+◌, ◌*◌, ◌/◌, ◌%◌, ◌<◌, ◌≡◌, ◌≢◌, refl, [], ◌∷◌, Bytes, some, All, length, arith,
}
use loadstrike_go.Base64.{
  encode_char, decode_char, encode_std, encode_raw_url, strip_breaks, decode_groups, decode_std,
}

abbrev pub IsBytes : Bytes → Type 0
IsBytes = All (λ b. b < 256)

abbrev std : ℕ → ℕ
std = encode_char b'+' b'/'

decode-encode_char : (v : ℕ) → v < 64 → decode_char (std v) ≡ some v
unfolding decode_char encode_char
decode-encode_char v h = ground arith

encode_char_plain : (v : ℕ) → v < 64 → (std v ≢ b'=') × (std v ≢ 10) × (std v ≢ 13)
unfolding encode_char
encode_char_plain v h = ground arith

strip_breaks-cons :
    (c : ℕ) (s : Bytes) → c ≢ 10 → c ≢ 13 → strip_breaks (c ∷ s) ≡ c ∷ strip_breaks s
unfolding strip_breaks
strip_breaks-cons c s h k = ground arith

strip_breaks-std : (v : ℕ) (s : Bytes) → v < 64 → strip_breaks (std v ∷ s) ≡ std v ∷ strip_breaks s
strip_breaks-std v s h = let (_, p, q) = encode_char_plain v h in strip_breaks-cons (std v) s p q

strip_breaks-padding : (s : Bytes) → strip_breaks (b'=' ∷ s) ≡ b'=' ∷ strip_breaks s
strip_breaks-padding s = strip_breaks-cons b'=' s (omega arith) (omega arith)

strip_breaks-nil : strip_breaks [] ≡ []
unfolding strip_breaks
strip_breaks-nil = refl

strip_breaks-encode_std : (bs : Bytes) → IsBytes bs → strip_breaks (encode_std bs) ≡ encode_std bs
unfolding encode_std
strip_breaks-encode_std [] h = strip_breaks-nil
strip_breaks-encode_std (a ∷ []) h = ground (
  arith,
  strip_breaks-std (a / 4) (std (a % 4 * 16) ∷ b'=' ∷ b'=' ∷ []),
  strip_breaks-std (a % 4 * 16) (b'=' ∷ b'=' ∷ []),
  strip_breaks-padding (b'=' ∷ []),
  strip_breaks-padding [],
  strip_breaks-nil,
)
strip_breaks-encode_std (a ∷ b ∷ []) h = ground (
  arith,
  strip_breaks-std (a / 4) (std (a % 4 * 16 + b / 16) ∷ std (b % 16 * 4) ∷ b'=' ∷ []),
  strip_breaks-std (a % 4 * 16 + b / 16) (std (b % 16 * 4) ∷ b'=' ∷ []),
  strip_breaks-std (b % 16 * 4) (b'=' ∷ []),
  strip_breaks-padding [],
  strip_breaks-nil,
)
strip_breaks-encode_std (a ∷ b ∷ c ∷ rest) h =
    let z = std (c % 64) ∷ encode_std rest in
    let y = std (b % 16 * 4 + c / 64) ∷ z in
    let x = std (a % 4 * 16 + b / 16) ∷ y in
    ground (
      arith,
      strip_breaks-std (a / 4) x,
      strip_breaks-std (a % 4 * 16 + b / 16) y,
      strip_breaks-std (b % 16 * 4 + c / 64) z,
      strip_breaks-std (c % 64) (encode_std rest),
      strip_breaks-encode_std rest,
    )

decode_groups-encode_std : (bs : Bytes) → IsBytes bs → decode_groups (encode_std bs) ≡ some bs
unfolding decode_groups encode_std
decode_groups-encode_std [] h = refl
decode_groups-encode_std (a ∷ []) h =
    ground (arith, decode-encode_char (a / 4), decode-encode_char (a % 4 * 16))
decode_groups-encode_std (a ∷ b ∷ []) h = ground (
  arith,
  decode-encode_char (a / 4),
  decode-encode_char (a % 4 * 16 + b / 16),
  decode-encode_char (b % 16 * 4),
  encode_char_plain (b % 16 * 4),
)
decode_groups-encode_std (a ∷ b ∷ c ∷ rest) h = ground (
  arith,
  decode-encode_char (a / 4),
  decode-encode_char (a % 4 * 16 + b / 16),
  decode-encode_char (b % 16 * 4 + c / 64),
  decode-encode_char (c % 64),
  encode_char_plain (c % 64),
  decode_groups-encode_std rest,
)

-- Decoding an encoding gives its bytes.
pub decode-encode_std : (bs : Bytes) → IsBytes bs → decode_std (encode_std bs) ≡ some bs
unfolding decode_std
decode-encode_std bs h = rw (strip_breaks-encode_std bs h) (decode_groups-encode_std bs h)

abbrev url : ℕ → ℕ
url = encode_char b'-' b'_'

url-inj : (u v : ℕ) → u < 64 → v < 64 → url u ≡ url v → u ≡ v
unfolding encode_char
url-inj u v hu hv e = ground arith

-- Byte strings of one length with one identifier text are equal.
pub encode_raw_url-inj :
    (us bs : Bytes)
    → IsBytes us
    → IsBytes bs
    → length us ≡ length bs
    → encode_raw_url us ≡ encode_raw_url bs
    → us ≡ bs
unfolding encode_raw_url
encode_raw_url-inj [] [] h k n e = refl
encode_raw_url-inj (a ∷ []) (x ∷ []) h k n e =
    ground (arith, url-inj (a / 4) (x / 4), url-inj (a % 4 * 16) (x % 4 * 16))
encode_raw_url-inj (a ∷ b ∷ []) (x ∷ y ∷ []) h k n e = ground (
  arith,
  url-inj (a / 4) (x / 4),
  url-inj (a % 4 * 16 + b / 16) (x % 4 * 16 + y / 16),
  url-inj (b % 16 * 4) (y % 16 * 4),
)
encode_raw_url-inj (a ∷ b ∷ c ∷ us) (x ∷ y ∷ z ∷ bs) h k n e = ground (
  arith,
  url-inj (a / 4) (x / 4),
  url-inj (a % 4 * 16 + b / 16) (x % 4 * 16 + y / 16),
  url-inj (b % 16 * 4 + c / 64) (y % 16 * 4 + z / 64),
  url-inj (c % 64) (z % 64),
  encode_raw_url-inj us bs,
)
encode_raw_url-inj _ _ h k n e = absurd (omega arith)
