-- ===== src/Manifest/Patterns.antt =====
-- The regular expressions of runtime_manifest_v2.go, and `isLowerHex64` of runtime_download.go, as
-- matchers on bytes.
use loadstrike_go.Prelude.{
  ℕ, ◌≡◌, ◌≢◌, refl, arith, Bool, true, false, ◌&&◌, ◌||◌, [], ◌∷◌, Bytes, codes, Option, none,
  some, length, leb, ◌==◌, if◌then◌else◌,
}

-- `[0-9a-f]`
unfoldable pub is_lower_hex : ℕ → Bool
is_lower_hex c = (leb b'0' c && leb c b'9') || (leb b'a' c && leb c b'f')

unfoldable pub all_lower_hex : Bytes → Bool
all_lower_hex [] = true
all_lower_hex (c ∷ s) = is_lower_hex c && all_lower_hex s

-- `isLowerHex64`
unfoldable pub is_lower_hex64 : Bytes → Bool
is_lower_hex64 value = (length value == 64) && all_lower_hex value

-- `^[0-9a-f]{40}$`
unfoldable pub is_git_object : Bytes → Bool
is_git_object value = (length value == 40) && all_lower_hex value

-- What is left behind a prefix that is there.
unfoldable pub strip_prefix : Bytes → Bytes → Option Bytes
strip_prefix [] s = some s
strip_prefix (p ∷ ps) [] = none
strip_prefix (p ∷ ps) (c ∷ s) = if c == p then strip_prefix ps s else none

unfoldable pub or_false : (Bytes → Bool) → Option Bytes → Bool
or_false f none = false
or_false f (some s) = f s

-- `^sha256:[0-9a-f]{64}$`, the pattern of key fingerprints and of attestation digests
unfoldable pub is_sha256_digest : Bytes → Bool
unfolding or_false is_lower_hex64
is_sha256_digest value = or_false is_lower_hex64 (strip_prefix (codes "sha256:") value)

pub is_sha256_digest-nonempty : (id : Bytes) → is_sha256_digest id ≡ true → id ≢ []
unfolding is_sha256_digest strip_prefix codes
is_sha256_digest-nonempty [] h = ground arith
is_sha256_digest-nonempty (c ∷ id) h = λ e. ground arith

unfoldable pub is_digit : ℕ → Bool
is_digit c = leb b'0' c && leb c b'9'

-- `[0-9]*`, as far as it goes
unfoldable pub skip_digits : Bytes → Bytes
skip_digits [] = []
skip_digits (c ∷ s) = if is_digit c then skip_digits s else c ∷ s

-- `0|[1-9][0-9]*`, as far as it goes; `none` where it does not match
unfoldable pub skip_number : Bytes → Option Bytes
unfolding is_digit skip_digits
skip_number [] = none
skip_number (c ∷ s) =
    if c == b'0' then some s else if is_digit c then some (skip_digits s) else none

abbrev and_then : Option Bytes → (Bytes → Option Bytes) → Option Bytes
and_then none f = none
and_then (some s) f = f s

abbrev is_end : Bytes → Bool
is_end [] = true
is_end (c ∷ s) = false

-- `(?:0|[1-9][0-9]*)\.(?:0|[1-9][0-9]*)\.(?:0|[1-9][0-9]*)$`: a number is followed by a dot or by
-- the end, so the longest match of each number is the only one that can succeed.
unfoldable pub is_three_numbers : Bytes → Bool
unfolding skip_number strip_prefix or_false
is_three_numbers s = or_false is_end (
    and_then (skip_number s) λ s₁.
      and_then (strip_prefix (codes ".") s₁)
        λ s₂. and_then (skip_number s₂) λ s₃. and_then (strip_prefix (codes ".") s₃) skip_number)

-- `runtimeCanonicalVersionPattern`
unfoldable pub is_canonical_version : Bytes → Bool
unfolding is_three_numbers strip_prefix or_false
is_canonical_version value = or_false is_three_numbers (strip_prefix (codes "v") value)

-- `runtimeCanonicalToolchainPattern`
unfoldable pub is_canonical_toolchain : Bytes → Bool
unfolding is_three_numbers strip_prefix or_false
is_canonical_toolchain value = or_false is_three_numbers (strip_prefix (codes "go") value)

version_test : is_canonical_version (codes "v0.2.13") ≡ true
unfolding is_canonical_version codes
version_test = refl

version_leading_zero : is_canonical_version (codes "v0.02.3") ≡ false
unfolding is_canonical_version codes
version_leading_zero = refl

toolchain_test : is_canonical_toolchain (codes "go1.26.8") ≡ true
unfolding is_canonical_toolchain codes
toolchain_test = refl

toolchain_short : is_canonical_toolchain (codes "go1.26") ≡ false
unfolding is_canonical_toolchain codes
toolchain_short = refl
