-- ===== src/Base64.antt =====
-- encoding/base64 as the program uses it: `StdEncoding`, padded, both ways, and `RawURLEncoding`,
-- without padding, for opaque identifiers.
pub mod RoundTrip
use loadstrike_go.Prelude.{
  ℕ, ◌+◌, ◌-◌, ◌*◌, ◌/◌, ◌%◌, Bool, not, ◌&&◌, ◌||◌, List, [], ◌∷◌, Bytes, Option, none, some, ltb,
  leb, ◌==◌, if◌then◌else◌,
}

-- The 64 characters: letters, digits, and two that differ between the alphabets.
unfoldable pub encode_char : ℕ → ℕ → ℕ → ℕ
encode_char c62 c63 v =
    if ltb v 26
    then v + 65
    else if ltb v 52
    then v + 71
    else if ltb v 62
    then v - 4
    else if v == 62
    then c62
    else c63

-- The value of a character of the standard alphabet.
unfoldable pub decode_char : ℕ → Option ℕ
decode_char c =
    if leb 65 c && leb c 90
    then some (c - 65)
    else if leb 97 c && leb c 122
    then some (c - 71)
    else if leb 48 c && leb c 57
    then some (c + 4)
    else if c == b'+'
    then some 62
    else if c == b'/'
    then some 63
    else none

abbrev pub padding : ℕ
padding = b'='

abbrev std_char : ℕ → ℕ
std_char = encode_char b'+' b'/'

abbrev url_char : ℕ → ℕ
url_char = encode_char b'-' b'_'

-- `base64.StdEncoding.EncodeToString`
unfoldable pub encode_std : Bytes → Bytes
encode_std [] = []
encode_std (a ∷ []) = std_char (a / 4) ∷ std_char (a % 4 * 16) ∷ padding ∷ padding ∷ []
encode_std (a ∷ b ∷ []) =
    std_char (a / 4) ∷ std_char (a % 4 * 16 + b / 16) ∷ std_char (b % 16 * 4) ∷ padding ∷ []
encode_std (a ∷ b ∷ c ∷ rest) =
    std_char (a / 4)
    ∷ std_char (a % 4 * 16 + b / 16)
    ∷ std_char (b % 16 * 4 + c / 64)
    ∷ std_char (c % 64)
    ∷ encode_std rest

-- `base64.RawURLEncoding.EncodeToString`
unfoldable pub encode_raw_url : Bytes → Bytes
encode_raw_url [] = []
encode_raw_url (a ∷ []) = url_char (a / 4) ∷ url_char (a % 4 * 16) ∷ []
encode_raw_url (a ∷ b ∷ []) =
    url_char (a / 4) ∷ url_char (a % 4 * 16 + b / 16) ∷ url_char (b % 16 * 4) ∷ []
encode_raw_url (a ∷ b ∷ c ∷ rest) =
    url_char (a / 4)
    ∷ url_char (a % 4 * 16 + b / 16)
    ∷ url_char (b % 16 * 4 + c / 64)
    ∷ url_char (c % 64)
    ∷ encode_raw_url rest

-- The decoder skips line breaks.
unfoldable pub strip_breaks : Bytes → Bytes
strip_breaks [] = []
strip_breaks (c ∷ s) = let rest = strip_breaks s in if c == 10 || c == 13 then rest else c ∷ rest

abbrev bind : Option ℕ → (ℕ → Option Bytes) → Option Bytes
bind none f = none
bind (some v) f = f v

abbrev prepend : ℕ → ℕ → ℕ → Option Bytes → Option Bytes
prepend x y z none = none
prepend x y z (some s) = some (x ∷ y ∷ z ∷ s)

-- A last group: two or three characters and their padding. Bits left over are ignored.
unfoldable pub decode_last : ℕ → ℕ → ℕ → Bytes → Option Bytes
decode_last a b c [] = bind (decode_char a) λ x. bind (decode_char b) λ y.
    if c == padding
    then some ((x * 4 + y / 16) ∷ [])
    else bind (decode_char c) λ z. some ((x * 4 + y / 16) ∷ (y % 16 * 16 + z / 4) ∷ [])
decode_last a b c (e ∷ rest) = none

unfoldable pub decode_groups : Bytes → Option Bytes
unfolding decode_last
decode_groups (a ∷ b ∷ c ∷ d ∷ rest) =
    let onward = decode_groups rest in
    if d == padding
    then decode_last a b c rest
    else bind (decode_char a) λ x. bind (decode_char b) λ y. bind (decode_char c) λ z.
      bind (decode_char d)
        λ w. prepend (x * 4 + y / 16) (y % 16 * 16 + z / 4) (z % 4 * 64 + w) onward
decode_groups [] = some []
decode_groups _ = none

-- `base64.StdEncoding.DecodeString`; `none` is its error
unfoldable pub decode_std : Bytes → Option Bytes
unfolding decode_groups strip_breaks
decode_std s = decode_groups (strip_breaks s)
