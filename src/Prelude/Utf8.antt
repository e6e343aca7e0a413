-- ===== src/Prelude/Utf8.antt =====
-- `utf8.ValidString`, and the code points of a valid text.
use Prim.Native.Nat.{ℕ, zero, suc, ◌+◌, ◌*◌, ◌-◌}
use mathlib.Core.Bool.{Bool, true, false, ◌&&◌}
use mathlib.Core.Option.{Option, none, some}
use mathlib.Core.List.{List, [], ◌∷◌}
use loadstrike_go.Prelude.Tests.{ltb, leb, if◌then◌else◌}
use loadstrike_go.Prelude.Text.{Bytes, is_blank}

-- What the first byte of a code point tells: how many bytes follow, the range of the next one, and the
-- bits of the code point that it carries.
pub record Lead : Type 0 where
  pub following : ℕ
  pub lowest : ℕ
  pub highest : ℕ
  pub bits : ℕ

abbrev lead : ℕ → ℕ → ℕ → ℕ → Option Lead
lead following lowest highest bits =
    some (record { following = following; lowest = lowest; highest = highest; bits = bits })

unfoldable pub read_lead : ℕ → Option Lead
read_lead b =
    if ltb b 128
    then lead 0 128 191 b
    else if ltb b 194
    then none
    else if ltb b 224
    then lead 1 128 191 (b - 192)
    else if ltb b 225
    then lead 2 160 191 (b - 224)
    else if ltb b 237
    then lead 2 128 191 (b - 224)
    else if ltb b 238
    then lead 2 128 159 (b - 224)
    else if ltb b 240
    then lead 2 128 191 (b - 224)
    else if ltb b 241
    then lead 3 144 191 (b - 240)
    else if ltb b 244
    then lead 3 128 191 (b - 240)
    else if ltb b 245
    then lead 3 128 143 (b - 240)
    else none

abbrev prepend : ℕ → Option (List ℕ) → Option (List ℕ)
prepend c none = none
prepend c (some rest) = some (c ∷ rest)

-- After some bytes of a code point: how many are missing, and what they may be.
unfoldable pub read_rest : ℕ → ℕ → ℕ → ℕ → Bytes → Option (List ℕ)
unfolding read_lead
read_rest zero lowest highest bits [] = some []
read_rest (suc missing) lowest highest bits [] = none
read_rest zero lowest highest bits (b ∷ bytes) = elim (read_lead b) [
  | none ↦ none
  | some l ↦ elim l.following [
    | zero ↦ prepend l.bits (read_rest 0 128 191 0 bytes)
    | suc n ↦ read_rest (suc n) l.lowest l.highest l.bits bytes
  ]
]
read_rest (suc missing) lowest highest bits (b ∷ bytes) = elim (leb lowest b && leb b highest) [
  | false ↦ none
  | true ↦ elim missing [
    | zero ↦ prepend (bits * 64 + (b - 128)) (read_rest 0 128 191 0 bytes)
    | suc n ↦ read_rest (suc n) 128 191 (bits * 64 + (b - 128)) bytes
  ]
]

-- `none` is a text that is not valid UTF-8.
unfoldable pub decode_utf8 : Bytes → Option (List ℕ)
unfolding read_rest
decode_utf8 bytes = read_rest 0 128 191 0 bytes

-- `utf8.ValidString`
unfoldable pub is_valid_utf8 : Bytes → Bool
unfolding decode_utf8
is_valid_utf8 bytes = elim (decode_utf8 bytes) [ none ↦ false | some points ↦ true ]

-- `strings.TrimSpace(s) == ""` of a text that is valid.
unfoldable pub is_blank_utf8 : Bytes → Bool
unfolding decode_utf8
is_blank_utf8 bytes = elim (decode_utf8 bytes) [ none ↦ false | some points ↦ is_blank points ]
