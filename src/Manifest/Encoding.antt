-- ===== src/Manifest/Encoding.antt =====
-- The byte encodings of runtime_manifest_v2.go: big-endian integers, and the frames of a field
-- identifier, a length and a value that the signed payload is made of.
use mathlib.Core.List.{append_assoc}
use loadstrike_go.Prelude.{
  ℕ, ◌/◌, ◌%◌, ◌<◌, ◌≡◌, refl, sym, ◌∙◌, Bool, true, false, List, [], ◌∷◌, ◌++◌, Bytes, All, length,
  append-inj, arith, ltb, if◌then◌else◌,
}
use loadstrike_go.Manifest.Claims.{u16_mod, u32_mod, u64_mod}

-- `binary.Write(&payload, binary.BigEndian, uint16(v))`
unfoldable pub encode_uint16 : ℕ → Bytes
encode_uint16 v = (v / 256 % 256) ∷ (v % 256) ∷ []

unfoldable pub encode_uint32 : ℕ → Bytes
encode_uint32 v = (v / 16777216 % 256) ∷ (v / 65536 % 256) ∷ (v / 256 % 256) ∷ (v % 256) ∷ []

unfoldable pub encode_uint64 : ℕ → Bytes
encode_uint64 v =
    (v / 72057594037927936 % 256)
    ∷ (v / 281474976710656 % 256)
    ∷ (v / 1099511627776 % 256)
    ∷ (v / 4294967296 % 256)
    ∷ (v / 16777216 % 256)
    ∷ (v / 65536 % 256)
    ∷ (v / 256 % 256)
    ∷ (v % 256)
    ∷ []

unfoldable pub is_strict_ascii : Bytes → Bool
is_strict_ascii [] = true
is_strict_ascii (character ∷ value) = if ltb 127 character then false else is_strict_ascii value

-- The struct `field` of the payload: an identifier and its value.
abbrev pub Field : Type 0
Field = ℕ × Bytes

-- What the payload's loop writes for one entry.
unfoldable pub frame : Field → Bytes
unfolding encode_uint16 encode_uint32
frame (id, value) = encode_uint16 id ++ (encode_uint32 (length value % u32_mod) ++ value)

unfoldable pub frames : List Field → Bytes
frames [] = []
frames (entry ∷ fields) = frame entry ++ frames fields

pub length-encode_uint16 : (v : ℕ) → length (encode_uint16 v) ≡ 2
unfolding encode_uint16
length-encode_uint16 v = refl

pub length-encode_uint32 : (v : ℕ) → length (encode_uint32 v) ≡ 4
unfolding encode_uint32
length-encode_uint32 v = refl

pub encode_uint16-inj :
    (a b : ℕ) → a < u16_mod → b < u16_mod → encode_uint16 a ≡ encode_uint16 b → a ≡ b
unfolding encode_uint16
encode_uint16-inj a b ha hb e =
    let high : a / 256 % 256 ≡ b / 256 % 256 = cc in let low : a % 256 ≡ b % 256 = cc in omega arith

pub encode_uint32-inj :
    (a b : ℕ) → a < u32_mod → b < u32_mod → encode_uint32 a ≡ encode_uint32 b → a ≡ b
unfolding encode_uint32
encode_uint32-inj a b ha hb e =
    let d₃ : a / 16777216 % 256 ≡ b / 16777216 % 256 = cc in
    let d₂ : a / 65536 % 256 ≡ b / 65536 % 256 = cc in
    let d₁ : a / 256 % 256 ≡ b / 256 % 256 = cc in let d₀ : a % 256 ≡ b % 256 = cc in omega arith

pub encode_uint64-inj :
    (a b : ℕ) → a < u64_mod → b < u64_mod → encode_uint64 a ≡ encode_uint64 b → a ≡ b
unfolding encode_uint64
encode_uint64-inj a b ha hb e =
    let d₇ : a / 72057594037927936 % 256 ≡ b / 72057594037927936 % 256 = cc in
    let d₆ : a / 281474976710656 % 256 ≡ b / 281474976710656 % 256 = cc in
    let d₅ : a / 1099511627776 % 256 ≡ b / 1099511627776 % 256 = cc in
    let d₄ : a / 4294967296 % 256 ≡ b / 4294967296 % 256 = cc in
    let d₃ : a / 16777216 % 256 ≡ b / 16777216 % 256 = cc in
    let d₂ : a / 65536 % 256 ≡ b / 65536 % 256 = cc in
    let d₁ : a / 256 % 256 ≡ b / 256 % 256 = cc in let d₀ : a % 256 ≡ b % 256 = cc in omega arith

-- The lengths and identifiers fit their 4 and 2 bytes.
abbrev pub IsFramed : Field → Type 0
IsFramed (id, value) = (id < u16_mod) × (length value < u32_mod)

-- A frame followed by more bytes, in the order in which they are written.
frame_then :
    (i : ℕ) (v us : Bytes)
    → frame (i, v) ++ us ≡ encode_uint16 i ++ (encode_uint32 (length v % u32_mod) ++ (v ++ us))
unfolding frame
frame_then i v us = simp append_assoc

-- A frame says where it ends: it and what follows it are read back from the bytes.
pub frame-inj :
    (f g : Field) (us vs : Bytes)
    → IsFramed f
    → IsFramed g
    → frame f ++ us ≡ frame g ++ vs
    → (f ≡ g) × (us ≡ vs)
frame-inj (i, v) (j, w) us vs hf hg e =
    let written = sym (frame_then i v us) ∙ (e ∙ frame_then j w vs) in
    let same_width = length-encode_uint16 i ∙ sym (length-encode_uint16 j) in
    let (ids, after_id) = append-inj (encode_uint16 i) (encode_uint16 j) _ _ same_width written in
    let n = length v % u32_mod in
    let m = length w % u32_mod in
    let same_count = length-encode_uint32 n ∙ sym (length-encode_uint32 m) in
    let (counts, values) = append-inj (encode_uint32 n) (encode_uint32 m) _ _ same_count after_id in
    let id_eq = encode_uint16-inj i j hf.0 hg.0 ids in
    let count_eq = encode_uint32-inj n m (omega arith) (omega arith) counts in
    let (value_eq, rest_eq) = append-inj v w us vs (omega arith) values in (cc, rest_eq)

-- The bytes of a list of frames determine the list, for lists of one length.
pub frames-inj :
    (fs gs : List Field)
    → All IsFramed fs
    → All IsFramed gs
    → length fs ≡ length gs
    → frames fs ≡ frames gs
    → fs ≡ gs
unfolding frames
frames-inj [] [] hf hg n e = refl
frames-inj [] (g ∷ gs) hf hg n e = absurd (omega arith)
frames-inj (f ∷ fs) [] hf hg n e = absurd (omega arith)
frames-inj (f ∷ fs) (g ∷ gs) hf hg n e =
    let (same, rest) = frame-inj f g (frames fs) (frames gs) hf.0 hg.0 e in
    let tails = frames-inj fs gs hf.1 hg.1 (omega arith) rest in cc
