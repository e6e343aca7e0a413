-- ===== src/StrictJson/Progress.antt =====
-- The loops of the decoders end where every read of encoding/json takes a byte.
use loadstrike_go.Prelude.{
  ℕ, zero, suc, ◌+◌, ◌≤◌, ◌<◌, ◌≡◌, ◌≢◌, inl, inr, refl, List, [], ◌∷◌, ◌++◌, Bytes, Option, none,
  some, Table, find, length, is_among, ltb, Result, ok, err, Bool-cases, Option-cases, Result-cases,
  arith,
}
use loadstrike_go.StrictJson.{
  Json, JsonError, out_of_fuel, Token, delimiter, text, literal, Decoded, raw_value, end_of_input,
  failed, is_found, is_open_brace, is_open_bracket, read_token, read_value, field_name, expect_end,
  check_name, read_field, read_fields, finish, decode_object, decode_strict_object, read_entries,
  decode_strict_array, take,
}

-- `remaining` counts the bytes that a decoder has not read. A token and a value are at least a byte.
pub record IsProgressing (J : Json) : Type 0 where
  pub remaining : J.Decoder → ℕ
  pub at_start : (bytes : Bytes) → remaining (J.new_decoder bytes) ≤ length bytes
  pub token_less :
      (d d' : J.Decoder) (t : Token) → J.token d ≡ some (t, d') → remaining d' < remaining d
  pub decode_less :
      (d d' : J.Decoder) (value : Bytes)
      → J.decode d ≡ raw_value value d'
      → remaining d' < remaining d

-- The decoders of the model's parts that have no loop never give the model's own error.
IsTotal : {A : Type 0} → Result JsonError A → Type 0
IsTotal r = r ≢ err out_of_fuel

field_name-IsTotal : (t : Token) → IsTotal (field_name t)
unfolding IsTotal
field_name-IsTotal (text s) = cc
field_name-IsTotal (delimiter c) = cc
field_name-IsTotal literal = cc

module _ (J : Json) (L : IsProgressing J) where
  open J use {Decoder, new_decoder, token, more, decode}

  check_name-IsTotal :
      (allowed : List Bytes) (fields : Table Bytes) (name : Bytes)
      → IsTotal (check_name J allowed fields name)
  unfolding check_name IsTotal
  check_name-IsTotal allowed fields name =
      ground (arith, Bool-cases (is_among name allowed), Bool-cases (is_found (find fields name)))

  read_token-less :
      (d d' : Decoder) (t : Token)
      → read_token J (token d) ≡ ok (t, d')
      → L.remaining d' < L.remaining d
  read_token-less d d' t h = L.token_less d d' t (ground (arith, h, Option-cases (token d)))

  read_value-less :
      (d d' : Decoder) (value : Bytes) (v : Decoded Decoder)
      → decode d ≡ v
      → read_value J v ≡ ok (value, d')
      → L.remaining d' < L.remaining d
  read_value-less d d' value (raw_value w d'') e h = L.decode_less d d' value (ground (arith, e, h))
  read_value-less d d' value end_of_input e h = absurd cc
  read_value-less d d' value failed e h = absurd cc

  read_value-IsTotal : (v : Decoded Decoder) → IsTotal (read_value J v)
  unfolding IsTotal
  read_value-IsTotal (raw_value w d) = cc
  read_value-IsTotal end_of_input = cc
  read_value-IsTotal failed = cc

  read_token-IsTotal : (o : Option (Token × Decoder)) → IsTotal (read_token J o)
  unfolding IsTotal
  read_token-IsTotal none = cc
  read_token-IsTotal (some r) = cc

  expect_end-IsTotal : (v : Decoded Decoder) → IsTotal (expect_end J v)
  unfolding IsTotal
  expect_end-IsTotal (raw_value w d) = cc
  expect_end-IsTotal end_of_input = cc
  expect_end-IsTotal failed = cc

  finish-IsTotal : (d : Decoder) → IsTotal (finish J d)
  unfolding finish IsTotal
  finish-IsTotal d = elim (Result-cases (read_token J (token d))) [
    | inl ((t, d'), p) ↦ ground (arith, p, expect_end-IsTotal (decode d'))
    | inr (e, p) ↦ ground (arith, p, read_token-IsTotal (token d))
  ]

  -- A round of the loop fails by an error of the code, or leaves fewer bytes.
  read_field-less :
      (allowed : List Bytes) (fields : Table Bytes) (d : Decoder)
      → IsTotal (read_field J allowed fields d)
        × ((fields' : Table Bytes) (d' : Decoder)
            → read_field J allowed fields d ≡ ok (fields', d')
            → L.remaining d' < L.remaining d)
  unfolding read_field IsTotal
  read_field-less allowed fields d = elim (Result-cases (read_token J (token d))) [
    | inr (e, p) ↦
        (ground (arith, p, read_token-IsTotal (token d)), λ f l h. absurd (ground (arith, h, p)))
    | inl ((t, n), p) ↦ elim (Result-cases (field_name t)) [
      | inr (e, q) ↦
          (ground (arith, p, q, field_name-IsTotal t), λ f l h. absurd (ground (arith, h, p, q)))
      | inl (name, q) ↦ elim (Result-cases (check_name J allowed fields name)) [
        | inr (e, r) ↦ (
          ground (arith, p, q, r, check_name-IsTotal allowed fields name),
          λ f l h. absurd (ground (arith, h, p, q, r)),
        )
        | inl (u, r) ↦ elim (Result-cases (read_value J (decode n))) [
          | inr (e, w) ↦ (
            ground (arith, p, q, r, w, read_value-IsTotal (decode n)),
            λ f l h. absurd (ground (arith, h, p, q, r, w)),
          )
          | inl ((value, left), w) ↦ (
            ground (arith, p, q, r, w),
            λ f l h. ground (
              arith,
              h,
              p,
              q,
              r,
              w,
              read_token-less d n t p,
              read_value-less n left value (decode n) refl w,
            ),
          )
        ]
      ]
    ]
  ]

  read_fields-IsTotal :
      (fuel : ℕ) (allowed : List Bytes) (fields : Table Bytes) (d : Decoder)
      → L.remaining d < fuel
      → IsTotal (read_fields J fuel allowed fields d)
  unfolding read_fields IsTotal
  read_fields-IsTotal zero allowed fields d n = absurd (omega arith)
  read_fields-IsTotal (suc fuel) allowed fields d n = elim (Bool-cases (more d)) [
    | inr stop ↦ ground (arith, stop)
    | inl go ↦
        let (total, less) = read_field-less allowed fields d in
        elim (Result-cases (read_field J allowed fields d)) [
          | inr (e, p) ↦ ground (arith, go, p, total)
          | inl ((between, rest), p) ↦
              let later =
                read_fields-IsTotal fuel allowed between rest
                  (omega (arith, n, less between rest p)) in
              ground (arith, go, p, later)
        ]
  ]

  read_entries-IsTotal :
      (fuel : ℕ) (entries : List Bytes) (d : Decoder)
      → L.remaining d < fuel
      → IsTotal (read_entries J fuel entries d)
  unfolding read_entries IsTotal
  read_entries-IsTotal zero entries d n = absurd (omega arith)
  read_entries-IsTotal (suc fuel) entries d n = elim (Bool-cases (more d)) [
    | inr stop ↦ ground (arith, stop)
    | inl go ↦ elim (Result-cases (read_value J (decode d))) [
      | inr (e, p) ↦ ground (arith, go, p, read_value-IsTotal (decode d))
      | inl ((entry, rest), p) ↦
          let later =
            read_entries-IsTotal fuel (entries ++ entry ∷ []) rest
              (omega (arith, n, read_value-less d rest entry (decode d) refl p)) in
          ground (arith, go, p, later)
    ]
  ]

  decode_object-IsTotal :
      (content : Bytes) (allowed : List Bytes) → IsTotal (decode_object J content allowed)
  unfolding decode_object IsTotal
  decode_object-IsTotal content allowed =
      elim (Result-cases (read_token J (token (new_decoder content)))) [
        | inr (e, p) ↦ ground (arith, p, read_token-IsTotal (token (new_decoder content)))
        | inl ((t, d), p) ↦
            let start = L.at_start content in
            let less = read_token-less (new_decoder content) d t p in
            let total =
              read_fields-IsTotal (suc (length content)) allowed [] d
                (omega (arith, start, less)) in
            let brace = Bool-cases (is_open_brace t) in
            elim (Result-cases (read_fields J (suc (length content)) allowed [] d)) [
              | inr (e, q) ↦ ground (arith, p, q, brace, total)
              | inl ((found, d'), q) ↦
                  ground (arith, p, q, brace, Result-cases (finish J d'), finish-IsTotal d')
            ]
      ]

  decode_strict_array-IsTotal :
      (raw : Bytes) (maximum_bytes : ℕ) → IsTotal (decode_strict_array J raw maximum_bytes)
  unfolding decode_strict_array IsTotal
  decode_strict_array-IsTotal raw maximum_bytes =
      let size = Bool-cases (ltb maximum_bytes (length raw)) in
      elim (Result-cases (read_token J (token (new_decoder raw)))) [
        | inr (e, p) ↦ ground (arith, p, size, read_token-IsTotal (token (new_decoder raw)))
        | inl ((t, d), p) ↦
            let start = L.at_start raw in
            let less = read_token-less (new_decoder raw) d t p in
            let total = read_entries-IsTotal (suc (length raw)) [] d (omega (arith, start, less)) in
            let bracket = Bool-cases (is_open_bracket t) in
            elim (Result-cases (read_entries J (suc (length raw)) [] d)) [
              | inr (e, q) ↦ ground (arith, p, q, size, bracket, total)
              | inl ((found, d'), q) ↦
                  ground (arith, p, q, size, bracket, Result-cases (finish J d'), finish-IsTotal d')
            ]
      ]

  -- Where every token and every value takes at least a byte, the loops over the fields of an object
  -- and over the entries of an array end by themselves: neither decoder runs out of rounds.
  pub decoders-IsTotal :
      (source : Option Bytes) (maximum_bytes : ℕ) (allowed : List Bytes) (raw : Bytes)
      → (decode_strict_object J source maximum_bytes allowed ≢ err out_of_fuel)
        × (decode_strict_array J raw maximum_bytes ≢ err out_of_fuel)
  unfolding decode_strict_object IsTotal
  decoders-IsTotal none maximum_bytes allowed raw =
      (cc, decode_strict_array-IsTotal raw maximum_bytes)
  decoders-IsTotal (some source) maximum_bytes allowed raw =
      let content = take (maximum_bytes + 1) source in
      (
        ground (
          arith,
          Bool-cases (ltb maximum_bytes (length content)),
          decode_object-IsTotal content allowed,
        ),
        decode_strict_array-IsTotal raw maximum_bytes,
      )
