-- ===== src/StrictJson.antt =====
-- runtime_strict_json.go and `decodeStrictJSONArray` of runtime_manifest_v2.go: one JSON object with
-- known fields, or one JSON array, and nothing after it. The decoder of encoding/json is a parameter.
pub mod Fields
pub mod Progress
pub mod Tests
use loadstrike_go.Prelude.{
  ℕ, zero, suc, ◌+◌, Bool, true, false, not, List, [], ◌∷◌, ◌++◌, Bytes, Option, none, some, Table,
  find, store, length, is_among, ltb, ◌==◌, if◌then◌else◌, Result, ok, err, ◌>>=◌, ◌>>◌, reject_if,
}

-- What `Decoder.Token` returns, as far as it is told apart.
pub data Token : Type 0 where
  delimiter : ℕ → Token
  text : Bytes → Token
  literal : Token

-- What `Decoder.Decode` into a raw message returns; `end_of_input` is `io.EOF`.
pub data Decoded (Decoder : Type 0) : Type 0 where
  raw_value : Bytes → Decoder → Decoded Decoder
  end_of_input failed : Decoded Decoder

-- A decoder of encoding/json over given bytes: each call returns the decoder that is left.
pub record Json : Type 1 where
  pub Decoder : Type 0
  pub new_decoder : Bytes → Decoder
  pub token : Decoder → Option (Token × Decoder)
  pub more : Decoder → Bool
  pub decode : Decoder → Decoded Decoder

-- `out_of_fuel` is no error of the code: it ends a loop that the model cut short.
pub data JsonError : Type 0 where
  read_failed too_large bad_token not_object not_array bad_name unknown_field duplicate_field
        bad_value trailing_content out_of_fuel :
      JsonError

abbrev pub is_open_brace : Token → Bool
is_open_brace (delimiter c) = c == 123
is_open_brace (text s) = false
is_open_brace literal = false

abbrev pub is_open_bracket : Token → Bool
is_open_bracket (delimiter c) = c == 91
is_open_bracket (text s) = false
is_open_bracket literal = false

-- `token.(string)`
abbrev pub field_name : Token → Result JsonError Bytes
field_name (text name) = ok name
field_name (delimiter c) = err bad_name
field_name literal = err bad_name

abbrev pub is_found : Option Bytes → Bool
is_found none = false
is_found (some value) = true

-- The first bytes of a list: `io.LimitReader`.
abbrev pub take : ℕ → Bytes → Bytes
take zero bytes = []
take (suc n) [] = []
take (suc n) (b ∷ bytes) = b ∷ take n bytes

module _ (J : Json) where
  open J use {Decoder, new_decoder, token, more, decode}

  -- `if err != nil` after `Decoder.Token`.
  abbrev pub read_token : Option (Token × Decoder) → Result JsonError (Token × Decoder)
  read_token none = err bad_token
  read_token (some read) = ok read

  -- `if err != nil` after `Decoder.Decode`.
  abbrev pub read_value : Decoded Decoder → Result JsonError (Bytes × Decoder)
  read_value (raw_value value d) = ok (value, d)
  read_value end_of_input = err bad_value
  read_value failed = err bad_value

  -- `decoder.Decode(&trailing)` has to meet the end of the input.
  abbrev pub expect_end : Decoded Decoder → Result JsonError (Unit {0})
  expect_end end_of_input = ok tt
  expect_end (raw_value value d) = err trailing_content
  expect_end failed = err trailing_content

  -- The checks of one field name.
  unfoldable pub check_name : List Bytes → Table Bytes → Bytes → Result JsonError (Unit {0})
  unfolding is_among find
  check_name allowed fields name = do
    reject_if (not (is_among name allowed)) unknown_field
    reject_if (is_found (find fields name)) duplicate_field

  -- One round of the loop over an object's fields.
  unfoldable pub read_field :
      List Bytes → Table Bytes → Decoder → Result JsonError (Table Bytes × Decoder)
  unfolding check_name
  read_field allowed fields d = do
    (t, after_name) ← read_token (token d)
    name ← field_name t
    check_name allowed fields name
    (value, after_value) ← read_value (decode after_name)
    ok (store fields name value, after_value)

  unfoldable pub read_fields :
      ℕ → List Bytes → Table Bytes → Decoder → Result JsonError (Table Bytes × Decoder)
  unfolding read_field
  read_fields zero allowed fields d = err out_of_fuel
  read_fields (suc fuel) allowed fields d = elim (more d) [
    | true ↦ read_field allowed fields d >>= λ (fields', d'). read_fields fuel allowed fields' d'
    | false ↦ ok (fields, d)
  ]

  -- What follows the loop.
  unfoldable pub finish : Decoder → Result JsonError (Unit {0})
  finish d = do (t, d') ← read_token (token d); expect_end (decode d')

  -- `decodeStrictJSONObject` on content that was read whole.
  unfoldable pub decode_object : Bytes → List Bytes → Result JsonError (Table Bytes)
  unfolding read_fields finish
  decode_object content allowed = do
    (t, d) ← read_token (token (new_decoder content))
    reject_if (not (is_open_brace t)) not_object
    (fields, d') ← read_fields (suc (length content)) allowed [] d
    finish d'
    ok fields

  -- `none` is a reader that fails.
  unfoldable pub decode_strict_object :
      Option Bytes → ℕ → List Bytes → Result JsonError (Table Bytes)
  unfolding decode_object
  decode_strict_object none maximum_bytes allowed = err read_failed
  decode_strict_object (some source) maximum_bytes allowed =
      let content = take (maximum_bytes + 1) source in
      reject_if (ltb maximum_bytes (length content)) too_large >> decode_object content allowed

  unfoldable pub read_entries : ℕ → List Bytes → Decoder → Result JsonError (List Bytes × Decoder)
  read_entries zero entries d = err out_of_fuel
  read_entries (suc fuel) entries d = elim (more d) [
    | true ↦ read_value (decode d) >>= λ (entry, d'). read_entries fuel (entries ++ entry ∷ []) d'
    | false ↦ ok (entries, d)
  ]

  unfoldable pub decode_strict_array : Bytes → ℕ → Result JsonError (List Bytes)
  unfolding read_entries finish
  decode_strict_array raw maximum_bytes = do
    reject_if (ltb maximum_bytes (length raw)) too_large
    (t, d) ← read_token (token (new_decoder raw))
    reject_if (not (is_open_bracket t)) not_array
    (entries, d') ← read_entries (suc (length raw)) [] d
    finish d'
    ok entries
