-- ===== src/StrictJson/Tests.antt =====
-- A decoder that reads a list of items, of which each text stands for its own.
use loadstrike_go.Prelude.{
  ℕ, ◌<◌, ◌≡◌, ◌≢◌, refl, Bool, true, false, List, [], ◌∷◌, Bytes, codes, Option, none, some, find,
  store, text_eq, length, is_among, ok, err, if◌then◌else◌, arith,
}
use loadstrike_go.StrictJson.{
  Token, delimiter, text, Decoded, raw_value, end_of_input, Json, out_of_fuel, duplicate_field,
  is_found, check_name, read_field, read_fields, finish, decode_object, decode_strict_object,
  decode_strict_array,
}
use loadstrike_go.StrictJson.Fields.{decode_strict_object_complete}
use loadstrike_go.StrictJson.Progress.{IsProgressing, decoders-IsTotal}

-- A byte is a delimiter, or it is a name or a value of one byte.
abbrev is_closing : ℕ → Bool
is_closing c = if text_eq (c ∷ []) (codes "}") then true else text_eq (c ∷ []) (codes "]")

abbrev is_delimiter : ℕ → Bool
is_delimiter c =
    if is_closing c
    then true
    else if text_eq (c ∷ []) (codes "{")
    then true
    else text_eq (c ∷ []) (codes "[")

abbrev token : Bytes → Option (Token × Bytes)
token [] = none
token (c ∷ d) = some (if is_delimiter c then delimiter c else text (c ∷ []), d)

abbrev more : Bytes → Bool
more [] = false
more (c ∷ d) = if is_closing c then false else true

abbrev decode : Bytes → Decoded Bytes
decode [] = end_of_input
decode (c ∷ d) = raw_value (c ∷ []) d

abbrev json : Json
json = record {
  Decoder = Bytes;
  new_decoder = λ bytes. bytes;
  token = token;
  more = more;
  decode = decode;
}

token_less : (d d' : Bytes) (t : Token) → token d ≡ some (t, d') → length d' < length d
token_less [] d' t h = absurd (cc h)
token_less (c ∷ d) d' t h = ground (arith, h)

decode_less : (d d' value : Bytes) → decode d ≡ raw_value value d' → length d' < length d
decode_less [] d' value h = absurd (cc h)
decode_less (c ∷ d) d' value h = ground (arith, h)

abbrev progressing : IsProgressing json
progressing = record {
  remaining = length;
  at_start = λ bytes. omega arith;
  token_less = token_less;
  decode_less = decode_less;
}

abbrev fields : List (Bytes × Bytes)
fields = (codes "c", codes "d") ∷ (codes "a", codes "b") ∷ []

abbrev allowed : List Bytes
allowed = codes "a" ∷ codes "c" ∷ []

duplicate-refused :
    decode_strict_object json (some (codes "{abad}")) 100 allowed ≡ err duplicate_field
unfolding decode_strict_object decode_object read_fields read_field check_name finish codes text_eq
    is_among find store
duplicate-refused = refl

decoded : decode_strict_object json (some (codes "{abcd}")) 100 allowed ≡ ok fields
unfolding decode_strict_object decode_object read_fields read_field check_name finish codes text_eq
    is_among find store
decoded = refl

is_allowed : is_among (codes "a") allowed ≡ true
unfolding is_among codes text_eq
is_allowed = refl

decode_strict_object_complete_example : is_found (find fields (codes "a")) ≡ true
decode_strict_object_complete_example =
    decode_strict_object_complete json (some (codes "{abcd}")) 100 allowed fields (codes "a")
      decoded refl is_allowed

decoders-IsTotal_example :
    (decode_strict_object json (some (codes "{a{a")) 100 allowed ≢ err out_of_fuel)
    × (decode_strict_array json (codes "[ab") 100 ≢ err out_of_fuel)
decoders-IsTotal_example =
    decoders-IsTotal json progressing (some (codes "{a{a")) 100 allowed (codes "[ab")
