-- ===== src/Manifest/Parse/Tests.antt =====
-- A descriptor and a keyring that are parsed, by a decoder that follows a script for each text.
use loadstrike_go.Prelude.{
  ℕ, ◌≤◌, ◌≡◌, refl, Bool, true, false, List, [], ◌∷◌, ◌++◌, Bytes, codes, Option, none, some, find,
  store, text_eq, length, is_among, is_blank, trim_space, trim_left, is_space, replicate, ok,
  if◌then◌else◌, arith,
}
use loadstrike_go.StrictJson.{
  Token, delimiter, text, literal, Decoded, raw_value, end_of_input, failed, Json, check_name,
  read_field, read_fields, finish, decode_object, decode_strict_object, read_entries,
  decode_strict_array,
}
use loadstrike_go.Base64.{encode_char, decode_char, encode_std, decode_std}
use loadstrike_go.Manifest.Claims.{
  ArtifactManifest, TrustedKey, max_manifest_bytes, manifest_schema_version,
  max_manifest_signatures, max_publisher_trusted_keys,
}
use loadstrike_go.Manifest.Encoding.{is_strict_ascii}
use loadstrike_go.Manifest.Checksums.{decode_canonical_base64}
use loadstrike_go.Manifest.Tests.{claims, signature, key_id, sum256, ed25519_verify}
use loadstrike_go.Manifest.Verify.{
  hex_encode, expected_key_id, is_seen, is_bad_key_interval, index_keys,
}
use loadstrike_go.Manifest.Parse.{
  KeyEntry, Values, key_fields, signature_fields, claim_fields, canonicalize, decode_exact,
  parse_signatures, parse_manifest,
}
use loadstrike_go.Manifest.Parse.Sound.{parse_manifest-IsCanonical}
use loadstrike_go.Manifest.Keyring.{check_key, parse_key, parse_keys, parse_keyring}
use loadstrike_go.Manifest.Keyring.Sound.{IsDigest, parse_keyring-IsTrusted}

data Item : Type 0 where
  opening closing : ℕ → Item
  name value : Bytes → Item

abbrev token : List Item → Option (Token × List Item)
token [] = none
token (opening c ∷ d) = some (delimiter c, d)
token (closing c ∷ d) = some (delimiter c, d)
token (name n ∷ d) = some (text n, d)
token (value v ∷ d) = some (literal, d)

abbrev more : List Item → Bool
more [] = false
more (closing c ∷ d) = false
more (_ ∷ d) = true

abbrev decode : List Item → Decoded (List Item)
decode [] = end_of_input
decode (value v ∷ d) = raw_value v d
decode (_ ∷ d) = failed

abbrev fields_of : List Bytes → List Item
fields_of [] = closing 125 ∷ []
fields_of (field ∷ fields) = name field ∷ value (codes "v") ∷ fields_of fields

-- Long enough for the texts that they stand for.
abbrev envelope_text : Bytes
envelope_text = replicate 10 b'E'

abbrev claims_text : Bytes
claims_text = replicate 40 b'C'

abbrev entry_text : Bytes
entry_text = replicate 10 b'G'

abbrev key_text : Bytes
key_text = replicate 10 b'K'

abbrev raw : Bytes
raw = envelope_text ++ 10 ∷ []

-- The envelope, its claims, its array of signatures, one signature, a keyring and its key.
abbrev script : Bytes → List Item
script bytes =
    if text_eq bytes raw
    then opening 123
      ∷ name (codes "claims")
      ∷ value claims_text
      ∷ name (codes "schemaVersion")
      ∷ value (codes "2")
      ∷ name (codes "signatures")
      ∷ value (codes "[S]")
      ∷ closing 125
      ∷ []
    else if text_eq bytes claims_text
    then opening 123 ∷ fields_of claim_fields
    else if text_eq bytes (codes "[S]")
    then opening 91 ∷ value entry_text ∷ closing 93 ∷ []
    else if text_eq bytes entry_text
    then opening 123 ∷ fields_of signature_fields
    else if text_eq bytes (codes "[R]")
    then opening 91 ∷ value key_text ∷ closing 93 ∷ []
    else if text_eq bytes key_text
    then opening 123 ∷ fields_of key_fields
    else []

abbrev json : Json
json = record {
  Decoder = List Item;
  new_decoder = script;
  token = token;
  more = more;
  decode = decode;
}

abbrev key_entry : KeyEntry
key_entry = record {
  activation = 1790000000;
  algorithm = codes "publisher-ed25519-v2";
  key_id = key_id;
  not_after = 1900000000;
  public_key_raw_base64 = codes "AAAAAAAAAAAAAAAAAAAAAAAAAAAAAAAAAAAAAAAAAAA=";
}

abbrev values : Values json
values = record {
  Value = Bytes;
  decode_any = λ d. some (envelope_text, []);
  marshal = λ v. some v;
  key_entry = λ bytes. some key_entry;
  signature = λ bytes. some signature;
  claims = λ bytes. some claims;
  uint32 = λ bytes. some 2;
}

abbrev manifest : ArtifactManifest
manifest = record {
  schema_version = 2;
  claims = claims;
  signatures = signature ∷ [];
  canonical_json = raw;
}

parses : parse_manifest json values raw ≡ ok manifest
unfolding parse_manifest decode_exact parse_signatures canonicalize decode_strict_object
    decode_object read_fields read_field check_name finish decode_strict_array read_entries
    is_strict_ascii codes text_eq is_among find store
parses = refl

parse_manifest-IsCanonical_example :
    (1 ≤ length raw)
    × (length raw ≤ max_manifest_bytes)
    × (is_strict_ascii raw ≡ true)
    × (canonicalize json values raw ≡ ok raw)
    × (manifest.canonical_json ≡ raw)
    × (manifest.schema_version ≡ manifest_schema_version)
    × (1 ≤ length manifest.signatures)
    × (length manifest.signatures ≤ max_manifest_signatures)
parse_manifest-IsCanonical_example = parse_manifest-IsCanonical json values raw manifest parses

digest : IsDigest sum256
digest bytes = (refl, omega arith)

abbrev keys : List TrustedKey
keys =
    record {
      algorithm = codes "publisher-ed25519-v2";
      key_id = key_id;
      public_key = replicate 32 0;
      activation = 1790000000;
      not_after = 1900000000;
    }
    ∷ []

keyring-parses : parse_keyring json values sum256 ed25519_verify (codes "[R]") ≡ ok keys
unfolding parse_keyring parse_keys parse_key check_key decode_exact decode_strict_object
    decode_object read_fields read_field check_name finish decode_strict_array read_entries
    is_strict_ascii codes text_eq is_among find store is_blank trim_space trim_left is_space
    decode_canonical_base64 decode_std decode_char encode_std encode_char expected_key_id hex_encode
    is_seen is_bad_key_interval
keyring-parses = refl

parse_keyring-IsTrusted_example :
    (1 ≤ length keys)
    × (length keys ≤ max_publisher_trusted_keys)
    × ((indexed : List TrustedKey) × (index_keys sum256 ed25519_verify [] keys ≡ ok indexed))
parse_keyring-IsTrusted_example =
    parse_keyring-IsTrusted sum256 ed25519_verify digest json values (codes "[R]") keys
      keyring-parses
