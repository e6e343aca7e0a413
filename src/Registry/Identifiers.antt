-- ===== src/Registry/Identifiers.antt =====
-- An identifier tells its prefix and its random bytes.
use loadstrike_go.Prelude.{◌≡◌, refl, [], ◌∷◌, Bytes, length, arith}
use loadstrike_go.Base64.{encode_raw_url}

pub length-encode_raw_url :
    (us vs : Bytes)
    → length us ≡ length vs
    → length (encode_raw_url us) ≡ length (encode_raw_url vs)
unfolding encode_raw_url
length-encode_raw_url [] [] h = refl
length-encode_raw_url (a ∷ []) (x ∷ []) h = refl
length-encode_raw_url (a ∷ b ∷ []) (x ∷ y ∷ []) h = refl
length-encode_raw_url (a ∷ b ∷ c ∷ us) (x ∷ y ∷ z ∷ vs) h =
    omega (arith, length-encode_raw_url us vs (omega arith))
length-encode_raw_url _ _ h = absurd (omega arith)
