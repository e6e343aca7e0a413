-- ===== src/StrictJson/Fields.antt =====
-- The fields of an object that is accepted.
use loadstrike_go.Prelude.{
  ℕ, zero, suc, ◌+◌, ◌≡◌, inl, inr, refl, ◌∙◌, ltb, true, false, List, [], ◌∷◌, Bytes, Option, none,
  some, Table, find, store, length, is_among, IsDistinct, IsWithin, IsWithin-complete, ok,
  Bool-cases, Result-cases, text_eq, arith,
}
use loadstrike_go.StrictJson.{
  is_open_brace, Json, is_found, read_token, read_value, field_name, check_name, read_field,
  read_fields, finish, decode_object, decode_strict_object, take,
}

-- The names under which a map has a value.
abbrev pub names : Table Bytes → List Bytes
names [] = []
names ((name, value) ∷ rest) = name ∷ names rest

length-names : (fields : Table Bytes) → length (names fields) ≡ length fields
length-names [] = refl
length-names ((name, value) ∷ rest) = omega (arith, length-names rest)

is_found-names :
    (fields : Table Bytes) (name : Bytes)
    → is_found (find fields name) ≡ is_among name (names fields)
unfolding find is_among
is_found-names [] name = refl
is_found-names ((k, v) ∷ rest) name =
    ground (arith, is_found-names rest name, Bool-cases (text_eq k name))

-- The names are allowed and none of them stands twice.
abbrev IsKnown : List Bytes → Table Bytes → Type 0
IsKnown allowed fields = IsWithin (names fields) allowed × IsDistinct (names fields)

module _ (J : Json) where
  open J use {Decoder, new_decoder, token, more, decode}

  check_name-known :
      (allowed : List Bytes) (fields : Table Bytes) (name : Bytes)
      → check_name J allowed fields name ≡ ok tt
      → (is_among name allowed ≡ true) × (is_among name (names fields) ≡ false)
  unfolding check_name
  check_name-known allowed fields name h =
      let a = Bool-cases (is_among name allowed) in
      let b = Bool-cases (is_found (find fields name)) in
      (ground (arith, a, b), ground (arith, a, b, is_found-names fields name))

  store-IsKnown :
      (allowed : List Bytes) (fields fields' : Table Bytes) (name value : Bytes)
      → IsKnown allowed fields
      → check_name J allowed fields name ≡ ok tt
      → fields' ≡ store fields name value
      → IsKnown allowed fields'
  unfolding store
  store-IsKnown allowed fields fields' name value (within, distinct) checked e =
      let (known, fresh) = check_name-known allowed fields name checked in
      rw e ((known, within), (fresh, distinct))

  -- A round that succeeds stores one value under a name that passed the checks.
  read_field-store :
      (allowed : List Bytes) (fields : Table Bytes) (d : Decoder) (fields' : Table Bytes)
      (d' : Decoder)
      → read_field J allowed fields d ≡ ok (fields', d')
      → (name : Bytes) × (value : Bytes) × (check_name J allowed fields name ≡ ok tt)
        × (fields' ≡ store fields name value)
  unfolding read_field
  read_field-store allowed fields d fields' d' h = elim (Result-cases (read_token J (token d))) [
    | inr (e, p) ↦ absurd (ground (arith, h, p))
    | inl ((t, n), p) ↦ elim (Result-cases (field_name t)) [
      | inr (e, q) ↦ absurd (ground (arith, h, p, q))
      | inl (name, q) ↦ elim (Result-cases (check_name J allowed fields name)) [
        | inr (e, r) ↦ absurd (ground (arith, h, p, q, r))
        | inl (u, r) ↦ elim (Result-cases (read_value J (decode n))) [
          | inr (e, w) ↦ absurd (ground (arith, h, p, q, r, w))
          | inl ((value, left), w) ↦ (name, value, r, ground (arith, h, p, q, r, w))
        ]
      ]
    ]
  ]

  read_fields-IsKnown :
      (fuel : ℕ) (allowed : List Bytes) (fields : Table Bytes) (d : Decoder) (fields' : Table Bytes)
      (d' : Decoder)
      → read_fields J fuel allowed fields d ≡ ok (fields', d')
      → IsKnown allowed fields
      → IsKnown allowed fields'
  unfolding read_fields
  read_fields-IsKnown zero allowed fields d fields' d' h k = absurd cc
  read_fields-IsKnown (suc fuel) allowed fields d fields' d' h k = elim (Bool-cases (more d)) [
    | inr stop ↦ let same : fields ≡ fields' = ground (arith, h, stop) in rw (← same) k
    | inl go ↦ elim (Result-cases (read_field J allowed fields d)) [
      | inr (e, p) ↦ absurd (ground (arith, h, go, p))
      | inl ((between, rest), p) ↦
          let (name, value, checked, stored) = read_field-store allowed fields d between rest p in
          read_fields-IsKnown fuel allowed between rest fields' d' (ground (arith, h, go, p))
            (store-IsKnown allowed fields between name value k checked stored)
    ]
  ]

  decode_object-IsKnown :
      (content : Bytes) (allowed : List Bytes) (fields : Table Bytes)
      → decode_object J content allowed ≡ ok fields
      → IsKnown allowed fields
  unfolding decode_object
  decode_object-IsKnown content allowed fields h =
      elim (Result-cases (read_token J (token (new_decoder content)))) [
        | inr (e, p) ↦ absurd (ground (arith, h, p))
        | inl ((t, d), p) ↦
            elim (Result-cases (read_fields J (suc (length content)) allowed [] d)) [
              | inr (e, q) ↦ absurd (ground (arith, h, p, q, Bool-cases (is_open_brace t)))
              | inl ((found, d'), q) ↦
                  let brace = Bool-cases (is_open_brace t) in
                  let same : found ≡ fields =
                    ground (arith, h, p, q, brace, Result-cases (finish J d')) in
                  rw (← same)
                    (read_fields-IsKnown (suc (length content)) allowed [] d found d' q (tt, tt))
            ]
      ]

  -- An object that is accepted has only allowed fields, each once.
  pub decode_strict_object-IsKnown :
      (source : Option Bytes) (maximum_bytes : ℕ) (allowed : List Bytes) (fields : Table Bytes)
      → decode_strict_object J source maximum_bytes allowed ≡ ok fields
      → IsWithin (names fields) allowed × IsDistinct (names fields)
  unfolding decode_strict_object
  decode_strict_object-IsKnown none maximum_bytes allowed fields h = absurd cc
  decode_strict_object-IsKnown (some source) maximum_bytes allowed fields h =
      decode_object-IsKnown (take (maximum_bytes + 1) source) allowed fields (
        ground
          (arith, h, Bool-cases (ltb maximum_bytes (length (take (maximum_bytes + 1) source)))))

  -- An object that is accepted and has as many fields as are allowed has each of them, since it has
  -- none twice and no other.
  pub decode_strict_object_complete :
      (source : Option Bytes) (maximum_bytes : ℕ) (allowed : List Bytes) (fields : Table Bytes)
      (name : Bytes)
      → decode_strict_object J source maximum_bytes allowed ≡ ok fields
      → length fields ≡ length allowed
      → is_among name allowed ≡ true
      → is_found (find fields name) ≡ true
  decode_strict_object_complete source maximum_bytes allowed fields name h n m =
      let (within, distinct) = decode_strict_object-IsKnown source maximum_bytes allowed fields h in
      is_found-names fields name
      ∙ IsWithin-complete (names fields) allowed name distinct within
          (omega (arith, n, length-names fields)) m
