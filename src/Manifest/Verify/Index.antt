-- ===== src/Manifest/Verify/Index.antt =====
-- The index of the trusted keys: what `index_keys` puts into it and what is found there.
use loadstrike_go.Prelude.{
  ◌≡◌, ◌⊎◌, inl, inr, refl, sym, ap, ◌∙◌, Bool, false, List, [], ◌∷◌, Bytes, Option, none, some, ok,
  text_eq, text_eq_iff, text_eq-eq, arith, ok-inj, Bool-cases, text_eq_refl,
}
use mathlib.Core.List.{Memᴰ}
use loadstrike_go.Manifest.Claims.{TrustedKey}
use loadstrike_go.Manifest.Verify.{find_key, is_known, is_invalid_key, index_keys}

pub find_key-mem :
    (keys : List TrustedKey) (id : Bytes) (key : TrustedKey)
    → find_key keys id ≡ some key
    → (key.key_id ≡ id) × Memᴰ key keys
unfolding find_key
find_key-mem [] id key h = ground arith
find_key-mem (k ∷ keys) id key h = elim (Bool-cases (text_eq k.key_id id)) [
  | inl same ↦
      let first : key ≡ k = ground arith in
      (ap (λ (t : TrustedKey). t.key_id) first ∙ text_eq-eq k.key_id id same, Memᴰ.head first)
  | inr other ↦ let (p, q) = find_key-mem keys id key (ground arith) in (p, Memᴰ.tail q)
]

-- Every key that was put into the index is found under its fingerprint.
abbrev pub IsIndex : List TrustedKey → Type 0
IsIndex keys = (key : TrustedKey) → Memᴰ key keys → find_key keys key.key_id ≡ some key

find_key-cons_self :
    (k : TrustedKey) (keys : List TrustedKey) → find_key (k ∷ keys) k.key_id ≡ some k
unfolding find_key
find_key-cons_self k keys = ground (arith, text_eq_refl k.key_id)

find_key-cons_ne :
    (k : TrustedKey) (keys : List TrustedKey) (id : Bytes) {found : TrustedKey}
    → find_key keys k.key_id ≡ none
    → find_key keys id ≡ some found
    → find_key (k ∷ keys) id ≡ some found
unfolding find_key
find_key-cons_ne k keys id h e = ground (arith, text_eq_iff k.key_id id)

IsIndex-cons :
    (k : TrustedKey) (keys : List TrustedKey)
    → find_key keys k.key_id ≡ none
    → IsIndex keys
    → IsIndex (k ∷ keys)
IsIndex-cons k keys fresh ih key (Memᴰ.head e) = rw e (find_key-cons_self k keys)
IsIndex-cons k keys fresh ih key (Memᴰ.tail m) = find_key-cons_ne k keys key.key_id fresh (ih key m)

not_known : (o : Option TrustedKey) → is_known o ≡ false → o ≡ none
unfolding is_known
not_known none h = refl
not_known (some k) h = cc

module _ (sum256 : Bytes → Bytes) (ed25519_verify : Bytes → Bytes → Bytes → Bool) where
  -- One round of the loop over the trusted keys.
  index_keys-cons :
      (acc : List TrustedKey) (key : TrustedKey) (keys t : List TrustedKey)
      → index_keys sum256 ed25519_verify acc (key ∷ keys) ≡ ok t
      → (is_invalid_key sum256 ed25519_verify key ≡ false)
        × (find_key acc key.key_id ≡ none)
        × (index_keys sum256 ed25519_verify (key ∷ acc) keys ≡ ok t)
  unfolding index_keys
  index_keys-cons acc key keys t h =
      (ground arith, not_known (find_key acc key.key_id) (ground arith), ground arith)

  pub index_keys-IsIndex :
      (acc keys t : List TrustedKey)
      → index_keys sum256 ed25519_verify acc keys ≡ ok t
      → IsIndex acc
      → IsIndex t
  index_keys-IsIndex acc [] t h i = unfold index_keys in rw (ok-inj (sym h)) i
  index_keys-IsIndex acc (key ∷ keys) t h i =
      let (_, fresh, rest) = index_keys-cons acc key keys t h in
      index_keys-IsIndex (key ∷ acc) keys t rest (IsIndex-cons key acc fresh i)

  -- The index holds the keys that were given, all of them valid.
  pub index_keys-of_mem :
      (acc keys t : List TrustedKey) (key : TrustedKey)
      → index_keys sum256 ed25519_verify acc keys ≡ ok t
      → Memᴰ key t
      → Memᴰ key acc ⊎ (Memᴰ key keys × (is_invalid_key sum256 ed25519_verify key ≡ false))
  index_keys-of_mem acc [] t key h m =
      let same : acc ≡ t = unfold index_keys in ok-inj h in inl (rw same m)
  index_keys-of_mem acc (k ∷ keys) t key h m =
      let (valid, fresh, rest) = index_keys-cons acc k keys t h in
      elim (index_keys-of_mem (k ∷ acc) keys t key rest m) [
        | inl (Memᴰ.head e) ↦ inr (Memᴰ.head e, rw e valid)
        | inl (Memᴰ.tail n) ↦ inl n
        | inr (n, v) ↦ inr (Memᴰ.tail n, v)
      ]

  pub index_keys-mem :
      (acc keys t : List TrustedKey) (key : TrustedKey)
      → index_keys sum256 ed25519_verify acc keys ≡ ok t
      → Memᴰ key acc ⊎ Memᴰ key keys
      → Memᴰ key t
  index_keys-mem acc [] t key h (inl m) =
      let same : acc ≡ t = unfold index_keys in ok-inj h in rw (← same) m
  index_keys-mem acc [] t key h (inr m) = elim m [ ]
  index_keys-mem acc (k ∷ keys) t key h (inl m) =
      let (_, _, rest) = index_keys-cons acc k keys t h in
      index_keys-mem (k ∷ acc) keys t key rest (inl (Memᴰ.tail m))
  index_keys-mem acc (k ∷ keys) t key h (inr (Memᴰ.head e)) =
      let (_, _, rest) = index_keys-cons acc k keys t h in
      index_keys-mem (k ∷ acc) keys t key rest (inl (Memᴰ.head e))
  index_keys-mem acc (k ∷ keys) t key h (inr (Memᴰ.tail m)) =
      let (_, _, rest) = index_keys-cons acc k keys t h in
      index_keys-mem (k ∷ acc) keys t key rest (inr m)
