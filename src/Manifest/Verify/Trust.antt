-- ===== src/Manifest/Verify/Trust.antt =====
-- What a descriptor that was verified is backed by.
use loadstrike_go.Prelude.{
  ℕ, ◌+◌, ◌≤◌, ◌≡◌, ◌⊎◌, inl, inr, refl, sym, Bool, true, List, [], ◌∷◌, Bytes, Option, none, some,
  ok, text_eq_iff, text_lt, text_lt_trans, ◌≢◌, arith, Result-cases, ok-inj, Bool-cases, All,
  if◌then◌else◌,
}
use mathlib.Core.List.{Memᴰ}
use loadstrike_go.Base64.{encode_std}
use loadstrike_go.Manifest.Claims.{ArtifactClaims, ArtifactSignature, TrustedKey}
use loadstrike_go.Manifest.Patterns.{is_sha256_digest, is_sha256_digest-nonempty}
use loadstrike_go.Manifest.Checksums.{decode_canonical_base64, decode_canonical_base64_sound}
use loadstrike_go.Manifest.Payload.{canonical_payload}
use loadstrike_go.Manifest.Verify.{find_key, check_known, verify_signatures}
use loadstrike_go.Manifest.Verify.Index.{find_key-mem}

-- Each signature's fingerprint lies below those of all that follow it.
abbrev pub Ascending : List ArtifactSignature → Type 0
Ascending [] = Unit
Ascending (s ∷ rest) = All (λ t. text_lt s.key_id t.key_id ≡ true) rest × Ascending rest

module _ (sum256 : Bytes → Bytes) (ed25519_verify : Bytes → Bytes → Bytes → Bool) where
  -- `key` signed the claims: it is bound to its fingerprint, its lifetime covers theirs, and the
  -- decoded signature is a valid one of their canonical payload.
  pub record IsSignedBy (c : ArtifactClaims) (s : ArtifactSignature) (key : TrustedKey)
      : Type 0 where
    pub payload : Bytes
    pub decoded : Bytes
    pub same_key : key.key_id ≡ s.key_id
    pub of_claims : canonical_payload c s.algorithm s.key_id ≡ ok payload
    pub spelled : s.signature ≡ encode_std decoded
    pub verified : ed25519_verify key.public_key payload decoded ≡ true
    pub issued_within : key.activation ≤ c.issued_at
    pub valid_within : c.valid_until ≤ key.not_after

  check_known-signed :
      (c : ArtifactClaims) (s : ArtifactSignature) (raw : Bytes) (key : TrustedKey) (counts : Bool)
      → key.key_id ≡ s.key_id
      → decode_canonical_base64 s.signature 64 ≡ ok raw
      → check_known sum256 ed25519_verify c s raw (some key) ≡ ok counts
      → IsSignedBy c s key
  unfolding check_known
  check_known-signed c s raw key counts same d h =
      elim (Result-cases (canonical_payload c s.algorithm s.key_id)) [
        | inl (p, e) ↦ record {
          payload = p;
          decoded = raw;
          same_key = same;
          of_claims = e;
          spelled = (decode_canonical_base64_sound s.signature 64 raw d).0;
          verified = ground arith;
          issued_within = ground arith;
          valid_within = ground arith;
        }
        | inr (x, e) ↦ absurd (ground arith)
      ]

  -- One round of the loop over the signatures.
  record IsRound (c : ArtifactClaims) (trusted : List TrustedKey) (seen : List Bytes) (n : ℕ)
      (previous : Bytes) (s : ArtifactSignature) (rest : List ArtifactSignature) (m : ℕ)
      : Type 0 where
    raw : Bytes
    counts : Bool
    fingerprint : is_sha256_digest s.key_id ≡ true
    ordered : (previous ≡ []) ⊎ (text_lt previous s.key_id ≡ true)
    decodes : decode_canonical_base64 s.signature 64 ≡ ok raw
    checks : check_known sum256 ed25519_verify c s raw (find_key trusted s.key_id) ≡ ok counts
    onward :
        verify_signatures sum256 ed25519_verify c trusted
          (s.key_id ∷ seen)
          (if counts then n + 1 else n)
          s.key_id
          rest
        ≡ ok m

  verify_signatures-cons :
      (c : ArtifactClaims) (trusted : List TrustedKey) (seen : List Bytes) (n : ℕ)
      (previous : Bytes) (s : ArtifactSignature) (rest : List ArtifactSignature) (m : ℕ)
      → verify_signatures sum256 ed25519_verify c trusted seen n previous (s ∷ rest) ≡ ok m
      → IsRound c trusted seen n previous s rest m
  unfolding verify_signatures
  verify_signatures-cons c trusted seen n previous s rest m h =
      elim (Result-cases (decode_canonical_base64 s.signature 64)) [
        | inr (x, e) ↦ absurd (ground arith)
        | inl (raw, d) ↦
            elim (Result-cases
              (check_known sum256 ed25519_verify c s raw (find_key trusted s.key_id))) [
                | inr (x, e) ↦ absurd (ground arith)
                | inl (counts, e) ↦ record {
                  raw = raw;
                  counts = counts;
                  fingerprint = ground arith;
                  ordered = ground (arith, text_eq_iff previous []);
                  decodes = d;
                  checks = e;
                  onward = ground arith;
                }
              ]
      ]

  -- Every signature whose fingerprint is in the index is a valid one by the key found there.
  pub verify_signatures-signed :
      (c : ArtifactClaims) (trusted : List TrustedKey) (seen : List Bytes) (n : ℕ)
      (previous : Bytes) (signatures : List ArtifactSignature) (m : ℕ)
      → verify_signatures sum256 ed25519_verify c trusted seen n previous signatures ≡ ok m
      → (s : ArtifactSignature) (key : TrustedKey) → Memᴰ s signatures
      → find_key trusted s.key_id ≡ some key
      → IsSignedBy c s key
  verify_signatures-signed c trusted seen n previous [] m h s key i found = elim i [ ]
  verify_signatures-signed c trusted seen n previous (first ∷ rest) m h s key (Memᴰ.head e) found =
      let r = verify_signatures-cons c trusted seen n previous first rest m h in
      let at_first : find_key trusted first.key_id ≡ some key = rw (← e) found in
      let checks = rw at_first at (r.checks) in
      rw e (
        check_known-signed c first r.raw key r.counts
          (find_key-mem trusted first.key_id key at_first).0 r.decodes checks)
  verify_signatures-signed c trusted seen n previous (first ∷ rest) m h s key (Memᴰ.tail i) found =
      let r = verify_signatures-cons c trusted seen n previous first rest m h in
      let n' = if r.counts then n + 1 else n in
      verify_signatures-signed c trusted (first.key_id ∷ seen) n' first.key_id rest m r.onward s key
        i found

  check_known-counts :
      (c : ArtifactClaims) (s : ArtifactSignature) (raw : Bytes) (o : Option TrustedKey)
      → check_known sum256 ed25519_verify c s raw o ≡ ok true
      → (key : TrustedKey) × (o ≡ some key)
  unfolding check_known
  check_known-counts c s raw none h = cc
  check_known-counts c s raw (some key) h = (key, refl)

  -- The count grows only by a signature of an indexed key.
  pub verify_signatures-counted :
      (c : ArtifactClaims) (trusted : List TrustedKey) (seen : List Bytes) (n : ℕ)
      (previous : Bytes) (signatures : List ArtifactSignature) (m : ℕ)
      → verify_signatures sum256 ed25519_verify c trusted seen n previous signatures ≡ ok m
      → (m ≡ n)
        ⊎ ((s : ArtifactSignature) × (key : TrustedKey) × Memᴰ s signatures
            × (find_key trusted s.key_id ≡ some key))
  verify_signatures-counted c trusted seen n previous [] m h =
      unfold verify_signatures in inl (sym (ok-inj h))
  verify_signatures-counted c trusted seen n previous (s ∷ rest) m h =
      let r = verify_signatures-cons c trusted seen n previous s rest m h in
      let n' = if r.counts then n + 1 else n in
      let ih = verify_signatures-counted c trusted (s.key_id ∷ seen) n' s.key_id rest m r.onward in
      elim (Bool-cases r.counts) [
        | inl yes_counts ↦
            let (key, found) =
              check_known-counts c s r.raw (find_key trusted s.key_id)
                (rw yes_counts at (r.checks)) in
            inr (s, key, Memᴰ.head refl, found)
        | inr not_counts ↦ elim ih [
          | inl same ↦ inl (rw not_counts at same)
          | inr (t, key, i, found) ↦ inr (t, key, Memᴰ.tail i, found)
        ]
      ]

  -- The fingerprints of the signatures ascend strictly, so no two are equal.
  verify_signatures-above :
      (c : ArtifactClaims) (trusted : List TrustedKey) (seen : List Bytes) (n : ℕ)
      (previous : Bytes) (signatures : List ArtifactSignature) (m : ℕ) (low : Bytes)
      → verify_signatures sum256 ed25519_verify c trusted seen n previous signatures ≡ ok m
      → (low ≡ previous) ⊎ (text_lt low previous ≡ true)
      → previous ≢ []
      → All (λ s. text_lt low s.key_id ≡ true) signatures
  verify_signatures-above c trusted seen n previous [] m low h below nonempty = tt
  verify_signatures-above c trusted seen n previous (s ∷ rest) m low h below nonempty =
      let r = verify_signatures-cons c trusted seen n previous s rest m h in
      let above : text_lt low s.key_id ≡ true = elim r.ordered [
        | inl empty ↦ absurd (nonempty empty)
        | inr step ↦ elim below [
          | inl same ↦ rw same step
          | inr lower ↦ text_lt_trans low previous s.key_id lower step
        ]
      ] in
      let n' = if r.counts then n + 1 else n in
      (
        above,
        verify_signatures-above c trusted (s.key_id ∷ seen) n' s.key_id rest m low r.onward
            (inr above) (is_sha256_digest-nonempty s.key_id r.fingerprint),
      )

  pub verify_signatures-Ascending :
      (c : ArtifactClaims) (trusted : List TrustedKey) (seen : List Bytes) (n : ℕ)
      (previous : Bytes) (signatures : List ArtifactSignature) (m : ℕ)
      → verify_signatures sum256 ed25519_verify c trusted seen n previous signatures ≡ ok m
      → Ascending signatures
  verify_signatures-Ascending c trusted seen n previous [] m h = tt
  verify_signatures-Ascending c trusted seen n previous (s ∷ rest) m h =
      let r = verify_signatures-cons c trusted seen n previous s rest m h in
      let n' = if r.counts then n + 1 else n in
      (
        verify_signatures-above c trusted (s.key_id ∷ seen) n' s.key_id rest m s.key_id r.onward
            (inl refl) (is_sha256_digest-nonempty s.key_id r.fingerprint),
        verify_signatures-Ascending c trusted (s.key_id ∷ seen) n' s.key_id rest m r.onward,
      )
