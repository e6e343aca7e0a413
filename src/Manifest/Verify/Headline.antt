-- ===== src/Manifest/Verify/Headline.antt =====
-- What `verifyRuntimeManifestV2` guarantees of a descriptor that it accepts.
use loadstrike_go.Prelude.{
  ℕ, ◌≡◌, inl, inr, ok, Result, Bytes, List, [], arith, ℤ, Result-cases, Bool, false, some,
}
use mathlib.Core.List.{Memᴰ}
use loadstrike_go.Manifest.Claims.{
  ArtifactSignature, ArtifactManifest, ResolverConfig, TrustedKey, InRange, ManifestError,
}
use loadstrike_go.Manifest.Validate.{validate_claims}
use loadstrike_go.Manifest.Validate.Sound.{IsArtifact, IsProvenance, IsTarget, validate_claims_iff}
use loadstrike_go.Manifest.Verify.{
  is_invalid_key, index_keys, verify_signatures, verify_parsed, verify_manifest, find_key,
}
use loadstrike_go.Manifest.Verify.Index.{
  find_key-mem, index_keys-IsIndex, index_keys-of_mem, index_keys-mem,
}
use loadstrike_go.Manifest.Verify.Trust.{
  IsSignedBy, Ascending, verify_signatures-signed, verify_signatures-counted,
  verify_signatures-Ascending,
}

module _ (sum256 : Bytes → Bytes) (ed25519_verify : Bytes → Bytes → Bytes → Bool) where
  -- The intermediate results of a verification that succeeded.
  record IsRun (manifest : ArtifactManifest) (config : ResolverConfig) (keys : List TrustedKey)
      (now : ℤ) : Type 0 where
    trusted : List TrustedKey
    count : ℕ
    claims_valid : validate_claims manifest.claims config now ≡ ok tt
    indexed : index_keys sum256 ed25519_verify [] keys ≡ ok trusted
    counted :
        verify_signatures sum256 ed25519_verify manifest.claims trusted [] 0 [] manifest.signatures
        ≡ ok count
    some_counted : count ≡ 0 → ⊥

  verify_parsed-IsRun :
      (manifest result : ArtifactManifest) (config : ResolverConfig) (keys : List TrustedKey)
      (now : ℤ)
      → verify_parsed sum256 ed25519_verify manifest config keys now ≡ ok result
      → IsRun manifest config keys now × (result ≡ manifest)
  unfolding verify_parsed
  verify_parsed-IsRun manifest result config keys now h =
      elim (Result-cases (validate_claims manifest.claims config now)) [
        | inr (x, e) ↦ absurd (ground arith)
        | inl (u, valid) ↦ elim (Result-cases (index_keys sum256 ed25519_verify [] keys)) [
          | inr (x, e) ↦ absurd (ground arith)
          | inl (trusted, indexed) ↦
              elim (Result-cases (
                verify_signatures sum256 ed25519_verify manifest.claims trusted [] 0 []
                  manifest.signatures)) [
                    | inr (x, e) ↦ absurd (ground arith)
                    | inl (count, counted) ↦ (
                      record {
                        trusted = trusted;
                        count = count;
                        claims_valid = ground arith;
                        indexed = indexed;
                        counted = counted;
                        some_counted = λ z. ground arith;
                      },
                      ground arith,
                    )
                  ]
        ]
      ]

  -- What stands behind an accepted descriptor.
  pub record IsAuthentic (manifest : ArtifactManifest) (config : ResolverConfig)
      (keys : List TrustedKey) (now : ℤ) : Type 0 where
    pub artifact : IsArtifact manifest.claims
    pub provenance : IsProvenance manifest.claims
    pub target : IsTarget manifest.claims config now
    pub signature : ArtifactSignature
    pub key : TrustedKey
    pub listed : Memᴰ signature manifest.signatures
    pub trusted : Memᴰ key keys
    pub valid_key : is_invalid_key sum256 ed25519_verify key ≡ false
    pub signed : IsSignedBy sum256 ed25519_verify manifest.claims signature key

  IsRun-IsAuthentic :
      (manifest : ArtifactManifest) (config : ResolverConfig) (keys : List TrustedKey) (now : ℤ)
      → InRange manifest.claims
      → IsRun manifest config keys now
      → IsAuthentic manifest config keys now
  IsRun-IsAuthentic manifest config keys now range run =
      let trusted = run.trusted in
      let claims = manifest.claims in
      let (a, p, t) = (validate_claims_iff claims config now range).0 run.claims_valid in
      elim (verify_signatures-counted sum256 ed25519_verify claims trusted [] 0 []
        manifest.signatures run.count run.counted) [
          | inl none_counted ↦ absurd (run.some_counted none_counted)
          | inr (s, key, listed, found) ↦
              let indexed = (find_key-mem trusted s.key_id key found).1 in
              elim (index_keys-of_mem sum256 ed25519_verify [] keys trusted key run.indexed
                indexed) [
                  | inl nothing ↦ elim nothing [ ]
                  | inr (given, valid) ↦ record {
                    artifact = a;
                    provenance = p;
                    target = t;
                    signature = s;
                    key = key;
                    listed = listed;
                    trusted = given;
                    valid_key = valid;
                    signed =
                        verify_signatures-signed sum256 ed25519_verify claims trusted [] 0 []
                          manifest.signatures run.count run.counted s key listed found;
                  }
                ]
        ]

  module _ (parse : Bytes → Result ManifestError ArtifactManifest) where
    verify_manifest-IsRun :
        (raw : Bytes) (manifest : ArtifactManifest) (config : ResolverConfig)
        (keys : List TrustedKey) (now : ℤ)
        → verify_manifest sum256 ed25519_verify parse raw config keys now ≡ ok manifest
        → (parse raw ≡ ok manifest) × IsRun manifest config keys now
    unfolding verify_manifest
    verify_manifest-IsRun raw manifest config keys now h = elim (Result-cases (parse raw)) [
      | inr (x, e) ↦ absurd (ground arith)
      | inl (parsed, e) ↦
          let (run, same) = verify_parsed-IsRun parsed manifest config keys now (ground arith) in
          rw same (e, run)
    ]

    -- A descriptor that is accepted is the one that was parsed, describes an artifact that this
    -- process asked for, and carries a signature by a valid key of the trusted keys, made over its
    -- claims, at a time when both the key and the claims are valid; the parser yields numbers that
    -- fit their widths.
    pub verify_manifest-IsAuthentic :
        (raw : Bytes) (manifest : ArtifactManifest) (config : ResolverConfig)
        (keys : List TrustedKey) (now : ℤ)
        → ((m : ArtifactManifest) → parse raw ≡ ok m → InRange m.claims)
        → verify_manifest sum256 ed25519_verify parse raw config keys now ≡ ok manifest
        → (parse raw ≡ ok manifest) × IsAuthentic manifest config keys now
    verify_manifest-IsAuthentic raw manifest config keys now range h =
        let (parsed, run) = verify_manifest-IsRun raw manifest config keys now h in
        (parsed, IsRun-IsAuthentic manifest config keys now (range manifest parsed) run)

    -- In an accepted descriptor the fingerprints of the signatures ascend strictly, and a signature
    -- under the fingerprint of any trusted key is a valid one by that key: one bad signature of a
    -- known key is enough for a rejection, whatever the others are.
    pub verify_manifest-all_known :
        (raw : Bytes) (manifest : ArtifactManifest) (config : ResolverConfig)
        (keys : List TrustedKey) (now : ℤ) (s : ArtifactSignature) (key : TrustedKey)
        → verify_manifest sum256 ed25519_verify parse raw config keys now ≡ ok manifest
        → Memᴰ s manifest.signatures
        → Memᴰ key keys
        → key.key_id ≡ s.key_id
        → Ascending manifest.signatures × IsSignedBy sum256 ed25519_verify manifest.claims s key
    verify_manifest-all_known raw manifest config keys now s key h listed given same =
        let (_, run) = verify_manifest-IsRun raw manifest config keys now h in
        let claims = manifest.claims in
        let index =
          index_keys-IsIndex sum256 ed25519_verify [] keys run.trusted run.indexed
            (λ key m. elim m [ ]) in
        let there =
          index_keys-mem sum256 ed25519_verify [] keys run.trusted key run.indexed (inr given) in
        let found : find_key run.trusted s.key_id ≡ some key = rw (← same) (index key there) in
        (
          verify_signatures-Ascending sum256 ed25519_verify claims run.trusted [] 0 []
              manifest.signatures run.count run.counted,
          verify_signatures-signed sum256 ed25519_verify claims run.trusted [] 0 []
              manifest.signatures run.count run.counted s key listed found,
        )
