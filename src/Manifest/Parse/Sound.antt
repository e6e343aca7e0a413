-- ===== src/Manifest/Parse/Sound.antt =====
-- What a descriptor that was parsed is known to be.
use loadstrike_go.Prelude.{
  ◌≤◌, ◌≡◌, inl, inr, true, List, [], ◌∷◌, Bytes, codes, find, text_eq, text_eq-eq, length, ltb, ok,
  Result-cases, Bool-cases, arith,
}
use loadstrike_go.StrictJson.{Json, decode_strict_array}
use loadstrike_go.Manifest.Claims.{
  ArtifactSignature, ArtifactManifest, descriptor_bad_json, envelope_bad_fields, claims_bad_fields,
  signature_bad_fields, bad_schema_version, max_manifest_bytes, max_manifest_signatures,
  manifest_schema_version,
}
use loadstrike_go.Manifest.Encoding.{is_strict_ascii}
use loadstrike_go.Manifest.Parse.{
  Values, envelope_fields, claim_fields, signature_fields, or_fail, or_json, value_of, canonicalize,
  decode_exact, parse_signatures, parse_manifest,
}

module _ (J : Json) (V : Values J) where
  length-parse_signatures :
      (entries : List Bytes) (signatures : List ArtifactSignature)
      → parse_signatures J V entries ≡ ok signatures
      → length signatures ≡ length entries
  unfolding parse_signatures
  length-parse_signatures [] signatures h = ground (arith, h)
  length-parse_signatures (entry ∷ entries) signatures h =
      elim (Result-cases (
        decode_exact J V entry (length entry) signature_fields descriptor_bad_json
          signature_bad_fields)) [
            | inr (e, p) ↦ absurd (ground (arith, h, p))
            | inl (fields, p) ↦
                elim (Result-cases (or_fail (V.signature entry) descriptor_bad_json)) [
                  | inr (e, q) ↦ absurd (ground (arith, h, p, q))
                  | inl (signature, q) ↦ elim (Result-cases (parse_signatures J V entries)) [
                    | inr (e, r) ↦ absurd (ground (arith, h, p, q, r))
                    | inl (rest, r) ↦
                        ground (arith, h, p, q, r, length-parse_signatures entries rest r)
                  ]
                ]
          ]

  -- A descriptor that is parsed is ASCII within the size limit and its own canonical JSON, which the
  -- manifest keeps; it has the schema version of this program and between one and three signatures.
  pub parse_manifest-IsCanonical :
      (raw : Bytes) (manifest : ArtifactManifest)
      → parse_manifest J V raw ≡ ok manifest
      → (1 ≤ length raw)
        × (length raw ≤ max_manifest_bytes)
        × (is_strict_ascii raw ≡ true)
        × (canonicalize J V raw ≡ ok raw)
        × (manifest.canonical_json ≡ raw)
        × (manifest.schema_version ≡ manifest_schema_version)
        × (1 ≤ length manifest.signatures)
        × (length manifest.signatures ≤ max_manifest_signatures)
  unfolding parse_manifest
  parse_manifest-IsCanonical raw manifest h =
      let small = Bool-cases (ltb (length raw) 1) in
      let large = Bool-cases (ltb max_manifest_bytes (length raw)) in
      let ascii = Bool-cases (is_strict_ascii raw) in
      elim (Result-cases (
        decode_exact J V raw max_manifest_bytes envelope_fields descriptor_bad_json
          envelope_bad_fields)) [
            | inr (e, p) ↦ absurd (ground (arith, h, p, small, large, ascii))
            | inl (envelope, p) ↦
                let claims_raw = value_of (find envelope (codes "claims")) in
                elim (Result-cases (
                  decode_exact J V claims_raw (length claims_raw) claim_fields descriptor_bad_json
                    claims_bad_fields)) [
                      | inr (e, q) ↦ absurd (ground (arith, h, p, q, small, large, ascii))
                      | inl (found, q) ↦
                          elim (Result-cases (
                            or_json
                              (decode_strict_array J (value_of (find envelope (codes "signatures")))
                                max_manifest_bytes)
                              descriptor_bad_json)) [
                                | inr (e, r) ↦
                                    absurd (ground (arith, h, p, q, r, small, large, ascii))
                                | inl (entries, r) ↦
                                    let few = Bool-cases (ltb (length entries) 1) in
                                    let many =
                                      Bool-cases (ltb max_manifest_signatures (length entries)) in
                                    elim (Result-cases (parse_signatures J V entries)) [
                                      | inr (e, s) ↦ absurd (
                                          ground
                                            (arith, h, p, q, r, s, small, large, ascii, few, many))
                                      | inl (signatures, s) ↦
                                          let n = length-parse_signatures entries signatures s in
                                          elim (Result-cases (canonicalize J V raw)) [
                                            | inr (e, c) ↦ absurd (
                                                ground (
                                                  arith, h, p, q, r, s, c, small, large, ascii, few,
                                                  many,
                                                ))
                                            | inl (canonical, c) ↦
                                                let same = Bool-cases (text_eq canonical raw) in
                                                let equal = text_eq-eq canonical raw in
                                                elim (Result-cases (
                                                  or_fail
                                                    (V.uint32 (
                                                      value_of
                                                        (find envelope (codes "schemaVersion"))))
                                                    bad_schema_version)) [
                                                      | inr (e, v) ↦ absurd (
                                                          ground (
                                                            arith, h, p, q, r, s, c, v, small,
                                                            large, ascii, few, many, same,
                                                          ))
                                                      | inl (version, v) ↦
                                                          elim (Result-cases (
                                                            or_fail (V.claims claims_raw)
                                                            descriptor_bad_json)) [
                                                              | inr (e, k) ↦ absurd (
                                                                ground (
                                                                arith, h, p, q, r, s, c, v, k,
                                                                small, large, ascii, few, many,
                                                                same,
                                                                ))
                                                              | inl (claims, k) ↦ (
                                                              ground (
                                                              arith, h, p, q, r, s, c, v, k, small,
                                                              large, ascii, few, many, same,
                                                              ),
                                                              ground (
                                                              arith, h, p, q, r, s, c, v, k, small,
                                                              large, ascii, few, many, same,
                                                              ),
                                                              ground (
                                                              arith, h, p, q, r, s, c, v, k, small,
                                                              large, ascii, few, many, same,
                                                              ),
                                                              ground (
                                                              arith, h, p, q, r, s, c, v, k, small,
                                                              large, ascii, few, many, same, equal,
                                                              ),
                                                              ground (
                                                              arith, h, p, q, r, s, c, v, k, small,
                                                              large, ascii, few, many, same, equal,
                                                              ),
                                                              ground (
                                                              arith, h, p, q, r, s, c, v, k, small,
                                                              large, ascii, few, many, same,
                                                              ),
                                                              ground (
                                                              arith, h, p, q, r, s, c, v, k, small,
                                                              large, ascii, few, many, same, n,
                                                              ),
                                                              ground (
                                                              arith, h, p, q, r, s, c, v, k, small,
                                                              large, ascii, few, many, same, n,
                                                              ),
                                                              )
                                                            ]
                                                    ]
                                          ]
                                    ]
                              ]
                    ]
          ]
