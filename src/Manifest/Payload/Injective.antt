-- ===== src/Manifest/Payload/Injective.antt =====
-- The signed bytes determine every claim: no two descriptors share a payload.
use loadstrike_go.Prelude.{
  ◌<◌, ◌≤◌, ◌≡◌, refl, sym, ap, ◌∙◌, List, [], ◌∷◌, ◌++◌, Bytes, ok, All, length, length-append,
  append-inj, arith,
}
use mathlib.Core.List.{append-nil, append_assoc}
use loadstrike_go.Manifest.Claims.{
  ArtifactClaims, InRange, u16_mod, u32_mod, max_manifest_payload_bytes,
}
use loadstrike_go.Manifest.Encoding.{
  Field, IsFramed, frame, frames, frames-inj, encode_uint16, encode_uint32-inj, encode_uint64-inj,
}
use loadstrike_go.Manifest.Payload.{payload_fields, write_fields, canonical_payload}

-- The loop appends the frames of its fields, in order.
write_fields-frames :
    (payload : Bytes) (fields : List Field) (out : Bytes)
    → write_fields payload fields ≡ ok out
    → out ≡ payload ++ frames fields
unfolding write_fields frames
write_fields-frames payload [] out h = ground (arith, append-nil payload)
write_fields-frames payload ((id, value) ∷ fields) out h = ground (
  arith,
  write_fields-frames (payload ++ frame (id, value)) fields out,
  append_assoc payload (frame (id, value)) (frames fields),
)

length-value-le-frame : (f : Field) → length f.1 ≤ length (frame f)
unfolding frame
length-value-le-frame (i, v) = omega (arith, length-append {0})

-- A payload below 2^32 bytes has no value whose length wraps in its four bytes.
frames-IsFramed :
    (fs : List Field) → All (λ f. f.0 < u16_mod) fs → length (frames fs) < u32_mod → All IsFramed fs
unfolding frames
frames-IsFramed [] ids h = tt
frames-IsFramed (f ∷ fs) ids h =
    let split = length-append (frame f) (frames fs) in
    let value = length-value-le-frame f in
    ((ids.0, omega arith), frames-IsFramed fs ids.1 (omega arith))

payload_fields_ids :
    (c : ArtifactClaims) (alg kid : Bytes) → All (λ f. f.0 < u16_mod) (payload_fields c alg kid)
unfolding payload_fields
payload_fields_ids c alg kid = omega arith

-- What a payload that was produced is made of.
canonical_payload-frames :
    (c : ArtifactClaims) (alg kid out : Bytes)
    → canonical_payload c alg kid ≡ ok out
    → (out ≡ encode_uint16 (length (payload_fields c alg kid)) ++ frames (payload_fields c alg kid))
      × (length out ≤ max_manifest_payload_bytes)
unfolding canonical_payload
canonical_payload-frames c alg kid out h =
    let fields = payload_fields c alg kid in
    ground (arith, write_fields-frames (encode_uint16 (length fields)) fields out)

canonical_payload-IsFramed :
    (c : ArtifactClaims) (alg kid out : Bytes)
    → canonical_payload c alg kid ≡ ok out
    → All IsFramed (payload_fields c alg kid)
canonical_payload-IsFramed c alg kid out h =
    let (e, small) = canonical_payload-frames c alg kid out h in
    let fields = payload_fields c alg kid in
    let split = length-append (encode_uint16 (length fields)) (frames fields) in
    let whole = ap length e in frames-IsFramed fields (payload_fields_ids c alg kid) (omega arith)

payload_fields-inj :
    (c d : ArtifactClaims) (alg alg' kid kid' : Bytes)
    → InRange c
    → InRange d
    → payload_fields c alg kid ≡ payload_fields d alg' kid'
    → (c ≡ d) × (alg ≡ alg') × (kid ≡ kid')
unfolding payload_fields
payload_fields-inj c d alg alg' kid kid' hc hd e = ground (
  arith,
  encode_uint32-inj c.manifest_version d.manifest_version,
  encode_uint32-inj c.protocol d.protocol,
  encode_uint64-inj c.byte_length d.byte_length,
  encode_uint64-inj c.issued_at d.issued_at,
  encode_uint64-inj c.not_before d.not_before,
  encode_uint64-inj c.valid_until d.valid_until,
  encode_uint64-inj c.run_id d.run_id,
  encode_uint32-inj c.run_attempt d.run_attempt,
)

-- Two descriptors that fit their integer widths and have one signed payload are equal in all 32
-- claims, and were signed under one algorithm and one key fingerprint.
pub canonical_payload-injective :
    (c d : ArtifactClaims) (alg alg' kid kid' out : Bytes)
    → InRange c
    → InRange d
    → canonical_payload c alg kid ≡ ok out
    → canonical_payload d alg' kid' ≡ ok out
    → (c ≡ d) × (alg ≡ alg') × (kid ≡ kid')
unfolding payload_fields
canonical_payload-injective c d alg alg' kid kid' out hc hd p q =
    let (e, _) = canonical_payload-frames c alg kid out p in
    let (f, _) = canonical_payload-frames d alg' kid' out q in
    let (_, bodies) = append-inj (encode_uint16 37) (encode_uint16 37) _ _ refl (sym e ∙ f) in
    let lists =
      frames-inj _ _ (canonical_payload-IsFramed c alg kid out p)
        (canonical_payload-IsFramed d alg' kid' out q) refl bodies in
    payload_fields-inj c d alg alg' kid kid' hc hd lists
