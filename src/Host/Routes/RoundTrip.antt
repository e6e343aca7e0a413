-- ===== src/Host/Routes/RoundTrip.antt =====
-- The paths that the host hands out are read back.
use mathlib.Core.List.{reverse, reverse-append, reverse-reverse, append-nil, append_assoc}
use loadstrike_go.Prelude.{
  ℕ, ◌≡◌, ◌≢◌, sym, ap, ◌∙◌, refl, Bool, true, false, not, ◌&&◌, [], ◌∷◌, ◌++◌, Bytes, codes, some,
  text_eq, text_eq-eq, text_eq_refl, trim_space, trim_left, is_space, is_blank, ◌==◌, All,
  Bool-cases, arith, ◌<◌, ltb, is_blank_utf8, decode_utf8, read_rest, read_lead,
}
use loadstrike_go.Base64.{encode_char, encode_raw_url}
use loadstrike_go.Registry.{next_callback_id}
use loadstrike_go.Manifest.Patterns.{strip_prefix}
use loadstrike_go.Host.Routes.{
  slash, scenario_callback_url, tracking_produce_callback_url, tracking_consume_callback_url,
  threshold_callback_url, reporting_publish_callback_url, observation_cancellation_callback_url,
  plugin_callback_url, sink_callback_url, policy_callback_url, trim_prefix, trim_left_slashes,
  trim_slashes, split_slashes, contains_slash, two_parts, path_parts, single_id, contains_separator,
  observation_id,
}

strip_prefix-append : (prefix rest : Bytes) → strip_prefix prefix (prefix ++ rest) ≡ some rest
unfolding strip_prefix
strip_prefix-append [] rest = refl
strip_prefix-append (p ∷ prefix) rest = ground (arith, strip_prefix-append prefix rest)

trim_prefix-append : (prefix rest : Bytes) → trim_prefix (prefix ++ rest) prefix ≡ rest
unfolding trim_prefix
trim_prefix-append prefix rest = ground (arith, strip_prefix-append prefix rest)

-- An ASCII character that is no slash, no backslash and no space.
abbrev pub IsPlain : ℕ → Type 0
IsPlain c = (c ≢ slash) × (c ≢ 92) × (is_space c ≡ false) × (c < 128)

All-append : (s t : Bytes) → All IsPlain s → All IsPlain t → All IsPlain (s ++ t)
All-append [] t h k = k
All-append (c ∷ s) t (p, h) k = (p, All-append s t h k)

All-reverse : (s : Bytes) → All IsPlain s → All IsPlain (reverse s)
All-reverse [] h = tt
All-reverse (c ∷ s) (p, h) =
    rw (reverse-append (c ∷ []) s) (All-append (reverse s) (c ∷ []) (All-reverse s h) (p, tt))

reverse-nonempty : (s : Bytes) → s ≢ [] → reverse s ≢ []
reverse-nonempty s h e = h (sym (reverse-reverse s) ∙ ap reverse e)

contains_slash-plain : (s : Bytes) → All IsPlain s → contains_slash s ≡ false
unfolding contains_slash
contains_slash-plain [] h = refl
contains_slash-plain (c ∷ s) ((p, q, r, l), h) = ground (arith, p, contains_slash-plain s h)

contains_separator-plain : (s : Bytes) → All IsPlain s → contains_separator s ≡ false
unfolding contains_separator
contains_separator-plain [] h = refl
contains_separator-plain (c ∷ s) ((p, q, r, l), h) =
    ground (arith, p, q, contains_separator-plain s h)

trim_left_slashes-plain :
    (s t : Bytes) → s ≢ [] → All IsPlain s → trim_left_slashes (s ++ t) ≡ s ++ t
unfolding trim_left_slashes
trim_left_slashes-plain [] t n h = absurd (n refl)
trim_left_slashes-plain (c ∷ s) t n ((p, q, r, l), h) = ground (arith, p)

-- A text that begins and ends with plain characters.
trim_slashes-plain :
    (x s u v t : Bytes)
    → s ≢ []
    → t ≢ []
    → All IsPlain s
    → All IsPlain t
    → x ≡ s ++ u
    → x ≡ v ++ t
    → trim_slashes x ≡ x
unfolding trim_slashes
trim_slashes-plain x s u v t n m h k d e =
    let front : trim_left_slashes x ≡ x = rw d (trim_left_slashes-plain s u n h) in
    let turned : reverse x ≡ reverse t ++ reverse v = rw e (reverse-append v t) in
    let back : trim_left_slashes (reverse x) ≡ reverse x =
      rw turned (
        trim_left_slashes-plain (reverse t) (reverse v) (reverse-nonempty t m) (All-reverse t k)) in
    rw (front, back) (reverse-reverse x)

trim_left-plain : (s : Bytes) → All IsPlain s → trim_left s ≡ s
unfolding trim_left
trim_left-plain [] h = refl
trim_left-plain (c ∷ s) ((p, q, r, l), h) = ground (arith, r)

trim_space-plain : (s : Bytes) → All IsPlain s → trim_space s ≡ s
unfolding trim_space
trim_space-plain s h =
    rw (trim_left-plain s h, trim_left-plain (reverse s) (All-reverse s h)) (reverse-reverse s)

is_blank-plain : (s : Bytes) → s ≢ [] → All IsPlain s → is_blank s ≡ false
unfolding is_blank
is_blank-plain s n h = ground (arith, trim_space-plain s h, text_eq-eq s [])

read_rest-plain : (s : Bytes) → All IsPlain s → read_rest 0 128 191 0 s ≡ some s
unfolding read_rest read_lead
read_rest-plain [] h = refl
read_rest-plain (c ∷ s) ((p, q, r, l), h) = ground (arith, l, read_rest-plain s h)

is_blank_utf8-plain : (s : Bytes) → s ≢ [] → All IsPlain s → is_blank_utf8 s ≡ false
unfolding is_blank_utf8 decode_utf8
is_blank_utf8-plain s n h = ground (arith, read_rest-plain s h, is_blank-plain s n h)

split_slashes-one : (s : Bytes) → contains_slash s ≡ false → split_slashes s ≡ s ∷ []
unfolding split_slashes contains_slash
split_slashes-one [] h = refl
split_slashes-one (c ∷ s) h = ground (arith, h, split_slashes-one s)

split_slashes-two :
    (s t : Bytes)
    → contains_slash s ≡ false
    → contains_slash t ≡ false
    → split_slashes (s ++ slash ∷ t) ≡ s ∷ t ∷ []
unfolding split_slashes contains_slash
split_slashes-two [] t h k = ground (arith, split_slashes-one t k)
split_slashes-two (c ∷ s) t h k = ground (arith, h, split_slashes-two s t)

-- A path of an identifier and a stage, behind a prefix, is read as they are.
path_parts-append :
    (prefix id stage : Bytes)
    → id ≢ []
    → stage ≢ []
    → All IsPlain id
    → All IsPlain stage
    → path_parts (prefix ++ (id ++ slash ∷ stage)) prefix ≡ some (id, stage)
unfolding path_parts trim_prefix two_parts
path_parts-append prefix id stage n m h k =
    let path = id ++ slash ∷ stage in
    let whole : path ≡ (id ++ slash ∷ []) ++ stage = sym (append_assoc id (slash ∷ []) stage) in
    let trimmed =
      trim_slashes-plain path id (slash ∷ stage) (id ++ slash ∷ []) stage n m h k refl whole in
    let split =
      split_slashes-two id stage (contains_slash-plain id h) (contains_slash-plain stage k) in
    ground (
      arith,
      strip_prefix-append prefix path,
      trimmed,
      split,
      is_blank_utf8-plain id n h,
      is_blank_utf8-plain stage m k,
    )

single_id-append :
    (prefix id : Bytes) → id ≢ [] → All IsPlain id → single_id (prefix ++ id) prefix ≡ some id
unfolding single_id trim_prefix
single_id-append prefix id n h =
    let trimmed = trim_slashes-plain id id [] [] id n n h h (sym (append-nil id)) refl in
    ground
      (arith, strip_prefix-append prefix id, trimmed, contains_slash-plain id h, text_eq-eq id [])

url_char-IsPlain : (v : ℕ) → IsPlain (encode_char b'-' b'_' v)
unfolding encode_char is_space
url_char-IsPlain v = (ground arith, ground arith, ground arith, ground arith)

encode_raw_url-IsPlain : (bytes : Bytes) → All IsPlain (encode_raw_url bytes)
unfolding encode_raw_url
encode_raw_url-IsPlain [] = tt
encode_raw_url-IsPlain (a ∷ []) = (url_char-IsPlain _, (url_char-IsPlain _, tt))
encode_raw_url-IsPlain (a ∷ b ∷ []) =
    (url_char-IsPlain _, (url_char-IsPlain _, (url_char-IsPlain _, tt)))
encode_raw_url-IsPlain (a ∷ b ∷ c ∷ rest) = (
  url_char-IsPlain _,
  (url_char-IsPlain _, (url_char-IsPlain _, (url_char-IsPlain _, encode_raw_url-IsPlain rest))),
)

abbrev is_plain : Bytes → Bool
is_plain [] = true
is_plain (c ∷ s) = not (c == slash) && not (c == 92) && not (is_space c) && ltb c 128 && is_plain s

is_plain-All : (s : Bytes) → is_plain s ≡ true → All IsPlain s
is_plain-All [] h = tt
is_plain-All (c ∷ s) h =
    let space = Bool-cases (is_space c) in
    (
      (
        ground (arith, h),
        ground (arith, h),
        ground (arith, h, space),
        ground (arith, h, space, Bool-cases (ltb c 128)),
      ),
      is_plain-All s (ground (arith, h, space, Bool-cases (ltb c 128))),
    )

next_callback_id-IsPlain :
    (prefix random_bytes : Bytes)
    → is_plain prefix ≡ true
    → All IsPlain (next_callback_id prefix random_bytes)
unfolding next_callback_id codes is_space
next_callback_id-IsPlain prefix random_bytes h =
    All-append prefix _ (is_plain-All prefix h) (
      All-append (codes "-") _ (is_plain-All (codes "-") refl)
        (encode_raw_url-IsPlain random_bytes))

observation_id-append :
    (prefix id : Bytes)
    → text_eq id (prefix ++ id) ≡ false
    → id ≢ []
    → All IsPlain id
    → observation_id (prefix ++ id) prefix ≡ some id
unfolding observation_id trim_prefix
observation_id-append prefix id other n h = ground (
  arith,
  strip_prefix-append prefix id,
  trim_space-plain id h,
  text_eq_refl id,
  contains_separator-plain id h,
  text_eq-eq id [],
  other,
)

-- The path of every address that the host makes of a registered identifier is read back as that
-- identifier, and as the stage where there is one: for scenarios with any stage of plain characters.
-- The addresses are those of scenarios, tracking producers and consumers, thresholds, reporting
-- publishers, observation cancellations, worker plugins, sinks and policies.
pub callback_urls-routed :
    (random_bytes stage : Bytes)
    → stage ≢ []
    → All IsPlain stage
    → (path_parts
          (scenario_callback_url [] (next_callback_id (codes "scenario") random_bytes) stage)
          (codes "/callbacks/scenario/")
        ≡ some (next_callback_id (codes "scenario") random_bytes, stage))
      × (path_parts
            (tracking_produce_callback_url []
              (next_callback_id (codes "tracking-produce") random_bytes))
            (codes "/callbacks/tracking/")
          ≡ some (next_callback_id (codes "tracking-produce") random_bytes, codes "produce"))
      × (path_parts
            (tracking_consume_callback_url []
              (next_callback_id (codes "tracking-consume") random_bytes))
            (codes "/callbacks/tracking/")
          ≡ some (next_callback_id (codes "tracking-consume") random_bytes, codes "consume"))
      × (single_id
            (threshold_callback_url [] (next_callback_id (codes "threshold") random_bytes))
            (codes "/callbacks/threshold/")
          ≡ some (next_callback_id (codes "threshold") random_bytes))
      × (single_id
            (reporting_publish_callback_url []
              (next_callback_id (codes "reporting-publish") random_bytes))
            (codes "/callbacks/reporting-publish/")
          ≡ some (next_callback_id (codes "reporting-publish") random_bytes))
      × (observation_id
            (observation_cancellation_callback_url []
              (next_callback_id (codes "observation-cancellation") random_bytes))
            (codes "/callbacks/observation-cancellation/")
          ≡ some (next_callback_id (codes "observation-cancellation") random_bytes))
      × (trim_prefix
            (plugin_callback_url [] (next_callback_id (codes "plugin") random_bytes))
            (codes "/callbacks/plugin/")
          ≡ next_callback_id (codes "plugin") random_bytes)
      × (trim_prefix
            (sink_callback_url [] (next_callback_id (codes "sink") random_bytes))
            (codes "/callbacks/sink/")
          ≡ next_callback_id (codes "sink") random_bytes)
      × (trim_prefix
            (policy_callback_url [] (next_callback_id (codes "policy") random_bytes))
            (codes "/callbacks/policy/")
          ≡ next_callback_id (codes "policy") random_bytes)
unfolding scenario_callback_url tracking_produce_callback_url tracking_consume_callback_url
    threshold_callback_url reporting_publish_callback_url observation_cancellation_callback_url
    plugin_callback_url sink_callback_url policy_callback_url codes next_callback_id is_space
    text_eq
callback_urls-routed random_bytes stage n k = (
  path_parts-append (codes "/callbacks/scenario/")
      (next_callback_id (codes "scenario") random_bytes) stage (cc) n
      (next_callback_id-IsPlain (codes "scenario") random_bytes refl) k,
  path_parts-append (codes "/callbacks/tracking/")
      (next_callback_id (codes "tracking-produce") random_bytes) (codes "produce") (cc) (cc)
      (next_callback_id-IsPlain (codes "tracking-produce") random_bytes refl)
      (is_plain-All (codes "produce") refl),
  path_parts-append (codes "/callbacks/tracking/")
      (next_callback_id (codes "tracking-consume") random_bytes) (codes "consume") (cc) (cc)
      (next_callback_id-IsPlain (codes "tracking-consume") random_bytes refl)
      (is_plain-All (codes "consume") refl),
  single_id-append (codes "/callbacks/threshold/")
      (next_callback_id (codes "threshold") random_bytes) (cc)
      (next_callback_id-IsPlain (codes "threshold") random_bytes refl),
  single_id-append (codes "/callbacks/reporting-publish/")
      (next_callback_id (codes "reporting-publish") random_bytes) (cc)
      (next_callback_id-IsPlain (codes "reporting-publish") random_bytes refl),
  observation_id-append (codes "/callbacks/observation-cancellation/")
      (next_callback_id (codes "observation-cancellation") random_bytes) refl (cc)
      (next_callback_id-IsPlain (codes "observation-cancellation") random_bytes refl),
  trim_prefix-append (codes "/callbacks/plugin/") (next_callback_id (codes "plugin") random_bytes),
  trim_prefix-append (codes "/callbacks/sink/") (next_callback_id (codes "sink") random_bytes),
  trim_prefix-append (codes "/callbacks/policy/") (next_callback_id (codes "policy") random_bytes),
)
