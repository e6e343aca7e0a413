-- ===== src/Transport/Policy.antt =====
-- What a URL that a policy admits is like.
use loadstrike_go.Prelude.{
  ◌≡◌, ◌≢◌, ◌⊎◌, inl, inr, ◌∙◌, true, false, not, ◌&&◌, ◌||◌, [], Bytes, codes, none, some, text_eq,
  text_eq_iff, has_prefix, trim_space, ok, Bool-cases, Option-cases, Result-cases, arith,
}
use loadstrike_go.Transport.{
  Url, Library, TransportPolicy, has_part, is_ambiguous, parsed, is_bad_path, parse_canonical_url,
  is_loopback_host, is_refused_origin, with_path, new_transport_policy, validate_url,
}

module _ (L : Library) where
  open L use {parse, to_text, hostname, clean, to_lower}

  -- A URL as `parse_canonical_url` gives it.
  pub record IsCanonical (raw : Bytes) (u : Url) : Type 0 where
    pub parsed_from : parse raw ≡ some u
    pub trimmed : trim_space raw ≡ raw
    pub named_scheme : u.scheme ≢ []
    pub named_host : u.host ≢ []
    pub no_credentials : u.has_user ≡ false
    pub no_opaque_part : u.opaque_part ≡ []
    pub no_query : (u.raw_query ≡ []) × (u.force_query ≡ false)
    pub no_fragment : (u.fragment ≡ []) × (u.raw_fragment ≡ [])
    pub no_encoded_path : u.raw_path ≡ []
    pub rooted : has_prefix u.path (codes "/") ≡ true
    pub no_backslash : has_part u.path (codes "\\") ≡ false
    pub no_double_slash : has_part u.path (codes "//") ≡ false
    pub clean_path : clean u.path ≡ u.path

  unambiguous-IsCanonical :
      (raw : Bytes) (u : Url)
      → parse raw ≡ some u
      → trim_space raw ≡ raw
      → is_ambiguous u ≡ false
      → is_bad_path L u.path ≡ false
      → IsCanonical raw u
  unfolding is_ambiguous is_bad_path
  unambiguous-IsCanonical raw u p t h k =
      let scheme = text_eq_iff u.scheme [] in
      let host = text_eq_iff u.host [] in
      let opaque = text_eq_iff u.opaque_part [] in
      let query = text_eq_iff u.raw_query [] in
      let fragment = text_eq_iff u.fragment [] in
      let raw_fragment = text_eq_iff u.raw_fragment [] in
      let raw_path = text_eq_iff u.raw_path [] in
      let path = text_eq_iff (clean u.path) u.path in
      record {
        parsed_from = p;
        trimmed = t;
        named_scheme = λ e. ground (arith, e, h);
        named_host = λ e. ground (arith, e, h, Bool-cases (text_eq u.scheme []));
        no_credentials = ground (arith, h);
        no_opaque_part = ground (arith, h, opaque);
        no_query = (ground (arith, h, query), ground (arith, h));
        no_fragment = (ground (arith, h, fragment), ground (arith, h, raw_fragment));
        no_encoded_path = ground (arith, h, raw_path);
        rooted = ground (arith, k);
        no_backslash = ground (arith, k);
        no_double_slash = ground (arith, k);
        clean_path = ground (arith, k, path);
      }

  -- The checks after the parser pass on the URL that they are made on.
  checked-IsCanonical :
      (raw : Bytes) (v u : Url)
      → parse raw ≡ some v
      → parse_canonical_url L raw ≡ ok u
      → IsCanonical raw u
  unfolding parse_canonical_url parsed
  checked-IsCanonical raw v u p h =
      let ends = Bool-cases (text_eq raw [] || not (text_eq raw (trim_space raw))) in
      let trimmed = text_eq_iff raw (trim_space raw) in
      let ambiguous = Bool-cases (is_ambiguous v) in
      let scheme =
        Bool-cases
          (not (text_eq v.scheme (codes "https")) && not (text_eq v.scheme (codes "http"))) in
      let path = Bool-cases (is_bad_path L v.path) in
      let same : v ≡ u = ground (arith, h, p, ends, ambiguous, scheme, path) in
      unambiguous-IsCanonical raw u (ground (arith, p, same)) (ground (arith, h, p, ends, trimmed))
        (ground (arith, h, p, ends, ambiguous, same))
        (ground (arith, h, p, ends, ambiguous, scheme, path, same))

  parse_canonical_url-none :
      (raw : Bytes) (u : Url)
      → parse raw ≡ none
      → parse_canonical_url L raw ≡ ok u
      → IsCanonical raw u
  unfolding parse_canonical_url parsed
  parse_canonical_url-none raw u p h =
      absurd
        (ground (arith, h, p, Bool-cases (text_eq raw [] || not (text_eq raw (trim_space raw)))))

  parse_canonical_url-IsCanonical :
      (raw : Bytes) (u : Url) → parse_canonical_url L raw ≡ ok u → IsCanonical raw u
  parse_canonical_url-IsCanonical raw u h = elim (Option-cases (parse raw)) [
    | inl p ↦ parse_canonical_url-none raw u p h
    | inr (v, p) ↦ checked-IsCanonical raw v u p h
  ]

  -- What `validate_url` checks of a canonical URL.
  pub record IsAdmitted (policy : TransportPolicy) (u : Url) : Type 0 where
    pub same_scheme : u.scheme ≡ policy.scheme
    pub same_host : to_lower u.host ≡ policy.host
    pub encrypted :
        (u.scheme ≡ codes "https")
        ⊎ ((policy.allow_loopback_http ≡ true) × (is_loopback_host L (hostname u) ≡ true))

  validate_url-checked :
      (policy : TransportPolicy) (raw : Bytes) (u : Url)
      → validate_url L policy raw ≡ ok u
      → (parse_canonical_url L raw ≡ ok u) × IsAdmitted policy u
  unfolding validate_url
  validate_url-checked policy raw u h = elim (Result-cases (parse_canonical_url L raw)) [
    | inl (v, p) ↦
        let origin =
          Bool-cases
            (not (text_eq v.scheme policy.scheme) || not (text_eq (to_lower v.host) policy.host)) in
        let secure = Bool-cases (
          not (text_eq v.scheme (codes "https"))
          && (not policy.allow_loopback_http || not (is_loopback_host L (hostname v)))) in
        let same : v ≡ u = ground (arith, h, p, origin, secure) in
        let loopback = Bool-cases (is_loopback_host L (hostname v)) in
        (
          ground (arith, p, same),
          record {
            same_scheme =
                ground (arith, h, p, origin, secure, same, text_eq_iff v.scheme policy.scheme);
            same_host =
                ground
                  (arith, h, p, origin, secure, same, text_eq_iff (to_lower v.host) policy.host);
            encrypted = ground (
              arith,
              h,
              p,
              origin,
              secure,
              loopback,
              Bool-cases policy.allow_loopback_http,
              same,
              text_eq_iff v.scheme (codes "https"),
            );
          },
        )
    | inr (e, p) ↦ absurd (ground (arith, h, p))
  ]

  -- A URL that a policy admits parses from its text, which has no spaces around it, is free of
  -- credentials, query, fragment and encoded path, has a canonical path, and is of the policy's
  -- origin; it is HTTPS, or the policy admits loopback HTTP and its host is a loopback.
  pub validate_url-IsAdmitted :
      (policy : TransportPolicy) (raw : Bytes) (u : Url)
      → validate_url L policy raw ≡ ok u
      → IsCanonical raw u × IsAdmitted policy u
  validate_url-IsAdmitted policy raw u h =
      let (canonical, admitted) = validate_url-checked policy raw u h in
      (parse_canonical_url-IsCanonical raw u canonical, admitted)

  -- A policy without loopback HTTP has the scheme HTTPS.
  new_transport_policy-https :
      (origin : Bytes) (policy : TransportPolicy)
      → new_transport_policy L origin false ≡ ok policy
      → (policy.scheme ≡ codes "https") × (policy.allow_loopback_http ≡ false)
  unfolding new_transport_policy is_refused_origin
  new_transport_policy-https origin policy h =
      elim (Result-cases (parse_canonical_url L (with_path L origin (parse origin)))) [
        | inl (v, p) ↦
            let https = Bool-cases (text_eq v.scheme (codes "https")) in
            let http = Bool-cases (text_eq v.scheme (codes "http")) in
            (
              ground (arith, h, p, https, http, text_eq_iff v.scheme (codes "https")),
              ground (arith, h, p, https, http),
            )
        | inr (e, p) ↦ absurd (ground (arith, h, p))
      ]

  -- Under a policy that was made without loopback HTTP, every admitted URL is HTTPS, at the
  -- policy's host.
  pub new_transport_policy-IsAdmitted :
      (origin raw : Bytes) (policy : TransportPolicy) (u : Url)
      → new_transport_policy L origin false ≡ ok policy
      → validate_url L policy raw ≡ ok u
      → (u.scheme ≡ codes "https") × (to_lower u.host ≡ policy.host)
  new_transport_policy-IsAdmitted origin raw policy u hp hu =
      let (https, _) = new_transport_policy-https origin policy hp in
      let (_, admitted) = validate_url-checked policy raw u hu in
      (IsAdmitted.same_scheme admitted ∙ https, IsAdmitted.same_host admitted)
