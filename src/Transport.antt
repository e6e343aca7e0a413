-- ===== src/Transport.antt =====
-- runtime_transport_security.go: which URLs the wrapper may fetch a manifest or an artifact from.
pub mod Policy
pub mod Tests
use loadstrike_go.Prelude.{
  ℕ, ◌+◌, Bool, true, false, not, ◌&&◌, ◌||◌, List, [], ◌∷◌, ◌++◌, Bytes, codes, Option, none, some,
  text_eq, has_prefix, trim_space, Result, ok, err, ◌>>=◌, ◌>>◌, reject_if, if◌then◌else◌,
}
use mathlib.Core.List.{reverse}

-- The parts of a `url.URL` that the file reads.
pub record Url : Type 0 where
  pub scheme : Bytes
  pub opaque_part : Bytes
  pub has_user : Bool
  pub host : Bytes
  pub path : Bytes
  pub raw_path : Bytes
  pub force_query : Bool
  pub raw_query : Bytes
  pub fragment : Bytes
  pub raw_fragment : Bytes

-- Functions of the standard library: `url.Parse` (`none` is an error), `URL.String`, `URL.Hostname`,
-- `path.Clean` and `strings.ToLower`.
pub record Library : Type 0 where
  pub parse : Bytes → Option Url
  pub to_text : Url → Bytes
  pub hostname : Url → Bytes
  pub clean : Bytes → Bytes
  pub to_lower : Bytes → Bytes

pub record TransportPolicy : Type 0 where
  pub scheme : Bytes
  pub host : Bytes
  pub allow_loopback_http : Bool

pub data TransportError : Type 0 where
  url_not_trimmed url_syntax url_not_canonical url_scheme url_path origin_not_https
        origin_not_allowed must_use_https no_response_url response_url_mismatch :
      TransportError

-- `strings.Contains`
unfoldable pub has_part : Bytes → Bytes → Bool
unfolding has_prefix
has_part [] part = has_prefix [] part
has_part (c ∷ text) part = has_prefix (c ∷ text) part || has_part text part

-- `strings.HasSuffix`
unfoldable pub has_suffix : Bytes → Bytes → Bool
unfolding has_prefix
has_suffix text suffix = has_prefix (reverse text) (reverse suffix)

-- The nine tests on the parts of a parsed URL.
unfoldable pub is_ambiguous : Url → Bool
unfolding text_eq
is_ambiguous u =
    text_eq u.scheme []
    || not (text_eq u.opaque_part [])
    || text_eq u.host []
    || u.has_user
    || not (text_eq u.raw_query [])
    || u.force_query
    || not (text_eq u.fragment [])
    || not (text_eq u.raw_fragment [])
    || not (text_eq u.raw_path [])

-- `ok` of a parser that gives none for an error.
unfoldable pub parsed : Option Url → Result TransportError Url
parsed none = err url_syntax
parsed (some u) = ok u

module _ (L : Library) where
  open L use {parse, to_text, hostname, clean, to_lower}

  unfoldable pub is_bad_path : Bytes → Bool
  unfolding text_eq has_prefix has_part
  is_bad_path path =
      text_eq path []
      || not (has_prefix path (codes "/"))
      || has_part path (codes "\\")
      || has_part path (codes "//")
      || not (text_eq (clean path) path)

  unfoldable pub parse_canonical_url : Bytes → Result TransportError Url
  unfolding text_eq trim_space parsed is_ambiguous is_bad_path
  parse_canonical_url raw = do
    reject_if (text_eq raw [] || not (text_eq raw (trim_space raw))) url_not_trimmed
    u ← parsed (parse raw)
    reject_if (is_ambiguous u) url_not_canonical
    reject_if (not (text_eq u.scheme (codes "https")) && not (text_eq u.scheme (codes "http")))
        url_scheme
    reject_if (is_bad_path u.path) url_path
    ok u

  unfoldable pub is_loopback_host : Bytes → Bool
  unfolding text_eq trim_space has_suffix
  is_loopback_host host =
      let normalized = to_lower (trim_space host) in
      text_eq normalized (codes "localhost")
      || text_eq normalized (codes "127.0.0.1")
      || text_eq normalized (codes "::1")
      || has_suffix normalized (codes ".localhost")

  -- The origin with a slash where its path is empty.
  unfoldable pub with_path : Bytes → Option Url → Bytes
  unfolding text_eq
  with_path origin none = origin
  with_path origin (some candidate) =
      if text_eq candidate.path [] then origin ++ codes "/" else origin

  -- The switch on the scheme of the origin.
  unfoldable pub is_refused_origin : Url → Bool → Bool
  unfolding text_eq is_loopback_host
  is_refused_origin u allow_loopback_http =
      if text_eq u.scheme (codes "https")
      then false
      else if text_eq u.scheme (codes "http")
      then not allow_loopback_http || not (is_loopback_host (hostname u))
      else true

  unfoldable pub new_transport_policy : Bytes → Bool → Result TransportError TransportPolicy
  unfolding with_path parse_canonical_url is_refused_origin
  new_transport_policy allowed_origin allow_loopback_http = do
    u ← parse_canonical_url (with_path allowed_origin (parse allowed_origin))
    reject_if (is_refused_origin u allow_loopback_http) origin_not_https
    ok (record {
      scheme = u.scheme;
      host = to_lower u.host;
      allow_loopback_http = allow_loopback_http;
    })

  -- `validateURL`, which `validateResolveURL` and `validateArtifactURL` call.
  unfoldable pub validate_url : TransportPolicy → Bytes → Result TransportError Url
  unfolding parse_canonical_url text_eq is_loopback_host
  validate_url policy raw = do
    u ← parse_canonical_url raw
    reject_if (not (text_eq u.scheme policy.scheme) || not (text_eq (to_lower u.host) policy.host))
        origin_not_allowed
    reject_if
        (not (text_eq u.scheme (codes "https"))
          && (not policy.allow_loopback_http || not (is_loopback_host (hostname u))))
        must_use_https
    ok u

  -- The URL of the request that a response ended at; `none` where it has none.
  unfoldable pub validate_response_url :
      Option Url → Url → TransportPolicy → Result TransportError (Unit {0})
  unfolding validate_url text_eq
  validate_response_url none expected policy = err no_response_url
  validate_response_url (some final) expected policy = do
    actual ← validate_url policy (to_text final)
    reject_if (not (text_eq (to_text actual) (to_text expected))) response_url_mismatch
