-- ===== src/Transport/Tests.antt =====
-- A policy for one origin, under a parser that knows three texts.
use loadstrike_go.Prelude.{
  ◌≡◌, refl, false, [], ◌++◌, Bytes, codes, none, some, text_eq, has_prefix, is_space, trim_left,
  trim_space, ok, err, if◌then◌else◌,
}
use loadstrike_go.Transport.{
  Url, Library, TransportPolicy, has_part, is_ambiguous, parsed, is_bad_path, parse_canonical_url,
  with_path, is_refused_origin, new_transport_policy, validate_url, origin_not_https,
}
use loadstrike_go.Transport.Policy.{
  IsCanonical, IsAdmitted, validate_url-IsAdmitted, new_transport_policy-IsAdmitted,
}

abbrev url_at : Bytes → Bytes → Url
url_at scheme path = record {
  scheme = scheme;
  opaque_part = [];
  has_user = false;
  host = codes "a.com";
  path = path;
  raw_path = [];
  force_query = false;
  raw_query = [];
  fragment = [];
  raw_fragment = [];
}

abbrev origin : Bytes
origin = codes "https://a.com"

abbrev artifact : Bytes
artifact = codes "https://a.com/x"

-- The text of a URL is told by its path.
abbrev library : Library
library = record {
  parse = λ raw.
      if text_eq raw origin
      then some (url_at (codes "https") [])
      else if text_eq raw (codes "https://a.com/")
      then some (url_at (codes "https") (codes "/"))
      else if text_eq raw artifact
      then some (url_at (codes "https") (codes "/x"))
      else if text_eq raw (codes "http://a.com/")
      then some (url_at (codes "http") (codes "/"))
      else none;
  to_text = λ u. codes "https://a.com" ++ u.path;
  hostname = λ u. u.host;
  clean = λ path. path;
  to_lower = λ t. t;
}

abbrev policy : TransportPolicy
policy = record { scheme = codes "https"; host = codes "a.com"; allow_loopback_http = false }

makes_policy : (new_transport_policy library origin false ≡ ok policy)
unfolding new_transport_policy with_path parse_canonical_url parsed is_ambiguous is_bad_path
    has_part has_prefix is_refused_origin trim_space trim_left is_space text_eq codes
makes_policy = refl

admits : (validate_url library policy artifact ≡ ok (url_at (codes "https") (codes "/x")))
unfolding validate_url parse_canonical_url parsed is_ambiguous is_bad_path has_part has_prefix
    trim_space trim_left is_space text_eq codes
admits = refl

refuses_http : (new_transport_policy library (codes "http://a.com/") false ≡ err origin_not_https)
unfolding new_transport_policy with_path parse_canonical_url parsed is_ambiguous is_bad_path
    has_part has_prefix is_refused_origin trim_space trim_left is_space text_eq codes
refuses_http = refl

new_transport_policy-IsAdmitted_example :
    (codes "https" ≡ codes "https") × (codes "a.com" ≡ codes "a.com")
new_transport_policy-IsAdmitted_example =
    new_transport_policy-IsAdmitted library origin artifact policy
      (url_at (codes "https") (codes "/x")) makes_policy admits

validate_url-IsAdmitted_example :
    IsCanonical library artifact (url_at (codes "https") (codes "/x"))
    × IsAdmitted library policy (url_at (codes "https") (codes "/x"))
validate_url-IsAdmitted_example =
    validate_url-IsAdmitted library policy artifact (url_at (codes "https") (codes "/x")) admits
