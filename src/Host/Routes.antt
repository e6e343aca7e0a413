-- ===== src/Host/Routes.antt =====
-- The callback addresses of `runtimeHTTPHostHandle` (runtime_http_host.go), and how its handlers read
-- the identifier and the stage out of a request's path.
pub mod RoundTrip
pub mod Tests
use mathlib.Core.List.{reverse}
use loadstrike_go.Prelude.{
  ℕ, Bool, true, false, not, ◌&&◌, ◌||◌, List, [], ◌∷◌, ◌++◌, Bytes, codes, Option, none, some,
  text_eq, trim_space, is_blank_utf8, ◌==◌, if◌then◌else◌,
}
use loadstrike_go.Manifest.Patterns.{strip_prefix}

abbrev pub slash : ℕ
slash = b'/'

module _ (base_url : Bytes) where
  unfoldable pub scenario_callback_url : Bytes → Bytes → Bytes
  unfolding codes
  scenario_callback_url id stage =
      base_url ++ (codes "/callbacks/scenario/" ++ (id ++ slash ∷ stage))

  unfoldable pub plugin_callback_url : Bytes → Bytes
  unfolding codes
  plugin_callback_url id = base_url ++ (codes "/callbacks/plugin/" ++ id)

  unfoldable pub sink_callback_url : Bytes → Bytes
  unfolding codes
  sink_callback_url id = base_url ++ (codes "/callbacks/sink/" ++ id)

  unfoldable pub policy_callback_url : Bytes → Bytes
  unfolding codes
  policy_callback_url id = base_url ++ (codes "/callbacks/policy/" ++ id)

  unfoldable pub tracking_produce_callback_url : Bytes → Bytes
  unfolding codes
  tracking_produce_callback_url id =
      base_url ++ (codes "/callbacks/tracking/" ++ (id ++ codes "/produce"))

  unfoldable pub tracking_consume_callback_url : Bytes → Bytes
  unfolding codes
  tracking_consume_callback_url id =
      base_url ++ (codes "/callbacks/tracking/" ++ (id ++ codes "/consume"))

  unfoldable pub threshold_callback_url : Bytes → Bytes
  unfolding codes
  threshold_callback_url id = base_url ++ (codes "/callbacks/threshold/" ++ id)

  unfoldable pub reporting_publish_callback_url : Bytes → Bytes
  unfolding codes
  reporting_publish_callback_url id = base_url ++ (codes "/callbacks/reporting-publish/" ++ id)

  unfoldable pub observation_cancellation_callback_url : Bytes → Bytes
  unfolding codes
  observation_cancellation_callback_url id =
      base_url ++ (codes "/callbacks/observation-cancellation/" ++ id)

-- `strings.TrimPrefix(path, prefix)`
unfoldable pub trim_prefix : Bytes → Bytes → Bytes
unfolding strip_prefix
trim_prefix path prefix = elim (strip_prefix prefix path) [ none ↦ path | some rest ↦ rest ]

-- `strings.Trim(s, "/")`
unfoldable pub trim_left_slashes : Bytes → Bytes
trim_left_slashes [] = []
trim_left_slashes (c ∷ s) = let rest = trim_left_slashes s in if c == slash then rest else c ∷ s

unfoldable pub trim_slashes : Bytes → Bytes
unfolding trim_left_slashes
trim_slashes s = reverse (trim_left_slashes (reverse (trim_left_slashes s)))

-- `strings.Split(s, "/")`; the first part grows to the left.
abbrev pub onto_first : ℕ → List Bytes → List Bytes
onto_first c [] = (c ∷ []) ∷ []
onto_first c (part ∷ parts) = (c ∷ part) ∷ parts

unfoldable pub split_slashes : Bytes → List Bytes
split_slashes [] = [] ∷ []
split_slashes (c ∷ s) =
    let parts = split_slashes s in if c == slash then [] ∷ parts else onto_first c parts

unfoldable pub contains_slash : Bytes → Bool
contains_slash [] = false
contains_slash (c ∷ s) = c == slash || contains_slash s

-- The test of the parts in `runtimeCallbackPathParts`.
unfoldable pub two_parts : List Bytes → Option (Bytes × Bytes)
unfolding is_blank_utf8
two_parts (first ∷ second ∷ []) =
    if is_blank_utf8 first || is_blank_utf8 second then none else some (first, second)
two_parts [] = none
two_parts (first ∷ []) = none
two_parts (first ∷ second ∷ third ∷ parts) = none

-- `runtimeCallbackPathParts`
unfoldable pub path_parts : Bytes → Bytes → Option (Bytes × Bytes)
unfolding trim_prefix trim_slashes split_slashes two_parts
path_parts path prefix = two_parts (split_slashes (trim_slashes (trim_prefix path prefix)))

-- The identifier of a threshold or of a reporting publisher in a path; `none` is not found.
unfoldable pub single_id : Bytes → Bytes → Option Bytes
unfolding trim_prefix trim_slashes contains_slash text_eq
single_id path prefix =
    let id = trim_slashes (trim_prefix path prefix) in
    if text_eq id [] || contains_slash id then none else some id

-- The characters of the Go literal in `strings.ContainsAny(id, ...)`: a slash and a backslash.
unfoldable pub contains_separator : Bytes → Bool
contains_separator [] = false
contains_separator (c ∷ s) = c == slash || c == 92 || contains_separator s

-- The identifier of an observation cancellation in a path.
unfoldable pub observation_id : Bytes → Bytes → Option Bytes
unfolding trim_prefix contains_separator text_eq trim_space
observation_id path prefix =
    let id = trim_prefix path prefix in
    if text_eq id path || text_eq id [] || not (text_eq id (trim_space id)) || contains_separator id
    then none
    else some id
