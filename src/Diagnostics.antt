-- ===== src/Diagnostics.antt =====
-- `sanitizeRuntimeDiagnostic` (runtime_diagnostics.go), on a text given by its code points.
pub mod Bounds
pub mod Tests
use loadstrike_go.Prelude.{
  ℕ, zero, suc, ◌+◌, ◌-◌, Bool, true, false, not, ◌&&◌, ◌||◌, List, [], ◌∷◌, ◌++◌, Bytes, codes,
  text_eq, has_prefix, trim_space, is_space, length, map, ltb, leb, if◌then◌else◌,
}

abbrev pub max_diagnostic_bytes : ℕ
max_diagnostic_bytes = 4096

-- `strings.ReplaceAll(s, secret, redacted)`; the number counts the characters of a match that are left.
unfoldable pub replace_from : Bytes → ℕ → Bytes → Bytes
unfolding has_prefix codes
replace_from secret skip [] = []
replace_from secret (suc skip) (c ∷ s) = replace_from secret skip s
replace_from secret zero (c ∷ s) = elim (has_prefix (c ∷ s) secret) [
  | true ↦ codes "[REDACTED]" ++ replace_from secret (length secret - 1) s
  | false ↦ c ∷ replace_from secret zero s
]

-- The loop over the secrets.
unfoldable pub redact : Bytes → List Bytes → Bytes
unfolding replace_from text_eq
redact value [] = value
redact value (secret ∷ secrets) =
    redact (if not (text_eq secret []) then replace_from secret 0 value else value) secrets

-- The bytes of a code point in UTF-8.
abbrev pub rune_bytes : ℕ → ℕ
rune_bytes c = if ltb c 128 then 1 else if ltb c 2048 then 2 else if ltb c 65536 then 3 else 4

abbrev pub text_bytes : Bytes → ℕ
text_bytes [] = 0
text_bytes (c ∷ s) = rune_bytes c + text_bytes s

-- `strings.Fields`: the words between spaces.
abbrev pub is_in_word : Bytes → Bool
is_in_word [] = false
is_in_word (c ∷ s) = not (is_space c)

abbrev pub onto_word : ℕ → Bool → List Bytes → List Bytes
onto_word c true (word ∷ words) = (c ∷ word) ∷ words
onto_word c true [] = (c ∷ []) ∷ []
onto_word c false words = (c ∷ []) ∷ words

unfoldable pub words_of : Bytes → List Bytes
unfolding is_space
words_of [] = []
words_of (c ∷ s) =
    let words = words_of s in if is_space c then words else onto_word c (is_in_word s) words

-- `strings.Join(words, " ")`
unfoldable pub join_words : List Bytes → Bytes
join_words [] = []
join_words (word ∷ []) = word
join_words (word ∷ other ∷ words) = word ++ 32 ∷ join_words (other ∷ words)

-- The longest beginning of whole code points within a number of bytes.
unfoldable pub cut_text : ℕ → Bytes → Bytes
cut_text limit [] = []
cut_text limit (c ∷ s) =
    let rest = cut_text (limit - rune_bytes c) s in
    if leb (rune_bytes c) limit then c ∷ rest else []

-- `is_format` is `unicode.Is(unicode.Cf, character)`.
module _ (is_format : ℕ → Bool) where
  unfoldable pub is_replaced : ℕ → Bool
  unfolding is_space
  is_replaced c = leb c 31 || (leb 127 c && leb c 159) || is_format c || is_space c

  unfoldable pub sanitize_diagnostic : Bytes → List Bytes → Bytes
  unfolding redact is_replaced words_of join_words cut_text trim_space
  sanitize_diagnostic value secrets =
      let spaced = map (λ c. if is_replaced c then 32 else c) (redact value secrets) in
      let joined = join_words (words_of spaced) in
      if leb (text_bytes joined) max_diagnostic_bytes
      then joined
      else trim_space (cut_text max_diagnostic_bytes joined)
