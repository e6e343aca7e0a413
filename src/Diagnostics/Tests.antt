-- ===== src/Diagnostics/Tests.antt =====
-- A diagnostic with a secret, a tab and two spaces.
use loadstrike_go.Prelude.{
  ℕ, ◌≤◌, ◌≡◌, refl, Bool, false, [], ◌∷◌, ◌++◌, Bytes, codes, text_eq, has_prefix, is_space, All,
}
use loadstrike_go.Diagnostics.{
  max_diagnostic_bytes, text_bytes, replace_from, redact, words_of, join_words, is_replaced,
  sanitize_diagnostic,
}
use loadstrike_go.Diagnostics.Bounds.{IsPrintable, sanitize_diagnostic-bounded}

abbrev no_format : ℕ → Bool
no_format c = false

abbrev message : Bytes
message = codes "key" ++ 9 ∷ codes "sesame  failed"

sanitized :
    sanitize_diagnostic no_format message (codes "sesame" ∷ []) ≡ codes "key [REDACTED] failed"
unfolding sanitize_diagnostic redact replace_from is_replaced words_of join_words is_space text_eq
    has_prefix codes
sanitized = refl

sanitize_diagnostic-bounded_example :
    (text_bytes (sanitize_diagnostic no_format message (codes "sesame" ∷ []))
      ≤ max_diagnostic_bytes)
    × All (IsPrintable no_format) (sanitize_diagnostic no_format message (codes "sesame" ∷ []))
sanitize_diagnostic-bounded_example =
    sanitize_diagnostic-bounded no_format message (codes "sesame" ∷ [])
