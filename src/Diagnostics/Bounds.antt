-- ===== src/Diagnostics/Bounds.antt =====
-- How long a sanitised diagnostic is, and what it is made of.
use mathlib.Core.List.{reverse, reverse-append}
use loadstrike_go.Prelude.{
  ℕ, ◌+◌, ◌-◌, ◌≤◌, ◌≡◌, ◌⊎◌, inl, inr, refl, Bool, true, false, List, [], ◌∷◌, ◌++◌, Bytes,
  trim_space, trim_left, is_space, map, leb, if◌then◌else◌, All, Bool-cases, arith,
}
use loadstrike_go.Diagnostics.{
  max_diagnostic_bytes, redact, rune_bytes, text_bytes, is_in_word, onto_word, words_of, join_words,
  cut_text, is_replaced, sanitize_diagnostic,
}

text_bytes-append : (s t : Bytes) → text_bytes (s ++ t) ≡ text_bytes s + text_bytes t
text_bytes-append [] t = omega arith
text_bytes-append (c ∷ s) t = omega (arith, text_bytes-append s t)

text_bytes-reverse : (s : Bytes) → text_bytes (reverse s) ≡ text_bytes s
text_bytes-reverse [] = refl
text_bytes-reverse (c ∷ s) =
    rw (reverse-append (c ∷ []) s)
      (omega (arith, text_bytes-append (reverse s) (c ∷ []), text_bytes-reverse s))

text_bytes-trim_left : (s : Bytes) → text_bytes (trim_left s) ≤ text_bytes s
unfolding trim_left
text_bytes-trim_left [] = omega arith
text_bytes-trim_left (c ∷ s) = elim (Bool-cases (is_space c)) [
  | inl e ↦ ground (arith, e, text_bytes-trim_left s)
  | inr e ↦ ground (arith, e)
]

text_bytes-trim_space : (s : Bytes) → text_bytes (trim_space s) ≤ text_bytes s
unfolding trim_space
text_bytes-trim_space s = omega (
  arith,
  text_bytes-reverse (trim_left (reverse (trim_left s))),
  text_bytes-trim_left (reverse (trim_left s)),
  text_bytes-reverse (trim_left s),
  text_bytes-trim_left s,
)

text_bytes-cut_text : (limit : ℕ) (s : Bytes) → text_bytes (cut_text limit s) ≤ limit
unfolding cut_text
text_bytes-cut_text limit [] = omega arith
text_bytes-cut_text limit (c ∷ s) = elim (Bool-cases (leb (rune_bytes c) limit)) [
  | inl e ↦
      let rest = text_bytes-cut_text (limit - rune_bytes c) s in
      let fits : rune_bytes c ≤ limit = ground (arith, e) in rw e (omega (arith, rest, fits))
  | inr e ↦ rw e (omega arith)
]

module _ (P : ℕ → Type 0) where
  All-append : (s t : Bytes) → All P s → All P t → All P (s ++ t)
  All-append [] t h k = k
  All-append (c ∷ s) t (p, h) k = (p, All-append s t h k)

  All-reverse : (s : Bytes) → All P s → All P (reverse s)
  All-reverse [] h = tt
  All-reverse (c ∷ s) (p, h) =
      rw (reverse-append (c ∷ []) s) (All-append (reverse s) (c ∷ []) (All-reverse s h) (p, tt))

  All-trim_left : (s : Bytes) → All P s → All P (trim_left s)
  unfolding trim_left
  All-trim_left [] h = tt
  All-trim_left (c ∷ s) (p, h) = elim (Bool-cases (is_space c)) [
    | inl e ↦ rw e (All-trim_left s h)
    | inr e ↦ rw e (p, h)
  ]

  All-trim_space : (s : Bytes) → All P s → All P (trim_space s)
  unfolding trim_space
  All-trim_space s h =
      All-reverse (trim_left (reverse (trim_left s)))
        (All-trim_left (reverse (trim_left s)) (All-reverse (trim_left s) (All-trim_left s h)))

  All-cut_text : (limit : ℕ) (s : Bytes) → All P s → All P (cut_text limit s)
  unfolding cut_text
  All-cut_text limit [] h = tt
  All-cut_text limit (c ∷ s) (p, h) = elim (Bool-cases (leb (rune_bytes c) limit)) [
    | inl e ↦ rw e (p, All-cut_text (limit - rune_bytes c) s h)
    | inr e ↦ rw e tt
  ]

  All-onto_word :
      (c : ℕ) (b : Bool) (words : List Bytes)
      → P c
      → All (λ w. All P w) words
      → All (λ w. All P w) (onto_word c b words)
  All-onto_word c true [] p h = ((p, tt), tt)
  All-onto_word c true (word ∷ words) p (w, h) = ((p, w), h)
  All-onto_word c false words p h = ((p, tt), h)

  All-words_of : (s : Bytes) → All P s → All (λ w. All P w) (words_of s)
  unfolding words_of
  All-words_of [] h = tt
  All-words_of (c ∷ s) (p, h) = elim (Bool-cases (is_space c)) [
    | inl e ↦ rw e (All-words_of s h)
    | inr e ↦ rw e (All-onto_word c (is_in_word s) (words_of s) p (All-words_of s h))
  ]

  All-join_words : (words : List Bytes) → P 32 → All (λ w. All P w) words → All P (join_words words)
  unfolding join_words
  All-join_words [] p h = tt
  All-join_words (word ∷ []) p (w, h) = w
  All-join_words (word ∷ other ∷ words) p (w, h) =
      All-append word (32 ∷ join_words (other ∷ words)) w (p, All-join_words (other ∷ words) p h)

module _ (is_format : ℕ → Bool) where
  -- A space, or a character that is neither a control or format character nor a space.
  abbrev pub IsPrintable : ℕ → Type 0
  IsPrintable c = (c ≡ 32) ⊎ (is_replaced is_format c ≡ false)

  All-spaced :
      (s : Bytes) → All IsPrintable (map (λ c. if is_replaced is_format c then 32 else c) s)
  All-spaced [] = tt
  All-spaced (c ∷ s) = elim (Bool-cases (is_replaced is_format c)) [
    | inl e ↦ rw e (inl refl, All-spaced s)
    | inr e ↦ rw e (inr e, All-spaced s)
  ]

  -- A sanitised diagnostic takes at most 4096 bytes and has no control or format character, and no
  -- space but the plain one.
  pub sanitize_diagnostic-bounded :
      (value : Bytes) (secrets : List Bytes)
      → (text_bytes (sanitize_diagnostic is_format value secrets) ≤ max_diagnostic_bytes)
        × All IsPrintable (sanitize_diagnostic is_format value secrets)
  unfolding sanitize_diagnostic
  sanitize_diagnostic-bounded value secrets =
      let joined =
        join_words (
          words_of (map (λ c. if is_replaced is_format c then 32 else c) (redact value secrets))) in
      let plain : All IsPrintable joined =
        All-join_words IsPrintable _ (inl refl)
          (All-words_of IsPrintable _ (All-spaced (redact value secrets))) in
      elim (Bool-cases (leb (text_bytes joined) max_diagnostic_bytes)) [
        | inl e ↦ rw e (ground (arith, e), plain)
        | inr e ↦ rw e (
          omega (
            arith,
            text_bytes-trim_space (cut_text max_diagnostic_bytes joined),
            text_bytes-cut_text max_diagnostic_bytes joined,
          ),
          All-trim_space IsPrintable _ (All-cut_text IsPrintable max_diagnostic_bytes joined plain),
        )
      ]
