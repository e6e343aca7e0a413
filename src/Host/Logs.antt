-- ===== src/Host/Logs.antt =====
-- `runtimeCallbackLogBuffer` (runtime_http_host.go): the log entries that one callback writes.
use mathlib.Core.List.{append-nil, append_assoc}
use loadstrike_go.Prelude.{
  ℕ, ◌+◌, ◌≤◌, ◌≡◌, ◌↔◌, inl, inr, refl, true, not, ◌||◌, List, [], ◌∷◌, ◌++◌, Bytes, Option, none,
  some, length, length-append, All, is_valid_utf8, ltb, leb, if◌then◌else◌, Result, ok, err,
  Bool-cases, Option-cases, arith,
}

pub data LogError : Type 0 where
  limit_exceeded invalid_utf8 : LogError

pub record CallbackLog : Type 0 where
  pub level : Bytes
  pub message : Bytes

pub record LogBuffer : Type 0 where
  pub logs : List CallbackLog
  pub aggregate_bytes : ℕ
  pub error : Option LogError

abbrev pub maximum_log_count : ℕ
maximum_log_count = 1000

abbrev pub maximum_log_bytes : ℕ
maximum_log_bytes = 262144

unfoldable pub new_log_buffer : LogBuffer
new_log_buffer = record { logs = []; aggregate_bytes = 0; error = none }

abbrev pub entry_bytes : CallbackLog → ℕ
entry_bytes entry = length entry.level + length entry.message

-- What follows `if b.err != nil`.
unfoldable pub append_checked : LogBuffer → CallbackLog → LogBuffer
unfolding is_valid_utf8
append_checked b entry =
    if not (is_valid_utf8 entry.level) || not (is_valid_utf8 entry.message)
    then record b { error = some invalid_utf8 }
    else if leb maximum_log_count (length b.logs)
        || ltb maximum_log_bytes (b.aggregate_bytes + entry_bytes entry)
    then record b { error = some limit_exceeded }
    else record b {
      logs = b.logs ++ entry ∷ [];
      aggregate_bytes = b.aggregate_bytes + entry_bytes entry;
    }

unfoldable pub append_log : LogBuffer → CallbackLog → LogBuffer
unfolding append_checked
append_log b entry = elim b.error [ some e ↦ b | none ↦ append_checked b entry ]

unfoldable pub log_result : LogBuffer → Result LogError (List CallbackLog)
log_result b = elim b.error [ some e ↦ err e | none ↦ ok b.logs ]

-- The buffer after a callback wrote some entries, in their order.
unfoldable pub append_logs : LogBuffer → List CallbackLog → LogBuffer
unfolding append_log
append_logs b [] = b
append_logs b (entry ∷ entries) = append_logs (append_log b entry) entries

abbrev pub total_bytes : List CallbackLog → ℕ
total_bytes [] = 0
total_bytes (entry ∷ entries) = entry_bytes entry + total_bytes entries

abbrev pub IsText : CallbackLog → Type 0
IsText entry = (is_valid_utf8 entry.level ≡ true) × (is_valid_utf8 entry.message ≡ true)

append_log-failed :
    (entries : List CallbackLog) (b : LogBuffer) (e : LogError)
    → b.error ≡ some e
    → (append_logs b entries).error ≡ some e
unfolding append_logs append_log
append_log-failed [] b e h = h
append_log-failed (entry ∷ entries) b e h =
    append_log-failed entries (append_log b entry) e (ground (arith, h))

-- An entry is taken exactly where it is a text and leaves the buffer within its bounds.
append_log-taken :
    (b : LogBuffer) (entry : CallbackLog)
    → b.error ≡ none
    → (append_log b entry).error ≡ none
    → IsText entry
      × (length b.logs + 1 ≤ maximum_log_count)
      × (b.aggregate_bytes + entry_bytes entry ≤ maximum_log_bytes)
      × ((append_log b entry).logs ≡ b.logs ++ entry ∷ [])
      × ((append_log b entry).aggregate_bytes ≡ b.aggregate_bytes + entry_bytes entry)
unfolding append_log append_checked
append_log-taken b entry h k =
    let level = Bool-cases (is_valid_utf8 entry.level) in
    let message = Bool-cases (is_valid_utf8 entry.message) in
    let many = Bool-cases (leb maximum_log_count (length b.logs)) in
    let large = Bool-cases (ltb maximum_log_bytes (b.aggregate_bytes + entry_bytes entry)) in
    (
      (ground (arith, h, k, level, message), ground (arith, h, k, level, message)),
      ground (arith, h, k, level, message, many, large),
      ground (arith, h, k, level, message, many, large),
      ground (arith, h, k, level, message, many, large),
      ground (arith, h, k, level, message, many, large),
    )

append_logs-ok :
    (entries : List CallbackLog) (b : LogBuffer) (logs : List CallbackLog)
    → b.error ≡ none
    → length b.logs ≤ maximum_log_count
    → b.aggregate_bytes ≤ maximum_log_bytes
    → log_result (append_logs b entries) ≡ ok logs
    → (logs ≡ b.logs ++ entries)
      × All IsText entries
      × (length b.logs + length entries ≤ maximum_log_count)
      × (b.aggregate_bytes + total_bytes entries ≤ maximum_log_bytes)
unfolding append_logs log_result
append_logs-ok [] b logs clean few small h =
    (ground (arith, clean, h, append-nil b.logs), tt, omega (arith, few), omega (arith, small))
append_logs-ok (entry ∷ entries) b logs clean few small h =
    elim (Option-cases (append_log b entry).error) [
      | inr (e, p) ↦ absurd (ground (arith, h, append_log-failed entries (append_log b entry) e p))
      | inl p ↦
          let (is_text, count, bytes, same, sum) = append_log-taken b entry clean p in
          let now : length (append_log b entry).logs ≡ length b.logs + 1 =
            rw same (length-append b.logs (entry ∷ [])) in
          let (all, texts, n, m) =
            append_logs-ok entries (append_log b entry) logs p (omega (arith, now, count))
              (omega (arith, sum, bytes)) h in
          (
            ground (arith, all, same, append_assoc b.logs (entry ∷ []) entries),
            (is_text, texts),
            omega (arith, now, n),
            omega (arith, sum, m),
          )
    ]

append_logs-fits :
    (entries : List CallbackLog) (b : LogBuffer)
    → b.error ≡ none
    → All IsText entries
    → length b.logs + length entries ≤ maximum_log_count
    → b.aggregate_bytes + total_bytes entries ≤ maximum_log_bytes
    → log_result (append_logs b entries) ≡ ok (b.logs ++ entries)
unfolding append_logs log_result append_log append_checked
append_logs-fits [] b clean texts n m = ground (arith, clean, append-nil b.logs)
append_logs-fits (entry ∷ entries) b clean ((level, message), texts) n m =
    let taken : append_log b entry ≡ record b {
      logs = b.logs ++ entry ∷ [];
      aggregate_bytes = b.aggregate_bytes + entry_bytes entry;
    } =
      ground (arith, clean, level, message, n, m) in
    let rest =
      append_logs-fits entries
        (record b {
          logs = b.logs ++ entry ∷ [];
          aggregate_bytes = b.aggregate_bytes + entry_bytes entry;
        })
        clean texts (omega (arith, n, length-append b.logs (entry ∷ []))) (omega (arith, m)) in
    ground (arith, taken, rest, append_assoc b.logs (entry ∷ []) entries)

-- What a callback logged is reported whole and in order, or not at all: it is reported exactly where
-- every entry is valid UTF-8, they are at most 1000, and their texts take at most 256 KiB.
pub append_logs_iff :
    (entries logs : List CallbackLog)
    → (log_result (append_logs new_log_buffer entries) ≡ ok logs) ↔ (
        (logs ≡ entries)
        × All IsText entries
        × (length entries ≤ maximum_log_count)
        × (total_bytes entries ≤ maximum_log_bytes))
unfolding new_log_buffer
append_logs_iff entries logs = (
  λ h.
      let (same, texts, n, m) =
        append_logs-ok entries new_log_buffer logs refl (omega arith) (omega arith) h in
      (same, texts, omega (arith, n), omega (arith, m)),
  λ (same, texts, n, m).
      rw same
        (append_logs-fits entries new_log_buffer refl texts (omega (arith, n)) (omega (arith, m))),
)
