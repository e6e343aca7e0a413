-- ===== src/Session.antt =====
-- `runtimeTrackingConsumeSession` (runtime_callback_registry.go): the events of one consumer callback,
-- kept between the polls that fetch them. A section under `s.mu` and a channel operation is one
-- function; the interleavings are in Session/World.antt.
pub mod World
pub mod Delivery
pub mod Wakeups
pub mod Tests
use loadstrike_go.Prelude.{
  ℕ, Bool, true, false, not, ◌&&◌, ◌||◌, List, [], ◌∷◌, ◌++◌, Bytes, Option, none, some,
  if◌then◌else◌,
}

-- The errors that a session hands on; `errors.Is(err, context.Canceled)` holds of the first.
pub data ConsumeError : Type 0 where
  canceled : ConsumeError
  failure : Bytes → ConsumeError

-- `wake` tells whether the channel of capacity one holds its token. `cancel` is the function that
-- `start` stores, and `canceled` whether the consumer's context was canceled by it.
pub record Session (E : Type 0) : Type 0 where
  pub started : Bool
  pub messages : List E
  pub completed : Bool
  pub error : Option ConsumeError
  pub closed : Bool
  pub has_cancel : Bool
  pub is_canceled : Bool
  pub wake : Bool

-- The result of a poll: the events, whether the consumer has ended, and its error.
pub record Batch (E : Type 0) : Type 0 where
  pub events : List E
  pub ended : Bool
  pub failed : Option ConsumeError

abbrev is_canceled_error : Option ConsumeError → Bool
is_canceled_error (some canceled) = true
is_canceled_error _ = false

abbrev is_some_error : Option ConsumeError → Bool
is_some_error none = false
is_some_error (some e) = true

module _ {E : Type 0} where
  -- `newRuntimeTrackingConsumeSession`
  unfoldable pub new_session : Session E
  new_session = record {
    started = false;
    messages = [];
    completed = false;
    error = none;
    closed = false;
    has_cancel = false;
    is_canceled = false;
    wake = false;
  }

  -- `start`: `startOnce` lets one call through, which stores `cancel` and starts the consumer.
  unfoldable pub start : Session E → Session E
  start s = if s.started then s else record s { started = true; has_cancel = true }

  -- The consumer's callback appends the event; `notify` follows outside the mutex.
  unfoldable pub append : Session E → E → Session E
  append s event = record s { messages = s.messages ++ event ∷ [] }

  -- `notify`: the token is put into the channel unless one is there.
  unfoldable pub notify : Session E → Session E
  notify s = record s { wake = true }

  -- The section after `consume` has returned.
  unfoldable pub conclude : Session E → Option ConsumeError → Session E
  conclude s result = record s {
    error = (if s.closed && is_canceled_error result then s.error else result);
    completed = true;
  }

  unfoldable pub snapshot : Session E → Session E × Batch E
  snapshot s = (
    record s { messages = [] },
    record { events = s.messages; ended = s.completed; failed = s.error },
  )

  unfoldable pub shut : Session E → Session E
  shut s = record s { closed = true; is_canceled = s.is_canceled || s.has_cancel }

  abbrev has_events : List E → Bool
  has_events [] = false
  has_events (e ∷ rest) = true

  -- `len(messages) > 0 || completed || err != nil`
  unfoldable pub is_final : Batch E → Bool
  is_final b = has_events b.events || b.ended || is_some_error b.failed
