-- ===== src/Session/World.antt =====
-- The consumer, the polls and the closer of one session (runtime_callback_registry.go), as steps. Any
-- number of requests poll the session at once, and the consumer may call its callback from several
-- goroutines, also after it has returned.
use loadstrike_go.Prelude.{
  ℕ, ◌+◌, ◌-◌, ◌<◌, ◌≡◌, Bool, true, false, ◌||◌, List, [], ◌∷◌, ◌++◌, Option, some, get_elem?, set,
  replicate,
}
use loadstrike_go.Session.{
  ConsumeError, Session, new_session, start, append, notify, conclude, snapshot, shut, is_final,
}

-- The goroutine of `start`: not there yet, in `consume`, between the last section and its `notify`, and
-- gone.
pub data Consumer : Type 0 where
  resting receiving concluding gone : Consumer

-- `poll`: outside of it, before `snapshot` in the loop, and in the `select`.
pub data Poller : Type 0 where
  away looking selecting : Poller

-- `notifying` counts the calls of the callback between their append and their `notify`. `produced`
-- records what the callback was given before `consume` returned, and `late` what it was given after;
-- `delivered` what the polls fetched, in the order of their snapshots, and `reported` that one of them
-- returned that the consumer has ended.
pub record World (E : Type 0) : Type 0 where
  pub session : Session E
  pub consumer : Consumer
  pub notifying : ℕ
  pub polls : List Poller
  pub produced : List E
  pub late : List E
  pub delivered : List E
  pub reported : Bool

abbrev pub begin_consuming : Consumer → Consumer
begin_consuming resting = receiving
begin_consuming c = c

-- `consume` has returned.
abbrev pub is_over : Consumer → Bool
is_over concluding = true
is_over gone = true
is_over c = false

module _ {E : Type 0} where
  -- Poll i returns the batch of a snapshot.
  abbrev pub return_batch : World E → ℕ → World E
  return_batch w i =
      let (s, b) = snapshot w.session in
      record w {
        session = s;
        polls = set w.polls i away;
        delivered = w.delivered ++ b.events;
        reported = w.reported || b.ended;
      }

  pub data Step (w : World E) : World E → Type 0 where
    enter :
        (i : ℕ)
        → get_elem? w.polls i ≡ some away
        → Step w (record w {
          session = start w.session;
          consumer = begin_consuming w.consumer;
          polls = set w.polls i looking;
        })
    -- The callback appends an event, while `consume` runs or after it.
    emit :
        (event : E)
        → w.consumer ≡ receiving
        → Step w (record w {
          session = append w.session event;
          notifying = w.notifying + 1;
          produced = w.produced ++ event ∷ [];
        })
    emit_late :
        (event : E)
        → is_over w.consumer ≡ true
        → Step w (record w {
          session = append w.session event;
          notifying = w.notifying + 1;
          late = w.late ++ event ∷ [];
        })
    signal :
        0 < w.notifying
        → Step w (record w { session = notify w.session; notifying = w.notifying - 1 })
    finish :
        (result : Option ConsumeError)
        → w.consumer ≡ receiving
        → Step w (record w { session = conclude w.session result; consumer = concluding })
    last_signal :
        w.consumer ≡ concluding → Step w (record w { session = notify w.session; consumer = gone })
    -- The loop finds something, and returns it.
    found :
        (i : ℕ)
        → get_elem? w.polls i ≡ some looking
        → is_final (snapshot w.session).1 ≡ true
        → Step w (return_batch w i)
    -- It finds nothing, and goes into the `select`.
    wait :
        (i : ℕ)
        → get_elem? w.polls i ≡ some looking
        → is_final (snapshot w.session).1 ≡ false
        → Step w (record w { session = (snapshot w.session).0; polls = set w.polls i selecting })
    -- `<-s.wake`
    woken :
        (i : ℕ)
        → get_elem? w.polls i ≡ some selecting
        → (w.session).wake ≡ true
        → Step w (record w {
          session = record (w.session) { wake = false };
          polls = set w.polls i looking;
        })
    -- `<-timer.C`
    expired : (i : ℕ) → get_elem? w.polls i ≡ some selecting → Step w (return_batch w i)
    -- `<-ctx.Done()`
    abandoned :
        (i : ℕ)
        → get_elem? w.polls i ≡ some selecting
        → Step w (record w { polls = set w.polls i away })
    close : Step w (record w { session = shut w.session })

  pub data Reach : World E → World E → Type 0 where
    here : {w : World E} → Reach w w
    next : {u v w : World E} → Step u v → Reach v w → Reach u w

  -- A new session, and n requests that may poll it.
  unfoldable pub initial : ℕ → World E
  unfolding new_session
  initial n = record {
    session = new_session;
    consumer = resting;
    notifying = 0;
    polls = replicate n away;
    produced = [];
    late = [];
    delivered = [];
    reported = false;
  }
