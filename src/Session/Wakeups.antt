-- ===== src/Session/Wakeups.antt =====
-- The channel of capacity one loses no event, however many polls wait for it.
use loadstrike_go.Prelude.{
  ℕ, ◌<◌, ◌≡◌, ◌≢◌, ◌⊎◌, inl, inr, refl, ◌∙◌, true, [], some, get_elem?, set, get_elem?-in,
  get_elem?-set_self, get_elem?-set_ne, Bool-cases, arith,
}
use loadstrike_go.Session.{Session, start, append, notify, conclude, snapshot, shut, is_final}
use loadstrike_go.Session.World.{
  Poller, away, looking, selecting, World, Step, enter, emit, emit_late, signal, finish,
  last_signal, found, wait, woken, expired, abandoned, close, Reach, here, next, initial,
}

module _ {E : Type 0} where
  -- The token is in the channel, or a call of the callback is about to put it there, or a poll is about
  -- to fetch what the session keeps.
  abbrev pub IsHeard : World E → Type 0
  IsHeard w =
      ((w.session).wake ≡ true)
      ⊎ ((0 < w.notifying) ⊎ ((k : ℕ) × (get_elem? w.polls k ≡ some looking)))

  record IsAwake (w : World E) : Type 0 where
    awake : (j : ℕ) → get_elem? w.polls j ≡ some selecting → (w.session).messages ≢ [] → IsHeard w

  -- A poll that leaves the select, or starts, and looks.
  looking-IsAwake :
      (w : World E) (s : Session E) (i : ℕ) (p : Poller)
      → get_elem? w.polls i ≡ some p
      → (k : ℕ) × (get_elem? (set w.polls i looking) k ≡ some looking)
  looking-IsAwake w s i p e = (i, get_elem?-set_self w.polls i looking (get_elem?-in w.polls i p e))

  abandoned-IsAwake :
      (w : World E) (i : ℕ)
      → get_elem? w.polls i ≡ some selecting
      → IsAwake w
      → IsAwake (record w { polls = set w.polls i away })
  abandoned-IsAwake w i e inv = record {
    awake = λ j h m. elim (inv.awake i e m) [
      | inl wake ↦ inl wake
      | inr (inl n) ↦ inr (inl n)
      | inr (inr (k, l)) ↦
          let other : k ≢ i = λ same. ground (arith, same, l, e) in
          inr (inr (k, get_elem?-set_ne w.polls i k away other ∙ l))
    ];
  }

  start-messages : (s : Session E) → (start s).messages ≡ s.messages
  unfolding start
  start-messages s = ground (arith, Bool-cases s.started)

  Step-IsAwake : {w u : World E} → Step w u → IsAwake w → IsAwake u
  unfolding append notify conclude snapshot shut is_final
  Step-IsAwake {w} (enter i e) inv = record {
    awake = λ j h m. inr (inr (looking-IsAwake w w.session i away e));
  }
  Step-IsAwake {w} (emit event e) inv = record { awake = λ j h m. inr (inl (omega arith)) }
  Step-IsAwake {w} (emit_late event e) inv = record { awake = λ j h m. inr (inl (omega arith)) }
  Step-IsAwake {w} (signal e) inv = record { awake = λ j h m. inl refl }
  Step-IsAwake {w} (finish result e) inv = record { awake = inv.awake }
  Step-IsAwake {w} (last_signal e) inv = record { awake = λ j h m. inl refl }
  Step-IsAwake {w} (found i e f) inv = record { awake = λ j h m. absurd (m refl) }
  Step-IsAwake {w} (wait i e f) inv = record { awake = λ j h m. absurd (m refl) }
  Step-IsAwake {w} (woken i e f) inv = record {
    awake = λ j h m. inr (inr (looking-IsAwake w w.session i selecting e));
  }
  Step-IsAwake {w} (expired i e) inv = record { awake = λ j h m. absurd (m refl) }
  Step-IsAwake {w} (abandoned i e) inv = abandoned-IsAwake w i e inv
  Step-IsAwake {w} close inv = record { awake = inv.awake }

  initial-IsAwake : (n : ℕ) → IsAwake (initial {E = E} n)
  unfolding initial
  initial-IsAwake n = record { awake = λ j h m. absurd (m refl) }

  Reach-IsAwake : {w u : World E} → Reach w u → IsAwake w → IsAwake u
  Reach-IsAwake here inv = inv
  Reach-IsAwake (next step rest) inv = Reach-IsAwake rest (Step-IsAwake step inv)

  -- With any number of polls at once: while the session keeps an event and a poll waits in its `select`,
  -- the channel holds the token, or a call of the callback is about to put it there, or a poll is about
  -- to take a snapshot. No event is left to a timer because a token was lost.
  pub no_lost_wakeup :
      (n j : ℕ) {w : World E}
      → Reach (initial n) w
      → get_elem? w.polls j ≡ some selecting
      → (w.session).messages ≢ []
      → ((w.session).wake ≡ true)
        ⊎ ((0 < w.notifying) ⊎ ((k : ℕ) × (get_elem? w.polls k ≡ some looking)))
  no_lost_wakeup n j r e m = (Reach-IsAwake r (initial-IsAwake n)).awake j e m
