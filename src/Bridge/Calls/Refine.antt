-- ===== src/Bridge/Calls/Refine.antt =====
-- A call that runs alone is a run of one thread of Bridge/World.antt, section by section.
use loadstrike_go.Prelude.{
  ℕ, ◌≡◌, refl, sym, ◌∙◌, inl, inr, ap, Bool, true, false, List, [], ◌∷◌, Bytes, none, some,
  get_elem?, set, Result, ok, err, arith, set-set, set-get_elem?, get_elem?-set_self, get_elem?-in,
  Option-cases,
}
use loadstrike_go.Bridge.{InstanceKey, Bridge, admit, is_admitted}
use loadstrike_go.Bridge.World.{
  World, Phase, idle, waiting, running, releasing, use_instance, clean_instance, Act, start, lock,
  accept, write, finish, clear, retire, unlock, leave, put, owner_of, values_of,
}
use loadstrike_go.Bridge.Trace.{
  Section, starts, locks, accepts, writes, finishes, clears, retires, unlocks, leaves, section_of,
  Trace, done, onward,
}
use loadstrike_go.Bridge.Calls.{
  release, lock_admitted, admit_instance, use_admitted, with_instance, clean_after, clean_admitted,
}
use loadstrike_go.Bridge.Calls
use loadstrike_go.Bridge.Calls.Retire.{is_gone, gone-refused}
use loadstrike_go.Bridge.Calls.Entry.{IsFree, IsLetIn, admit-IsLetIn, admit-gone_none, data_of}

-- What a call answers, of an instance that is gone or not.
unfoldable pub answer : {E A : Type 0} → E → Bool → Result E A → Result E A
answer gone true result = err gone
answer gone false result = result

module _ {V : Type 0} where
  -- The sections of a call of `withInstance` that runs alone, of an instance that is gone or not, whose
  -- callback leaves the values given.
  unfoldable pub use_sections : Bool → List (Bytes × V) → List (Section V)
  use_sections true values = []
  use_sections false values =
      starts use_instance ∷ locks ∷ accepts ∷ writes values ∷ finishes ∷ unlocks ∷ leaves ∷ []

  module _ {E A : Type 0} where
    -- Those at the end of `cleanInstance`: only a callback without an error retires the instance.
    unfoldable pub end_sections : Result E A → List (Section V)
    end_sections (err e) = finishes ∷ unlocks ∷ leaves ∷ []
    end_sections (ok result) = clears ∷ retires ∷ unlocks ∷ leaves ∷ []

    unfoldable pub clean_sections : Bool → List (Bytes × V) → Result E A → List (Section V)
    unfolding end_sections
    clean_sections true values result = []
    clean_sections false values result =
        starts clean_instance ∷ locks ∷ accepts ∷ writes values ∷ end_sections result

module _ {V : Type 0} (w : World V) (i : ℕ) (h : get_elem? w.threads i ≡ some idle) where
  -- The world when thread i stands at a phase.
  abbrev At : Phase → Bridge V → World V
  At p s = record w { bridge = s; threads = set w.threads i p }

  -- A section of thread i, and what follows it.
  after :
      {p q : Phase} {s t : Bridge V} {v : World V} {sections : List (Section V)}
      → (act : Act i s p q t) → Trace i (At q t) sections v
      → Trace i (At p s) (section_of act ∷ sections) v
  after {p} {q} {s} {t} act rest =
      let e = set-set w.threads i p q in
      onward (get_elem?-set_self w.threads i p (get_elem?-in w.threads i idle h)) act (rw (e) rest)

  release-Trace :
      (s : Bridge V) (a : ℕ)
      → Trace i (At (releasing a) s) (unlocks ∷ leaves ∷ []) (record w { bridge = release s a })
  unfolding release section_of
  release-Trace s a =
      let e = set-get_elem? w.threads i idle h in after unlock (after leave (rw (e) done))

  as_told :
      {l m : List (Section V)} {s t : Bridge V}
      → l ≡ m
      → s ≡ t
      → Trace i w l (record w { bridge = s })
      → Trace i w m (record w { bridge = t })
  as_told e f r = rw (sym e, sym f) r

  module _ {E A : Type 0} (gone : E)
      (invoke : List (Bytes × V) → List (Bytes × V) × Result E A) where
    use_admitted-Trace :
        (t : Bridge V) (key : InstanceKey) (a : ℕ)
        → owner_of t a ≡ none
        → is_admitted (put t a (some i) (values_of t a)) key a ≡ true
        → (let held = put t a (some i) (values_of t a) in
            Trace i
              (At (waiting use_instance key a) t)
              (locks
                ∷ accepts
                ∷ writes (invoke (values_of held a)).0
                ∷ finishes
                ∷ unlocks
                ∷ leaves
                ∷ [])
              (record w { bridge = (use_admitted gone i invoke (held, ok a)).0 }))
    unfolding use_admitted section_of
    use_admitted-Trace t key a free m =
        after (lock free) (after (accept m) (after (write _) (after finish (release-Trace _ a))))

    clean_after-Trace :
        (t : Bridge V) (key : InstanceKey) (a : ℕ) (r : Result E A)
        → Trace i
            (At (running clean_instance key a) t)
            (end_sections r)
            (record w { bridge = (clean_after gone i invoke t key a r).0 })
    unfolding clean_after section_of end_sections
    clean_after-Trace t key a (err e) = after finish (release-Trace t a)
    clean_after-Trace t key a (ok result) = after clear (after retire (release-Trace _ a))

    clean_admitted-Trace :
        (t : Bridge V) (key : InstanceKey) (a : ℕ)
        → owner_of t a ≡ none
        → is_admitted (put t a (some i) (values_of t a)) key a ≡ true
        → (let held = put t a (some i) (values_of t a) in
            let (values, result) = invoke (values_of held a) in
            Trace i
              (At (waiting clean_instance key a) t)
              (locks ∷ accepts ∷ writes values ∷ end_sections result)
              (record w { bridge = (clean_admitted gone i invoke key (held, ok a)).0 }))
    unfolding clean_admitted section_of
    clean_admitted-Trace t key a free m =
        after (lock free) (after (accept m) (after (write _) (clean_after-Trace _ key a _)))

    clean_after-result :
        (t : Bridge V) (key : InstanceKey) (a : ℕ) (r : Result E A)
        → (clean_after gone i invoke t key a r).1 ≡ r
    unfolding clean_after
    clean_after-result t key a (err e) = refl
    clean_after-result t key a (ok result) = refl

    -- A call of an instance that a thread is let in to.
    let_in-Trace :
        (key : InstanceKey) (t : Bridge V) (a : ℕ)
        → admit w.bridge key ≡ some (t, a)
        → IsLetIn w.bridge t key a i
        → (let (values, result) = invoke (data_of w.bridge key) in
            Trace i w
              (use_sections (is_gone w.bridge key) values)
              (record w { bridge = (Calls.with_instance gone i invoke w.bridge key).0 })
            × Trace i w
                (clean_sections (is_gone w.bridge key) values result)
                (record w { bridge = (Calls.clean_instance gone i invoke w.bridge key).0 })
            × ((Calls.with_instance gone i invoke w.bridge key).1
                ≡ answer gone (is_gone w.bridge key) result)
            × ((Calls.clean_instance gone i invoke w.bridge key).1
                ≡ answer gone (is_gone w.bridge key) result))
    unfolding Calls.with_instance Calls.clean_instance admit_instance lock_admitted use_sections
        clean_sections section_of answer use_admitted clean_admitted
    let_in-Trace key t a p l =
        let held = put t a (some i) (values_of t a) in
        let inside : admit_instance gone i w.bridge key ≡ (held, ok a) =
          ground (arith, p, l.admitted) in
        let used = ap (use_admitted gone i invoke) inside in
        let cleaned = ap (clean_admitted gone i invoke key) inside in
        let call = invoke (values_of held a) in
        let same_call : call ≡ invoke (data_of w.bridge key) = ap invoke l.same_data in
        (
          as_told (rw (l.here_still, ← same_call) refl) (sym (ap (λ b. b.0) used))
              (onward h (start p) (use_admitted-Trace t key a l.free l.admitted)),
          as_told (rw (l.here_still, ← same_call) refl) (sym (ap (λ b. b.0) cleaned))
              (onward h (start p) (clean_admitted-Trace t key a l.free l.admitted)),
          ap (λ b. b.1) used ∙ rw (l.here_still, ← same_call) refl,
          ap (λ b. b.1) cleaned
              ∙ clean_after-result (put held a (some i) call.0) key a call.1
              ∙ rw (l.here_still, ← same_call) refl,
        )

    gone-Trace :
        (key : InstanceKey)
        → admit w.bridge key ≡ none
        → (let (values, result) = invoke (data_of w.bridge key) in
            Trace i w
              (use_sections (is_gone w.bridge key) values)
              (record w { bridge = (Calls.with_instance gone i invoke w.bridge key).0 })
            × Trace i w
                (clean_sections (is_gone w.bridge key) values result)
                (record w { bridge = (Calls.clean_instance gone i invoke w.bridge key).0 })
            × ((Calls.with_instance gone i invoke w.bridge key).1
                ≡ answer gone (is_gone w.bridge key) result)
            × ((Calls.clean_instance gone i invoke w.bridge key).1
                ≡ answer gone (is_gone w.bridge key) result))
    unfolding use_sections clean_sections answer
    gone-Trace key p =
        let away : is_gone w.bridge key ≡ true = admit-gone_none w.bridge key p in
        let (used, cleaned) = gone-refused gone i invoke w.bridge key away in
        rw (away, used, cleaned) (done, done, refl, refl)

    -- A call of `withInstance`, and one of `cleanInstance`, by a thread that is in no call, on a key
    -- whose instance nobody holds, with nobody in between, takes exactly these sections of the threads'
    -- steps and ends in the state that they lead to. If the instance is gone: none, and the call answers
    -- so. Else: the start of that operation, the mutex, the admission, the callback on the instance's
    -- data; then for `cleanInstance` after no error the data is cleared and the instance retired; at
    -- the end the mutex is released and the call counted off. It answers what the callback does.
    pub calls-Trace :
        (key : InstanceKey)
        → IsFree w.bridge key
        → (let (values, result) = invoke (data_of w.bridge key) in
            Trace i w
              (use_sections (is_gone w.bridge key) values)
              (record w { bridge = (Calls.with_instance gone i invoke w.bridge key).0 })
            × Trace i w
                (clean_sections (is_gone w.bridge key) values result)
                (record w { bridge = (Calls.clean_instance gone i invoke w.bridge key).0 })
            × ((Calls.with_instance gone i invoke w.bridge key).1
                ≡ answer gone (is_gone w.bridge key) result)
            × ((Calls.clean_instance gone i invoke w.bridge key).1
                ≡ answer gone (is_gone w.bridge key) result))
    calls-Trace key free = elim (Option-cases (admit w.bridge key)) [
      | inl p ↦ gone-Trace key p
      | inr ((t, a), p) ↦ let_in-Trace key t a p (admit-IsLetIn w.bridge t key a i free p)
    ]
