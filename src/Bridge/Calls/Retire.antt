-- ===== src/Bridge/Calls/Retire.antt =====
-- After `cleanInstance` has returned without an error, the instance is gone for every later call.
use loadstrike_go.Prelude.{
  ℕ, ◌≡◌, inl, inr, refl, sym, ap, Bool, true, ◌||◌, List, [], Bytes, Option, none, some, Result,
  ok, err, Bool-cases, Option-cases, arith,
}
use loadstrike_go.Bridge.{
  InstanceKey, Bridge, admit, enter, lookup, is_admitted, begin_close, complete, contains, key_eq,
  key_eq_refl,
}
use loadstrike_go.Bridge.World.{put, values_of}
use loadstrike_go.Bridge.Calls.{
  release, lock_admitted, admit_instance, use_admitted, with_instance, clean_after, clean_admitted,
  clean_instance,
}

module _ {V : Type 0} where
  -- No thread is admitted to the instance of the key any more.
  unfoldable pub is_gone : Bridge V → InstanceKey → Bool
  is_gone s key = s.closed || contains s.completed key

  complete-gone :
      (s : Bridge V) (key : InstanceKey) (a : ℕ) → is_gone (release (complete s key) a) key ≡ true
  unfolding is_gone release put complete contains
  complete-gone s key a = ground (arith, Bool-cases s.closed, key_eq_refl key)

  pub begin_close-gone : (s : Bridge V) (key : InstanceKey) → is_gone (begin_close s).0 key ≡ true
  unfolding is_gone begin_close
  begin_close-gone s key = ground (arith, Bool-cases s.closed)

  module _ {E A : Type 0} (gone : E) (i : ℕ)
      (invoke : List (Bytes × V) → List (Bytes × V) × Result E A) where
    clean_after-gone :
        (t u : Bridge V) (key : InstanceKey) (a : ℕ) (r : Result E A) (result : A)
        → clean_after gone i invoke t key a r ≡ (u, ok result)
        → is_gone u key ≡ true
    unfolding clean_after
    clean_after-gone t u key a (err e) result h = absurd (cc h)
    clean_after-gone t u key a (ok x) result h =
        let e : u ≡ release (complete (put t a (some i) []) key) a = sym (ap (λ p. p.0) h) in
        rw e (complete-gone (put t a (some i) []) key a)

    clean_admitted-gone :
        (key : InstanceKey) (t u : Bridge V) (r : Result E ℕ) (result : A)
        → clean_admitted gone i invoke key (t, r) ≡ (u, ok result)
        → is_gone u key ≡ true
    unfolding clean_admitted
    clean_admitted-gone key t u (err e) result h = absurd (cc h)
    clean_admitted-gone key t u (ok a) result h =
        clean_after-gone (put t a (some i) (invoke (values_of t a)).0) u key a
          (invoke (values_of t a)).1 result h

    pub clean_instance-gone :
        (s u : Bridge V) (key : InstanceKey) (result : A)
        → clean_instance gone i invoke s key ≡ (u, ok result)
        → is_gone u key ≡ true
    unfolding clean_instance
    clean_instance-gone s u key result h =
        clean_admitted-gone key (admit_instance gone i s key).0 u (admit_instance gone i s key).1
          result h

    pub gone-refused :
        (s : Bridge V) (key : InstanceKey)
        → is_gone s key ≡ true
        → (with_instance gone i invoke s key ≡ (s, err gone))
          × (clean_instance gone i invoke s key ≡ (s, err gone))
    unfolding is_gone with_instance clean_instance use_admitted clean_admitted admit_instance
        lock_admitted admit
    gone-refused s key h = (ground (arith, h), ground (arith, h))

    -- An instance that is gone stays so under every call, of any instance.
    enter-gone :
        (s : Bridge V) (k key : InstanceKey) (o : Option ℕ)
        → is_gone (enter s k o).0 key ≡ is_gone s key
    unfolding enter is_gone
    enter-gone s k key none = refl
    enter-gone s k key (some a) = refl

    admit-gone :
        (s t : Bridge V) (k key : InstanceKey) (a : ℕ)
        → admit s k ≡ some (t, a)
        → is_gone t key ≡ is_gone s key
    unfolding admit
    admit-gone s t k key a h =
        let state : t ≡ (enter s k (lookup s.active k)).0 = ground arith in
        rw (state) (enter-gone s k key (lookup s.active k))

    admit_instance-gone :
        (s : Bridge V) (k key : InstanceKey)
        → is_gone s key ≡ true
        → is_gone (admit_instance gone i s k).0 key ≡ true
    unfolding admit_instance lock_admitted release put is_gone
    admit_instance-gone s k key h = elim (Option-cases (admit s k)) [
      | inl p ↦ ground (arith, p, h)
      | inr ((t, a), p) ↦
          let held = put t a (some i) (values_of t a) in
          ground (arith, p, h, admit-gone s t k key a p, Bool-cases (is_admitted held k a))
    ]

    complete-keeps_gone :
        (s : Bridge V) (k key : InstanceKey)
        → is_gone s key ≡ true
        → is_gone (complete s k) key ≡ true
    unfolding complete is_gone contains
    complete-keeps_gone s k key h =
        ground (arith, h, Bool-cases s.closed, Bool-cases (key_eq k key))

    use_admitted-gone :
        (t : Bridge V) (key : InstanceKey) (r : Result E ℕ)
        → is_gone t key ≡ true
        → is_gone (use_admitted gone i invoke (t, r)).0 key ≡ true
    unfolding use_admitted release put is_gone
    use_admitted-gone t key (err e) h = h
    use_admitted-gone t key (ok a) h = h

    clean_after-keeps_gone :
        (t : Bridge V) (k key : InstanceKey) (a : ℕ) (r : Result E A)
        → is_gone t key ≡ true
        → is_gone (clean_after gone i invoke t k a r).0 key ≡ true
    unfolding clean_after release put is_gone
    clean_after-keeps_gone t k key a (err e) h = h
    clean_after-keeps_gone t k key a (ok x) h = complete-keeps_gone (put t a (some i) []) k key h

    clean_admitted-keeps_gone :
        (t : Bridge V) (k key : InstanceKey) (r : Result E ℕ)
        → is_gone t key ≡ true
        → is_gone (clean_admitted gone i invoke k (t, r)).0 key ≡ true
    unfolding clean_admitted put is_gone
    clean_admitted-keeps_gone t k key (err e) h = h
    clean_admitted-keeps_gone t k key (ok a) h =
        clean_after-keeps_gone (put t a (some i) (invoke (values_of t a)).0) k key a
          (invoke (values_of t a)).1 h

    pub calls-gone :
        (s : Bridge V) (k key : InstanceKey)
        → is_gone s key ≡ true
        → (is_gone (with_instance gone i invoke s k).0 key ≡ true)
          × (is_gone (clean_instance gone i invoke s k).0 key ≡ true)
    unfolding with_instance clean_instance
    calls-gone s k key h =
        let (t, r) = admit_instance gone i s k in
        let kept = admit_instance-gone s k key h in
        (use_admitted-gone t key r kept, clean_admitted-keeps_gone t k key r kept)
