-- ===== src/Bridge/Retired.antt =====
-- A key that `cleanInstance` has retired stays retired.
use loadstrike_go.Prelude.{
  ℕ, ◌≡◌, ◌≢◌, inl, inr, refl, true, ◌||◌, some, get_elem?, set, arith, get_elem?-set,
}
use loadstrike_go.Bridge.{InstanceKey, Bridge, key_eq_refl, contains, is_admitted, complete}
use loadstrike_go.Bridge.Sections.{admit-IsStart, begin_close-IsBegun}
use loadstrike_go.Bridge.Exclusive.{tenant, sound_exclusive, initial-IsSound, Reach-IsSound}
use loadstrike_go.Bridge.World.{
  Phase, cleaned, releasing, World, put, Act, lock, accept, reject, write, finish, clear, retire,
  unlock, leave, Step, thread, begin, drain, clear_next, Reach, here, next, initial,
}

module _ {V : Type 0} where
  -- The state lets nobody in for the key.
  abbrev IsGone : Bridge V → InstanceKey → Type 0
  IsGone s k = (s.closed || contains s.completed k) ≡ true

  -- No thread is in a callback of the key, and none can be let in.
  record IsRetired (k : InstanceKey) (w : World V) : Type 0 where
    gone : IsGone w.bridge k
    empty : (j : ℕ) (p : Phase) (a : ℕ) → get_elem? w.threads j ≡ some p → tenant p ≢ some (k, a)

  complete-IsGone : (s : Bridge V) (key k : InstanceKey) → IsGone s k → IsGone (complete s key) k
  unfolding complete contains
  complete-IsGone s key k h = ground arith

  complete-IsGone_self : (s : Bridge V) (k : InstanceKey) → IsGone (complete s k) k
  unfolding complete contains
  complete-IsGone_self s k = ground (arith, key_eq_refl k)

  Act-IsGone :
      {i : ℕ} {p q : Phase} {s t : Bridge V} (k : InstanceKey)
      → Act i s p q t
      → IsGone s k
      → IsGone t k
  unfolding put
  Act-IsGone {s} k (Act.start {key} {a} {t} e) h =
      let r = admit-IsStart s t key a e in
      ground (arith, r.was_open, r.still_open, r.same_completed)
  Act-IsGone k (lock e) h = h
  Act-IsGone k (accept e) h = h
  Act-IsGone k (reject e) h = h
  Act-IsGone k (write v) h = h
  Act-IsGone k finish h = h
  Act-IsGone k clear h = h
  Act-IsGone {s} k (retire {key}) h = complete-IsGone s key k h
  Act-IsGone k unlock h = h
  Act-IsGone k leave h = h

  not_admitted : (s : Bridge V) (k : InstanceKey) (a : ℕ) → IsGone s k → is_admitted s k a ≢ true
  unfolding is_admitted
  not_admitted s k a h e = ground arith

  Act_stays_out :
      {i : ℕ} {p q : Phase} {s t : Bridge V} (k : InstanceKey) (b : ℕ)
      → Act i s p q t
      → IsGone s k
      → ((a : ℕ) → tenant p ≢ some (k, a))
      → tenant q ≢ some (k, b)
  Act_stays_out k b (Act.start e) gone out h = ground arith
  Act_stays_out k b (lock e) gone out h = ground arith
  Act_stays_out {s} k b (accept {op} {key} {a} e) gone out h =
      let same : key ≡ k = ground arith in not_admitted s k a gone (rw same at e)
  Act_stays_out k b (reject e) gone out h = ground arith
  Act_stays_out k b (write v) gone out h = out b h
  Act_stays_out k b finish gone out h = ground arith
  Act_stays_out k b clear gone out h = out b h
  Act_stays_out k b retire gone out h = ground arith
  Act_stays_out k b unlock gone out h = ground arith
  Act_stays_out k b leave gone out h = ground arith

  Step-IsRetired : {w u : World V} (k : InstanceKey) → Step w u → IsRetired k w → IsRetired k u
  Step-IsRetired {w} k (thread {i} {p} {q} {s} e act) inv = record {
    gone = Act-IsGone k act inv.gone;
    empty = λ j r a g h. elim (get_elem?-set w.threads i q j g) [
      | inl (same, phase) ↦ Act_stays_out k a act inv.gone (λ b. inv.empty i p b e) (rw phase at h)
      | inr (other, old) ↦ inv.empty j r a old h
    ];
  }
  Step-IsRetired {w} k (begin {s} {detached} e h) inv =
      let b = begin_close-IsBegun w.bridge s detached h in
      record { gone = ground (arith, b.now_closed); empty = inv.empty }
  Step-IsRetired k (drain e h) inv = record { gone = inv.gone; empty = inv.empty }
  Step-IsRetired k (clear_next e free) inv =
      unfold put in record { gone = inv.gone; empty = inv.empty }

  Reach-IsRetired : {w u : World V} (k : InstanceKey) → Reach w u → IsRetired k w → IsRetired k u
  Reach-IsRetired k here inv = inv
  Reach-IsRetired k (next step rest) inv = Reach-IsRetired k rest (Step-IsRetired k step inv)

  -- The state after thread i, which has cleaned the instance of `k`, made its last section.
  abbrev pub after_retire : World V → ℕ → InstanceKey → ℕ → World V
  after_retire w i k a = record w {
    bridge = complete w.bridge k;
    threads = set w.threads i (releasing a);
  }

  -- Once a cleanup that succeeded has ended, no thread is ever again in a callback of its key: not
  -- one that was waiting for the instance, not one that comes later, and not while the state is
  -- closed, which forgets the completed keys.
  pub retire_final :
      (n i j a b : ℕ) (p : Phase) (k : InstanceKey) {w u : World V}
      → Reach (initial n) w
      → get_elem? w.threads i ≡ some (cleaned k a)
      → Reach (after_retire w i k a) u
      → get_elem? u.threads j ≡ some p
      → tenant p ≢ some (k, b)
  retire_final n i j a b p k {w} before at_i after at_j =
      let inv = Reach-IsSound before (initial-IsSound n) in
      let retired : IsRetired k (after_retire w i k a) = record {
        gone = complete-IsGone_self w.bridge k;
        empty = λ m q c g h. elim (get_elem?-set w.threads i (releasing a) m g) [
          | inl (same, phase) ↦ ground arith
          | inr (other, old) ↦
              other (sound_exclusive w m i c a q (cleaned k a) k inv old at_i h refl)
        ];
      } in
      (Reach-IsRetired k after retired).empty j p b at_j
