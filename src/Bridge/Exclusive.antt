-- ===== src/Bridge/Exclusive.antt =====
-- One callback of an instance key at a time.
use loadstrike_go.Prelude.{
  ℕ, ◌≡◌, ◌≢◌, inl, inr, refl, true, false, List, Option, none, some, get_elem?, set, arith,
  get_elem?-set, get_elem?-replicate,
}
use loadstrike_go.Bridge.{InstanceKey, Bridge, key_eq, key_eq_iff, lookup, is_admitted, complete}
use loadstrike_go.Bridge.Table.{lookup-delete}
use loadstrike_go.Bridge.Sections.{IsStart, admit-IsStart, begin_close-IsBegun}
use loadstrike_go.Bridge.Invariant.{held, IsOwned, Step-IsOwned, initial-IsOwned}
use loadstrike_go.Bridge.Closing.{is_closing, IsCounted, Step-IsCounted, initial-IsCounted}
use loadstrike_go.Bridge.World.{
  Phase, idle, running, cleaned, Closer, not_closing, draining, clearing, World, put, Act, lock,
  accept, reject, write, finish, clear, retire, unlock, leave, Step, thread, begin, drain,
  clear_next, Reach, here, next, initial,
}

-- The key and the instance of a thread whose callback has been let in and has not been released.
abbrev pub tenant : Phase → Option (InstanceKey × ℕ)
tenant (running op key a) = some (key, a)
tenant (cleaned key a) = some (key, a)
tenant _ = none

-- The map of instances that the threads were let in by: once the closer has taken it, its copy.
abbrev pub table : List (InstanceKey × ℕ) → Closer → List (InstanceKey × ℕ)
table active not_closing = active
table active (draining detached) = detached
table active (clearing detached done rest) = detached

key_eq_ne : (j k : InstanceKey) → j ≢ k → key_eq j k ≡ false
key_eq_ne j k h = ground (arith, key_eq_iff j k)

tenant-held : (p : Phase) (k : InstanceKey) (a : ℕ) → tenant p ≡ some (k, a) → held p ≡ some a
tenant-held (running op key b) k a h = ground arith
tenant-held (cleaned key b) k a h = ground arith
tenant-held p k a h = absurd (ground arith)

not_closing_of : (c : Closer) → is_closing c ≡ false → c ≡ not_closing
not_closing_of not_closing h = refl
not_closing_of (draining d) h = cc
not_closing_of (clearing d e f) h = cc

module _ {V : Type 0} where
  pub record IsTenanted (w : World V) : Type 0 where
    pub tenants :
        (j : ℕ) (p : Phase) (k : InstanceKey) (a : ℕ)
        → get_elem? w.threads j ≡ some p
        → tenant p ≡ some (k, a)
        → lookup (table w.bridge.active w.closer) k ≡ some a

  pub record IsSound (w : World V) : Type 0 where
    pub owned : IsOwned w
    pub counted : IsCounted w
    pub tenanted : IsTenanted w

  -- Of two threads let in for one key, both hold the mutex of its one instance.
  pub sound_exclusive :
      (w : World V) (i j a b : ℕ) (p q : Phase) (k : InstanceKey)
      → IsSound w
      → get_elem? w.threads i ≡ some p
      → get_elem? w.threads j ≡ some q
      → tenant p ≡ some (k, a)
      → tenant q ≡ some (k, b)
      → i ≡ j
  sound_exclusive w i j a b p q k inv at_i at_j hp hq =
      let t = inv.tenanted.tenants in
      let found_i = t i p k a at_i hp in
      let found_j = t j q k b at_j hq in
      let mine = inv.owned.owned i p a at_i (tenant-held p k a hp) in
      let yours = inv.owned.owned j q b at_j (tenant-held q k b hq) in
      let one : a ≡ b = ground (arith, found_i, found_j) in
      ground (arith, mine, rw (← one) at yours)

  start_keeps :
      (s t : Bridge V) (c : Closer) (key k : InstanceKey) (a b : ℕ)
      → s.closed ≡ is_closing c
      → IsStart s key t a
      → lookup (table s.active c) k ≡ some b
      → lookup (table t.active c) k ≡ some b
  start_keeps s t not_closing key k a b shut r h = r.stays k b h
  start_keeps s t (draining d) key k a b shut r h = h
  start_keeps s t (clearing d e f) key k a b shut r h = h

  complete_keeps :
      (s : Bridge V) (c : Closer) (key k : InstanceKey) (b : ℕ)
      → key ≢ k
      → lookup (table s.active c) k ≡ some b
      → lookup (table (complete s key).active c) k ≡ some b
  unfolding complete
  complete_keeps s not_closing key k b other h =
      ground (arith, lookup-delete s.active key k, key_eq_ne key k other)
  complete_keeps s (draining d) key k b other h = h
  complete_keeps s (clearing d e f) key k b other h = h

  admitted_found :
      (s : Bridge V) (c : Closer) (key : InstanceKey) (a : ℕ)
      → s.closed ≡ is_closing c
      → is_admitted s key a ≡ true
      → lookup (table s.active c) key ≡ some a
  unfolding is_admitted
  admitted_found s not_closing key a shut h = ground arith
  admitted_found s (draining d) key a shut h = absurd (ground arith)
  admitted_found s (clearing d e f) key a shut h = absurd (ground arith)

  -- What a section leaves of the map, but for the key that its own thread retires.
  Act_keeps :
      {i : ℕ} {p q : Phase} {s t : Bridge V} (c : Closer) (k : InstanceKey) (b : ℕ)
      → Act i s p q t
      → s.closed ≡ is_closing c
      → ((a : ℕ) → tenant p ≢ some (k, a))
      → lookup (table s.active c) k ≡ some b
      → lookup (table t.active c) k ≡ some b
  unfolding put
  Act_keeps {s} c k b (Act.start {key} {a} {t} e) shut other h =
      start_keeps s t c key k a b shut (admit-IsStart s t key a e) h
  Act_keeps c k b (lock e) shut other h = h
  Act_keeps c k b (accept e) shut other h = h
  Act_keeps c k b (reject e) shut other h = h
  Act_keeps c k b (write v) shut other h = h
  Act_keeps c k b finish shut other h = h
  Act_keeps c k b clear shut other h = h
  Act_keeps {s} c k b (retire {key} {a}) shut other h =
      complete_keeps s c key k b (λ e. other a (ground arith)) h
  Act_keeps c k b unlock shut other h = h
  Act_keeps c k b leave shut other h = h

  -- A thread that has been let in was so before, or its instance is the one in the map.
  Act_lets_in :
      {i : ℕ} {p q : Phase} {s t : Bridge V} (c : Closer) (k : InstanceKey) (b : ℕ)
      → Act i s p q t
      → s.closed ≡ is_closing c
      → tenant q ≡ some (k, b)
      → (tenant p ≡ some (k, b) → lookup (table s.active c) k ≡ some b)
      → lookup (table t.active c) k ≡ some b
  unfolding put
  Act_lets_in c k b (Act.start e) shut h old = absurd (ground arith)
  Act_lets_in c k b (lock e) shut h old = absurd (ground arith)
  Act_lets_in {s} c k b (accept {op} {key} {a} e) shut h old =
      let same_key : key ≡ k = ground arith in
      let same_instance : a ≡ b = ground arith in
      rw (← same_key, ← same_instance) (admitted_found s c key a shut e)
  Act_lets_in c k b (reject e) shut h old = absurd (ground arith)
  Act_lets_in c k b (write v) shut h old = old h
  Act_lets_in c k b finish shut h old = absurd (ground arith)
  Act_lets_in c k b clear shut h old = old h
  Act_lets_in c k b retire shut h old = absurd (ground arith)
  Act_lets_in c k b unlock shut h old = absurd (ground arith)
  Act_lets_in c k b leave shut h old = absurd (ground arith)

  thread-IsTenanted :
      (w : World V) (i : ℕ) (p q : Phase) (t : Bridge V)
      → get_elem? w.threads i ≡ some p
      → Act i w.bridge p q t
      → IsSound w
      → IsTenanted (record w { bridge = t; threads = set w.threads i q })
  thread-IsTenanted w i p q t at_i act inv =
      let shut = inv.counted.shut in
      record {
        tenants = λ j r k b e h. elim (get_elem?-set w.threads i q j e) [
          | inl (same, phase) ↦
              Act_lets_in w.closer k b act shut (rw phase at h)
                (λ before. inv.tenanted.tenants i p k b at_i before)
          | inr (other, old) ↦
              Act_keeps w.closer k b act shut
                (λ a before. other (sound_exclusive w j i b a r p k inv old at_i h before))
                (inv.tenanted.tenants j r k b old h)
        ];
      }

  pub Step-IsSound : {w u : World V} → Step w u → IsSound w → IsSound u
  Step-IsSound {w} (thread {i} {p} {q} {s} e act) inv = record {
    owned = Step-IsOwned (thread e act) inv.owned;
    counted = Step-IsCounted (thread e act) inv.counted;
    tenanted = thread-IsTenanted w i p q s e act inv;
  }
  Step-IsSound {w} (begin {s} {detached} e h) inv =
      let b = begin_close-IsBegun w.bridge s detached h in
      record {
        owned = Step-IsOwned (begin e h) inv.owned;
        counted = Step-IsCounted (begin e h) inv.counted;
        tenanted = record {
          tenants = λ j p k a g l. rw (b.all_detached) (rw e at (inv.tenanted.tenants j p k a g l));
        };
      }
  Step-IsSound {w} (drain e h) inv = record {
    owned = Step-IsOwned (drain e h) inv.owned;
    counted = Step-IsCounted (drain e h) inv.counted;
    tenanted = record { tenants = λ j p k a g l. rw e at (inv.tenanted.tenants j p k a g l) };
  }
  Step-IsSound {w} (clear_next e free) inv = record {
    owned = Step-IsOwned (clear_next e free) inv.owned;
    counted = Step-IsCounted (clear_next e free) inv.counted;
    tenanted = record { tenants = λ j p k a g l. rw e at (inv.tenanted.tenants j p k a g l) };
  }

  pub initial-IsSound : (n : ℕ) → IsSound (initial n)
  unfolding initial
  initial-IsSound n = record {
    owned = initial-IsOwned n;
    counted = initial-IsCounted n;
    tenanted = record {
      tenants = λ j p k a e h.
          let resting : p ≡ idle = get_elem?-replicate n idle j e in absurd (ground arith);
    };
  }

  pub Reach-IsSound : {w u : World V} → Reach w u → IsSound w → IsSound u
  Reach-IsSound here inv = inv
  Reach-IsSound (next step rest) inv = Reach-IsSound rest (Step-IsSound step inv)

  -- In every state that n threads can reach, in any interleaving and while the state is being closed
  -- too, at most one thread is in a callback of a key, or between a cleanup and its retirement.
  pub callback_exclusive :
      (n i j a b : ℕ) (p q : Phase) (k : InstanceKey) {w : World V}
      → Reach (initial n) w
      → get_elem? w.threads i ≡ some p
      → get_elem? w.threads j ≡ some q
      → tenant p ≡ some (k, a)
      → tenant q ≡ some (k, b)
      → i ≡ j
  callback_exclusive n i j a b p q k {w} r at_i at_j hp hq =
      sound_exclusive w i j a b p q k (Reach-IsSound r (initial-IsSound n)) at_i at_j hp hq
