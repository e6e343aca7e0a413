-- ===== src/Bridge/Invariant.antt =====
-- A mutex of an instance has one holder: whoever is between its lock and its unlock.
use loadstrike_go.Prelude.{
  ℕ, ◌<◌, ◌≤◌, ◌≡◌, ◌≢◌, inl, inr, refl, sym, ap, ◌∙◌, List, [], Bytes, Option, none, some, length,
  get_elem?, set, arith, get_elem?-set, get_elem?-replicate,
}
use loadstrike_go.Bridge.{InstanceKey, Instance, Bridge, lookup, complete, begin_close}
use loadstrike_go.Bridge.World.{
  Phase, idle, waiting, locked, running, cleaned, releasing, leaving, World, Closer, owner_of,
  values_of, put, Act, lock, accept, reject, write, finish, clear, retire, unlock, leave, Step,
  thread, begin, drain, clear_next, Reach, here, next, initial,
}
use loadstrike_go.Bridge.Sections.{
  owner_of-put_self, owner_of-put_ne, length-put, admit-IsStart, complete-instances,
  complete-active, begin_close-IsBegun,
}

-- The instance whose mutex a thread holds in a phase.
abbrev pub held : Phase → Option ℕ
held (locked op key a) = some a
held (running op key a) = some a
held (cleaned key a) = some a
held (releasing a) = some a
held _ = none

-- The instance that a thread has a pointer to.
abbrev pub place : Phase → Option ℕ
place (waiting op key a) = some a
place p = held p

module _ {V : Type 0} where
  -- Mutexes are held by those who passed their lock; pointers lead to instances that were made.
  pub record IsOwned (w : World V) : Type 0 where
    pub owned :
        (j : ℕ) (p : Phase) (a : ℕ)
        → get_elem? w.threads j ≡ some p
        → held p ≡ some a
        → owner_of w.bridge a ≡ some j
    pub placed :
        (j : ℕ) (p : Phase) (a : ℕ)
        → get_elem? w.threads j ≡ some p
        → place p ≡ some a
        → a < length w.bridge.instances
    pub listed :
        (k : InstanceKey) (a : ℕ)
        → lookup w.bridge.active k ≡ some a
        → a < length w.bridge.instances

  -- A section keeps the mutexes of the other threads, and leaves the thread with what it holds.
  record IsFair (i : ℕ) (q : Phase) (s t : Bridge V) : Type 0 where
    others : (j b : ℕ) → j ≢ i → owner_of s b ≡ some j → owner_of t b ≡ some j
    mine : (b : ℕ) → held q ≡ some b → owner_of t b ≡ some i
    room : (b : ℕ) → place q ≡ some b → b < length t.instances
    grows : length s.instances ≤ length t.instances
    listed : (k : InstanceKey) (a : ℕ) → lookup t.active k ≡ some a → a < length t.instances

  put-IsFair :
      (i a : ℕ) (q : Phase) (s : Bridge V) (o : Option ℕ) (v : List (Bytes × V))
      → ((j : ℕ) → j ≢ i → owner_of s a ≢ some j)
      → a < length s.instances
      → ((b : ℕ) → held q ≡ some b → (b ≡ a) × (o ≡ some i))
      → ((b : ℕ) → place q ≡ some b → b ≡ a)
      → ((k : InstanceKey) (b : ℕ) → lookup s.active k ≡ some b → b < length s.instances)
      → IsFair i q s (put s a o v)
  put-IsFair i a q s o v free room holds places listed = record {
    others = λ j b other h.
        let apart : b ≢ a = λ e. free j other (rw (← e) h) in
        rw (owner_of-put_ne s a b o v apart) h;
    mine = λ b h. let (same, me) = holds b h in rw (same, owner_of-put_self s a o v room) me;
    room = λ b h. omega (arith, places b h, length-put s a o v);
    grows = omega (arith, length-put s a o v);
    listed = λ k b h. omega (arith, listed k b (unfold put in h), length-put s a o v);
  }

  -- A section that touches no mutex and no instance.
  same-IsFair :
      (i : ℕ) (q : Phase) (s t : Bridge V)
      → t.instances ≡ s.instances
      → ((b : ℕ) → held q ≡ some b → owner_of s b ≡ some i)
      → ((b : ℕ) → place q ≡ some b → b < length s.instances)
      → ((k : InstanceKey) (b : ℕ) → lookup t.active k ≡ some b → b < length s.instances)
      → IsFair i q s t
  unfolding owner_of
  same-IsFair i q s t same holds places listed = record {
    others = λ j b other h. rw same h;
    mine = λ b h. rw same (holds b h);
    room = λ b h. rw same (places b h);
    grows = omega (arith, ap (λ (l : List (Instance V)). length l) same);
    listed = λ k b h. rw same (listed k b h);
  }

  -- What a thread knows of itself before a section.
  record IsHolder (i : ℕ) (p : Phase) (s : Bridge V) : Type 0 where
    holds : (a : ℕ) → held p ≡ some a → owner_of s a ≡ some i
    has : (a : ℕ) → place p ≡ some a → a < length s.instances
    listed : (k : InstanceKey) (a : ℕ) → lookup s.active k ≡ some a → a < length s.instances

  -- A mutex that thread i holds is held by no other.
  not_others :
      (i a : ℕ) (s : Bridge V) → owner_of s a ≡ some i → (j : ℕ) → j ≢ i → owner_of s a ≢ some j
  not_others i a s mine j other h = other (ground arith)

  Act-IsFair :
      {i : ℕ} {p q : Phase} {s t : Bridge V} → Act i s p q t → IsHolder i p s → IsFair i q s t
  Act-IsFair {i} {s} (Act.start {op} {key} {a} {t} h) me =
      let r = admit-IsStart s t key a h in
      record {
        others = λ j b other e. r.keeps b j e;
        mine = λ b e. absurd (ground arith);
        room = λ b e. let same : b ≡ a = ground arith in omega (arith, r.has_room me.listed);
        grows = r.grows;
        listed = λ k b e. elim (r.added k b e) [
          | inl old ↦ omega (arith, me.listed k b old, r.grows)
          | inr new ↦ new
        ];
      }
  Act-IsFair {i} {s} (lock {op} {key} {a} free) me =
      put-IsFair i a (locked op key a) s (some i) (values_of s a) (λ j other h. ground arith)
        (me.has a refl) (λ b e. (ground arith, refl)) (λ b e. ground arith) me.listed
  Act-IsFair {i} {s} (accept {op} {key} {a} h) me =
      same-IsFair i (running op key a) s s refl me.holds me.has me.listed
  Act-IsFair {i} {s} (reject {op} {key} {a} h) me =
      same-IsFair i (releasing a) s s refl me.holds me.has me.listed
  Act-IsFair {i} {s} (write {op} {key} {a} values) me =
      put-IsFair i a (running op key a) s (some i) values (not_others i a s (me.holds a refl))
        (me.has a refl) (λ b e. (ground arith, refl)) (λ b e. ground arith) me.listed
  Act-IsFair {i} {s} (finish {op} {key} {a}) me =
      same-IsFair i (releasing a) s s refl me.holds me.has me.listed
  Act-IsFair {i} {s} (clear {key} {a}) me =
      put-IsFair i a (cleaned key a) s (some i) [] (not_others i a s (me.holds a refl))
        (me.has a refl) (λ b e. (ground arith, refl)) (λ b e. ground arith) me.listed
  Act-IsFair {i} {s} (retire {key} {a}) me =
      same-IsFair i (releasing a) s (complete s key) (complete-instances s key) me.holds me.has
        (λ k b e. me.listed k b (complete-active s key k b e))
  Act-IsFair {i} {s} (unlock {a}) me =
      put-IsFair i a leaving s none (values_of s a) (not_others i a s (me.holds a refl))
        (me.has a refl) (λ b e. absurd (ground arith)) (λ b e. absurd (ground arith)) me.listed
  Act-IsFair {i} {s} leave me =
      same-IsFair i idle s _ refl (λ b e. absurd (ground arith)) (λ b e. absurd (ground arith))
        me.listed

  thread-IsOwned :
      (w : World V) (i : ℕ) (p q : Phase) (t : Bridge V)
      → get_elem? w.threads i ≡ some p
      → IsFair i q w.bridge t
      → IsOwned w
      → IsOwned (record w { bridge = t; threads = set w.threads i q })
  thread-IsOwned w i p q t at_i fair inv = record {
    owned = λ j r a e h. elim (get_elem?-set w.threads i q j e) [
      | inl (same, phase) ↦ rw same (fair.mine a (rw phase at h))
      | inr (other, old) ↦ fair.others j a other (inv.owned j r a old h)
    ];
    placed = λ j r a e h. elim (get_elem?-set w.threads i q j e) [
      | inl (same, phase) ↦ fair.room a (rw phase at h)
      | inr (other, old) ↦ omega (arith, inv.placed j r a old h, fair.grows)
    ];
    listed = fair.listed;
  }

  begin_close-IsOwned :
      (w : World V) (t : Bridge V) (detached : List (InstanceKey × ℕ)) (c : Closer)
      → begin_close w.bridge ≡ (t, some detached)
      → IsOwned w
      → IsOwned (record w { bridge = t; closer = c })
  begin_close-IsOwned w t detached c h inv =
      let b = begin_close-IsBegun w.bridge t detached h in
      record {
        owned = λ j p a e g. unfold owner_of in rw (b.same_instances) (inv.owned j p a e g);
        placed = λ j p a e g. rw (b.same_instances) (inv.placed j p a e g);
        listed = λ k a e.
            let nothing : lookup t.active k ≡ none = unfold lookup in rw (b.no_active) refl in
            absurd (ground arith);
      }

  clear-IsOwned :
      (w : World V) (a : ℕ) (c : Closer)
      → owner_of w.bridge a ≡ none
      → IsOwned w
      → IsOwned (record w { bridge = put w.bridge a none []; closer = c })
  clear-IsOwned w a c free inv = record {
    owned = λ j p b e g.
        let apart : b ≢ a = λ same. ground (arith, inv.owned j p b e g) in
        rw (owner_of-put_ne w.bridge a b none [] apart) (inv.owned j p b e g);
    placed = λ j p b e g. omega (arith, inv.placed j p b e g, length-put w.bridge a none []);
    listed =
        λ k b e. omega (arith, inv.listed k b (unfold put in e), length-put w.bridge a none []);
  }

  pub Step-IsOwned : {w u : World V} → Step w u → IsOwned w → IsOwned u
  Step-IsOwned {w} (thread {i} {p} {q} {s} e act) inv =
      let me : IsHolder i p w.bridge = record {
        holds = λ a h. inv.owned i p a e h;
        has = λ a h. inv.placed i p a e h;
        listed = inv.listed;
      } in
      thread-IsOwned w i p q s e (Act-IsFair act me) inv
  Step-IsOwned {w} (begin {s} {detached} e h) inv = begin_close-IsOwned w s detached _ h inv
  Step-IsOwned {w} (drain e h) inv = record {
    owned = inv.owned;
    placed = inv.placed;
    listed = inv.listed;
  }
  Step-IsOwned {w} (clear_next {a} e free) inv = clear-IsOwned w a _ free inv

  pub initial-IsOwned : (n : ℕ) → IsOwned (initial n)
  unfolding initial lookup
  initial-IsOwned n = record {
    owned = λ j p a e h.
        let resting : p ≡ idle = get_elem?-replicate n idle j e in absurd (ground arith);
    placed = λ j p a e h.
        let resting : p ≡ idle = get_elem?-replicate n idle j e in absurd (ground arith);
    listed = λ k a e. absurd (ground arith);
  }

  pub Reach-IsOwned : {w u : World V} → Reach w u → IsOwned w → IsOwned u
  Reach-IsOwned here inv = inv
  Reach-IsOwned (next step rest) inv = Reach-IsOwned rest (Step-IsOwned step inv)

  -- In every state that n threads can reach, in any interleaving, two threads between the lock and
  -- the unlock of one instance are one thread.
  pub held_exclusive :
      (n i j a : ℕ) (p q : Phase) {w : World V}
      → Reach (initial n) w
      → get_elem? w.threads i ≡ some p
      → get_elem? w.threads j ≡ some q
      → held p ≡ some a
      → held q ≡ some a
      → i ≡ j
  held_exclusive n i j a p q r at_i at_j hp hq =
      let inv = Reach-IsOwned r (initial-IsOwned n) in
      let same = sym (inv.owned i p a at_i hp) ∙ inv.owned j q a at_j hq in ground (arith, same)
