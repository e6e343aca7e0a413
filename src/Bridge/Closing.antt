-- ===== src/Bridge/Closing.antt =====
-- The count of the threads in flight, and what the closer's wait for it gives.
use loadstrike_go.Prelude.{
  ℕ, zero, suc, ◌+◌, ◌≤◌, ◌≡◌, refl, sym, ap, ◌∙◌, Bool, true, false, List, [], ◌∷◌, some,
  get_elem?, set, replicate, arith,
}
use loadstrike_go.Bridge.{InstanceKey, Bridge, complete}
use loadstrike_go.Bridge.Sections.{admit-IsStart, begin_close-IsBegun}
use loadstrike_go.Bridge.World.{
  Phase, idle, Closer, not_closing, draining, clearing, World, put, Act, lock, accept, reject,
  write, finish, clear, retire, unlock, leave, Step, thread, begin, drain, clear_next, Reach, here,
  next, initial,
}

-- Whether a thread stands between `s.inFlight.Add(1)` and `s.inFlight.Done()`.
abbrev pub flying : Phase → ℕ
flying idle = 0
flying _ = 1

abbrev pub total : List Phase → ℕ
total [] = 0
total (p ∷ ps) = flying p + total ps

abbrev pub is_closing : Closer → Bool
is_closing not_closing = false
is_closing _ = true

abbrev pub is_clearing : Closer → Bool
is_clearing (clearing detached done rest) = true
is_clearing _ = false

total-set :
    (ps : List Phase) (i : ℕ) (p q : Phase)
    → get_elem? ps i ≡ some p
    → total (set ps i q) + flying p ≡ total ps + flying q
total-set [] i p q h = ground arith
total-set (x ∷ ps) zero p q h = ground arith
total-set (x ∷ ps) (suc i) p q h = omega (arith, total-set ps i p q h)

total_at : (ps : List Phase) (i : ℕ) (p : Phase) → get_elem? ps i ≡ some p → flying p ≤ total ps
total_at [] i p h = ground arith
total_at (x ∷ ps) zero p h = ground arith
total_at (x ∷ ps) (suc i) p h = omega (arith, total_at ps i p h)

total-replicate : (n : ℕ) → total (replicate n idle) ≡ 0
total-replicate zero = refl
total-replicate (suc n) = omega (arith, total-replicate n)

clearing_closing : (c : Closer) → is_clearing c ≡ true → is_closing c ≡ true
clearing_closing (clearing d e f) h = refl
clearing_closing (draining d) h = refl
clearing_closing not_closing h = h

total_zero :
    (ps : List Phase) (i : ℕ) (p : Phase) → total ps ≡ 0 → get_elem? ps i ≡ some p → p ≡ idle
total_zero ps i idle z h = refl
total_zero ps i p z h = absurd (omega (arith, total_at ps i p h))

module _ {V : Type 0} where
  -- The counter is the number of threads in flight; the state is closed once the closer has begun,
  -- and nobody is in flight once its wait has ended.
  pub record IsCounted (w : World V) : Type 0 where
    pub counted : w.bridge.in_flight ≡ total w.threads
    pub shut : w.bridge.closed ≡ is_closing w.closer
    pub quiet : is_clearing w.closer ≡ true → w.bridge.in_flight ≡ 0

  complete_count :
      (s : Bridge V) (key : InstanceKey)
      → ((complete s key).in_flight ≡ s.in_flight) × ((complete s key).closed ≡ s.closed)
  unfolding complete
  complete_count s key = ground arith

  -- A section changes the counter as it changes its thread's part of the sum.
  Act_count :
      {i : ℕ} {p q : Phase} {s t : Bridge V}
      → Act i s p q t
      → flying p ≤ s.in_flight
      → (t.in_flight + flying p ≡ s.in_flight + flying q)
        × (t.closed ≡ s.closed)
        × ((s.closed ≡ true) → t.in_flight ≤ s.in_flight)
  unfolding put
  Act_count {s} (Act.start {key} {a} {t} h) room =
      let r = admit-IsStart s t key a h in
      (
        omega (arith, r.one_more),
        r.still_open ∙ sym (r.was_open),
        λ e. absurd (ground (arith, r.was_open)),
      )
  Act_count (lock h) room = (refl, refl, λ e. omega arith)
  Act_count (accept h) room = (refl, refl, λ e. omega arith)
  Act_count (reject h) room = (refl, refl, λ e. omega arith)
  Act_count (write v) room = (refl, refl, λ e. omega arith)
  Act_count finish room = (refl, refl, λ e. omega arith)
  Act_count clear room = (refl, refl, λ e. omega arith)
  Act_count {s} (retire {key}) room =
      let (count, same) = complete_count s key in (omega arith, same, λ e. omega arith)
  Act_count unlock room = (refl, refl, λ e. omega arith)
  Act_count leave room = (omega arith, refl, λ e. omega arith)

  pub Step-IsCounted : {w u : World V} → Step w u → IsCounted w → IsCounted u
  Step-IsCounted {w} (thread {i} {p} {q} {s} e act) inv =
      let (change, same, fewer) =
        Act_count act (omega (arith, total_at w.threads i p e, inv.counted)) in
      record {
        counted = omega (arith, total-set w.threads i p q e, inv.counted);
        shut = same ∙ inv.shut;
        quiet = λ c. omega (arith, fewer (inv.shut ∙ clearing_closing w.closer c), inv.quiet c);
      }
  Step-IsCounted {w} (begin {s} {detached} e h) inv =
      let b = begin_close-IsBegun w.bridge s detached h in
      record {
        counted = b.same_count ∙ inv.counted;
        shut = b.now_closed;
        quiet = λ c. absurd (ground arith);
      }
  Step-IsCounted {w} (drain e h) inv = record {
    counted = inv.counted;
    shut = inv.shut ∙ ap is_closing e;
    quiet = λ c. h;
  }
  Step-IsCounted {w} (clear_next e free) inv =
      unfold put in
      record {
        counted = inv.counted;
        shut = inv.shut ∙ ap is_closing e;
        quiet = λ c. inv.quiet (ap is_clearing e);
      }

  pub initial-IsCounted : (n : ℕ) → IsCounted (initial n)
  unfolding initial
  initial-IsCounted n = record { counted = sym (total-replicate n); shut = refl; quiet = λ c. refl }

  pub Reach-IsCounted : {w u : World V} → Reach w u → IsCounted w → IsCounted u
  Reach-IsCounted here inv = inv
  Reach-IsCounted (next step rest) inv = Reach-IsCounted rest (Step-IsCounted step inv)

  -- From the moment at which the closer's wait ends, every thread is idle: no callback runs, waits or
  -- holds a mutex while the instances are cleared or after that, whatever requests still come.
  pub clearing_quiet :
      (n i : ℕ) (p : Phase) {w : World V}
      → Reach (initial n) w
      → is_clearing w.closer ≡ true
      → get_elem? w.threads i ≡ some p
      → p ≡ idle
  clearing_quiet n i p {w} r c h =
      let inv = Reach-IsCounted r (initial-IsCounted n) in
      total_zero w.threads i p (sym (inv.counted) ∙ inv.quiet c) h
