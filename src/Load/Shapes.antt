-- ===== src/Load/Shapes.antt =====
-- What every load simulation promises: work to do, and random rates in order.
use loadstrike_go.Prelude.{
  ◌≡◌, ◌⊎◌, inl, inr, true, false, Bool-cases, ℤ, pos, negsuc, ◌≤ℤ◌, ltb_ℤ, arith,
}
use loadstrike_go.Load.{
  Float, LoadSimulation, one, max_int, estimate_iterations, inject, ramping_inject, keep_constant,
  ramping_constant, inject_between, inject_random, pause, iterations_for_constant,
  iterations_for_inject,
}

max_int-positive : (a b : ℤ) → one ≤ℤ b → one ≤ℤ max_int a b
unfolding max_int
max_int-positive a b h = ground (arith, Bool-cases (ltb_ℤ (pos 0) a))

max_int-one : (a : ℤ) → one ≤ℤ max_int a one
max_int-one a = max_int-positive a one (ground arith)

pub max_int-ordered : (a b : ℤ) → a ≤ℤ b → max_int a one ≤ℤ max_int b (max_int a one)
unfolding max_int
max_int-ordered a b h = ground (arith, Bool-cases (ltb_ℤ (pos 0) a), Bool-cases (ltb_ℤ (pos 0) b))

-- Two integers that are below each other are equal.
≤ℤ-antisym : (a b : ℤ) → a ≤ℤ b → b ≤ℤ a → a ≡ b
≤ℤ-antisym (pos a) (pos b) h k = ground arith
≤ℤ-antisym (pos a) (negsuc b) h k = ground arith
≤ℤ-antisym (negsuc a) (pos b) h k = ground arith
≤ℤ-antisym (negsuc a) (negsuc b) h k = ground arith

max_int-same : (a b : ℤ) → a ≤ℤ b → max_int (max_int b one) one ≡ max_int b (max_int a one)
unfolding max_int
max_int-same a b h = ground (
  arith,
  Bool-cases (ltb_ℤ (pos 0) a),
  Bool-cases (ltb_ℤ (pos 0) b),
  Bool-cases (ltb_ℤ (pos 0) (max_int b one)),
)

ltb_ℤ-cases : (a b : ℤ) → ((ltb_ℤ b a ≡ true) × (b ≤ℤ a)) ⊎ ((ltb_ℤ b a ≡ false) × (a ≤ℤ b))
ltb_ℤ-cases a b = ground (arith, Bool-cases (ltb_ℤ b a))

module _ (F : Float) where
  open F use {Carrier}

  -- At least one copy and at least one iteration.
  pub IsRunnable : LoadSimulation F → Type 0
  IsRunnable s = (one ≤ℤ s.copies) × (one ≤ℤ s.iterations)

  -- The rates of a random injection, once they are in order.
  IsOrdered : LoadSimulation F → Type 0
  IsOrdered s = (one ≤ℤ s.min_rate) × (s.min_rate ≤ℤ s.max_rate) × (s.copies ≡ s.max_rate)

  inject_between-IsOrdered :
      (a b : ℤ) (interval during : Carrier)
      → a ≤ℤ b
      → IsOrdered (inject_between F a b interval during)
  unfolding inject_between inject IsOrdered
  inject_between-IsOrdered a b interval during h =
      (max_int-one a, max_int-ordered a b h, max_int-same a b h)

  inject_random-cases :
      (a b : ℤ) (interval during : Carrier)
      → ((inject_random F a b interval during ≡ inject_between F b a interval during) × (b ≤ℤ a))
        ⊎ ((inject_random F a b interval during ≡ inject_between F a b interval during) × (a ≤ℤ b))
  unfolding inject_random
  inject_random-cases a b interval during = elim (ltb_ℤ-cases a b) [
    | inl (h, k) ↦ inl (rw h, k)
    | inr (h, k) ↦ inr (rw h, k)
  ]

  inject_between-IsRunnable :
      (a b : ℤ) (interval during : Carrier) → IsRunnable (inject_between F a b interval during)
  unfolding inject_between inject IsRunnable
  inject_between-IsRunnable a b interval during =
      (max_int-one (max_int b one), max_int-one (estimate_iterations F interval during))

  inject_random-IsRunnable :
      (a b : ℤ) (interval during : Carrier) → IsRunnable (inject_random F a b interval during)
  inject_random-IsRunnable a b interval during = elim (inject_random-cases a b interval during) [
    | inl (h, k) ↦ rw h (inject_between-IsRunnable b a interval during)
    | inr (h, k) ↦ rw h (inject_between-IsRunnable a b interval during)
  ]

  -- Every simulation has a copy and an iteration to run, whatever the numbers that it is made from.
  pub simulations-IsRunnable :
      (a b : ℤ) (interval during : Carrier)
      → IsRunnable (inject F a interval during)
        × IsRunnable (ramping_inject F a interval during)
        × IsRunnable (keep_constant F a during)
        × IsRunnable (ramping_constant F a during)
        × IsRunnable (inject_random F a b interval during)
        × IsRunnable (pause F during)
        × IsRunnable (iterations_for_constant F a b)
        × IsRunnable (iterations_for_inject F a interval b)
  unfolding IsRunnable inject ramping_inject keep_constant ramping_constant pause
      iterations_for_constant iterations_for_inject
  simulations-IsRunnable a b interval during =
      let copies = max_int-one a in
      let estimated = max_int-one (estimate_iterations F interval during) in
      let timed = max_int-one (Float.to_int F during) in
      let fixed = max_int-one b in
      (
        (copies, estimated),
        (copies, estimated),
        (copies, timed),
        (copies, timed),
        inject_random-IsRunnable a b interval during,
        (ground arith, ground arith),
        (copies, fixed),
        (copies, fixed),
      )

  -- A random injection has rates 1 ≤ least ≤ greatest and injects as many copies as the greatest.
  pub inject_random-ordered :
      (a b : ℤ) (interval during : Carrier)
      → (one ≤ℤ (inject_random F a b interval during).min_rate)
        × ((inject_random F a b interval during).min_rate
            ≤ℤ (inject_random F a b interval during).max_rate)
        × ((inject_random F a b interval during).copies
            ≡ (inject_random F a b interval during).max_rate)
  unfolding IsOrdered
  inject_random-ordered a b interval during = elim (inject_random-cases a b interval during) [
    | inl (h, k) ↦ rw h (inject_between-IsOrdered b a interval during k)
    | inr (h, k) ↦ rw h (inject_between-IsOrdered a b interval during k)
  ]

  -- A random injection does not depend on the order in which its two rates are given.
  pub inject_random_comm :
      (a b : ℤ) (interval during : Carrier)
      → inject_random F a b interval during ≡ inject_random F b a interval during
  unfolding inject_random
  inject_random_comm a b interval during =
      ground (arith, Bool-cases (ltb_ℤ a b), Bool-cases (ltb_ℤ b a), ≤ℤ-antisym a b)
