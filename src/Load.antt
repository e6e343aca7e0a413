-- ===== src/Load.antt =====
-- The load simulations of simulations.go: the descriptors that a scenario's load shape is made of.
pub mod Shapes
pub mod Tests
use loadstrike_go.Prelude.{
  ℕ, ◌+◌, Bool, true, false, ◌||◌, Bytes, codes, ltb, if◌then◌else◌, ℤ, pos, negsuc, pos_part,
  neg_part, ltb_ℤ,
}

-- Go's `float64` as far as the file uses it; `to_int` is the conversion `int(x)`.
pub record Float : Type 1 where
  pub Carrier : Type 0
  pub zero : Carrier
  pub leq : Carrier → Carrier → Bool
  pub div : Carrier → Carrier → Carrier
  pub to_int : Carrier → ℤ

abbrev pub one : ℤ
one = pos 1

unfoldable pub max_int : ℤ → ℤ → ℤ
max_int value fallback = if ltb_ℤ (pos 0) value then value else fallback

module _ (F : Float) where
  open F use {Carrier, zero, leq, div, to_int}

  pub record LoadSimulation : Type 0 where
    pub kind : Bytes
    pub copies : ℤ
    pub iterations : ℤ
    pub rate : ℤ
    pub min_rate : ℤ
    pub max_rate : ℤ
    pub interval_seconds : Carrier
    pub during_seconds : Carrier
    pub pause_seconds : Carrier

  unfoldable pub estimate_iterations : Carrier → Carrier → ℤ
  unfolding max_int
  estimate_iterations interval_seconds during_seconds =
      if leq interval_seconds zero || leq during_seconds zero
      then one
      else max_int (to_int (div during_seconds interval_seconds)) one

  unfoldable pub inject : ℤ → Carrier → Carrier → LoadSimulation
  unfolding max_int estimate_iterations
  inject rate interval_seconds during_seconds = record {
    kind = codes "Inject";
    copies = max_int rate one;
    iterations = max_int (estimate_iterations interval_seconds during_seconds) one;
    rate = rate;
    min_rate = max_int rate one;
    max_rate = max_int rate one;
    interval_seconds = interval_seconds;
    during_seconds = during_seconds;
    pause_seconds = zero;
  }

  unfoldable pub ramping_inject : ℤ → Carrier → Carrier → LoadSimulation
  unfolding inject
  ramping_inject rate interval_seconds during_seconds =
      record (inject rate interval_seconds during_seconds) { kind = codes "RampingInject" }

  unfoldable pub keep_constant : ℤ → Carrier → LoadSimulation
  unfolding max_int
  keep_constant copies during_seconds = record {
    kind = codes "KeepConstant";
    copies = max_int copies one;
    iterations = max_int (to_int during_seconds) one;
    rate = pos 0;
    min_rate = pos 0;
    max_rate = pos 0;
    interval_seconds = zero;
    during_seconds = during_seconds;
    pause_seconds = zero;
  }

  unfoldable pub ramping_constant : ℤ → Carrier → LoadSimulation
  unfolding keep_constant
  ramping_constant copies during_seconds = record (keep_constant copies during_seconds) {
    kind = codes "RampingConstant";
  }

  -- `InjectRandom`, once its two rates are in order.
  unfoldable pub inject_between : ℤ → ℤ → Carrier → Carrier → LoadSimulation
  unfolding max_int inject
  inject_between min_rate max_rate interval_seconds during_seconds =
      let least = max_int min_rate one in
      record (inject (max_int max_rate one) interval_seconds during_seconds) {
        kind = codes "InjectRandom";
        min_rate = least;
        max_rate = max_int max_rate least;
      }

  unfoldable pub inject_random : ℤ → ℤ → Carrier → Carrier → LoadSimulation
  unfolding inject_between
  inject_random min_rate max_rate interval_seconds during_seconds =
      if ltb_ℤ max_rate min_rate
      then inject_between max_rate min_rate interval_seconds during_seconds
      else inject_between min_rate max_rate interval_seconds during_seconds

  unfoldable pub pause : Carrier → LoadSimulation
  pause seconds = record {
    kind = codes "Pause";
    copies = one;
    iterations = one;
    rate = pos 0;
    min_rate = pos 0;
    max_rate = pos 0;
    interval_seconds = zero;
    during_seconds = zero;
    pause_seconds = seconds;
  }

  unfoldable pub iterations_for_constant : ℤ → ℤ → LoadSimulation
  unfolding max_int
  iterations_for_constant copies iterations = record {
    kind = codes "IterationsForConstant";
    copies = max_int copies one;
    iterations = max_int iterations one;
    rate = pos 0;
    min_rate = pos 0;
    max_rate = pos 0;
    interval_seconds = zero;
    during_seconds = zero;
    pause_seconds = zero;
  }

  unfoldable pub iterations_for_inject : ℤ → Carrier → ℤ → LoadSimulation
  unfolding max_int
  iterations_for_inject rate interval_seconds iterations = record {
    kind = codes "IterationsForInject";
    copies = max_int rate one;
    iterations = max_int iterations one;
    rate = max_int rate one;
    min_rate = max_int rate one;
    max_rate = max_int rate one;
    interval_seconds = interval_seconds;
    during_seconds = zero;
    pause_seconds = zero;
  }
