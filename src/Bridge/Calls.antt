-- ===== src/Bridge/Calls.antt =====
-- `admitInstance`, `withInstance` and `cleanInstance` (runtime_callback_registry.go) as one thread runs
-- them whose mutexes are free: the sections of Bridge.antt, one after the other. A callback is a
-- function of the instance's data, with its error or its result and the data that it leaves.
pub mod Entry
pub mod Refine
pub mod Retire
use loadstrike_go.Prelude.{
  ℕ, ◌-◌, Bool, true, false, List, [], Bytes, Option, none, some, Result, ok, err, if◌then◌else◌,
}
use loadstrike_go.Bridge.{InstanceKey, Bridge, admit, is_admitted, complete}
use loadstrike_go.Bridge.World.{put, values_of}

module _ {V : Type 0} where
  -- `release`: `instance.mu.Unlock()` and `s.inFlight.Done()`.
  unfoldable pub release : Bridge V → ℕ → Bridge V
  unfolding put values_of
  release s a =
      let unlocked = put s a none (values_of s a) in
      record unlocked { in_flight = unlocked.in_flight - 1 }

module _ {V E : Type 0} (gone : E) (i : ℕ) where
  -- What follows the first section of `admitInstance`.
  unfoldable pub lock_admitted :
      Bridge V → InstanceKey → Option (Bridge V × ℕ) → Bridge V × Result E ℕ
  unfolding release is_admitted put values_of
  lock_admitted s key none = (s, err gone)
  lock_admitted s key (some (t, a)) =
      let held = put t a (some i) (values_of t a) in
      if is_admitted held key a then (held, ok a) else (release held a, err gone)

  unfoldable pub admit_instance : Bridge V → InstanceKey → Bridge V × Result E ℕ
  unfolding lock_admitted admit
  admit_instance s key = lock_admitted s key (admit s key)

  module _ {A : Type 0} (invoke : List (Bytes × V) → List (Bytes × V) × Result E A) where
    -- The rest of `withInstance`, where the instance was admitted.
    unfoldable pub use_admitted : Bridge V × Result E ℕ → Bridge V × Result E A
    unfolding release put values_of
    use_admitted (t, err e) = (t, err e)
    use_admitted (t, ok a) =
        let (values, result) = invoke (values_of t a) in
        (release (put t a (some i) values) a, result)

    unfoldable pub with_instance : Bridge V → InstanceKey → Bridge V × Result E A
    unfolding use_admitted admit_instance
    with_instance s key = use_admitted (admit_instance s key)

    -- `clear(instance.data)` and the section at the end of `cleanInstance`.
    unfoldable pub clean_after : Bridge V → InstanceKey → ℕ → Result E A → Bridge V × Result E A
    unfolding release put complete
    clean_after t key a (err e) = (release t a, err e)
    clean_after t key a (ok result) = (release (complete (put t a (some i) []) key) a, ok result)

    unfoldable pub clean_admitted : InstanceKey → Bridge V × Result E ℕ → Bridge V × Result E A
    unfolding clean_after put values_of
    clean_admitted key (t, err e) = (t, err e)
    clean_admitted key (t, ok a) =
        let (values, result) = invoke (values_of t a) in
        clean_after (put t a (some i) values) key a result

    unfoldable pub clean_instance : Bridge V → InstanceKey → Bridge V × Result E A
    unfolding clean_admitted admit_instance
    clean_instance s key = clean_admitted key (admit_instance s key)
