-- ===== src/Session/Tests.antt =====
-- Two polls at once: one waits for an event while the other is done; later one reports the end.
use loadstrike_go.Prelude.{
  ℕ, ◌<◌, ◌≡◌, ◌⊎◌, refl, true, false, List, [], ◌∷◌, ◌++◌, none, some, get_elem?, arith,
}
use loadstrike_go.Session.{start, append, notify, conclude, snapshot, is_final}
use loadstrike_go.Session.World.{
  receiving, concluding, away, looking, selecting, is_over, World, enter, emit, emit_late, signal,
  finish, found, wait, woken, Reach, here, next, initial,
}
use loadstrike_go.Session.Delivery.{delivered_in_order, end_after_all}
use loadstrike_go.Session.Wakeups.{no_lost_wakeup}

-- Both polls wait; an event comes, and its token wakes the second.
abbrev waiting : World ℕ
waiting = record {
  session = record {
    started = true;
    messages = 5 ∷ [];
    completed = false;
    error = none;
    closed = false;
    has_cancel = true;
    is_canceled = false;
    wake = false;
  };
  consumer = receiving;
  notifying = 0;
  polls = selecting ∷ looking ∷ [];
  produced = 5 ∷ [];
  late = [];
  delivered = [];
  reported = false;
}

Reach-waiting : Reach (initial 2) waiting
unfolding initial start append notify snapshot is_final
Reach-waiting = next (enter 0 refl) (
    next (wait 0 refl refl) (
      next (enter 1 refl) (
        next (wait 1 refl refl)
          (next (emit 5 refl) (next (signal (omega arith)) (next (woken 1 refl refl) here))))))

no_lost_wakeup_example :
    ◌≡◌ false true ⊎ ((0 < 0) ⊎ ((k : ℕ) × (get_elem? (selecting ∷ looking ∷ []) k ≡ some looking)))
no_lost_wakeup_example = no_lost_wakeup 2 0 Reach-waiting refl cc

delivered_in_order_example : ◌≡◌ {A = List ℕ} (5 ∷ []) ([] ++ 5 ∷ [])
delivered_in_order_example = delivered_in_order 2 Reach-waiting

-- The callback is called once more after `consume` has returned.
abbrev ended : World ℕ
ended = record {
  session = record {
    started = true;
    messages = 6 ∷ [];
    completed = true;
    error = none;
    closed = false;
    has_cancel = true;
    is_canceled = false;
    wake = true;
  };
  consumer = concluding;
  notifying = 1;
  polls = away ∷ away ∷ [];
  produced = 5 ∷ [];
  late = 6 ∷ [];
  delivered = 5 ∷ [];
  reported = true;
}

Reach-ended : Reach (initial 2) ended
unfolding initial start append notify conclude snapshot is_final
Reach-ended = next (enter 0 refl) (
    next (emit 5 refl) (
      next (signal (omega arith))
        (next (finish none refl) (next (found 0 refl refl) (next (emit_late 6 refl) here)))))

end_after_all_example :
    (is_over concluding ≡ true)
    × ((rest : List ℕ) × ((5 ∷ [] ≡ 5 ∷ rest) × (6 ∷ [] ≡ rest ++ 6 ∷ [])))
end_after_all_example = end_after_all 2 Reach-ended refl
