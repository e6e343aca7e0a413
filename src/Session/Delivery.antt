-- ===== src/Session/Delivery.antt =====
-- Every event is handed over once, in order, and the end is reported only behind the last of them.
use loadstrike_go.Prelude.{
  ℕ, ◌≡◌, refl, sym, ◌∙◌, true, false, List, [], ◌∷◌, ◌++◌, Bool-cases, arith,
}
use mathlib.Core.List.{append_assoc, append-nil}
use loadstrike_go.Session.{Session, start, append, notify, conclude, snapshot, shut, is_final}
use loadstrike_go.Session.World.{
  Consumer, resting, receiving, begin_consuming, Poller, concluding, gone, is_over, World, Step,
  enter, emit, emit_late, signal, finish, last_signal, found, wait, woken, expired, abandoned,
  close, Reach, here, next, initial, return_batch,
}

begin_consuming-is_over : (c : Consumer) → is_over (begin_consuming c) ≡ is_over c
begin_consuming-is_over resting = refl
begin_consuming-is_over receiving = refl
begin_consuming-is_over concluding = refl
begin_consuming-is_over gone = refl

module _ {E : Type 0} where
  -- Everything was delivered that the callback was given before `consume` returned; the rest came after.
  abbrev pub IsLast : World E → Type 0
  IsLast w =
      (rest : List E) × ((w.delivered ≡ w.produced ++ rest)
        × (w.late ≡ rest ++ (w.session).messages))

  pub record IsDelivered (w : World E) : Type 0 where
    pub exact : w.produced ++ w.late ≡ w.delivered ++ (w.session).messages
    pub over : (w.session).completed ≡ is_over w.consumer
    pub early : is_over w.consumer ≡ false → w.late ≡ []
    pub ended : w.reported ≡ true → (w.session).completed ≡ true
    pub last : w.reported ≡ true → IsLast w

  return_batch-IsDelivered : (w : World E) (i : ℕ) → IsDelivered w → IsDelivered (return_batch w i)
  unfolding snapshot
  return_batch-IsDelivered w i inv =
      let reported_before = Bool-cases w.reported in
      record {
        exact = rw (append-nil) (inv.exact);
        over = inv.over;
        early = inv.early;
        ended = λ h. ground (arith, h, inv.ended, reported_before);
        last = λ h. (w.late, (sym inv.exact, sym (append-nil w.late)));
      }

  start-keeps :
      (s : Session E) → ((start s).messages ≡ s.messages) × ((start s).completed ≡ s.completed)
  unfolding start
  start-keeps s = (ground (arith, Bool-cases s.started), ground (arith, Bool-cases s.started))

  -- A step that changes neither the events nor whether the consumer has ended.
  kept-IsDelivered :
      (w : World E) (s : Session E) (c : Consumer) (n : ℕ) (polls : List Poller)
      → s.messages ≡ (w.session).messages
      → s.completed ≡ (w.session).completed
      → is_over c ≡ is_over w.consumer
      → IsDelivered w
      → IsDelivered (record w { session = s; consumer = c; notifying = n; polls = polls })
  kept-IsDelivered w s c n polls m d o inv = record {
    exact = rw (m) inv.exact;
    over = d ∙ inv.over ∙ sym o;
    early = λ h. inv.early (sym o ∙ h);
    ended = λ h. d ∙ inv.ended h;
    last = λ h. let (rest, (e, l)) = inv.last h in (rest, (e, rw (m) l));
  }

  pub Step-IsDelivered : {w u : World E} → Step w u → IsDelivered w → IsDelivered u
  unfolding append notify conclude snapshot shut is_final
  Step-IsDelivered {w} (enter i e) inv =
      let (m, d) = start-keeps w.session in
      kept-IsDelivered w _ _ _ _ m d (begin_consuming-is_over w.consumer) inv
  Step-IsDelivered {w} (emit event e) inv =
      let open_now : is_over w.consumer ≡ false = ground (arith, e) in
      let none_late : w.late ≡ [] = inv.early open_now in
      record {
        exact = ground (
          arith,
          none_late,
          inv.exact,
          append-nil w.produced,
          append-nil (w.produced ++ event ∷ []),
          append_assoc w.delivered (w.session).messages (event ∷ []),
        );
        over = inv.over;
        early = inv.early;
        ended = inv.ended;
        last = λ h. absurd (ground (arith, sym open_now ∙ sym inv.over ∙ inv.ended h));
      }
  Step-IsDelivered {w} (emit_late event e) inv = record {
    exact = ground (
      arith,
      inv.exact,
      append_assoc w.produced w.late (event ∷ []),
      append_assoc w.delivered (w.session).messages (event ∷ []),
    );
    over = inv.over;
    early = λ h. absurd (ground (arith, e, h));
    ended = inv.ended;
    last = λ h.
        let (rest, (d, l)) = inv.last h in
        (rest, (d, ground (arith, l, append_assoc rest (w.session).messages (event ∷ []))));
  }
  Step-IsDelivered {w} (signal e) inv = kept-IsDelivered w _ _ _ _ refl refl refl inv
  Step-IsDelivered {w} (finish result e) inv =
      let open_now : is_over w.consumer ≡ false = ground (arith, e) in
      record {
        exact = inv.exact;
        over = refl;
        early = λ h. inv.early open_now;
        ended = λ h. refl;
        last = inv.last;
      }
  Step-IsDelivered {w} (last_signal e) inv =
      kept-IsDelivered w _ _ _ _ refl refl (ground (arith, e)) inv
  Step-IsDelivered {w} (found i e f) inv = return_batch-IsDelivered w i inv
  Step-IsDelivered {w} (wait i e f) inv =
      kept-IsDelivered w _ _ _ _ (ground (arith, f)) refl refl inv
  Step-IsDelivered {w} (woken i e f) inv = kept-IsDelivered w _ _ _ _ refl refl refl inv
  Step-IsDelivered {w} (expired i e) inv = return_batch-IsDelivered w i inv
  Step-IsDelivered {w} (abandoned i e) inv = kept-IsDelivered w _ _ _ _ refl refl refl inv
  Step-IsDelivered {w} close inv = kept-IsDelivered w _ _ _ _ refl refl refl inv

  initial-IsDelivered : (n : ℕ) → IsDelivered (initial {E = E} n)
  unfolding initial
  initial-IsDelivered n = record {
    exact = refl;
    over = refl;
    early = λ h. refl;
    ended = λ h. absurd (ground (arith, h));
    last = λ h. absurd (ground (arith, h));
  }

  Reach-IsDelivered : {w u : World E} → Reach w u → IsDelivered w → IsDelivered u
  Reach-IsDelivered here inv = inv
  Reach-IsDelivered (next step rest) inv = Reach-IsDelivered rest (Step-IsDelivered step inv)

  -- At any time, with any number of polls at once, the polls have fetched the events given to the
  -- consumer's callback, first those of its run and then those after it, each once and in order, but for
  -- those that the session still keeps.
  pub delivered_in_order :
      (n : ℕ) {w : World E}
      → Reach (initial n) w
      → w.produced ++ w.late ≡ w.delivered ++ (w.session).messages
  delivered_in_order n r = (Reach-IsDelivered r (initial-IsDelivered n)).exact

  -- Once a poll has reported that the consumer has ended, it has, and all events of its run were
  -- fetched; what the session still keeps was given to the callback after `consume` had returned, so
  -- that there is nothing if the callback is called no more.
  pub end_after_all :
      (n : ℕ) {w : World E}
      → Reach (initial n) w
      → w.reported ≡ true
      → (is_over w.consumer ≡ true)
        × ((rest : List E) × ((w.delivered ≡ w.produced ++ rest)
              × (w.late ≡ rest ++ (w.session).messages)))
  end_after_all n {w} r h =
      let inv = Reach-IsDelivered r (initial-IsDelivered n) in
      (sym (inv.over) ∙ inv.ended h, inv.last h)
