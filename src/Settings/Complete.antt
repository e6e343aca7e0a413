-- ===== src/Settings/Complete.antt =====
-- A finite tree of supported values is accepted: no container of one is entered twice on one path.
use loadstrike_go.Prelude.{
  ℕ, zero, suc, ◌+◌, ◌≤◌, ◌≡◌, ◌↔◌, sym, inl, inr, refl, true, false, List, [], ◌∷◌, All, Result,
  ok, Bool-cases, arith,
}
use loadstrike_go.Settings.{
  Visit, of_map, of_slice, of_pointer, Value, nil_interface, interface_of, concrete, Concrete,
  invalid, scalar, nil_slice, nil_pointer, unsupported, float, nil_map, map_of, slice_of,
  pointer_to, array_of, struct_of, Heap, SettingsError, maximum_depth, visit_eq, is_active,
  check_each, enter_container, open_value, check_concrete, validate_value, validate_settings,
}
use loadstrike_go.Settings.Sound.{below, IsTreeOf, IsTree, validate_value_sound}

visit_eq-eq : (v w : Visit) → visit_eq v w ≡ true → v ≡ w
unfolding visit_eq
visit_eq-eq (of_map t p) (of_map u q) h = ground arith
visit_eq-eq (of_pointer t p) (of_pointer u q) h = ground arith
visit_eq-eq (of_slice t p m c) (of_slice u q n d) h = ground arith
visit_eq-eq (of_map t p) (of_pointer u q) h = absurd cc
visit_eq-eq (of_map t p) (of_slice u q n d) h = absurd cc
visit_eq-eq (of_pointer t p) (of_map u q) h = absurd cc
visit_eq-eq (of_pointer t p) (of_slice u q n d) h = absurd cc
visit_eq-eq (of_slice t p m c) (of_map u q) h = absurd cc
visit_eq-eq (of_slice t p m c) (of_pointer u q) h = absurd cc

-- What every list of one family satisfies, each of its elements satisfies.
All-under :
    {A I : Type 0} (H : I → Type 0) (P : I → A → Type 0) (values : List A)
    → ((i : I) → H i → All (P i) values)
    → All (λ v. (i : I) → H i → P i v) values
All-under H P [] f = tt
All-under H P (v ∷ values) f = (λ i h. (f i h).0, All-under H P values (λ i h. (f i h).1))

All-map :
    {A : Type 0} {P Q : A → Type 0} (values : List A)
    → ((v : A) → P v → Q v)
    → All P values
    → All Q values
All-map [] f h = tt
All-map (v ∷ values) f (p, ps) = (f v p, All-map values f ps)

All-both :
    {A : Type 0} (P Q : A → Type 0) (values : List A)
    → All P values
    → All Q values
    → All (λ v. P v × Q v) values
All-both P Q [] h k = tt
All-both P Q (v ∷ values) (p, ps) (q, qs) = ((p, q), All-both P Q values ps qs)

check_each-ok :
    {A : Type 0} (values : List A) (check : A → Result SettingsError (Unit {0}))
    → All (λ v. check v ≡ ok tt) values
    → check_each check values ≡ ok tt
unfolding check_each
check_each-ok [] check h = refl
check_each-ok (v ∷ values) check (p, ps) = ground (arith, p, check_each-ok values check ps)

module _ (heap : Heap) where
  IsTree-suc : (n : ℕ) (v : Value) → IsTree heap n v → IsTree heap (suc n) v
  IsTree-suc zero v h = absurd h
  IsTree-suc (suc n) nil_interface h = tt
  IsTree-suc (suc n) (interface_of c) (s, h) = (s, All-map (below heap c) (IsTree-suc n) h)
  IsTree-suc (suc n) (concrete c) (s, h) = (s, All-map (below heap c) (IsTree-suc n) h)

  -- What an active container holds has no smaller tree than the value below it.
  IsBelow : List Visit → Value → Type 0
  IsBelow active v =
      (i : Visit × ℕ)
      → (is_active active i.0 ≡ true) × All (IsTree heap i.1) (heap.contents i.0)
      → IsTree heap i.1 v

  -- A value is a tree where what it or its interface holds is one.
  Holds : Value → Concrete → Type 0
  Holds v c = (n : ℕ) → IsTree heap (suc n) v → IsTreeOf heap (IsTree heap n) c

  -- The contents of a container that lies below itself have no tree.
  no-IsTree :
      (active : List Visit) (visit : Visit) (v : Value) (c : Concrete)
      → IsBelow active v
      → is_active active visit ≡ true
      → Holds v c
      → below heap c ≡ heap.contents visit
      → (n : ℕ) → ¬ (All (IsTree heap n) (heap.contents visit))
  unfolding IsBelow Holds
  no-IsTree active visit v c b a e same zero h = b (visit, 0) (a, h)
  no-IsTree active visit v c b a e same (suc n) h =
      no-IsTree active visit v c b a e same n (rw (sym same) (e n (b (visit, suc n) (a, h))).1)

  All-descend :
      (active : List Visit) (v : Value) (c : Concrete)
      → IsBelow active v
      → Holds v c
      → All (IsBelow active) (below heap c)
  unfolding IsBelow Holds
  All-descend active v c b e = All-under _ _ (below heap c) (λ (y, k) h. go k (b (y, k) h))
    where
      go : (k : ℕ) → IsTree heap k v → All (IsTree heap k) (below heap c)
      go zero h = absurd h
      go (suc k) h = All-map (below heap c) (IsTree-suc k) (e k h).1

  All-enter :
      (active : List Visit) (visit : Visit)
      → All (IsBelow active) (heap.contents visit)
      → All (IsBelow (visit ∷ active)) (heap.contents visit)
  unfolding IsBelow is_active
  All-enter active visit h =
      All-map (heap.contents visit)
        (λ v (old, new) (y, k) (a, t). elim (Bool-cases (visit_eq visit y)) [
          | inl e ↦ new k (rw (visit_eq-eq visit y e) t)
          | inr e ↦ old (y, k) (ground (arith, a, e), t)
        ])
        (All-both _ _ (heap.contents visit) h (
          All-under (λ k. All (IsTree heap k) (heap.contents visit)) (IsTree heap)
            (heap.contents visit) (λ k t. t)))

  is_active-new :
      (active : List Visit) (visit : Visit) (v : Value) (c : Concrete)
      → IsBelow active v
      → Holds v c
      → below heap c ≡ heap.contents visit
      → (n : ℕ) → All (IsTree heap n) (heap.contents visit)
      → is_active active visit ≡ false
  is_active-new active visit v c b e same n t = elim (Bool-cases (is_active active visit)) [
    | inr new ↦ new
    | inl old ↦ absurd (no-IsTree active visit v c b old e same n t)
  ]

  open_value_complete :
      (active : List Visit) (v : Value) (c : Concrete) (n : ℕ)
      → IsBelow active v
      → Holds v c
      → IsTreeOf heap (IsTree heap n) c
      → (entered : List Visit) × (open_value heap active c ≡ ok (entered, below heap c))
        × All (IsBelow entered) (below heap c)
  unfolding open_value enter_container
  open_value_complete active v unsupported n b e (s, t) = absurd s
  open_value_complete active v invalid n b e (s, t) = (active, refl, tt)
  open_value_complete active v scalar n b e (s, t) = (active, refl, tt)
  open_value_complete active v nil_slice n b e (s, t) = (active, refl, tt)
  open_value_complete active v nil_pointer n b e (s, t) = (active, refl, tt)
  open_value_complete active v (float k) n b e (s, t) = (active, ground (arith, s), tt)
  open_value_complete active v (nil_map k) n b e (s, t) = (active, ground (arith, s), tt)
  open_value_complete active v (array_of vs) n b e (s, t) =
      (active, refl, All-descend active v (array_of vs) b e)
  open_value_complete active v (struct_of shown) n b e (s, t) =
      (active, refl, All-descend active v (struct_of shown) b e)
  open_value_complete active v (slice_of visit) n b e (s, t) =
      let new = is_active-new active visit v (slice_of visit) b e refl n t in
      (
        visit ∷ active,
        ground (arith, new),
        All-enter active visit (All-descend active v (slice_of visit) b e),
      )
  open_value_complete active v (pointer_to visit) n b e (s, t) =
      let new = is_active-new active visit v (pointer_to visit) b e refl n t in
      (
        visit ∷ active,
        ground (arith, new),
        All-enter active visit (All-descend active v (pointer_to visit) b e),
      )
  open_value_complete active v (map_of k visit) n b e (s, t) =
      let new = is_active-new active visit v (map_of k visit) b e refl n t in
      (
        visit ∷ active,
        ground (arith, new, s),
        All-enter active visit (All-descend active v (map_of k visit) b e),
      )

  check_concrete_complete :
      (check : List Visit → ℕ → Value → Result SettingsError (Unit {0})) (active : List Visit)
      (depth : ℕ) (v : Value) (c : Concrete) (n : ℕ)
      → depth ≤ maximum_depth
      → ((entered : List Visit) (w : Value)
          → IsTree heap n w
          → IsBelow entered w
          → check entered (depth + 1) w ≡ ok tt)
      → IsBelow active v
      → Holds v c
      → IsTreeOf heap (IsTree heap n) c
      → check_concrete heap check active depth c ≡ ok tt
  unfolding check_concrete
  check_concrete_complete check active depth v c n d f b e (s, t) =
      let (entered, opens, bs) = open_value_complete active v c n b e (s, t) in
      let each = check_each-ok (below heap c) (check entered (depth + 1)) (
        All-map (below heap c) (λ w (x, y). f entered w x y)
          (All-both (IsTree heap n) (IsBelow entered) (below heap c) t bs)) in
      ground (arith, d, opens, each)

  validate_value_complete :
      (fuel n : ℕ) (active : List Visit) (depth : ℕ) (v : Value)
      → n ≤ fuel
      → depth + n ≤ 129
      → IsTree heap n v
      → IsBelow active v
      → validate_value heap fuel active depth v ≡ ok tt
  unfolding validate_value Holds
  validate_value_complete fuel zero active depth v f d t b = absurd t
  validate_value_complete zero (suc n) active depth v f d t b = absurd (omega (arith, f))
  validate_value_complete (suc fuel) (suc n) active depth nil_interface f d t b = ground (arith, d)
  validate_value_complete (suc fuel) (suc n) active depth (interface_of c) f d t b = ground (
    arith,
    d,
    check_concrete_complete (validate_value heap fuel) active depth (interface_of c) c n
        (omega (arith, d))
        (λ entered w x y.
          validate_value_complete fuel n entered (depth + 1) w (omega (arith, f)) (omega (arith, d))
            x y)
        b (λ k h. h) t,
  )
  validate_value_complete (suc fuel) (suc n) active depth (concrete c) f d t b =
      check_concrete_complete (validate_value heap fuel) active depth (concrete c) c n
        (omega (arith, d))
        (λ entered w x y.
          validate_value_complete fuel n entered (depth + 1) w (omega (arith, f)) (omega (arith, d))
            x y)
        b (λ k h. h) t

  -- Settings are accepted exactly where they unfold to a tree of at most 129 levels whose values are all
  -- supported: finite numbers, maps with string keys, no channel, function or complex number. A
  -- container that is reached twice is no error, as long as it does not hold itself.
  pub validate_settings_iff : (v : Value) → (validate_settings heap v ≡ ok tt) ↔ IsTree heap 129 v
  unfolding validate_settings IsBelow is_active
  validate_settings_iff v = (
    λ h. validate_value_sound heap 130 129 [] 0 v refl h,
    λ t.
        validate_value_complete 130 129 [] 0 v (omega arith) (omega arith) t
          (λ (y, k) (a, h). absurd cc),
  )
