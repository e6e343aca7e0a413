-- ===== src/Settings/Sound.antt =====
-- Which settings are accepted: those that unfold to a finite tree of supported values.
use loadstrike_go.Prelude.{
  ℕ, zero, suc, ◌+◌, ◌≤◌, ◌≡◌, sym, inl, inr, true, List, [], ◌∷◌, ltb, All, Result, ok,
  Result-cases, Bool-cases, arith,
}
use loadstrike_go.Settings.{
  Visit, Value, nil_interface, interface_of, concrete, Concrete, invalid, scalar, nil_slice,
  nil_pointer, unsupported, float, nil_map, map_of, slice_of, pointer_to, array_of, struct_of, Heap,
  SettingsError, elements, visible_fields, maximum_depth, is_active, check_each, enter_container,
  open_value, check_concrete, validate_value,
}

module _ (heap : Heap) where
  -- A value that the checks of its kind accept, and the values below it.
  abbrev pub IsSupported : Concrete → Type 0
  IsSupported unsupported = ⊥
  IsSupported (float is_finite) = is_finite ≡ true
  IsSupported (nil_map has_string_keys) = has_string_keys ≡ true
  IsSupported (map_of has_string_keys visit) = has_string_keys ≡ true
  IsSupported _ = Unit

  abbrev pub below : Concrete → List Value
  below (map_of has_string_keys visit) = heap.contents visit
  below (slice_of visit) = heap.contents visit
  below (pointer_to visit) = heap.contents visit
  below (array_of values) = elements values
  below (struct_of shown) = visible_fields shown
  below _ = []

  abbrev pub IsTreeOf : (Value → Type 0) → Concrete → Type 0
  IsTreeOf P c = IsSupported c × All P (below c)

  -- A value whose unfolding has at most n levels and supported values only. No cycle is mentioned.
  abbrev pub IsTree : ℕ → Value → Type 0
  IsTree zero v = ⊥
  IsTree (suc n) nil_interface = Unit
  IsTree (suc n) (interface_of c) = IsTreeOf (IsTree n) c
  IsTree (suc n) (concrete c) = IsTreeOf (IsTree n) c

  check_each-All :
      {P : Value → Type 0} (values : List Value) (check : Value → Result SettingsError (Unit {0}))
      → ((v : Value) → check v ≡ ok tt → P v)
      → check_each check values ≡ ok tt
      → All P values
  unfolding check_each
  check_each-All [] check f h = tt
  check_each-All (v ∷ values) check f h = elim (Result-cases (check v)) [
    | inr (e, p) ↦ absurd (ground (arith, h, p))
    | inl (u, p) ↦ (f v p, check_each-All values check f (ground (arith, h, p)))
  ]

  open_value_sound :
      (c : Concrete) (active entered : List Visit) (values : List Value)
      → open_value heap active c ≡ ok (entered, values)
      → IsSupported c × (values ≡ below c)
  unfolding open_value enter_container
  open_value_sound invalid active entered values h = (tt, ground (arith, h))
  open_value_sound scalar active entered values h = (tt, ground (arith, h))
  open_value_sound nil_slice active entered values h = (tt, ground (arith, h))
  open_value_sound nil_pointer active entered values h = (tt, ground (arith, h))
  open_value_sound unsupported active entered values h = absurd cc
  open_value_sound (float b) active entered values h =
      (ground (arith, h), ground (arith, h, Bool-cases b))
  open_value_sound (nil_map b) active entered values h =
      (ground (arith, h), ground (arith, h, Bool-cases b))
  open_value_sound (map_of b visit) active entered values h =
      let c = Bool-cases (is_active active visit) in
      (ground (arith, h, c), ground (arith, h, Bool-cases b, c))
  open_value_sound (slice_of visit) active entered values h =
      (tt, ground (arith, h, Bool-cases (is_active active visit)))
  open_value_sound (pointer_to visit) active entered values h =
      (tt, ground (arith, h, Bool-cases (is_active active visit)))
  open_value_sound (array_of vs) active entered values h = (tt, ground (arith, h))
  open_value_sound (struct_of shown) active entered values h = (tt, ground (arith, h))

  check_concrete_sound :
      {P : Value → Type 0} (check : List Visit → ℕ → Value → Result SettingsError (Unit {0}))
      (active : List Visit) (depth : ℕ) (c : Concrete)
      → ((entered : List Visit) (v : Value) → check entered (depth + 1) v ≡ ok tt → P v)
      → check_concrete heap check active depth c ≡ ok tt
      → (depth ≤ maximum_depth) × IsTreeOf P c
  unfolding check_concrete
  check_concrete_sound check active depth c f h =
      let deep = Bool-cases (ltb maximum_depth depth) in
      elim (Result-cases (open_value heap active c)) [
        | inr (e, p) ↦ absurd (ground (arith, h, p, deep))
        | inl ((entered, values), p) ↦
            let (supported, e) = open_value_sound c active entered values p in
            let each : check_each (check entered (depth + 1)) values ≡ ok tt =
              ground (arith, h, p, deep) in
            (
              ground (arith, h, p, deep),
              (supported, rw (sym e) (check_each-All values _ (f entered) each)),
            )
      ]

  pub validate_value_sound :
      (fuel n : ℕ) (active : List Visit) (depth : ℕ) (v : Value)
      → depth + n ≡ 129
      → validate_value heap fuel active depth v ≡ ok tt
      → IsTree n v
  unfolding validate_value
  validate_value_sound zero n active depth v e h = absurd cc
  validate_value_sound (suc fuel) zero active depth nil_interface e h =
      absurd (ground (arith, e, h))
  validate_value_sound (suc fuel) (suc n) active depth nil_interface e h = tt
  validate_value_sound (suc fuel) zero active depth (interface_of c) e h =
      absurd (ground (arith, e, h))
  validate_value_sound (suc fuel) (suc n) active depth (interface_of c) e h =
      (check_concrete_sound {P = IsTree n} (validate_value heap fuel) active depth c
        (λ entered v k. validate_value_sound fuel n entered (depth + 1) v (omega (arith, e)) k)
        (ground (arith, h, Bool-cases (ltb maximum_depth depth)))).1
  validate_value_sound (suc fuel) zero active depth (concrete c) e h = absurd (
      omega (
        arith,
        e,
        (check_concrete_sound {P = λ v. Unit} (validate_value heap fuel) active depth c
            (λ entered v k. tt) h).0,
      ))
  validate_value_sound (suc fuel) (suc n) active depth (concrete c) e h =
      (check_concrete_sound {P = IsTree n} (validate_value heap fuel) active depth c
        (λ entered v k. validate_value_sound fuel n entered (depth + 1) v (omega (arith, e)) k) h).1
