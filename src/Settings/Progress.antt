-- ===== src/Settings/Progress.antt =====
-- The depth limit ends the recursion of the check of settings.
use loadstrike_go.Prelude.{
  ℕ, zero, suc, ◌+◌, ◌≤◌, ◌≢◌, inl, inr, List, [], ◌∷◌, ltb, Result, err, Result-cases, Bool-cases,
  arith,
}
use loadstrike_go.Settings.{
  Visit, Value, nil_interface, interface_of, concrete, Concrete, invalid, scalar, nil_slice,
  nil_pointer, unsupported, float, nil_map, map_of, slice_of, pointer_to, array_of, struct_of, Heap,
  SettingsError, out_of_fuel, maximum_depth, is_active, check_each, enter_container, open_value,
  check_concrete, validate_value, validate_settings,
}

check_each-ends :
    {A : Type 0} (values : List A) (check : A → Result SettingsError (Unit {0}))
    → ((v : A) → check v ≢ err out_of_fuel)
    → check_each check values ≢ err out_of_fuel
unfolding check_each
check_each-ends [] check f = cc
check_each-ends (v ∷ values) check f =
    let rest = check_each-ends values check f in
    let first = f v in ground (arith, Result-cases (check v), rest, first)

module _ (heap : Heap) where
  open_value-ends :
      (c : Concrete) (active : List Visit) → open_value heap active c ≢ err out_of_fuel
  unfolding open_value enter_container
  open_value-ends invalid active = cc
  open_value-ends scalar active = cc
  open_value-ends nil_slice active = cc
  open_value-ends nil_pointer active = cc
  open_value-ends unsupported active = cc
  open_value-ends (float b) active = ground (arith, Bool-cases b)
  open_value-ends (nil_map b) active = ground (arith, Bool-cases b)
  open_value-ends (map_of b visit) active =
      ground (arith, Bool-cases b, Bool-cases (is_active active visit))
  open_value-ends (slice_of visit) active = ground (arith, Bool-cases (is_active active visit))
  open_value-ends (pointer_to visit) active = ground (arith, Bool-cases (is_active active visit))
  open_value-ends (array_of vs) active = cc
  open_value-ends (struct_of shown) active = cc

  check_concrete-ends :
      (check : List Visit → ℕ → Value → Result SettingsError (Unit {0})) (active : List Visit)
      (depth : ℕ) (c : Concrete)
      → (depth ≤ maximum_depth
          → (entered : List Visit) (w : Value) → check entered (depth + 1) w ≢ err out_of_fuel)
      → check_concrete heap check active depth c ≢ err out_of_fuel
  unfolding check_concrete
  check_concrete-ends check active depth c f = elim (Bool-cases (ltb maximum_depth depth)) [
    | inl deep ↦ ground (arith, deep)
    | inr shallow ↦ elim (Result-cases (open_value heap active c)) [
      | inr (e, p) ↦ ground (arith, shallow, p, open_value-ends c active)
      | inl ((entered, values), p) ↦
          let each =
            check_each-ends values (check entered (depth + 1))
              (f (ground (arith, shallow)) entered) in
          ground (arith, shallow, p, each)
    ]
  ]

  validate_value-ends :
      (fuel : ℕ) (active : List Visit) (depth : ℕ) (v : Value)
      → 130 ≤ fuel + depth
      → depth ≤ 129
      → validate_value heap fuel active depth v ≢ err out_of_fuel
  unfolding validate_value
  validate_value-ends zero active depth v n d = absurd (omega (arith, n, d))
  validate_value-ends (suc fuel) active depth nil_interface n d =
      ground (arith, Bool-cases (ltb maximum_depth depth))
  validate_value-ends (suc fuel) active depth (interface_of c) n d =
      let rest = check_concrete-ends (validate_value heap fuel) active depth c (λ k entered w.
        validate_value-ends fuel entered (depth + 1) w (omega (arith, n)) (omega (arith, k))) in
      ground (arith, Bool-cases (ltb maximum_depth depth), rest)
  validate_value-ends (suc fuel) active depth (concrete c) n d =
      check_concrete-ends (validate_value heap fuel) active depth c (λ k entered w.
        validate_value-ends fuel entered (depth + 1) w (omega (arith, n)) (omega (arith, k)))

  -- The check of settings ends by itself, whatever cycles the settings have: the rounds that are given
  -- to it are never used up.
  pub validate_settings-IsTotal : (v : Value) → validate_settings heap v ≢ err out_of_fuel
  unfolding validate_settings
  validate_settings-IsTotal v = validate_value-ends 130 [] 0 v (omega arith) (omega arith)
