-- ===== src/Settings/Tests.antt =====
-- Settings with a shared container, and settings that hold themselves.
use loadstrike_go.Prelude.{◌≡◌, ◌≢◌, ◌↔◌, refl, true, List, [], ◌∷◌, ◌==◌, if◌then◌else◌, ok, err}
use loadstrike_go.Settings.{
  Visit, of_map, of_slice, of_pointer, Value, nil_interface, interface_of, concrete, float, map_of,
  slice_of, Heap, out_of_fuel, reference_cycle, visit_eq, is_active, check_each, enter_container,
  open_value, check_concrete, validate_value, validate_settings,
}
use loadstrike_go.Settings.Sound.{IsTree}
use loadstrike_go.Settings.Complete.{validate_settings_iff}
use loadstrike_go.Settings.Progress.{validate_settings-IsTotal}

-- A map with two values that are one slice, and a slice at 3 that holds itself.
abbrev contents : Visit → List Value
contents (of_map t p) =
    interface_of (slice_of (of_slice 1 2 1 1)) ∷ interface_of (slice_of (of_slice 1 2 1 1)) ∷ []
contents (of_slice t p n c) =
    if p == 3
    then interface_of (slice_of (of_slice 1 3 1 1)) ∷ []
    else interface_of (float true) ∷ nil_interface ∷ []
contents (of_pointer t p) = []

abbrev heap : Heap
heap = record { contents = contents }

abbrev shared : Value
shared = concrete (map_of true (of_map 0 1))

abbrev cyclic : Value
cyclic = concrete (slice_of (of_slice 1 3 1 1))

cyclic-refused : validate_settings heap cyclic ≡ err reference_cycle
unfolding validate_settings validate_value check_concrete check_each open_value enter_container
    is_active visit_eq
cyclic-refused = refl

shared-accepted : validate_settings heap shared ≡ ok tt
unfolding validate_settings validate_value check_concrete check_each open_value enter_container
    is_active visit_eq
shared-accepted = refl

validate_settings_iff_example : (validate_settings heap shared ≡ ok tt) ↔ IsTree heap 129 shared
validate_settings_iff_example = validate_settings_iff heap shared

validate_settings-IsTotal_example : validate_settings heap cyclic ≢ err out_of_fuel
validate_settings-IsTotal_example = validate_settings-IsTotal heap cyclic
