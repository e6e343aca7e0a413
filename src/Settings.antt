-- ===== src/Settings.antt =====
-- runtime_settings.go: settings of a caller are checked before they are copied through encoding/json.
-- A `reflect.Value` is a value here, and what maps, slices and pointers refer to is a heap. Types and
-- pointers are numbers, and the path in an error's message is left out.
pub mod Sound
pub mod Complete
pub mod Progress
pub mod Tests
use loadstrike_go.Prelude.{
  ℕ, zero, suc, ◌+◌, Bool, true, false, not, ◌&&◌, ◌||◌, List, [], ◌∷◌, Bytes, Option, none, some,
  text_eq, codes, ltb, ◌==◌, if◌then◌else◌, Result, ok, err, ◌>>=◌, ◌>>◌, reject_if,
}

-- `runtimeSettingsVisit`: the type, the pointer and, of a slice, its length and its capacity.
pub data Visit : Type 0 where
  of_map : ℕ → ℕ → Visit
  of_slice : ℕ → ℕ → ℕ → ℕ → Visit
  of_pointer : ℕ → ℕ → Visit

-- What `runtimeSettingsStructFieldVisible` reads of a field: its json tag, `PkgPath`, `Anonymous`, and
-- whether its type, or what that points to, is a struct.
pub record FieldType : Type 0 where
  pub json_tag : Bytes
  pub package_path : Bytes
  pub is_anonymous : Bool
  pub is_of_struct : Bool

-- `scalar` is a Boolean, a string or an integer, and `float` tells whether it is finite. A map tells
-- whether its keys are strings. `unsupported` is every other kind.
mutual
  pub data Value : Type 0 where
    nil_interface : Value
    interface_of concrete : Concrete → Value

  pub data Concrete : Type 0 where
    invalid scalar nil_slice nil_pointer unsupported : Concrete
    float nil_map : Bool → Concrete
    map_of : Bool → Visit → Concrete
    slice_of pointer_to : Visit → Concrete
    array_of : Values → Concrete
    struct_of : Fields → Concrete

  pub data Values : Type 0 where
    no_values : Values
    and_value : Value → Values → Values

  pub data Fields : Type 0 where
    no_fields : Fields
    and_field : FieldType → Value → Fields → Fields

pub data SettingsError : Type 0 where
  too_deep non_finite non_string_keys reference_cycle unsupported_kind not_json out_of_fuel :
      SettingsError

-- The values of a map in the order of its iteration, the elements of a slice, the target of a pointer.
pub record Heap : Type 0 where
  pub contents : Visit → List Value

abbrev pub maximum_depth : ℕ
maximum_depth = 128

unfoldable pub visit_eq : Visit → Visit → Bool
visit_eq (of_map t p) (of_map u q) = t == u && p == q
visit_eq (of_pointer t p) (of_pointer u q) = t == u && p == q
visit_eq (of_slice t p m c) (of_slice u q n d) = t == u && p == q && m == n && c == d
visit_eq (of_map t p) (of_pointer u q) = false
visit_eq (of_map t p) (of_slice u q n d) = false
visit_eq (of_pointer t p) (of_map u q) = false
visit_eq (of_pointer t p) (of_slice u q n d) = false
visit_eq (of_slice t p m c) (of_map u q) = false
visit_eq (of_slice t p m c) (of_pointer u q) = false

-- `active[visit]`
unfoldable pub is_active : List Visit → Visit → Bool
unfolding visit_eq
is_active [] visit = false
is_active (v ∷ active) visit = visit_eq v visit || is_active active visit

unfoldable pub is_field_visible : FieldType → Bool
unfolding text_eq
is_field_visible f =
    if text_eq f.json_tag (codes "-")
    then false
    else if text_eq f.package_path []
    then true
    else if not f.is_anonymous
    then false
    else f.is_of_struct

unfoldable pub elements : Values → List Value
elements no_values = []
elements (and_value v values) = v ∷ elements values

-- The fields that the loop does not skip.
unfoldable pub visible_fields : Fields → List Value
unfolding is_field_visible
visible_fields no_fields = []
visible_fields (and_field f v fields) =
    let rest = visible_fields fields in if is_field_visible f then v ∷ rest else rest

-- A loop that returns at the first error.
unfoldable pub check_each {ℓ} :
    {A : Type ℓ} → (A → Result SettingsError (Unit {0})) → List A → Result SettingsError (Unit {0})
check_each check [] = ok tt
check_each check (v ∷ values) = check v >> check_each check values

module _ (heap : Heap) where
  -- `enterRuntimeSettingsContainer`; the deferred `delete` is the return to the caller's list.
  unfoldable pub enter_container : List Visit → Visit → Result SettingsError (List Visit)
  unfolding is_active
  enter_container active visit =
      reject_if (is_active active visit) reference_cycle >> ok (visit ∷ active)

  -- The values below a value, and the visits that are active there.
  unfoldable pub open_value : List Visit → Concrete → Result SettingsError (List Visit × List Value)
  unfolding enter_container elements visible_fields
  open_value active invalid = ok (active, [])
  open_value active scalar = ok (active, [])
  open_value active nil_slice = ok (active, [])
  open_value active nil_pointer = ok (active, [])
  open_value active unsupported = err unsupported_kind
  open_value active (float is_finite) = reject_if (not is_finite) non_finite >> ok (active, [])
  open_value active (nil_map has_string_keys) =
      reject_if (not has_string_keys) non_string_keys >> ok (active, [])
  open_value active (map_of has_string_keys visit) = do
    reject_if (not has_string_keys) non_string_keys
    entered ← enter_container active visit
    ok (entered, heap.contents visit)
  open_value active (slice_of visit) = do
    entered ← enter_container active visit
    ok (entered, heap.contents visit)
  open_value active (pointer_to visit) = do
    entered ← enter_container active visit
    ok (entered, heap.contents visit)
  open_value active (array_of values) = ok (active, elements values)
  open_value active (struct_of fields) = ok (active, visible_fields fields)

  -- The body of `validateJSONCompatibleSettingsValue`, for what is no interface.
  unfoldable pub check_concrete :
      (List Visit → ℕ → Value → Result SettingsError (Unit {0}))
      → List Visit
      → ℕ
      → Concrete
      → Result SettingsError (Unit {0})
  unfolding open_value check_each
  check_concrete check active depth c = do
    reject_if (ltb maximum_depth depth) too_deep
    (entered, below) ← open_value active c
    check_each (check entered (depth + 1)) below

  -- `validateJSONCompatibleSettingsValue`
  unfoldable pub validate_value : ℕ → List Visit → ℕ → Value → Result SettingsError (Unit {0})
  unfolding check_concrete
  validate_value zero active depth v = err out_of_fuel
  validate_value (suc fuel) active depth nil_interface =
      reject_if (ltb maximum_depth depth) too_deep
  validate_value (suc fuel) active depth (interface_of c) =
      reject_if (ltb maximum_depth depth) too_deep
      >> check_concrete (validate_value fuel) active depth c
  validate_value (suc fuel) active depth (concrete c) =
      check_concrete (validate_value fuel) active depth c

  unfoldable pub validate_settings : Value → Result SettingsError (Unit {0})
  unfolding validate_value
  validate_settings v = validate_value 130 [] 0 v

  -- `cloneJSONCompatibleSettings`: `none` is a nil map; `copy` is `json.Marshal` and `json.Unmarshal`,
  -- where `none` is an error of either and `some none` is JSON's null.
  unfoldable pub clone_settings {ℓ} :
      {A : Type ℓ} → (Value → Option (Option A)) → A → Option Value → Result SettingsError A
  unfolding validate_settings
  clone_settings copy empty none = ok empty
  clone_settings copy empty (some source) = validate_settings source >> elim (copy source) [
    | none ↦ err not_json
    | some none ↦ ok empty
    | some (some snapshot) ↦ ok snapshot
  ]
