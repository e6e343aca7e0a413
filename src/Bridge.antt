-- ===== src/Bridge.antt =====
-- `runtimeScenarioBridgeState` (runtime_callback_registry.go): which scenario instances exist, who
-- may use them, and how they are closed. A section under `s.mu` is one function on `Bridge`; the
-- threads between such sections are in Bridge/World.antt.
pub mod World
pub mod Trace
pub mod Calls
pub mod Table
pub mod Sections
pub mod Invariant
pub mod Closing
pub mod Exclusive
pub mod Retired
pub mod Tests
use loadstrike_go.Prelude.{
  ℕ, ◌+◌, ◌≡◌, ◌↔◌, Bool, true, false, not, ◌&&◌, ◌||◌, List, [], ◌∷◌, ◌++◌, Bytes, Option, none,
  some, text_eq, text_eq_iff, text_eq_refl, length, get_elem?, set, ◌==◌, if◌then◌else◌, ℤ, pos,
  negsuc, arith,
}

pub record InstanceKey : Type 0 where
  pub run_identity : Bytes
  pub node_identity : Bytes
  pub partition_number : ℤ
  pub scenario_name : Bytes
  pub scenario_instance_id : Bytes

unfoldable pub int_eq : ℤ → ℤ → Bool
int_eq (pos a) (pos b) = a == b
int_eq (negsuc a) (negsuc b) = a == b
int_eq (pos a) (negsuc b) = false
int_eq (negsuc a) (pos b) = false

pub int_eq_iff : (a b : ℤ) → (int_eq a b ≡ true) ↔ (a ≡ b)
unfolding int_eq
int_eq_iff (pos a) (pos b) = (λ h. ground arith, λ h. ground arith)
int_eq_iff (negsuc a) (negsuc b) = (λ h. ground arith, λ h. ground arith)
int_eq_iff (pos a) (negsuc b) = (λ h. ground arith, λ h. ground arith)
int_eq_iff (negsuc a) (pos b) = (λ h. ground arith, λ h. ground arith)

-- `==` on keys, which Go's map uses.
unfoldable pub key_eq : InstanceKey → InstanceKey → Bool
key_eq a b =
    text_eq a.run_identity b.run_identity
    && text_eq a.node_identity b.node_identity
    && int_eq a.partition_number b.partition_number
    && text_eq a.scenario_name b.scenario_name
    && text_eq a.scenario_instance_id b.scenario_instance_id

pub key_eq_iff : (a b : InstanceKey) → (key_eq a b ≡ true) ↔ (a ≡ b)
unfolding key_eq
key_eq_iff a b =
    let run = text_eq_iff a.run_identity b.run_identity in
    let node = text_eq_iff a.node_identity b.node_identity in
    let partition = int_eq_iff a.partition_number b.partition_number in
    let scenario = text_eq_iff a.scenario_name b.scenario_name in
    let instance_id = text_eq_iff a.scenario_instance_id b.scenario_instance_id in
    (
      λ h. ground (arith, run, node, partition, scenario, instance_id),
      λ h. ground (arith, run, node, partition, scenario, instance_id),
    )

pub key_eq_refl : (k : InstanceKey) → key_eq k k ≡ true
key_eq_refl k = (key_eq_iff k k).1 (λ i. k)

-- An instance by its address in the list of all instances ever made.
unfoldable pub lookup : List (InstanceKey × ℕ) → InstanceKey → Option ℕ
lookup [] key = none
lookup ((k, a) ∷ rest) key = if key_eq k key then some a else lookup rest key

unfoldable pub delete : List (InstanceKey × ℕ) → InstanceKey → List (InstanceKey × ℕ)
delete [] key = []
delete ((k, a) ∷ rest) key =
    let kept = delete rest key in if key_eq k key then kept else (k, a) ∷ kept

unfoldable pub contains : List InstanceKey → InstanceKey → Bool
contains [] key = false
contains (k ∷ rest) key = key_eq k key || contains rest key

-- `runtimeScenarioInstanceState`: its mutex, by the thread that holds it, and its data.
pub record Instance (V : Type 0) : Type 0 where
  pub owner : Option ℕ
  pub values : List (Bytes × V)

-- `runtimeScenarioBridgeState`, but for the metrics; `instances` is the heap that pointers lead to.
pub record Bridge (V : Type 0) : Type 0 where
  pub active : List (InstanceKey × ℕ)
  pub completed : List InstanceKey
  pub closed : Bool
  pub in_flight : ℕ
  pub instances : List (Instance V)

-- The comparison of two pointers, one of them perhaps nil.
abbrev pub is_at : Option ℕ → ℕ → Bool
is_at none a = false
is_at (some b) a = b == a

module _ {V : Type 0} where
  -- `newRuntimeScenarioBridgeState`
  unfoldable pub new_bridge : Bridge V
  new_bridge = record { active = []; completed = []; closed = false; in_flight = 0; instances = [] }

  -- `instance := s.active[key]`, made where it is nil; then `s.inFlight.Add(1)`.
  unfoldable pub enter : Bridge V → InstanceKey → Option ℕ → Bridge V × ℕ
  enter s key (some a) = (record s { in_flight = s.in_flight + 1 }, a)
  enter s key none =
      let fresh : Instance V = record { owner = none; values = [] } in
      (
        record s {
          active = (key, length s.instances) ∷ s.active;
          in_flight = s.in_flight + 1;
          instances = s.instances ++ fresh ∷ [];
        },
        length s.instances,
      )

  -- The first section of `admitInstance`; `none` is `errRuntimeScenarioInstanceGone`.
  unfoldable pub admit : Bridge V → InstanceKey → Option (Bridge V × ℕ)
  unfolding enter
  admit s key =
      if s.closed || contains s.completed key
      then none
      else some (enter s key (lookup s.active key))

  -- Its second section, when the instance's mutex is held: `admitted`.
  unfoldable pub is_admitted : Bridge V → InstanceKey → ℕ → Bool
  is_admitted s key a =
      not s.closed && not (contains s.completed key) && is_at (lookup s.active key) a

  -- The section at the end of `cleanInstance`.
  unfoldable pub complete : Bridge V → InstanceKey → Bridge V
  complete s key =
      if not s.closed
      then record s { completed = key ∷ s.completed; active = delete s.active key }
      else s

  -- `beginClose`; `none` is its nil.
  unfoldable pub begin_close : Bridge V → Bridge V × Option (List (InstanceKey × ℕ))
  begin_close s =
      if s.closed
      then (s, none)
      else (record s { closed = true; active = []; completed = [] }, some s.active)
