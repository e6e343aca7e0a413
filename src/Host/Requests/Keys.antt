-- ===== src/Host/Requests/Keys.antt =====
-- Which requests of a scenario callback name an instance.
use loadstrike_go.Prelude.{
  ℕ, ◌≤◌, ◌≡◌, ◌↔◌, inl, inr, refl, Bool, true, false, not, ◌||◌, Bytes, Option, none, some,
  text_eq, text_eq_iff, text_eq-eq, length, is_valid_utf8, is_blank_utf8, ltb, ℤ, pos, ◌≤ℤ◌, ok,
  Bool-cases, Result-cases, arith,
}
use loadstrike_go.Bridge.{InstanceKey, int_eq, int_eq_iff}
use loadstrike_go.Host.Requests.{
  HookRequest, HttpScenarioInfo, Partition, maximum_identity_bytes, is_bad_identity,
  checked_partition, scenario_instance_key, check_info, check_partition, key_for_registration,
}

-- Between 1 and 512 bytes of UTF-8, not all of them space.
abbrev pub IsIdentity : Bytes → Type 0
IsIdentity value =
    (is_valid_utf8 value ≡ true)
    × (is_blank_utf8 value ≡ false)
    × (length value ≤ maximum_identity_bytes)

is_bad_identity_iff : (value : Bytes) → (is_bad_identity value ≡ false) ↔ IsIdentity value
unfolding is_bad_identity
is_bad_identity_iff value = go (is_valid_utf8 value) (is_blank_utf8 value) (length value)
  where
    go :
        (valid blank : Bool) (n : ℕ)
        → (not valid || blank || ltb maximum_identity_bytes n ≡ false)
          ↔ ((valid ≡ true) × (blank ≡ false) × (n ≤ maximum_identity_bytes))
    go true true n = (λ h. absurd cc, λ (v, b, m). absurd cc)
    go true false n = (λ h. (refl, refl, ground arith), λ (v, b, m). ground (arith, m))
    go false blank n = (λ h. absurd cc, λ (v, b, m). absurd cc)

abbrev pub InfoAgrees : HookRequest → Option HttpScenarioInfo → Type 0
InfoAgrees r none = Unit
InfoAgrees r (some info) =
    (info.scenario_name ≡ r.scenario_name)
    × (info.instance_id ≡ r.scenario_instance_id)
    × (pos 0 ≤ℤ info.instance_number)
    × (pos 0 ≤ℤ info.scenario_duration_nanoseconds)

check_info_iff :
    (r : HookRequest) (o : Option HttpScenarioInfo) → (check_info r o ≡ ok tt) ↔ InfoAgrees r o
unfolding check_info
check_info_iff r none = (λ h. tt, λ h. refl)
check_info_iff r (some info) =
    let name = text_eq_iff info.scenario_name r.scenario_name in
    let same = text_eq_iff info.instance_id r.scenario_instance_id in
    let a = Bool-cases (text_eq info.scenario_name r.scenario_name) in
    let b = Bool-cases (text_eq info.instance_id r.scenario_instance_id) in
    (
      λ h. (
        ground (arith, h, name, a),
        ground (arith, h, same, a, b),
        ground (arith, h, a, b),
        ground (arith, h, a, b),
      ),
      λ (n, s, x, y). ground (arith, n, s, x, y, name, same),
    )

abbrev pub PartitionAgrees : ℤ → Option Partition → Type 0
PartitionAgrees n none = Unit
PartitionAgrees n (some partition) = (partition.number ≡ n) × (pos 1 ≤ℤ partition.count)

check_partition_iff :
    (key : InstanceKey) (o : Option Partition)
    → (check_partition key o ≡ ok tt) ↔ PartitionAgrees key.partition_number o
unfolding check_partition
check_partition_iff key none = (λ h. tt, λ h. refl)
check_partition_iff key (some partition) =
    let same = int_eq_iff partition.number key.partition_number in
    let a = Bool-cases (int_eq partition.number key.partition_number) in
    (λ h. (ground (arith, h, same, a), ground (arith, h, a)), λ (n, c). ground (arith, n, c, same))

checked_partition_iff :
    (o : Option ℤ) (n : ℤ) → (checked_partition o ≡ ok n) ↔ ((o ≡ some n) × (pos 0 ≤ℤ n))
unfolding checked_partition
checked_partition_iff none n = (λ h. absurd cc, λ (h, k). absurd cc)
checked_partition_iff (some m) n =
    (λ h. (ground (arith, h), ground (arith, h)), λ (h, k). ground (arith, h, k))

scenario_instance_key_iff :
    (r : HookRequest) (key : InstanceKey)
    → (scenario_instance_key r ≡ ok key) ↔ (
        IsIdentity r.run_identity
        × IsIdentity r.node_identity
        × IsIdentity r.scenario_name
        × IsIdentity r.scenario_instance_id
        × (r.partition_number ≡ some key.partition_number)
        × (pos 0 ≤ℤ key.partition_number)
        × (key ≡ record {
          run_identity = r.run_identity;
          node_identity = r.node_identity;
          partition_number = key.partition_number;
          scenario_name = r.scenario_name;
          scenario_instance_id = r.scenario_instance_id;
        }))
unfolding scenario_instance_key
scenario_instance_key_iff r key =
    let run = Bool-cases (is_bad_identity r.run_identity) in
    let node = Bool-cases (is_bad_identity r.node_identity) in
    let name = Bool-cases (is_bad_identity r.scenario_name) in
    let id = Bool-cases (is_bad_identity r.scenario_instance_id) in
    let number = Result-cases (checked_partition r.partition_number) in
    (
      λ h.
          let parsed : checked_partition r.partition_number ≡ ok key.partition_number =
            ground (arith, h, run, node, name, id, number) in
          let (n, positive) =
            (checked_partition_iff r.partition_number key.partition_number).0 parsed in
          (
            (is_bad_identity_iff r.run_identity).0 (ground (arith, h, run)),
            (is_bad_identity_iff r.node_identity).0 (ground (arith, h, run, node)),
            (is_bad_identity_iff r.scenario_name).0 (ground (arith, h, run, node, name)),
            (is_bad_identity_iff r.scenario_instance_id).0 (ground (arith, h, run, node, name, id)),
            n,
            positive,
            ground (arith, h, run, node, name, id, number),
          ),
      λ (a, b, c, d, n, positive, e).
          let parsed =
            (checked_partition_iff r.partition_number key.partition_number).1 (n, positive) in
          let a' = (is_bad_identity_iff r.run_identity).1 a in
          let b' = (is_bad_identity_iff r.node_identity).1 b in
          let c' = (is_bad_identity_iff r.scenario_name).1 c in
          let d' = (is_bad_identity_iff r.scenario_instance_id).1 d in
          ground (arith, a', b', c', d', parsed, e),
    )

-- A request names an instance of a registered scenario exactly where each of the four names has 1 to 512
-- bytes of UTF-8 that are not all space, the partition number is there and not negative, the scenario is
-- the registered one, and the scenario information and the partition, where there are any, agree with
-- them. The key is made of those fields.
pub key_for_registration_iff :
    (r : HookRequest) (registered : Bytes) (key : InstanceKey)
    → (key_for_registration r registered ≡ ok key) ↔ (
        (IsIdentity r.run_identity
          × IsIdentity r.node_identity
          × IsIdentity r.scenario_name
          × IsIdentity r.scenario_instance_id
          × (r.partition_number ≡ some key.partition_number)
          × (pos 0 ≤ℤ key.partition_number)
          × (key ≡ record {
            run_identity = r.run_identity;
            node_identity = r.node_identity;
            partition_number = key.partition_number;
            scenario_name = r.scenario_name;
            scenario_instance_id = r.scenario_instance_id;
          }))
        × (r.scenario_name ≡ registered)
        × InfoAgrees r r.scenario_info
        × PartitionAgrees key.partition_number r.partition)
unfolding key_for_registration
key_for_registration_iff r registered key =
    let made = Result-cases (scenario_instance_key r) in
    let name = Bool-cases (text_eq r.scenario_name registered) in
    let info = Result-cases (check_info r r.scenario_info) in
    (
      λ h.
          let a : scenario_instance_key r ≡ ok key = elim made [
            | inr (e, m) ↦ absurd (ground (arith, h, m))
            | inl (k, m) ↦
                ground (arith, h, m, name, info, Result-cases (check_partition k r.partition))
          ] in
          let i : check_info r r.scenario_info ≡ ok tt = ground (arith, h, a, name, info) in
          let p : check_partition key r.partition ≡ ok tt =
            ground (arith, h, a, name, i, Result-cases (check_partition key r.partition)) in
          (
            (scenario_instance_key_iff r key).0 a,
            text_eq-eq r.scenario_name registered (ground (arith, h, a, name)),
            (check_info_iff r r.scenario_info).0 i,
            (check_partition_iff key r.partition).0 p,
          ),
      λ (k, e, i, p).
          let a = (scenario_instance_key_iff r key).1 k in
          let i' = (check_info_iff r r.scenario_info).1 i in
          let p' = (check_partition_iff key r.partition).1 p in
          let e' = (text_eq_iff r.scenario_name registered).1 e in ground (arith, a, i', p', e'),
    )
