-- ===== src/Bridge/Table.antt =====
-- What a lookup in the map of instances gives after an insertion and after a deletion.
use loadstrike_go.Prelude.{ℕ, ◌<◌, ◌≡◌, ◌⊎◌, List, [], ◌∷◌, none, some, if◌then◌else◌, arith}
use loadstrike_go.Bridge.{InstanceKey, key_eq, key_eq_iff, lookup, delete}

pub lookup-cons :
    (key k : InstanceKey) (a b : ℕ) (rest : List (InstanceKey × ℕ)) (bound : ℕ)
    → lookup ((key, a) ∷ rest) k ≡ some b
    → a < bound
    → (lookup rest k ≡ some b) ⊎ (b < bound)
unfolding lookup
lookup-cons key k a b rest bound h room = ground arith

pub lookup-delete :
    (m : List (InstanceKey × ℕ)) (key k : InstanceKey)
    → lookup (delete m key) k ≡ (if key_eq key k then none else lookup m k)
unfolding lookup delete
lookup-delete [] key k = ground arith
lookup-delete ((j, b) ∷ m) key k =
    ground (arith, lookup-delete m key k, key_eq_iff j key, key_eq_iff j k, key_eq_iff key k)

pub lookup-delete-some :
    (m : List (InstanceKey × ℕ)) (key k : InstanceKey) (a : ℕ)
    → lookup (delete m key) k ≡ some a
    → lookup m k ≡ some a
lookup-delete-some m key k a h = ground (arith, lookup-delete m key k)
