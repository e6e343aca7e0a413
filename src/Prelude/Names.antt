-- ===== src/Prelude/Names.antt =====
-- Lists of names without repetition, and counting them.
use Prim.Native.Nat.{suc, ◌≤◌}
use mathlib.Core.Path.{◌≡◌}
use mathlib.Core.Logic.{inl, inr}
use mathlib.Core.Bool.{Bool, true, false, ◌||◌}
use mathlib.Core.List.{List, [], ◌∷◌}
use native.Mathlib.Omega.{arith}
use loadstrike_go.Prelude.Tests.{if◌then◌else◌, Bool-cases}
use loadstrike_go.Prelude.Lists.{length}
use loadstrike_go.Prelude.Text.{Bytes, text_eq, text_eq_iff}

-- `_, found := set[name]` on a set of names.
unfoldable pub is_among : Bytes → List Bytes → Bool
is_among name [] = false
is_among name (other ∷ rest) = text_eq other name || is_among name rest

-- No name stands twice in the list.
abbrev pub IsDistinct : List Bytes → Type 0
IsDistinct [] = Unit
IsDistinct (name ∷ names) = (is_among name names ≡ false) × IsDistinct names

-- Every name of the first list is in the second.
abbrev pub IsWithin : List Bytes → List Bytes → Type 0
IsWithin [] ys = Unit
IsWithin (x ∷ xs) ys = (is_among x ys ≡ true) × IsWithin xs ys

without : Bytes → List Bytes → List Bytes
without name [] = []
without name (other ∷ rest) =
    let kept = without name rest in if text_eq other name then kept else other ∷ kept

length-without_le : (name : Bytes) (ys : List Bytes) → length (without name ys) ≤ length ys
unfolding without
length-without_le name [] = omega arith
length-without_le name (y ∷ ys) =
    ground (arith, length-without_le name ys, Bool-cases (text_eq y name))

length-without :
    (name : Bytes) (ys : List Bytes)
    → is_among name ys ≡ true
    → suc (length (without name ys)) ≤ length ys
unfolding is_among without
length-without name [] h = ground arith
length-without name (y ∷ ys) h =
    ground (arith, length-without name ys, length-without_le name ys, Bool-cases (text_eq y name))

is_among-without :
    (x name : Bytes) (ys : List Bytes)
    → is_among x ys ≡ true
    → text_eq x name ≡ false
    → is_among x (without name ys) ≡ true
unfolding is_among without
is_among-without x name [] h n = ground arith
is_among-without x name (y ∷ ys) h n = ground (
  arith,
  is_among-without x name ys,
  Bool-cases (text_eq y name),
  Bool-cases (text_eq y x),
  text_eq_iff y x,
)

IsWithin-without :
    (name : Bytes) (xs ys : List Bytes)
    → is_among name xs ≡ false
    → IsWithin xs ys
    → IsWithin xs (without name ys)
unfolding is_among
IsWithin-without name [] ys n h = tt
IsWithin-without name (x ∷ xs) ys n (h, hs) = (
  is_among-without x name ys h (ground arith),
  IsWithin-without name xs ys (ground (arith, Bool-cases (text_eq x name))) hs,
)

length-IsWithin : (xs ys : List Bytes) → IsDistinct xs → IsWithin xs ys → length xs ≤ length ys
length-IsWithin [] ys d h = omega arith
length-IsWithin (x ∷ xs) ys (n, d) (h, hs) =
    let rest = length-IsWithin xs (without x ys) d (IsWithin-without x xs ys n hs) in
    omega (arith, rest, length-without x ys h)

-- As many different names out of a list as it is long are all of them.
pub IsWithin-complete :
    (xs ys : List Bytes) (name : Bytes)
    → IsDistinct xs
    → IsWithin xs ys
    → length ys ≤ length xs
    → is_among name ys ≡ true
    → is_among name xs ≡ true
IsWithin-complete xs ys name d h n m = elim (Bool-cases (is_among name xs)) [
  | inl found ↦ found
  | inr absent ↦
      let short = length-IsWithin xs (without name ys) d (IsWithin-without name xs ys absent h) in
      absurd (omega (arith, short, length-without name ys m))
]
