-- ===== src/Prelude/Maps.antt =====
-- Go maps that are keyed by strings.
use mathlib.Core.Path.{◌≡◌}
use mathlib.Core.Logic.{◌≢◌}
use mathlib.Core.List.{List, [], ◌∷◌}
use mathlib.Core.Option.{Option, none, some}
use native.Mathlib.Omega.{arith}
use loadstrike_go.Prelude.Tests.{if◌then◌else◌}
use loadstrike_go.Prelude.Text.{Bytes, text_eq, text_eq_refl, text_eq_iff}

-- A later entry hides an earlier one.
abbrev pub Table : Type 0 → Type 0
Table A = List (Bytes × A)

module _ {A : Type 0} where
  unfoldable pub find : Table A → Bytes → Option A
  find [] id = none
  find ((k, v) ∷ rest) id = if text_eq k id then some v else find rest id

  unfoldable pub store : Table A → Bytes → A → Table A
  store table id value = (id, value) ∷ table

  pub find-store : (table : Table A) (id : Bytes) (v : A) → find (store table id v) id ≡ some v
  unfolding find store
  find-store table id v = ground (arith, text_eq_refl id)

  pub find-store_ne :
      (table : Table A) (id other : Bytes) (v : A)
      → id ≢ other
      → find (store table id v) other ≡ find table other
  unfolding find store
  find-store_ne table id other v h = ground (arith, text_eq_iff id other)
