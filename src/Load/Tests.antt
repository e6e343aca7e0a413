-- ===== src/Load/Tests.antt =====
-- Simulations over whole seconds.
use loadstrike_go.Prelude.{◌≡◌, refl, ℤ, pos, negsuc, ltb_ℤ}
use loadstrike_go.Load.{Float, max_int, inject_between, inject_random}
use loadstrike_go.Load.Shapes.{inject_random-ordered}

-- A division that always gives three.
abbrev seconds : Float
seconds = record {
  Carrier = ℤ;
  zero = pos 0;
  leq = λ a b. ltb_ℤ a b;
  div = λ a b. pos 3;
  to_int = λ a. a;
}

random_rates : ((inject_random seconds (pos 9) (negsuc 3) (pos 2) (pos 6)).min_rate ≡ pos 1)
unfolding inject_random inject_between max_int
random_rates = refl

inject_random-ordered_example :
    (inject_random seconds (pos 9) (negsuc 3) (pos 2) (pos 6)).copies
    ≡ (inject_random seconds (pos 9) (negsuc 3) (pos 2) (pos 6)).max_rate
inject_random-ordered_example = (inject_random-ordered seconds (pos 9) (negsuc 3) (pos 2) (pos 6)).2
