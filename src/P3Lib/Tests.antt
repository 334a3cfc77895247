-- ===== src/P3Lib/Tests.antt =====
-- The rounds of a farm at concrete times.
use cheddar.Prelude.{ℕ, ◌-◌, ◌%◌, ◌≤◌, ◌≡◌, ◌==◌, ◌↔◌, arith, ok}
use cheddar.P3Lib.{round_number}
use cheddar.P3Lib.Rounds.{round_number_mono, round_number-exact, rounds_up}

round_number_mono_example :
    (r : ℕ) × (s : ℕ) × (round_number 120 750 200 ≡ ok r)
    × (round_number 120 750 900 ≡ ok s)
    × (r ≤ s)
round_number_mono_example = round_number_mono 120 750 200 900 (omega arith) (omega arith)

round_number-exact_example :
    (round_number 130 730 730 ≡ ok (rounds_up (730 - 130)))
    ↔ ((730 % 60 == 0) ≡ ((730 - 130) % 60 == 0))
round_number-exact_example = round_number-exact 130 730 (omega arith)
