-- ===== src/Cheddar/Vesting.antt =====
-- Vesting schedules (cheddar/src/vesting.rs, util.rs).
use cheddar.Prelude.{ℕ, ◌-◌, Result, ok, ◌>>=◌, ◌>>◌, assert, ltb, leb, if◌then◌else◌}
use cheddar.Prelude.Words.{mul_u256, checked_div, as_u128}
use cheddar.Near.{Env, Balance}
use cheddar.Cheddar.State.{VestingRecord}

-- amount * numerator / denominator, in 256 bits.
unfoldable pub fraction_of : ℕ → ℕ → ℕ → Result ℕ
fraction_of amount numerator denominator = do
  product ← mul_u256 amount numerator
  quotient ← checked_div product denominator
  as_u128 quotient

-- `VestingRecord::new`
unfoldable pub new_vesting : ℕ → ℕ → ℕ → Result VestingRecord
new_vesting amount cliff_timestamp end_timestamp = do
  assert (ltb 0 amount) "vesting amount must be > 0"
  assert (leb cliff_timestamp end_timestamp)
      "Cliff timestamp can't be later than vesting end timestamp"
  ok (record { amount = amount; cliff_timestamp = cliff_timestamp; end_timestamp = end_timestamp })

unfoldable pub compute_amount_locked : Env → VestingRecord → Result Balance
compute_amount_locked env v =
    if ltb env.block_timestamp v.cliff_timestamp
    then ok v.amount
    else if leb v.end_timestamp env.block_timestamp
    then ok 0
    else fraction_of v.amount (v.end_timestamp - env.block_timestamp)
        (v.end_timestamp - v.cliff_timestamp)
