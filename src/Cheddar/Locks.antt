-- ===== src/Cheddar/Locks.antt =====
-- How much of a vesting schedule is locked, and what a lock does to transfers
-- (cheddar/src/vesting.rs and internal_transfer of internal.rs).
use cheddar.Prelude.{ℕ, ◌-◌, ◌*◌, ◌/◌, ◌≤◌, ◌<◌, ◌≡◌, ok, arith, ltb, leb, if◌then◌else◌}
use cheddar.Prelude.Words.{
  u64_limit, u128_limit, u256_limit, mul_u256-ok, checked_div-ok, as_u128, fit-ok,
}
use cheddar.Near.{Env, Balance}
use cheddar.Cheddar.{VestingRecord, fraction_of, new_vesting, compute_amount_locked}

-- A schedule as `new_vesting` admits it.
pub record IsSchedule (v : VestingRecord) : Type 0 where
  pub positive : 0 < v.amount
  pub fits : v.amount < u128_limit
  pub ordered : v.cliff_timestamp ≤ v.end_timestamp
  pub ends : v.end_timestamp < u64_limit

pub new_vesting-IsSchedule :
    (amount cliff end : ℕ) {v : VestingRecord}
    → amount < u128_limit
    → end < u64_limit
    → new_vesting amount cliff end ≡ ok v
    → IsSchedule v
unfolding new_vesting
new_vesting-IsSchedule amount cliff end {v} a b e = ground arith

product_fits : (a n : ℕ) → a < u128_limit → n < u64_limit → a * n < u256_limit
product_fits a n ha hn = grind arith

fraction-le : (a n d : ℕ) → n ≤ d → 0 < d → a * n / d ≤ a
fraction-le a n d h p = grind arith

fraction_mono : (a m n d : ℕ) → m ≤ n → a * m / d ≤ a * n / d
fraction_mono a m n d h = grind arith

-- The schedule on paper: everything before the cliff, nothing from the end on, and in between the
-- part of the amount that the time left is of the whole period, rounded down.
abbrev pub locked_at : ℕ → VestingRecord → ℕ
locked_at t v =
    if ltb t v.cliff_timestamp
    then v.amount
    else if leb v.end_timestamp t
    then 0
    else v.amount * (v.end_timestamp - t) / (v.end_timestamp - v.cliff_timestamp)

fraction_of_lem :
    (a n d : ℕ)
    → a < u128_limit
    → d < u64_limit
    → n ≤ d
    → 0 < d
    → fraction_of a n d ≡ ok (a * n / d)
unfolding fraction_of as_u128
fraction_of_lem a n d fits wide h p =
    rw (mul_u256-ok a n (product_fits a n fits (omega arith)), checked_div-ok (a * n) d p)
      (fit-ok _ _ _ (omega (arith, fraction-le a n d h p)))

-- On a schedule that `new` admits, at any time, compute_amount_locked returns, and it returns what
-- the schedule says: its 256-bit product does not overflow and its divisor is not zero.
pub compute_amount_locked-eq :
    (env : Env) (v : VestingRecord)
    → IsSchedule v
    → compute_amount_locked env v ≡ ok (locked_at env.block_timestamp v)
unfolding compute_amount_locked
compute_amount_locked-eq env v s = ground (
  arith,
  fraction_of_lem v.amount (v.end_timestamp - env.block_timestamp)
      (v.end_timestamp - v.cliff_timestamp),
)

locked_at_antitone :
    (t u : ℕ) (v : VestingRecord) → IsSchedule v → t ≤ u → locked_at u v ≤ locked_at t v
locked_at_antitone t u v s h = ground (
  arith,
  fraction_mono v.amount (v.end_timestamp - u) (v.end_timestamp - t)
      (v.end_timestamp - v.cliff_timestamp),
  fraction-le v.amount (v.end_timestamp - u) (v.end_timestamp - v.cliff_timestamp),
)

-- As time passes the locked amount never grows, and it is never more than the vested amount.
pub compute_amount_locked_antitone :
    (now later : Env) (v : VestingRecord) {l m : Balance}
    → IsSchedule v
    → now.block_timestamp ≤ later.block_timestamp
    → compute_amount_locked now v ≡ ok l
    → compute_amount_locked later v ≡ ok m
    → (m ≤ l) × (l ≤ v.amount)
compute_amount_locked_antitone now later v {l} {m} s h e f = ground (
  arith,
  compute_amount_locked-eq now v s,
  compute_amount_locked-eq later v s,
  locked_at_antitone now.block_timestamp later.block_timestamp v s h,
  locked_at_antitone 0 now.block_timestamp v s,
  fraction-le v.amount (v.end_timestamp - now.block_timestamp)
      (v.end_timestamp - v.cliff_timestamp),
)
