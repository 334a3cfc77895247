-- ===== src/P3Lib.antt =====
-- Constants and helpers of the farms (p3-lib/src/lib.rs).
pub mod Rounds
pub mod Tests
use Prim.Native.String.{String}
use cheddar.Prelude.{
  ℕ, zero, suc, ◌+◌, ◌-◌, ◌*◌, ◌/◌, ◌%◌, ◌^◌, Bool, true, false, ◌&&◌, List, [], ◌∷◌, Option, none,
  some, Result, ok, panic, ◌>>=◌, ◌>>◌, assert, expect, ltb, leb, ◌==◌, ◌!=◌, if◌then◌else◌,
  get_elem?, set,
}
use cheddar.Prelude.Words.{u128_limit, mul_u256, checked_div, checked_sub, as_u128, add_u128}
use cheddar.Near.{AccountId, Balance}

-- one second in nanoseconds
abbrev pub second : ℕ
second = 1_000_000_000

-- round duration in seconds
abbrev pub round : ℕ
round = 60

abbrev pub milli_near : Balance
milli_near = 1_000_000_000_000_000_000_000

abbrev pub storage_cost : Balance
storage_cost = milli_near * 60

abbrev pub e24 : Balance
e24 = milli_near * 1_000

abbrev pub basis_p : Balance
basis_p = 10_000

-- The scale of the reward accumulator.
abbrev pub acc_overflow : Balance
acc_overflow = 10_000_000

-- The identifier "near" stands for the native token.
abbrev pub near : AccountId
near = 0

-- units * rate / 10^24, in 256 bits.
unfoldable pub safe_mul : Balance → Balance → Result Balance
safe_mul units rate = do
  product ← mul_u256 units rate
  quotient ← checked_div product e24
  as_u128 quotient

abbrev next_index : Option ℕ → Option ℕ
next_index none = none
next_index (some i) = some (suc i)

-- `iter().position(|x| x == acc)`
unfoldable pub position : AccountId → List AccountId → Option ℕ
position acc [] = none
position acc (x ∷ xs) = if x == acc then some 0 else next_index (position acc xs)

unfoldable pub find_acc_idx : AccountId → List AccountId → Result ℕ
unfolding position
find_acc_idx acc acc_v = expect (position acc acc_v) "invalid token"

unfoldable pub check_all_zeros : List Balance → Bool
check_all_zeros [] = true
check_all_zeros (x ∷ xs) = if x != 0 then false else check_all_zeros xs

-- computes round number based on timestamp in seconds
unfoldable pub round_number : ℕ → ℕ → ℕ → Result ℕ
round_number start end now = if ltb now start then ok 0 else do
  let last = if leb end now then end else now
  let adjust = if leb end now && (end % round != 0) then 1 else 0
  passed ← checked_sub last start
  ok (passed / round + adjust)

-- `xs[i]`
unfoldable pub index {ℓ} : {A : Type ℓ} → List A → ℕ → Result A
index xs i = expect (get_elem? xs i) "index out of bounds"

-- `xs[i] += x` and `xs[i] -= x`
unfoldable pub add_at : List Balance → ℕ → Balance → Result (List Balance)
unfolding index
add_at xs i x = do old ← index xs i; new ← add_u128 old x; ok (set xs i new)

unfoldable pub sub_at : List Balance → ℕ → Balance → Result (List Balance)
unfolding index
sub_at xs i x = do old ← index xs i; new ← checked_sub old x; ok (set xs i new)

-- `iter().sum()`
unfoldable pub sum_u128 : Balance → List Balance → Result Balance
sum_u128 acc [] = ok acc
sum_u128 acc (x ∷ xs) = add_u128 acc x >>= λ acc'. sum_u128 acc' xs
