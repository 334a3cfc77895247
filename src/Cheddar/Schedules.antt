-- ===== src/Cheddar/Schedules.antt =====
-- Minting under a vesting schedule, and cancelling one (cheddar/src/lib.rs).
use cheddar.Prelude.{ℕ, ◌+◌, ◌<◌, ◌≡◌, refl, true, none, some, ok, arith, inl, inr, Result-cases}
use cheddar.Prelude.Words.{u128_limit, u64_limit, checked_sub, fit, add_u128}
use cheddar.Near.{Env, AccountId, Balance}
use cheddar.Near.LookupMap.{get, get-insert, get-remove_self, IsMap}
use cheddar.Cheddar.{Contract, VestingRecord, new_vesting, compute_amount_locked}
use cheddar.Cheddar.Internal.{mint, internal_burn, contains}
use cheddar.Cheddar.Methods.{mint_vested, cancel_vesting, ft_balance_of}
use cheddar.Cheddar.Locks.{IsSchedule}

-- Minting a vested amount needs a minter, and an account with no schedule. It credits the whole
-- amount at once, raises the supply by it, and records a valid schedule for the account.
pub mint_vested_lem :
    (env : Env) (r : AccountId) (x cliff end : ℕ) (c : Contract) {c' : Contract}
    → x < u128_limit
    → end < u64_limit
    → mint_vested env r x cliff end c ≡ ok c'
    → (contains c.minters env.predecessor_account_id ≡ true)
      × (get r c.vested ≡ none)
      × ((v : VestingRecord) × (get r c'.vested ≡ some v) × IsSchedule v × (v.amount ≡ x))
      × (ft_balance_of r c' ≡ ft_balance_of r c + x)
      × (c'.total_supply ≡ c.total_supply + x)
unfolding mint_vested mint add_u128 fit new_vesting ft_balance_of
mint_vested_lem env r x cliff end c {c'} fx fe e = (
  ground arith,
  ground arith,
  (
    record { amount = x; cliff_timestamp = cliff; end_timestamp = end },
    grind (arith, get-insert),
    ground arith,
    refl,
  ),
  grind (arith, get-insert),
  ground arith,
)

-- Cancelling a schedule is for the owner, while something is locked. It removes the schedule, and
-- burns the whole vested amount out of the account, what is vested already included; so it needs
-- an account that still holds all of it.
pub cancel_vesting_lem :
    (env : Env) (a : AccountId) (c : Contract) (v : VestingRecord) {c' : Contract}
    → IsMap c.vested
    → get a c.vested ≡ some v
    → cancel_vesting env a c ≡ ok c'
    → (env.predecessor_account_id ≡ c.owner_id)
      × ((l : Balance) × (compute_amount_locked env v ≡ ok l) × (0 < l))
      × (ft_balance_of a c' + v.amount ≡ ft_balance_of a c)
      × (c'.total_supply + v.amount ≡ c.total_supply)
      × (get a c'.vested ≡ none)
unfolding cancel_vesting internal_burn checked_sub ft_balance_of
cancel_vesting_lem env a c v {c'} m found e = elim (Result-cases (compute_amount_locked env v)) [
  | inl (l, lock) ↦ (
    ground arith,
    (l, lock, ground arith),
    grind (arith, get-insert),
    ground arith,
    grind (arith, get-remove_self),
  )
  | inr (s, bad) ↦ absurd (ground arith)
]
