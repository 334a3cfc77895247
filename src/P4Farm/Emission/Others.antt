-- ===== src/P4Farm/Emission/Others.antt =====
-- What the other vaults of the P4 farm are owed when one is closed (p4-farm-nft/src/lib.rs): the calls that
-- send tokens away leave the rewards as they are, and a second ping adds nothing to the emission.
use cheddar.Prelude.{
  ℕ, zero, suc, ◌+◌, ◌*◌, ◌≤◌, ◌≡◌, List, [], ◌∷◌, some, ok, arith, ◌⊎◌, Ensures, Ensures-bind,
  Ensures-at, Ensures-if, ◌==◌,
}
use cheddar.Near.{Env, AccountId, Balance}
use cheddar.Near.LookupMap.{
  LookupMap, get, insert, remove, sum_by, sum_by-insert, sum_by-remove, get-insert,
}
use cheddar.P3Lib.{acc_overflow, index, safe_mul}
use cheddar.P4Farm.State.{TokenId, Vault, Contract, Promise}
use cheddar.P4Farm.Rewards.{compute_reward_acc, update_reward_acc, current_round, ping, ping_all}
use cheddar.P4Farm.Transfers.{
  transfer_staked_nft, transfer_farmed_tokens, withdraw_crop_from, send_crop,
}
use cheddar.P4Farm.Staking.{return_tokens, return_staked_from}
use cheddar.P4Farm.Accounts.{units_of}
use cheddar.P4Farm.Emission.{
  IsStarted, owed, owed_all, owed_all-later, emitted, compute_reward_acc-le, ping-owed,
  ping_all-parts, IsStarted-later,
}

-- The vaults and what their rewards hang on are the same.
abbrev pub SameRewards : Contract → Contract → Type 0
SameRewards c d =
    (d.vaults ≡ c.vaults)
    × (d.staked_units ≡ c.staked_units)
    × (d.reward_acc ≡ c.reward_acc)
    × (d.reward_acc_round ≡ c.reward_acc_round)
    × (d.farm_unit_emission ≡ c.farm_unit_emission)
    × (d.farming_start ≡ c.farming_start)
    × (d.farming_end ≡ c.farming_end)

abbrev pub FirstRewards : Contract → Contract × List Promise → Type 0
FirstRewards c r = SameRewards c r.0

return_tokens-SameRewards :
    (a : AccountId) (i : ℕ) (ts : List TokenId) (c : Contract)
    → Ensures (FirstRewards c) (return_tokens a i ts c)
unfolding return_tokens transfer_staked_nft
return_tokens-SameRewards a i [] c = ground arith
return_tokens-SameRewards a i (t ∷ ts) c =
    Ensures-bind (FirstRewards c) (transfer_staked_nft a i t c) _ λ (c1, ps) sent.
      Ensures-bind (FirstRewards c) (return_tokens a i ts c1) _ λ (c2, qs) rest.
        ground
          (arith, sent, Ensures-at (FirstRewards c1) _ (return_tokens-SameRewards a i ts c1) rest)

pub return_staked_from-SameRewards :
    (n i : ℕ) (a : AccountId) (staked : List (List TokenId)) (c : Contract)
    → Ensures (FirstRewards c) (return_staked_from n i a staked c)
unfolding return_staked_from
return_staked_from-SameRewards zero i a staked c = ground arith
return_staked_from-SameRewards (suc n) i a staked c =
    Ensures-bind (FirstRewards c) (index staked i) _ λ ts _.
      Ensures-bind (FirstRewards c) (return_tokens a i ts c) _ λ (c1, ps) sent.
        Ensures-bind (FirstRewards c) (return_staked_from n (i + 1) a staked c1) _ λ (c2, qs) rest.
          ground (
            arith,
            Ensures-at (FirstRewards c) _ (return_tokens-SameRewards a i ts c) sent,
            Ensures-at (FirstRewards c1) _ (return_staked_from-SameRewards n (i + 1) a staked c1)
                rest,
          )

withdraw_crop_from-SameRewards :
    (n i : ℕ) (a : AccountId) (x : Balance) (c : Contract)
    → Ensures (FirstRewards c) (withdraw_crop_from n i a x c)
unfolding withdraw_crop_from transfer_farmed_tokens
withdraw_crop_from-SameRewards zero i a x c = ground arith
withdraw_crop_from-SameRewards (suc n) i a x c =
    Ensures-bind (FirstRewards c) (index c.farm_token_rates i) _ λ rate _.
      Ensures-bind (FirstRewards c) (safe_mul x rate) _ λ amount _.
        Ensures-bind (FirstRewards c) (transfer_farmed_tokens a i amount c) _ λ (c1, ps) sent.
          Ensures-bind (FirstRewards c) (withdraw_crop_from n (i + 1) a x c1) _ λ (c2, qs) rest.
            ground (
              arith,
              sent,
              Ensures-at (FirstRewards c1) _ (withdraw_crop_from-SameRewards n (i + 1) a x c1) rest,
            )

pub send_crop-SameRewards :
    (a : AccountId) (x : Balance) (c : Contract) → Ensures (FirstRewards c) (send_crop a x c)
unfolding send_crop
send_crop-SameRewards a x c =
    Ensures-if (FirstRewards c) (x == 0) _ _ (λ _. ground arith)
      (λ _. withdraw_crop_from-SameRewards _ 0 a x c)

-- The other vaults.
pub others-insert :
    (f : Vault → ℕ) (a : AccountId) (w : Vault) (m : LookupMap Vault)
    → sum_by f (remove a (insert a w m)) ≡ sum_by f (remove a m)
others-insert f a w m = ground (
  arith,
  sum_by-remove f a m,
  sum_by-remove f a (insert a w m),
  sum_by-insert f a w m,
  get-insert a a w m,
)

-- The rounds and what they emit stay as they are.
pub ping_all-keeps_rounds :
    (env : Env) (v : Vault) (c : Contract) {v' : Vault} {c' : Contract}
    → ping_all env v c ≡ ok (v', c')
    → (c'.farm_unit_emission ≡ c.farm_unit_emission)
      × (c'.farming_start ≡ c.farming_start)
      × (c'.farming_end ≡ c.farming_end)
unfolding ping_all update_reward_acc
ping_all-keeps_rounds env v c {v'} {c'} e = grind arith

-- A ping notes the round, unless the accumulator stays as it is.
pub pinged_round :
    (env : Env) (v : Vault) (c : Contract) (r : ℕ) {v' : Vault} {c' : Contract}
    → ping_all env v c ≡ ok (v', c')
    → current_round env c ≡ ok r
    → (c'.reward_acc_round ≡ r)
      ⊎ ((c'.reward_acc ≡ c.reward_acc) × (c'.reward_acc_round ≡ c.reward_acc_round))
unfolding ping_all update_reward_acc
pinged_round env v c r {v'} {c'} e now = ground (arith, now)

pub compute_reward_acc_same :
    (r : ℕ) (c : Contract) {acc : ℕ}
    → compute_reward_acc r c ≡ ok acc
    → c.reward_acc_round ≡ r
    → acc ≡ c.reward_acc
unfolding compute_reward_acc
compute_reward_acc_same r c {acc} e same = ground arith

-- What the closed vault was paid and what the others are owed, at the accumulator of the ping.
pub others-owed :
    (env : Env) (a : AccountId) (v : Vault) (c : Contract) (r : ℕ) {v1 : Vault} {c1 : Contract}
    → sum_by units_of c.vaults ≡ c.staked_units
    → get a c.vaults ≡ some v
    → ping_all env v c ≡ ok (v1, c1)
    → current_round env c ≡ ok r
    → IsStarted r c.reward_acc
    → sum_by (owed c1.reward_acc) (remove a c.vaults) + v1.farmed * acc_overflow
      ≤ owed_all c + emitted r c
unfolding owed
others-owed env a v c r {v1} {c1} counted found pinged now started =
    let (computed, ping) = ping_all-parts env v c r pinged now in
    let (grows, share) = compute_reward_acc-le r c computed in
    ground (
      arith,
      counted,
      found,
      share,
      owed_all-later c.reward_acc c1.reward_acc c.vaults grows,
      ping-owed v c1.reward_acc r ping (IsStarted-later r c computed started),
      sum_by-remove (owed c1.reward_acc) a c.vaults,
    )
