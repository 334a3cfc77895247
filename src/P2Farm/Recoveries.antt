-- ===== src/P2Farm/Recoveries.antt =====
-- Harvests of the P2 farm, and tokens that do not arrive.
use cheddar.Prelude.{
  ℕ, ◌+◌, ◌*◌, ◌/◌, ◌<◌, ◌≡◌, ◌==◌, Bool, true, false, some, List, [], ◌∷◌, get_elem?, ok, arith,
  Ensures, Ensures-intro, if◌then◌else◌,
}
use cheddar.Prelude.Words.{fit, mul_u128, add_u128}
use cheddar.Near.{Env, AccountId, Balance, failed}
use cheddar.Near.LookupMap.{get, get-insert}
use cheddar.P2Farm.State
use cheddar.P2Farm.State.{Vault, Contract, Promise, ft_mint, followed}
use cheddar.P2Farm.Rewards.{
  ping, ping_all, update_reward_acc, get_vault, put_vault, current_round, compute_reward_acc,
}
use cheddar.P2Farm.Transfers.{
  return_tokens, mint_cheddar, mint_promise, with_tokens, recover_state, recovered_vault,
  has_failed, return_tokens_callback, mint_callback,
}
use cheddar.P2Farm.Methods.{withdraw_crop, status}

-- The mint of a harvest, if there is anything to mint.
abbrev pub harvest : AccountId → Balance → Contract → List Promise
harvest a farmed c =
    if farmed == 0
    then []
    else followed (ft_mint c.cheddar a farmed) (State.Callback.mint_callback a farmed) ∷ []

ping_all-status :
    (env : Env) (v : Vault) (c : Contract) (r acc : ℕ) {p : Vault × Balance × Contract}
    {q : Vault × Balance}
    → current_round env c ≡ ok r
    → compute_reward_acc r c ≡ ok acc
    → ping v acc r ≡ ok q
    → ping_all env v c ≡ ok p
    → 0 < r
    → (p.0.farmed ≡ q.1) × (p.2.cheddar ≡ c.cheddar)
unfolding ping_all update_reward_acc ping
ping_all-status env v c r acc {p} {q} now computed shown pinged started = ground arith

mint_cheddar-harvest :
    (a : AccountId) (farmed : Balance) (c : Contract) {r : Contract × List Promise}
    → mint_cheddar a farmed 0 false c ≡ ok r
    → r.1 ≡ harvest a farmed c
unfolding mint_cheddar with_tokens mint_promise
mint_cheddar-harvest a farmed c {r} e = ground arith

-- Once the farming has started, what status reports as farmed of a registered account is exactly what a
-- harvest of the account at that time mints, if the harvest does not panic.
pub withdraw_crop-mints_status :
    (env : Env) (v : Vault) (c : Contract) (r staked farmed start : ℕ)
    → get env.predecessor_account_id c.vaults ≡ some v
    → current_round env c ≡ ok r
    → 0 < r
    → status env env.predecessor_account_id c ≡ ok (staked, farmed, start)
    → Ensures (λ d. d.1 ≡ harvest env.predecessor_account_id farmed c) (withdraw_crop env c)
unfolding withdraw_crop status get_vault put_vault
withdraw_crop-mints_status env v c r staked farmed start found now started shown =
    Ensures-intro (λ d. d.1 ≡ harvest env.predecessor_account_id farmed c) _
      λ d e. grind (arith, ping_all-status, mint_cheddar-harvest)

-- Tokens that are returned and do not arrive are staked again in full; the fee stays collected and the
-- total stake is not raised.
abbrev pub RestakedWithFee : AccountId → Balance → Vault → Contract → Contract → Type 0
RestakedWithFee a x v c d =
    (get a d.vaults ≡ some (record v { staked = v.staked + x }))
    × (d.fee_collected ≡ c.fee_collected + x * c.fee_rate / 10_000)
    × (d.total_stake ≡ c.total_stake)

-- Tokens that are returned to a registered user and do not arrive, if no call panics: the user's stake grows by the whole
-- amount, but the fee stays collected and the total stake is not raised.
pub failed_return-RestakedWithFee :
    (env : Env) (a : AccountId) (x : Balance) (v : Vault) (c : Contract) (p : Promise)
    {c₁ : Contract}
    → get_elem? env.promise_results 0 ≡ some failed
    → get a c.vaults ≡ some v
    → return_tokens a x c ≡ ok (c₁, p)
    → Ensures (RestakedWithFee a x v c) (return_tokens_callback env a x c₁)
unfolding return_tokens return_tokens_callback has_failed recover_state recovered_vault put_vault
    mul_u128 add_u128 fit
failed_return-RestakedWithFee env a x v c p {c₁} fails found sent =
    Ensures-intro (RestakedWithFee a x v c) _ λ d e. grind (arith, get-insert)

-- The answer to a mint: harvested if it arrived, farmed again if it did not.
abbrev pub Minted : Bool → AccountId → Balance → Vault → Contract → Contract → Type 0
Minted fails a x v c d =
    if fails
    then (get a d.vaults ≡ some (record v { farmed = v.farmed + x }))
      × (d.total_harvested ≡ c.total_harvested)
    else (get a d.vaults ≡ some v) × (d.total_harvested ≡ c.total_harvested + x)

-- Unless the callback panics, a mint for a registered user is counted as harvested exactly when it
-- succeeded; one that failed goes back to the vault.
pub mint_callback-Minted :
    (env : Env) (a : AccountId) (x : Balance) (fails : Bool) (v : Vault) (c : Contract)
    → has_failed env ≡ ok fails
    → get a c.vaults ≡ some v
    → Ensures (Minted fails a x v c) (mint_callback env a x c)
unfolding mint_callback recover_state recovered_vault put_vault add_u128 fit
mint_callback-Minted env a x true v c answer found =
    Ensures-intro (Minted true a x v c) _ λ d e. grind (arith, get-insert)
mint_callback-Minted env a x false v c answer found =
    Ensures-intro (Minted false a x v c) _ λ d e. grind (arith, get-insert)
