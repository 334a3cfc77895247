-- ===== src/P1Dyn/Recoveries.antt =====
-- What a closing of the dynamic P1 pool pays, and a mint that fails after it.
use cheddar.Prelude.{
  ◌+◌, ◌<◌, ◌≡◌, some, none, List, [], ◌∷◌, ok, panic, arith, Ensures, Ensures-intro, if◌then◌else◌,
  ◌==◌,
}
use cheddar.Prelude.Words.{add_u128, fit, u128_limit, checked_sub}
use cheddar.Near.{Env, AccountId, Balance, failed}
use cheddar.Near.LookupMap.{get, IsMap, get-remove_self}
use cheddar.P1Dyn.State.{Vault, Contract, Promise, transfer, ft_mint_with_callbacks}
use cheddar.P1Dyn.Rewards.{ping, get_vault, get_vault_or_default, is_empty}
use cheddar.P1Dyn.Methods.{
  close, closing_promises, mint_cheddar_promise, mint_callback, recover_rewards,
}

-- The account is gone and is sent its stake, and its rewards if it has any.
abbrev pub ClosedWith : AccountId → Vault → Contract → Contract × List Promise → Type 0
ClosedWith a v c d =
    (get a d.0.vaults ≡ none)
    × (d.0.total_stake + v.staked ≡ c.total_stake)
    × (d.1
        ≡ transfer a v.staked
          ∷ (if v.rewards == 0 then [] else ft_mint_with_callbacks c.cheddar_id a v.rewards ∷ []))

-- A closing that returns takes the account off the map and its stake off the total, and sends the NEAR and
-- the rewards that a ping finds.
pub close-ClosedWith :
    (env : Env) (v : Vault) (c : Contract) (w : Vault) (f : Balance)
    → IsMap c.vaults
    → get env.predecessor_account_id c.vaults ≡ some v
    → ping env v c ≡ ok (w, f)
    → Ensures (ClosedWith env.predecessor_account_id w c) (close env c)
unfolding close closing_promises mint_cheddar_promise get_vault checked_sub
close-ClosedWith env v c w f distinct found pinged =
    Ensures-intro (ClosedWith env.predecessor_account_id w c) _
      λ d e. ground (arith, get-remove_self env.predecessor_account_id c.vaults distinct)

-- The mint of the rewards of an account that is closed already fails: the callback that should give them
-- back panics, and they are lost.
pub failed_mint-panics :
    (env : Env) (a : AccountId) (x : Balance) (c : Contract)
    → env.promise_results ≡ failed ∷ []
    → get a c.vaults ≡ none
    → 0 < x
    → x < u128_limit
    → mint_callback env a x c ≡ panic "Wrong state. Previously registered epoch can't be zero"
unfolding mint_callback recover_rewards get_vault_or_default ping is_empty add_u128 fit
failed_mint-panics env a x c fails closed positive fits = ground arith
