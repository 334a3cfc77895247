-- ===== src/P3Farm/Stakes.antt =====
-- What staking and unstaking do to a vault and to the totals.
use cheddar.Prelude.{
  ℕ, ◌+◌, ◌-◌, ◌*◌, ◌/◌, ◌<◌, ◌≡◌, refl, ap, ◌==◌, List, [], ◌∷◌, get_elem?, set, ok, arith,
  Ensures, Ensures-bind, assert, ltb, some, Option-cases, inl, inr, if◌then◌else◌,
}
use cheddar.Prelude.Words.{checked_sub_inv, mul_u128, add_u128, checked_sub, fit}
use cheddar.Near.{Env, AccountId, Balance}
use cheddar.Near.LookupMap.{get, insert}
use cheddar.P3Lib.{index, add_at, sub_at, near, find_acc_idx}
use cheddar.P3Farm.State.{Vault, Contract, Promise, ft_transfer, transfer, staked_sent}
use cheddar.P3Farm.Rewards.{
  put_vault, recompute_stake, adjust_units, get_vault, ping_all, update_reward_acc,
}
use cheddar.P3Farm.Transfers.{transfer_staked_tokens}
use cheddar.P3Farm.Staking.{stake, unstake_part}
use cheddar.P3Farm.Units.{ping_all_inv, recompute_stake_inv}

-- The token's amounts in the vault and in total grow by what is staked, and nothing else of the tokens
-- changes; no other vault does.
abbrev pub Staked : AccountId → ℕ → Balance → Vault → Contract → Contract × Balance → Type 0
Staked a i x v c r =
    (w : Vault) × (old : Balance) × (total : Balance) × (r.0.vaults ≡ insert a w c.vaults)
    × (get_elem? v.staked i ≡ some old)
    × (w.staked ≡ set v.staked i (old + x))
    × (get_elem? c.total_stake i ≡ some total)
    × (r.0.total_stake ≡ set c.total_stake i (total + x))
    × (w.min_stake ≡ r.1)
    × (w.cheddy ≡ v.cheddy)

add_at_inv :
    (xs : List Balance) (i : ℕ) (x : Balance) {ys : List Balance}
    → add_at xs i x ≡ ok ys
    → (old : Balance) × (get_elem? xs i ≡ some old) × (ys ≡ set xs i (old + x))
unfolding add_at index add_u128 fit
add_at_inv xs i x {ys} e = elim (Option-cases (get_elem? xs i)) [
  | inl missing ↦ absurd (ground arith)
  | inr (old, found) ↦ (old, found, ground arith)
]

ping_all-keeps_totals :
    (env : Env) (v : Vault) (c : Contract) {r : Vault × Contract}
    → ping_all env v c ≡ ok r
    → (r.1.total_stake ≡ c.total_stake) × (r.1.fee_rate ≡ c.fee_rate)
unfolding ping_all update_reward_acc
ping_all-keeps_totals env v c {r} e = ground arith

recompute_stake-keeps_totals :
    (v : Vault) (c : Contract) {r : Vault × Contract}
    → recompute_stake v c ≡ ok r
    → (r.1.total_stake ≡ c.total_stake) × (r.1.fee_rate ≡ c.fee_rate)
unfolding recompute_stake adjust_units
recompute_stake-keeps_totals v c {r} e = ground arith

-- Staking x of a token that stands at index i, for a registered user, if it does not panic: exactly the
-- amount of that token grows by x, in the user's vault and in total, the Cheddy stays, no other vault changes, and the answer is
-- the vault's new units.
pub stake-Staked :
    (env : Env) (a token : AccountId) (x : Balance) (i : ℕ) (v : Vault) (c : Contract)
    → get a c.vaults ≡ some v
    → find_acc_idx token c.stake_tokens ≡ ok i
    → Ensures (Staked a i x v c) (stake env a token x c)
unfolding stake put_vault get_vault
stake-Staked env a token x i v c found at_i =
    Ensures-bind (Staked a i x v c) (assert (ltb 0 x) "staked amount must be positive") _ λ _ _.
      Ensures-bind (Staked a i x v c) (find_acc_idx token c.stake_tokens) _ λ j at_j.
        Ensures-bind (Staked a i x v c) (get_vault c a) _ λ u found_u.
          Ensures-bind (Staked a i x v c) (ping_all env u c) _ λ (v1, c1) pinged.
            Ensures-bind (Staked a i x v c) (add_at v1.staked j x) _ λ staked staked_is.
              Ensures-bind (Staked a i x v c) (add_at c1.total_stake j x) _ λ total total_is.
                Ensures-bind (Staked a i x v c)
                  (recompute_stake (record v1 { staked = staked })
                    (record c1 { total_stake = total }))
                  _
                  λ (v2, c2) counted.
                    let (old, old_is, new_is) = add_at_inv v1.staked j x staked_is in
                    let (sum, sum_is, new_sum_is) = add_at_inv c1.total_stake j x total_is in
                    let ping = ping_all_inv env u c pinged in
                    let kept = recompute_stake_inv _ _ counted in
                    let same : v ≡ u = ground (arith, found, found_u) in
                    let same_i : i ≡ j = ground (arith, at_i, at_j) in
                    (
                      v2,
                      old,
                      sum,
                      ground (arith, kept, ping, ap (insert a v2) kept.2),
                      ground (arith, ping, same, same_i, old_is),
                      ground (arith, kept, ping, same, same_i, new_is),
                      ground (arith, same_i, sum_is, ping_all-keeps_totals env u c pinged),
                      ground (
                        arith,
                        same_i,
                        new_sum_is,
                        recompute_stake-keeps_totals _ _ counted,
                        ping_all-keeps_totals env u c pinged,
                      ),
                      refl,
                      ground (arith, kept, ping, same),
                    )

-- What is sent to a user who takes tokens back.
abbrev pub sent_back : AccountId → AccountId → ℕ → (net fee : Balance) → Promise
sent_back token a i net fee =
    if token == near then transfer a net else ft_transfer token a net (staked_sent a i net fee)

-- The amount leaves the vault; the user is sent it less the fee, and the total shrinks by what is sent.
abbrev pub Unstaked :
    AccountId
    → AccountId
    → ℕ
    → Balance
    → Vault
    → Contract
    → Contract × Balance × List Promise
    → Type 0
Unstaked a token i x v c r =
    (w : Vault) × (held : Balance) × (total : Balance) × (r.0.vaults ≡ insert a w c.vaults)
    × (get_elem? v.staked i ≡ some held)
    × (x + r.1 ≡ held)
    × (w.staked ≡ set v.staked i r.1)
    × (get_elem? c.total_stake i ≡ some total)
    × (r.0.total_stake ≡ set c.total_stake i (total - (x - x * c.fee_rate / 10_000)))
    × (r.2 ≡ sent_back token a i (x - x * c.fee_rate / 10_000) (x * c.fee_rate / 10_000) ∷ [])

abbrev pub Sent : AccountId → AccountId → ℕ → Balance → Contract → Contract × List Promise → Type 0
Sent a token i x c r =
    (r.0.vaults ≡ c.vaults)
    × ((total : Balance) × (get_elem? c.total_stake i ≡ some total)
        × (r.0.total_stake ≡ set c.total_stake i (total - (x - x * c.fee_rate / 10_000)))
        × (r.1 ≡ sent_back token a i (x - x * c.fee_rate / 10_000) (x * c.fee_rate / 10_000) ∷ []))

transfer_staked_tokens-Sent :
    (a token : AccountId) (i : ℕ) (x : Balance) (c : Contract) {r : Contract × List Promise}
    → get_elem? c.stake_tokens i ≡ some token
    → 0 < x
    → transfer_staked_tokens a i x c ≡ ok r
    → Sent a token i x c r
unfolding transfer_staked_tokens index sub_at mul_u128 fit checked_sub
transfer_staked_tokens-Sent a token i x c {r} is_token positive e =
    elim (Option-cases (get_elem? c.total_stake i)) [
      | inl missing ↦ absurd (ground arith)
      | inr (total, found) ↦ (ground arith, (total, found, ground arith, ground arith))
    ]

-- An unstaking of a positive amount that is not all that the user has staked, if it
-- does not panic: the user keeps the rest,
-- the token is sent back less the fee, and the token's total shrinks by what is sent.
pub unstake_part-Unstaked :
    (env : Env) (a token : AccountId) (i : ℕ) (x : Balance) (v : Vault) (c : Contract)
    → get_elem? c.stake_tokens i ≡ some token
    → 0 < x
    → Ensures (Unstaked a token i x v c) (unstake_part env a i x v c)
unfolding unstake_part put_vault index
unstake_part-Unstaked env a token i x v c is_token positive =
    Ensures-bind (Unstaked a token i x v c) (ping_all env v c) _ λ (v1, c1) pinged.
      Ensures-bind (Unstaked a token i x v c) (index v1.staked i) _ λ held held_is.
        Ensures-bind (Unstaked a token i x v c) (checked_sub held x) _ λ remaining rest.
          Ensures-bind (Unstaked a token i x v c)
            (recompute_stake (record v1 { staked = set v1.staked i remaining }) c1) _
            λ (v2, c2) counted.
              Ensures-bind (Unstaked a token i x v c)
                (transfer_staked_tokens a i x (put_vault a v2 c2)) _
                λ (c3, ps) sent.
                  let ping = ping_all_inv env v c pinged in
                  let kept = recompute_stake_inv _ _ counted in
                  let now = ping_all-keeps_totals env v c pinged in
                  let after = recompute_stake-keeps_totals _ _ counted in
                  let (same_vaults, (total, total_is, new_total, promises)) =
                    transfer_staked_tokens-Sent a token i x (put_vault a v2 c2)
                      (ground (arith, kept, ping, is_token)) positive sent in
                  (
                    v2,
                    held,
                    total,
                    ground (arith, same_vaults, kept, ping, ap (insert a v2) kept.2),
                    ground (arith, ping, held_is),
                    ground (arith, checked_sub_inv _ _ rest),
                    ground (arith, kept, ping),
                    ground (arith, total_is, now, after),
                    ground (arith, new_total, now, after),
                    ground (arith, promises, now, after),
                  )
