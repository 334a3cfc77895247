-- ===== src/P3Farm/Recoveries.antt =====
-- What happens when tokens do not arrive.
use cheddar.Prelude.{
  ℕ, ◌+◌, ◌-◌, ◌*◌, ◌≤◌, ◌≡◌, ◌≢◌, List, [], ◌∷◌, get_elem?, set, get_elem?-set, ok, panic, arith,
  Ensures, Ensures-intro, none, some, Option-cases, Result-cases, inl, inr,
}
use cheddar.Prelude.Words.{add_u128, checked_sub, fit}
use cheddar.Near.{Env, AccountId, Balance, failed}
use cheddar.Near.LookupMap.{get, get-insert}
use cheddar.P3Lib.{index, add_at, sub_at}
use cheddar.P3Farm.State.{Vault, Contract, Promise, ft_transfer, staked_sent}
use cheddar.P3Farm.Rewards.{
  put_vault, recompute_stake, adjust_units, recovered_vault, get_vault, stake_units,
}
use cheddar.P3Farm.Transfers.{
  transfer_staked_tokens, transfer_farmed_tokens, transfer_staked_callback,
  transfer_farmed_callback, recover_state, recover_staked, recover_farmed, has_failed,
}
use cheddar.P3Farm.Staking.{withdraw_farmed_recovered, assert_is_active}
use cheddar.P3Farm.Units.{recompute_stake_inv}
use cheddar.P3Farm.Emission.{owed}

-- The answer of the other contract is a failure.
abbrev pub IsFailed : Env → Type 0
IsFailed env = get_elem? env.promise_results 0 ≡ some failed

recover_staked-total :
    (a : AccountId) (i : ℕ) (x : Balance) (c : Contract) {c' : Contract}
    → recover_staked a i x c ≡ ok c'
    → c'.total_stake ≡ c.total_stake
unfolding recover_staked recovered_vault recompute_stake adjust_units put_vault
recover_staked-total a i x c {c'} e = ground arith

sent_tokens-total :
    (a : AccountId) (i : ℕ) (x net fee total : Balance) (token : AccountId) (c : Contract)
    {c₁ : Contract}
    → get_elem? c.total_stake i ≡ some total
    → transfer_staked_tokens a i x c
      ≡ ok (c₁, ft_transfer token a net (staked_sent a i net fee) ∷ [])
    → (net ≤ total) × (get_elem? c₁.total_stake i ≡ some (total - net))
unfolding transfer_staked_tokens index sub_at checked_sub
sent_tokens-total a i x net fee total token c {c₁} known sent = grind (arith, get_elem?-set)

failed_callback-total :
    (env : Env) (a : AccountId) (i : ℕ) (net fee total : Balance) (c : Contract) {c₂ : Contract}
    → IsFailed env
    → get_elem? c.total_stake i ≡ some total
    → transfer_staked_callback env a i net fee c ≡ ok c₂
    → get_elem? c₂.total_stake i ≡ some (total + (net + fee))
unfolding transfer_staked_callback has_failed recover_state index add_at add_u128 fit
failed_callback-total env a i net fee total c {c₂} fails known back =
    grind (arith, recover_staked-total, get_elem?-set)

-- Staked tokens that are sent back and do not arrive: the total stake of the token ends above what it
-- was before by the fee.
pub failed_transfer-raises_total :
    (env : Env) (a : AccountId) (i : ℕ) (x net fee total : Balance) (token : AccountId)
    (c : Contract) {c₁ c₂ : Contract}
    → IsFailed env
    → get_elem? c.total_stake i ≡ some total
    → transfer_staked_tokens a i x c
      ≡ ok (c₁, ft_transfer token a net (staked_sent a i net fee) ∷ [])
    → transfer_staked_callback env a i net fee c₁ ≡ ok c₂
    → get_elem? c₂.total_stake i ≡ some (total + fee)
failed_transfer-raises_total env a i x net fee total token c {c₁} {c₂} fails known sent back =
    let (covered, taken) = sent_tokens-total a i x net fee total token c known sent in
    let returned = failed_callback-total env a i net fee (total - net) c₁ fails taken back in
    grind (arith, covered, returned)

-- Farmed tokens that are sent and do not arrive are lost to the user where no stake token has the index of
-- the farm token: the callback that should keep them for the user panics.
pub farmed_callback-panics :
    (env : Env) (a : AccountId) (i : ℕ) (x : Balance) (c : Contract) {c' : Contract}
    {ps : List Promise}
    → IsFailed env
    → get_elem? c.stake_tokens i ≡ none
    → transfer_farmed_tokens a i x c ≡ ok (c', ps)
    → transfer_farmed_callback env a i x c' ≡ panic "index out of bounds"
unfolding transfer_farmed_callback has_failed index transfer_farmed_tokens
farmed_callback-panics env a i x c {c'} {ps} fails beyond sent = ground arith

-- A withdrawal of recovered tokens leaves them in the vault: the same call, unless it panics,
-- sends the same tokens again.
pub withdraw_farmed_recovered-repeats :
    (env : Env) (token : AccountId) (c : Contract) {c' : Contract} {ps : List Promise}
    → withdraw_farmed_recovered env token c ≡ ok (c', ps)
    → Ensures (λ r. r.1 ≡ ps) (withdraw_farmed_recovered env token c')
unfolding withdraw_farmed_recovered get_vault transfer_farmed_tokens assert_is_active
withdraw_farmed_recovered-repeats env token c {c'} {ps} e = ground arith

-- The amount is in the vault, as recovered, and no longer harvested.
abbrev pub Kept : AccountId → ℕ → Balance → Vault → Contract → Balance → Balance → Contract → Type 0
Kept a i x v c kept total d =
    (get_elem? d.total_harvested i ≡ some (total - x))
    × (x ≤ total)
    × (get a d.vaults ≡ some (record v { farmed_recovered = set v.farmed_recovered i (kept + x) }))

-- Unless the callback panics, farmed tokens that do not arrive are kept in the user's vault, and count as
-- not harvested.
pub recover_farmed-keeps :
    (a : AccountId) (i : ℕ) (x : Balance) (v : Vault) (c : Contract) (kept total : Balance)
    → get a c.vaults ≡ some v
    → get_elem? v.farmed_recovered i ≡ some kept
    → get_elem? c.total_harvested i ≡ some total
    → Ensures (Kept a i x v c kept total) (recover_farmed a i x c)
unfolding recover_farmed recovered_vault put_vault add_at sub_at index add_u128 checked_sub fit
recover_farmed-keeps a i x v c kept total found here harvested =
    Ensures-intro (Kept a i x v c kept total) _ (λ d done. grind (arith, get-insert, get_elem?-set))

add_at_inv :
    (xs : List Balance) (i : ℕ) (x : Balance) {ys : List Balance}
    → add_at xs i x ≡ ok ys
    → (s : Balance) × (get_elem? xs i ≡ some s) × (ys ≡ set xs i (s + x))
unfolding add_at index add_u128 fit
add_at_inv xs i x {ys} e = elim (Option-cases (get_elem? xs i)) [
  | inl missing ↦ absurd (ground (arith, missing))
  | inr (s, there) ↦ (s, there, ground (arith, there))
]

recompute_stake-keeps :
    (v : Vault) (c : Contract) {w : Vault} {d : Contract}
    → recompute_stake v c ≡ ok (w, d)
    → (stake_units w c ≡ ok w.min_stake)
      × (w.farmed ≡ v.farmed)
      × (w.reward_acc ≡ v.reward_acc)
      × (d.reward_acc ≡ c.reward_acc)
unfolding recompute_stake adjust_units stake_units
recompute_stake-keeps v c {w} {d} e = ground arith

-- The vault with the tokens staked again, counted with the units that they give it now, and otherwise as
-- it was; the other vaults stay.
abbrev pub Restaked : AccountId → ℕ → Balance → Vault → Contract → Vault → Contract → Type 0
Restaked a i x v c w d =
    (s : Balance) × (get_elem? v.staked i ≡ some s)
    × (w.staked ≡ set v.staked i (s + x))
    × (stake_units w c ≡ ok w.min_stake)
    × (w.farmed ≡ v.farmed)
    × (w.cheddy ≡ v.cheddy)
    × (d.staked_units + v.min_stake ≡ c.staked_units + w.min_stake)
    × ((j : AccountId) → j ≢ a → get j d.vaults ≡ get j c.vaults)

-- Unless the callback panics, staked tokens of a registered user that do not arrive are in the vault
-- again, which is counted with the units of its whole stake, and the other vaults stay. There is no
-- ping: from then on the vault is owed the new units for all the time since its last ping, during which
-- the tokens were not staked.
pub recover_staked-owed :
    (a : AccountId) (i : ℕ) (x : Balance) (v : Vault) (c : Contract) {c' : Contract}
    → get a c.vaults ≡ some v
    → recover_staked a i x c ≡ ok c'
    → (w : Vault) × (get a c'.vaults ≡ some w)
      × Restaked a i x v c w c'
      × (c'.reward_acc ≡ c.reward_acc)
      × (owed c'.reward_acc w + v.min_stake * (c.reward_acc - v.reward_acc)
          ≡ owed c.reward_acc v + w.min_stake * (c.reward_acc - v.reward_acc))
unfolding recover_staked recovered_vault put_vault owed
recover_staked-owed a i x v c {c'} found e = elim (Result-cases (add_at v.staked i x)) [
  | inr (m, refused) ↦ absurd (ground (arith, found, refused))
  | inl (staked, added) ↦ elim (Result-cases (recompute_stake (record v { staked = staked }) c)) [
    | inr (m, refused) ↦ absurd (ground (arith, found, added, refused))
    | inl ((w, d), counted) ↦
        (let put : c' ≡ put_vault a w d = ground (arith, found, added, counted) in
          let (s, there, raised) = add_at_inv v.staked i x added in
          let moved = recompute_stake_inv (record v { staked = staked }) c counted in
          let kept = recompute_stake-keeps (record v { staked = staked }) c counted in
          (
            w,
            ground (arith, put, get-insert a a w d.vaults),
            (
              s,
              there,
              ground (arith, raised, moved),
              kept.0,
              kept.1,
              ground (arith, moved),
              ground (arith, put, moved),
              λ j ne. ground (arith, put, moved, get-insert j a w d.vaults),
            ),
            ground (arith, put, kept),
            ground (arith, put, kept),
          ))
  ]
]
