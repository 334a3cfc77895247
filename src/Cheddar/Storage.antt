-- ===== src/Cheddar/Storage.antt =====
-- The NEP-145 storage management of the token (cheddar/src/storage.rs).
use cheddar.Prelude.{
  Bool, true, false, Option, none, some, List, [], ◌∷◌, ◌||◌, Result, ok, panic, ◌>>=◌, ◌>>◌,
  assert, ltb, leb, ◌==◌, ◌!=◌, if◌then◌else◌,
}
use cheddar.Prelude.Words.{add_u128, mul_u128, checked_sub}
use cheddar.Near.{Env, AccountId, Balance}
use cheddar.Near.LookupMap.{get, remove, contains_key}
use cheddar.Cheddar.State.{Contract, AccBalance, Promise, transfer, account_storage}
use cheddar.Cheddar.Internal.{put_account}

pub record StorageBalance : Type 0 where
  pub total : Balance
  pub available : Balance

unfoldable pub assert_one_yocto : Env → Result (Unit {0})
assert_one_yocto env =
    assert (env.attached_deposit == 1) "Requires attached deposit of exactly 1 yoctoNEAR"

unfoldable pub storage_cost : Env → Result Balance
storage_cost env = mul_u128 account_storage env.storage_byte_cost

unfoldable pub storage_balance : Env → Result StorageBalance
unfolding storage_cost
storage_balance env = do cost ← storage_cost env; ok (record { total = cost; available = 0 })

-- Panics if the account was already registered.
unfoldable pub register_account : AccountId → Balance → Contract → Result Contract
unfolding put_account
register_account a deposit c = elim (get a c.accounts) [
  | some _ ↦ panic "The account is already registered"
  | none ↦ ok (put_account a (record { near = deposit; token = 0 }) c)
]

-- `Promise::new(a).transfer(amount)` where the amount is positive.
abbrev pub refund_to : AccountId → Balance → List Promise
refund_to a amount = if ltb 0 amount then transfer a amount ∷ [] else []

-- The account that a deposit is for: the one named, or the caller.
abbrev pub deposit_account : Env → Option AccountId → AccountId
deposit_account env none = env.predecessor_account_id
deposit_account env (some a) = a

unfoldable pub storage_deposit :
    Env → Option AccountId → Contract → Result (Contract × StorageBalance × List Promise)
unfolding storage_balance storage_cost register_account contains_key
storage_deposit env account_id c =
    let a = deposit_account env account_id in
    let amount = env.attached_deposit in
    let caller = env.predecessor_account_id in
    if contains_key a c.accounts
    then (storage_balance env >>= λ b. ok (c, b, refund_to caller amount))
    else do
      cost ← storage_cost env
      assert (leb cost amount) "attached deposit: {},  required: {}"
      c' ← register_account a cost c
      refund ← checked_sub amount cost
      b ← storage_balance env
      ok (c', b, refund_to caller refund)

-- Nothing is ever available, so an amount above zero is refused.
abbrev withdraw_nothing : Env → Option Balance → Result StorageBalance
unfolding storage_balance
withdraw_nothing env none = storage_balance env
withdraw_nothing env (some x) =
    if ltb 0 x
    then panic "The amount is greater than the available storage balance"
    else storage_balance env

unfoldable pub storage_withdraw : Env → Option Balance → Contract → Result StorageBalance
unfolding assert_one_yocto storage_balance contains_key
storage_withdraw env amount c = do
  assert_one_yocto env
  assert (contains_key env.predecessor_account_id c.accounts) "The account {} is not registered"
  withdraw_nothing env amount

-- `force.unwrap_or(false)`
abbrev pub is_forced : Option Bool → Bool
is_forced none = false
is_forced (some force) = force

-- The registered account is removed, its tokens are burned, and the deposit is sent back where
-- there were tokens.
abbrev unregister_account :
    AccountId
    → AccBalance
    → Contract
    → Result (Contract × Option (AccountId × Balance) × List Promise)
unregister_account a balance c =
    let c' : Contract = record c { accounts = remove a c.accounts } in
    let closed = some (a, balance.near) in
    if balance.token != 0
    then (do
      total_supply ← checked_sub c.total_supply balance.token
      sent ← add_u128 balance.near 1
      ok (record c' { total_supply = total_supply }, closed, transfer a sent ∷ []))
    else ok (c', closed, [])

unfoldable pub internal_storage_unregister :
    Env → Option Bool → Contract → Result (Contract × Option (AccountId × Balance) × List Promise)
unfolding assert_one_yocto
internal_storage_unregister env force c = do
  assert_one_yocto env
  let a = env.predecessor_account_id
  elim (get a c.accounts) [
    | none ↦ ok (c, none, [])
    | some balance ↦
        if balance.token == 0 || is_forced force
        then unregister_account a balance c
        else panic "Can't unregister the account with the positive balance without force"
  ]

abbrev is_some : Option (AccountId × Balance) → Bool
is_some none = false
is_some (some _) = true

unfoldable pub storage_unregister :
    Env → Option Bool → Contract → Result (Contract × Bool × List Promise)
unfolding internal_storage_unregister
storage_unregister env force c = do
  (c', closed, promises) ← internal_storage_unregister env force c
  ok (c', is_some closed, promises)

unfoldable pub storage_balance_of : Env → AccountId → Contract → Result (Option StorageBalance)
unfolding storage_balance contains_key
storage_balance_of env a c =
    if contains_key a c.accounts then (storage_balance env >>= λ b. ok (some b)) else ok none
