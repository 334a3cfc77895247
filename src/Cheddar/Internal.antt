-- ===== src/Cheddar/Internal.antt =====
-- The internal operations of the token (cheddar/src/internal.rs, and register_account of storage.rs).
use cheddar.Prelude.{
  Bool, false, none, some, List, [], ◌∷◌, ◌||◌, Result, ok, ◌>>=◌, ◌>>◌, assert, expect, ltb, leb,
  ◌==◌, ◌!=◌, if◌then◌else◌,
}
use cheddar.Prelude.Words.{add_u128, checked_sub}
use cheddar.Near.{Env, AccountId, Balance}
use cheddar.Near.LookupMap.{get, insert, remove}
use cheddar.Cheddar.State.{Contract, AccBalance}
use cheddar.Cheddar.Vesting.{compute_amount_locked}

unfoldable pub assert_owner : Env → Contract → Result (Unit {0})
assert_owner env c =
    assert (env.predecessor_account_id == c.owner_id) "can only be called by the owner"

-- `Vec::contains`
unfoldable pub contains : List AccountId → AccountId → Bool
contains [] a = false
contains (x ∷ xs) a = x == a || contains xs a

unfoldable pub assert_minter : Contract → AccountId → Result (Unit {0})
assert_minter c account_id = assert (contains c.minters account_id) "not a minter"

unfoldable pub balance_of : Contract → AccountId → Balance
balance_of c account_id = elim (get account_id c.accounts) [ none ↦ 0 | some a ↦ a.token ]

unfoldable pub must_balance_of : Contract → AccountId → Result AccBalance
must_balance_of c account_id = expect (get account_id c.accounts) "Account {} is not registered"

-- `self.accounts.insert(account_id, ab)`
unfoldable pub put_account : AccountId → AccBalance → Contract → Contract
put_account a ab c = record c { accounts = insert a ab c.accounts }

-- The account as it is registered, or registered now with that deposit.
unfoldable pub try_register_account : AccountId → Balance → Contract → AccBalance × Contract
unfolding put_account
try_register_account a deposit c = elim (get a c.accounts) [
  | some ab ↦ (ab, c)
  | none ↦
      let fresh : AccBalance = record { near = deposit; token = 0 } in
      (fresh, put_account a fresh c)
]

unfoldable pub mint : AccountId → Balance → Contract → Result Contract
unfolding try_register_account put_account
mint a amount c =
    let (ab, c₁) = try_register_account a 0 c in
    do
      token ← add_u128 ab.token amount
      total_supply ← add_u128 c₁.total_supply amount
      ok (record (put_account a (record ab { token = token }) c₁) { total_supply = total_supply })

unfoldable pub internal_burn : AccountId → Balance → Contract → Result Contract
unfolding must_balance_of put_account
internal_burn a amount c = do
  assert (ltb 0 amount) "can't burn 0 tokens"
  ab ← must_balance_of c a
  token ← checked_sub ab.token amount
  assert (leb amount c.total_supply) "assertion failed: self.total_supply >= amount"
  total_supply ← checked_sub c.total_supply amount
  ok (record (put_account a (record ab { token = token }) c) { total_supply = total_supply })

-- The vesting check of a sender who keeps `token`: a schedule that is over is removed, any other
-- must leave its locked amount in the account.
unfoldable pub check_vesting : Env → AccountId → Balance → Contract → Result Contract
check_vesting env sender_id token c = elim (get sender_id c.vested) [
  | none ↦ ok c
  | some vesting ↦ do
    locked ← compute_amount_locked env vesting
    if locked == 0 then ok (record c { vested = remove sender_id c.vested }) else do
      assert (leb locked token) "Account with vesting, balance can't go lower than {}"
      ok c
]

-- The receiving half of a transfer.
unfoldable pub credit : AccountId → Balance → Contract → Result Contract
unfolding must_balance_of put_account
credit receiver_id amount c = do
  ab ← must_balance_of c receiver_id
  token ← add_u128 ab.token amount
  ok (put_account receiver_id (record ab { token = token }) c)

unfoldable pub internal_transfer :
    Env → AccountId → AccountId → Balance → Contract → Result Contract
unfolding must_balance_of put_account
internal_transfer env sender_id receiver_id amount c = do
  assert (sender_id != receiver_id) "Sender and receiver should be different"
  assert (ltb 0 amount) "The amount should be a positive number"
  ab ← must_balance_of c sender_id
  assert (leb amount ab.token) "The account doesn't have enough balance {}"
  token ← checked_sub ab.token amount
  c' ← check_vesting env sender_id token (put_account sender_id (record ab { token = token }) c)
  credit receiver_id amount c'
