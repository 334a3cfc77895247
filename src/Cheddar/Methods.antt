-- ===== src/Cheddar/Methods.antt =====
-- The methods of the token contract (cheddar/src/lib.rs).
use mathlib.Core.List.{drop_last}
use cheddar.Prelude.{
  not, suc, ◌++◌, set, ℕ, ◌+◌, ◌*◌, min, Bool, Option, none, some, List, [], ◌∷◌, String, Result,
  ok, panic, ◌>>=◌, ◌>>◌, assert, expect, ltb, leb, ◌==◌, ◌!=◌, if◌then◌else◌, get_elem?,
}
use cheddar.Prelude.Words.{add_u128, checked_sub}
use cheddar.Near.{Env, AccountId, Balance, PromiseResult, not_ready, failed, successful}
use cheddar.Near.LookupMap.{contains_key, get, insert, remove}
use cheddar.Cheddar.State.{Contract, AccBalance, VestingRecord, Metadata, Promise, ft_on_transfer}
use cheddar.Cheddar.Vesting.{new_vesting, compute_amount_locked}
use cheddar.Cheddar.Internal.{
  assert_owner, assert_minter, contains, balance_of, mint, internal_burn, internal_transfer,
  must_balance_of, put_account,
}
use cheddar.Cheddar.Storage.{assert_one_yocto}

-- The methods that touch the metadata take its validity check, which is the standard library's.
module _ (is_valid : Metadata → Bool) where
  -- `Contract::new`; the icon is the text of the source.
  unfoldable pub new : String → AccountId → Result Contract
  new icon owner_id = do
    let m : Metadata = record { icon = some icon; reference = none; reference_hash = none }
    assert (is_valid m) "invalid metadata"
    ok (record {
      metadata = m;
      accounts = [];
      owner_id = owner_id;
      minters = owner_id ∷ [];
      total_supply = 0;
      vested = [];
    })

  unfoldable pub set_metadata_reference : Env → String → String → Contract → Result Contract
  unfolding assert_one_yocto assert_owner
  set_metadata_reference env reference reference_hash c = do
    assert_one_yocto env
    assert_owner env c
    let m = record (c.metadata) { reference = some reference; reference_hash = some reference_hash }
    assert (is_valid m) "invalid metadata"
    ok (record c { metadata = m })

unfoldable pub set_metadata_icon : Env → String → Contract → Result Contract
unfolding assert_one_yocto assert_owner
set_metadata_icon env svg_string c = do
  assert_one_yocto env
  assert_owner env c
  ok (record c { metadata = record (c.metadata) { icon = some svg_string } })

unfoldable pub ft_mint : Env → AccountId → Balance → Contract → Result Contract
unfolding assert_minter
ft_mint env receiver_id amount c = do
  assert (leb 1 env.attached_deposit) "Requires attached deposit at least 1 yoctoNEAR"
  assert_minter c env.predecessor_account_id
  mint receiver_id amount c

-- burns `amount` from the caller's tokens
unfoldable pub self_burn : Env → Balance → Contract → Result Contract
unfolding assert_one_yocto
self_burn env amount c = do assert_one_yocto env; internal_burn env.predecessor_account_id amount c

unfoldable pub add_minter : Env → AccountId → Contract → Result Contract
unfolding assert_one_yocto assert_owner
add_minter env account_id c = do
  assert_one_yocto env
  assert_owner env c
  assert (not (contains c.minters account_id)) "already in the list"
  ok (record c { minters = c.minters ++ account_id ∷ [] })

abbrev next_index : Option ℕ → Option ℕ
next_index none = none
next_index (some i) = some (suc i)

-- `iter().position(|x| x == a)`
unfoldable pub position : List AccountId → AccountId → Option ℕ
position [] a = none
position (x ∷ xs) a = if x == a then some 0 else next_index (position xs a)

abbrev pub last_or : AccountId → List AccountId → AccountId
last_or x [] = x
last_or x (y ∷ ys) = last_or y ys

-- `Vec::swap_remove`: the last element takes the place of the one at `i`.
unfoldable pub swap_remove : List AccountId → ℕ → List AccountId
swap_remove [] i = []
swap_remove (x ∷ xs) i = drop_last (set (x ∷ xs) i (last_or x xs))

unfoldable pub remove_minter : Env → AccountId → Contract → Result Contract
unfolding assert_one_yocto assert_owner
remove_minter env account_id c = do
  assert_one_yocto env
  assert_owner env c
  i ← expect (position c.minters account_id) "not a minter"
  ok (record c { minters = swap_remove c.minters i })

unfoldable pub set_owner : Env → AccountId → Contract → Result Contract
unfolding assert_owner
set_owner env owner_id c = do assert_owner env c; ok (record c { owner_id = owner_id })

unfoldable pub get_locked_amount : Env → AccountId → Contract → Result Balance
get_locked_amount env account c = elim (get account c.vested) [
  | none ↦ ok 0
  | some vesting ↦ compute_amount_locked env vesting
]

unfoldable pub get_vesting_info : AccountId → Contract → Result VestingRecord
get_vesting_info a c = expect (get a c.vested) "called `Option::unwrap()` on a `None` value"

unfoldable pub mint_vested : Env → AccountId → Balance → ℕ → ℕ → Contract → Result Contract
unfolding ft_mint contains_key
mint_vested env receiver_id amount cliff_timestamp end_timestamp c = do
  c' ← ft_mint env receiver_id amount c
  vesting ← new_vesting amount cliff_timestamp end_timestamp
  assert (not (contains_key receiver_id c'.vested)) "account already vested"
  ok (record c' { vested = insert receiver_id vesting c'.vested })

unfoldable pub cancel_vesting : Env → AccountId → Contract → Result Contract
unfolding assert_one_yocto assert_owner
cancel_vesting env account_id c = do
  assert_one_yocto env
  assert_owner env c
  vesting ← expect (get account_id c.vested) "account not vested"
  locked ← compute_amount_locked env vesting
  assert (locked != 0) "past the cliff, vesting can't be changed"
  c' ← internal_burn account_id vesting.amount c
  ok (record c' { vested = remove account_id c'.vested })

unfoldable pub ft_transfer : Env → AccountId → Balance → Contract → Result Contract
unfolding assert_one_yocto
ft_transfer env receiver_id amount c = do
  assert_one_yocto env
  internal_transfer env env.predecessor_account_id receiver_id amount c

abbrev pub tgas : ℕ
tgas = 1_000_000_000_000

abbrev pub gas_for_resolve_transfer : ℕ
gas_for_resolve_transfer = 5 * tgas

abbrev pub gas_for_ft_transfer_call : ℕ
gas_for_ft_transfer_call = 25 * tgas + gas_for_resolve_transfer

-- The receiver is notified with the gas that is left, and `ft_resolve_transfer` is the callback.
unfoldable pub ft_transfer_call :
    Env → AccountId → Balance → String → Contract → Result (Contract × List Promise)
unfolding assert_one_yocto
ft_transfer_call env receiver_id amount msg c = do
  assert_one_yocto env
  let sender_id = env.predecessor_account_id
  c' ← internal_transfer env sender_id receiver_id amount c
  gas ← checked_sub env.prepaid_gas gas_for_ft_transfer_call
  ok (c', ft_on_transfer sender_id receiver_id amount msg gas ∷ [])

unfoldable pub ft_total_supply : Contract → Balance
ft_total_supply c = c.total_supply

unfoldable pub ft_balance_of : AccountId → Contract → Balance
unfolding balance_of
ft_balance_of account_id c = balance_of c account_id

-- The resolution of a transfer call takes the decoder of the receiver's answer (serde_json).
module _ (from_slice : List ℕ → Option Balance) where
  abbrev decoded : Balance → Option Balance → Balance
  decoded amount none = amount
  decoded amount (some unused) = min amount unused

  -- The part of the amount that the receiver did not use.
  unfoldable pub unused_amount : Balance → Option PromiseResult → Result Balance
  unused_amount amount none = panic "promise result index out of bounds"
  unused_amount amount (some not_ready) = panic "internal error: entered unreachable code"
  unused_amount amount (some failed) = ok amount
  unused_amount amount (some (successful value)) = ok (decoded amount (from_slice value))

  -- The refund, bounded by what the receiver still has: to the sender, or burned if the sender's
  -- account is gone. With the contract comes the amount credited to the receiver and that burned.
  unfoldable pub refund_unused :
      AccountId
      → AccBalance
      → AccountId
      → Balance
      → Balance
      → Contract
      → Result (Contract × Balance × Balance)
  unfolding put_account
  refund_unused receiver_id ab sender_id amount unused c = do
    let unused' = min ab.token unused
    token ← checked_sub ab.token unused'
    let c₁ = put_account receiver_id (record ab { token = token }) c
    used ← checked_sub amount unused'
    elim (get sender_id c₁.accounts) [
      | some sb ↦ do
        sender_token ← add_u128 sb.token unused'
        ok (put_account sender_id (record sb { token = sender_token }) c₁, used, 0)
      | none ↦ do
        total_supply ← checked_sub c₁.total_supply unused'
        ok (record c₁ { total_supply = total_supply }, used, unused')
    ]

  unfoldable pub ft_resolve_transfer_adjust :
      Env → AccountId → AccountId → Balance → Contract → Result (Contract × Balance × Balance)
  unfolding must_balance_of
  ft_resolve_transfer_adjust env sender_id receiver_id amount c = do
    unused ← unused_amount amount (get_elem? env.promise_results 0)
    if ltb 0 unused
        then (do
          ab ← must_balance_of c receiver_id
          if ltb 0 ab.token
              then refund_unused receiver_id ab sender_id amount unused c
              else ok (c, amount, 0))
        else ok (c, amount, 0)

  unfoldable pub ft_resolve_transfer :
      Env → AccountId → AccountId → Balance → Contract → Result (Contract × Balance)
  unfolding ft_resolve_transfer_adjust
  ft_resolve_transfer env sender_id receiver_id amount c = do
    (c', used, burned) ← ft_resolve_transfer_adjust env sender_id receiver_id amount c
    ok (c', used)
