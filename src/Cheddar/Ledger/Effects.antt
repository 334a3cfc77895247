-- ===== src/Cheddar/Ledger/Effects.antt =====
-- What the internal operations of the token (cheddar/src/internal.rs) do to its ledger.
use cheddar.Prelude.{
  ℕ, ◌+◌, ◌-◌, ◌≤◌, ◌≡◌, ◌≢◌, sym, ap, Bool, Option, some, List, ok, arith, min, Option-cases, inl,
  inr, ◌⊎◌,
}
use cheddar.Prelude.Words.{add_u128, fit, checked_sub}
use cheddar.Near.{Env, AccountId, Balance}
use cheddar.Near.LookupMap.{
  get, insert, get-insert, get-remove_self, get-remove_ne, IsMap, insert-IsMap, remove-IsMap,
}
use cheddar.Cheddar.{Contract, AccBalance, Promise}
use cheddar.Cheddar.Internal.{
  balance_of, contains, mint, internal_burn, internal_transfer, check_vesting, put_account,
}
use cheddar.Cheddar.Internal.{credit}
use cheddar.Cheddar.Methods.{refund_unused, ft_resolve_transfer_adjust}
use cheddar.Cheddar.Storage.{StorageBalance, storage_deposit, storage_unregister}
use cheddar.Cheddar.Supply.{internal_transfer_inv}
use cheddar.Cheddar.Ledger.{Ledger, Ledger-eq, give, take}

unfoldable pub ledger : Contract → Ledger
ledger c = record {
  balance = λ a. balance_of c a;
  supply = c.total_supply;
  minter = λ a. contains c.minters a;
  owner = c.owner_id;
}

-- The accounts are still a map, and the balances and the supply are those given; the rest of the
-- ledger is as it was.
pub record Books (f : AccountId → Balance) (n : Balance) (c c' : Contract) : Type 0 where
  pub no_repeats : IsMap c'.accounts
  pub balances : (a : AccountId) → balance_of c' a ≡ f a
  pub supply : c'.total_supply ≡ n
  pub minters : c'.minters ≡ c.minters
  pub owner : c'.owner_id ≡ c.owner_id

pub Books-ledger :
    (f : AccountId → Balance) (n : Balance) (c c' : Contract)
    → Books f n c c'
    → record (ledger c) { balance = f; supply = n } ≡ ledger c'
unfolding ledger
Books-ledger f n c c' b =
    Ledger-eq _ _ (λ a. sym (b.balances a)) (sym b.supply)
      (λ a. ap (λ l. contains l a) (sym b.minters)) (sym b.owner)

pub mint-Books :
    (r : AccountId) (x : Balance) (c : Contract) {c' : Contract}
    → IsMap c.accounts
    → mint r x c ≡ ok c'
    → Books (give r x (balance_of c)) (c.total_supply + x) c c'
unfolding mint balance_of add_u128 fit
mint-Books r x c {c'} m e = record {
  no_repeats = grind (arith, insert-IsMap);
  balances = λ a. grind (arith, get-insert);
  supply = ground arith;
  minters = ground arith;
  owner = ground arith;
}

pub internal_burn-Books :
    (a : AccountId) (x : Balance) (c : Contract) {c' : Contract}
    → IsMap c.accounts
    → internal_burn a x c ≡ ok c'
    → (x ≤ balance_of c a)
      × (x ≤ c.total_supply)
      × Books (take a x (balance_of c)) (c.total_supply - x) c c'
unfolding internal_burn balance_of checked_sub
internal_burn-Books a x c {c'} m e = elim (Option-cases (get a c.accounts)) [
  | inl new ↦ absurd (ground arith)
  | inr (ab, found) ↦ (
    ground arith,
    ground arith,
    record {
      no_repeats = grind (arith, insert-IsMap);
      balances = λ a. grind (arith, get-insert);
      supply = ground arith;
      minters = ground arith;
      owner = ground arith;
    },
  )
]

check_vesting_rest :
    (env : Env) (a : AccountId) (t : Balance) (c : Contract) {c' : Contract}
    → check_vesting env a t c ≡ ok c'
    → (c'.accounts ≡ c.accounts)
      × (c'.total_supply ≡ c.total_supply)
      × (c'.minters ≡ c.minters)
      × (c'.owner_id ≡ c.owner_id)
unfolding check_vesting
check_vesting_rest env a t c {c'} e = ground arith

pub internal_transfer-Books :
    (env : Env) (s r : AccountId) (x : Balance) (c : Contract) {c' : Contract}
    → IsMap c.accounts
    → internal_transfer env s r x c ≡ ok c'
    → (s ≢ r)
      × (x ≤ balance_of c s)
      × Books (give r x (take s x (balance_of c))) c.total_supply c c'
unfolding balance_of put_account credit add_u128 fit
internal_transfer-Books env s r x c {c'} m e =
    let (ab, c₁, ne, pos, found, enough, checked, credited) = internal_transfer_inv env s r x c e in
    let (rest, supply, minters, owner) = check_vesting_rest env s (ab.token - x) _ checked in
    let taken = record ab { token = ab.token - x } in
    (
      ne,
      ground arith,
      record {
        no_repeats = grind (arith, insert-IsMap);
        balances = λ a. grind (arith, get-insert);
        supply = ground arith;
        minters = ground arith;
        owner = ground arith;
      },
    )

pub storage_deposit-Books :
    (env : Env) (who : Option AccountId) (c : Contract) {c' : Contract} {b : StorageBalance}
    {p : List Promise}
    → IsMap c.accounts
    → storage_deposit env who c ≡ ok (c', b, p)
    → Books (balance_of c) c.total_supply c c'
unfolding storage_deposit balance_of
storage_deposit-Books env who c {c'} {b} {p} m e = record {
  no_repeats = grind (arith, insert-IsMap);
  balances = λ a. grind (arith, get-insert);
  supply = ground arith;
  minters = ground arith;
  owner = ground arith;
}

pub storage_unregister-Books :
    (env : Env) (force : Option Bool) (c : Contract) {c' : Contract} {b : Bool} {p : List Promise}
    → IsMap c.accounts
    → storage_unregister env force c ≡ ok (c', b, p)
    → let a = env.predecessor_account_id in
      (balance_of c a ≤ c.total_supply)
      × Books (take a (balance_of c a) (balance_of c)) (c.total_supply - balance_of c a) c c'
unfolding storage_unregister balance_of checked_sub
storage_unregister-Books env force c {c'} {b} {p} m e = (
  ground arith,
  record {
    no_repeats = grind (arith, remove-IsMap);
    balances = λ j. grind (arith, get-remove_ne, get-remove_self);
    supply = ground arith;
    minters = ground arith;
    owner = ground arith;
  },
)

-- How the resolution of a transfer call ends: tokens go back to the sender, or leave the supply.
abbrev pub Refund : AccountId → AccountId → Contract → Contract → Type 0
Refund s r c c' =
    (x : Balance) × (x ≤ balance_of c r)
    × (Books (give s x (take r x (balance_of c))) c.total_supply c c'
        ⊎ ((x ≤ c.total_supply) × Books (take r x (balance_of c)) (c.total_supply - x) c c'))

module _ (from_slice : List ℕ → Option Balance) where
  refund_unused-Refund :
      (r : AccountId) (ab : AccBalance) (s : AccountId) (amount unused : Balance) (c : Contract)
      {c' : Contract} {used burned : Balance}
      → IsMap c.accounts
      → get r c.accounts ≡ some ab
      → refund_unused from_slice r ab s amount unused c ≡ ok (c', used, burned)
      → Refund s r c c'
  unfolding refund_unused balance_of checked_sub add_u128 fit put_account
  refund_unused-Refund r ab s amount unused c {c'} {used} {burned} m found e =
      let x = min ab.token unused in
      let taken = insert r (record ab { token = ab.token - x }) c.accounts in
      elim (Option-cases (get s taken)) [
        | inl gone ↦ (
          x,
          ground arith,
          inr (
            ground arith,
            record {
              no_repeats = grind (arith, insert-IsMap);
              balances = λ a. grind (arith, get-insert);
              supply = ground arith;
              minters = ground arith;
              owner = ground arith;
            },
          ),
        )
        | inr (sb, there) ↦ (
          x,
          ground arith,
          inl (record {
            no_repeats = grind (arith, insert-IsMap);
            balances = λ a. grind (arith, get-insert);
            supply = ground arith;
            minters = ground arith;
            owner = ground arith;
          }),
        )
      ]

  pub ft_resolve_transfer_adjust-Refund :
      (env : Env) (s r : AccountId) (amount : Balance) (c : Contract) {c' : Contract}
      {used burned : Balance}
      → IsMap c.accounts
      → ft_resolve_transfer_adjust from_slice env s r amount c ≡ ok (c', used, burned)
      → (c' ≡ c) ⊎ Refund s r c c'
  unfolding ft_resolve_transfer_adjust
  ft_resolve_transfer_adjust-Refund env s r amount c {c'} {used} {burned} m e =
      grind (arith, refund_unused-Refund)
