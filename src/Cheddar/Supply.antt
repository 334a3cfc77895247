-- ===== src/Cheddar/Supply.antt =====
-- The supply against the registered balances, operation by operation (cheddar/src/lib.rs, internal.rs).
pub mod Refunds
use cheddar.Prelude.{
  ℕ, ◌+◌, ◌-◌, ◌≤◌, ◌<◌, ◌≡◌, min, Option, none, some, Result, ok, arith, Option-cases, inl, inr,
  Result-cases, Ensures, Ensures-intro, ◌≢◌, ap, ◌>>=◌,
}
use cheddar.Prelude.Words.{checked_sub, u128_limit, add_u128_inv, checked_sub_inv}
use cheddar.Near.{Env, AccountId, Balance}
use cheddar.Near.LookupMap.{
  get, insert, remove, sum_by, weight, get-insert, sum_by-insert, sum_by-remove, weight-le,
}
use cheddar.Cheddar.{Contract, AccBalance}
use cheddar.Cheddar.Internal.{
  mint, internal_burn, internal_transfer, try_register_account, check_vesting, credit, put_account,
}

abbrev pub token_of : AccBalance → Balance
token_of ab = ab.token

abbrev pub tokens : Contract → ℕ
tokens c = sum_by token_of c.accounts

pub record IsBalanced (c : Contract) : Type 0 where
  pub supply : tokens c ≡ c.total_supply
  pub fits : c.total_supply < u128_limit

pub mint-IsBalanced :
    (a : AccountId) (x : Balance) (c : Contract) {c' : Contract}
    → mint a x c ≡ ok c'
    → IsBalanced c
    → IsBalanced c' × (c'.total_supply ≡ c.total_supply + x)
unfolding mint
mint-IsBalanced a x c {c'} e h = grind (arith, sum_by-insert, get-insert, add_u128_inv)

pub internal_burn-IsBalanced :
    (a : AccountId) (x : Balance) (c : Contract) {c' : Contract}
    → internal_burn a x c ≡ ok c'
    → IsBalanced c
    → IsBalanced c' × (c'.total_supply + x ≡ c.total_supply)
unfolding internal_burn
internal_burn-IsBalanced a x c {c'} e h = grind (arith, sum_by-insert, checked_sub_inv)

-- The vesting check changes the schedules only.
pub check_vesting-accounts :
    (env : Env) (a : AccountId) (t : Balance) (c : Contract) {c' : Contract}
    → check_vesting env a t c ≡ ok c'
    → (c'.accounts ≡ c.accounts) × (c'.total_supply ≡ c.total_supply)
unfolding check_vesting
check_vesting-accounts env a t c {c'} e = ground arith

pub credit-tokens :
    (a : AccountId) (x : Balance) (c : Contract) {c' : Contract}
    → credit a x c ≡ ok c'
    → (tokens c' ≡ tokens c + x) × (c'.total_supply ≡ c.total_supply)
unfolding credit
credit-tokens a x c {c'} e = grind (arith, sum_by-insert, add_u128_inv)

-- A transfer that went through: the sender's account, and the contract once the vesting was checked.
abbrev pub Transferred : Env → AccountId → AccountId → Balance → Contract → Contract → Type 0
Transferred env s r x c c' =
    (ab : AccBalance) × (c₁ : Contract) × (s ≢ r)
    × (0 < x)
    × (get s c.accounts ≡ some ab)
    × (x ≤ ab.token)
    × (check_vesting env s (ab.token - x) (put_account s (record ab { token = ab.token - x }) c)
        ≡ ok c₁)
    × (credit r x c₁ ≡ ok c')

pub internal_transfer_inv :
    (env : Env) (s r : AccountId) (x : Balance) (c : Contract) {c' : Contract}
    → internal_transfer env s r x c ≡ ok c'
    → Transferred env s r x c c'
unfolding internal_transfer checked_sub
internal_transfer_inv env s r x c {c'} e = elim (Option-cases (get s c.accounts)) [
  | inl missing ↦ absurd (ground arith)
  | inr (ab, found) ↦
      elim (Result-cases (
        check_vesting env s (ab.token - x)
          (put_account s (record ab { token = ab.token - x }) c))) [
            | inl (c₁, checked) ↦
                (ab, c₁, ground arith, ground arith, found, ground arith, checked, ground arith)
            | inr (m, refused) ↦ absurd (ground arith)
          ]
]

pub internal_transfer-IsBalanced :
    (env : Env) (s r : AccountId) (x : Balance) (c : Contract) {c' : Contract}
    → internal_transfer env s r x c ≡ ok c'
    → IsBalanced c
    → IsBalanced c' × (c'.total_supply ≡ c.total_supply)
unfolding put_account
internal_transfer-IsBalanced env s r x c {c'} e h =
    let (ab, c₁, ne, pos, found, enough, checked, credited) = internal_transfer_inv env s r x c e in
    let v = check_vesting-accounts env s (ab.token - x) _ checked in
    ground (
      arith,
      sum_by-insert token_of s (record ab { token = ab.token - x }) c.accounts,
      v,
      ap (sum_by token_of) v.0,
      credit-tokens r x c₁ credited,
    )

-- The same of the result, for proofs about the callers.
pub mint-Ensures :
    (a : AccountId) (x : Balance) (c : Contract) → IsBalanced c → Ensures IsBalanced (mint a x c)
mint-Ensures a x c h = Ensures-intro IsBalanced _ (λ c' e. (mint-IsBalanced a x c e h).0)

pub internal_burn-Ensures :
    (a : AccountId) (x : Balance) (c : Contract)
    → IsBalanced c
    → Ensures IsBalanced (internal_burn a x c)
internal_burn-Ensures a x c h =
    Ensures-intro IsBalanced _ (λ c' e. (internal_burn-IsBalanced a x c e h).0)

pub internal_transfer-Ensures :
    (env : Env) (s r : AccountId) (x : Balance) (c : Contract)
    → IsBalanced c
    → Ensures IsBalanced (internal_transfer env s r x c)
internal_transfer-Ensures env s r x c h =
    Ensures-intro IsBalanced _ (λ c' e. (internal_transfer-IsBalanced env s r x c e h).0)
