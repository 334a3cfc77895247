-- ===== src/Cheddar/Ledger/Calls.antt =====
-- The calls of the token contract (cheddar/src/lib.rs), each as an entry of its caller in the ledger.
use cheddar.Prelude.{
  ℕ, ◌≡◌, refl, sym, subst, true, ok, arith, Option-cases, inl, inr, ◌⊎◌, Result-cases,
}
use cheddar.Near.{Env, AccountId, Balance}
use cheddar.Near.LookupMap.{get, IsMap}
use cheddar.Cheddar.{Contract}
use cheddar.Cheddar.Internal.{balance_of, contains, mint, internal_burn, internal_transfer}
use cheddar.Cheddar.Methods.{ft_mint, mint_vested, cancel_vesting}
use cheddar.Cheddar.Ledger.{Ledger-eq, Caller, account, callback, Entry}
use cheddar.Cheddar.Ledger.Effects.{
  ledger, Books, Books-ledger, Refund, mint-Books, internal_burn-Books, internal_transfer-Books,
}

-- What a call leaves: the accounts still a map, and the ledger as one entry of the caller allows.
pub record Enters (by : Caller) (c c' : Contract) : Type 0 where
  pub no_repeats : IsMap c'.accounts
  pub entry : Entry (ledger c) by (ledger c')

pub at :
    (by : Caller) (f : AccountId → Balance) (n : Balance) (c c' : Contract)
    → Books f n c c'
    → Entry (ledger c) by (record (ledger c) { balance = f; supply = n })
    → Enters by c c'
at by f n c c' b e = record {
  no_repeats = b.no_repeats;
  entry = subst (Entry (ledger c) by) (Books-ledger f n c c' b) e;
}

pub mints-Enters :
    (by r : AccountId) (x : Balance) (c : Contract) {c' : Contract}
    → IsMap c.accounts
    → contains c.minters by ≡ true
    → mint r x c ≡ ok c'
    → Enters (account by) c c'
unfolding ledger
mints-Enters by r x c {c'} m right e =
    at (account by) _ _ c c' (mint-Books r x c m e) (Entry.minted by r x right)

pub burns-Enters :
    (by a : AccountId) (x : Balance) (c : Contract) {c' : Contract}
    → IsMap c.accounts
    → (a ≡ by) ⊎ (by ≡ c.owner_id)
    → internal_burn a x c ≡ ok c'
    → Enters (account by) c c'
unfolding ledger
burns-Enters by a x c {c'} m right e =
    let (held, covered, b) = internal_burn-Books a x c m e in
    at (account by) _ _ c c' b (Entry.burned by a x right held covered)

pub transfers-Enters :
    (env : Env) (by r : AccountId) (x : Balance) (c : Contract) {c' : Contract}
    → IsMap c.accounts
    → internal_transfer env by r x c ≡ ok c'
    → Enters (account by) c c'
unfolding ledger
transfers-Enters env by r x c {c'} m e =
    let (ne, held, b) = internal_transfer-Books env by r x c m e in
    at (account by) _ _ c c' b (Entry.moved by r x ne held)

pub Refund-Enters : (s r : AccountId) (c c' : Contract) → Refund s r c c' → Enters callback c c'
unfolding ledger
Refund-Enters s r c c' (x, held, inl b) = at callback _ _ c c' b (Entry.returned s r x held)
Refund-Enters s r c c' (x, held, inr (covered, b)) =
    at callback _ _ c c' b (Entry.lost r x held covered)

-- The owner's calls, and those that touch neither accounts nor supply.
pub governs-Enters :
    (by : AccountId) (c c' : Contract)
    → IsMap c.accounts
    → by ≡ c.owner_id
    → c'.accounts ≡ c.accounts
    → c'.total_supply ≡ c.total_supply
    → Enters (account by) c c'
unfolding ledger balance_of
governs-Enters by c c' m right same supply = record {
  no_repeats = subst IsMap (sym same) m;
  entry =
      subst (Entry (ledger c) (account by))
        (Ledger-eq _ _ (λ a. ground (arith, same)) (sym supply) (λ a. refl) refl)
        (Entry.governed by (λ a. contains c'.minters a) c'.owner_id right);
}

-- The schedules are no part of the ledger.
pub vested-Enters :
    (by : Caller) (c c₁ c' : Contract)
    → Enters by c c₁
    → c' ≡ record c₁ { vested = c'.vested }
    → Enters by c c'
unfolding ledger balance_of
vested-Enters by c c₁ c' h e =
    subst (Enters by c) (sym e) (record { no_repeats = h.no_repeats; entry = h.entry })

pub mint_vested-Enters :
    (env : Env) (r : AccountId) (x : Balance) (start end : ℕ) (c : Contract) {c' : Contract}
    → IsMap c.accounts
    → mint_vested env r x start end c ≡ ok c'
    → Enters (account env.predecessor_account_id) c c'
unfolding mint_vested ft_mint
mint_vested-Enters env r x start end c {c'} m e = elim (Result-cases (mint r x c)) [
  | inl (c₁, went) ↦
      vested-Enters _ c c₁ c' (mints-Enters env.predecessor_account_id r x c m (ground arith) went)
        (ground arith)
  | inr (msg, refused) ↦ absurd (ground arith)
]

pub cancel_vesting-Enters :
    (env : Env) (a : AccountId) (c : Contract) {c' : Contract}
    → IsMap c.accounts
    → cancel_vesting env a c ≡ ok c'
    → Enters (account env.predecessor_account_id) c c'
unfolding cancel_vesting
cancel_vesting-Enters env a c {c'} m e = elim (Option-cases (get a c.vested)) [
  | inl missing ↦ absurd (ground arith)
  | inr (v, found) ↦ elim (Result-cases (internal_burn a v.amount c)) [
    | inl (c₁, went) ↦
        vested-Enters _ c c₁ c'
          (burns-Enters env.predecessor_account_id a v.amount c m (inr (ground arith)) went)
          (ground arith)
    | inr (msg, refused) ↦ absurd (ground arith)
  ]
]
