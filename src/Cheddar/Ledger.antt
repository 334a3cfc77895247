-- ===== src/Cheddar/Ledger.antt =====
-- The token as a ledger, without its storage (cheddar/src/lib.rs, internal.rs, storage.rs): what every
-- account holds, what there is, who may mint and who owns the contract, and what a call may enter.
pub mod Effects
pub mod Calls
pub mod Refines
use cheddar.Prelude.{◌+◌, ◌-◌, ◌≤◌, ◌≡◌, ◌≢◌, Bool, true, ◌==◌, if◌then◌else◌, ◌⊎◌, List, [], ◌∷◌}
use cheddar.Near.{AccountId, Balance}

pub record Ledger : Type 0 where
  pub balance : AccountId → Balance
  pub supply : Balance
  pub minter : AccountId → Bool
  pub owner : AccountId

-- Two ledgers are one where they say the same of every account.
pub Ledger-eq :
    (l l' : Ledger)
    → ((a : AccountId) → l.balance a ≡ l'.balance a)
    → l.supply ≡ l'.supply
    → ((a : AccountId) → l.minter a ≡ l'.minter a)
    → l.owner ≡ l'.owner
    → l ≡ l'
Ledger-eq l l' b s m o =
    λ i. record { balance = λ a. b a i; supply = s i; minter = λ a. m a i; owner = o i }

-- A call comes from an account, or from the contract itself, as the callback of a transfer call.
pub data Caller : Type 0 where
  account : AccountId → Caller
  callback : Caller

abbrev pub give : AccountId → Balance → (AccountId → Balance) → AccountId → Balance
give r x f a = if a == r then f a + x else f a

abbrev pub take : AccountId → Balance → (AccountId → Balance) → AccountId → Balance
take s x f a = if a == s then f a - x else f a

-- What a call may do to the ledger: nothing; as the owner, change the owner or the minters; as a
-- minter, create tokens; destroy tokens of the caller, or as the owner of any account; move tokens of
-- the caller; and as the callback, send tokens back or destroy them where the sender is gone.
pub data Entry (l : Ledger) : Caller → Ledger → Type 0 where
  kept : (by : Caller) → Entry l by l
  governed :
      (by : AccountId) (minter : AccountId → Bool) (owner : AccountId)
      → by ≡ l.owner
      → Entry l (account by) (record l { minter = minter; owner = owner })
  minted :
      (by r : AccountId) (x : Balance)
      → l.minter by ≡ true
      → Entry l (account by) (record l { balance = give r x l.balance; supply = l.supply + x })
  burned :
      (by a : AccountId) (x : Balance)
      → (a ≡ by) ⊎ (by ≡ l.owner)
      → x ≤ l.balance a
      → x ≤ l.supply
      → Entry l (account by) (record l { balance = take a x l.balance; supply = l.supply - x })
  moved :
      (by r : AccountId) (x : Balance)
      → by ≢ r
      → x ≤ l.balance by
      → Entry l (account by) (record l { balance = give r x (take by x l.balance) })
  returned :
      (s r : AccountId) (x : Balance)
      → x ≤ l.balance r
      → Entry l callback (record l { balance = give s x (take r x l.balance) })
  lost :
      (r : AccountId) (x : Balance)
      → x ≤ l.balance r
      → x ≤ l.supply
      → Entry l callback (record l { balance = take r x l.balance; supply = l.supply - x })

-- The entries of a sequence of calls, with who made each, the last first.
pub data Log (l : Ledger) : List Caller → Ledger → Type 0 where
  opened : Log l [] l
  entered :
      {l₁ l₂ : Ledger} {by : Caller} {bys : List Caller}
      → Log l bys l₁
      → Entry l₁ by l₂
      → Log l (by ∷ bys) l₂
