-- ===== src/P3Farm/Deposits.antt =====
-- The deposits of the setup.
use cheddar.Prelude.{
  ℕ, zero, suc, ◌+◌, ◌/◌, ◌<◌, ◌≡◌, ◌≢◌, refl, true, false, length, not, ◌==◌, Result-cases, List,
  [], ◌∷◌, get_elem?, get_elem?-set, set, String, ok, panic, arith, Ensures, Ensures-bind, assert,
  some, inl, inr,
}
use cheddar.Prelude.Words.{checked_sub}
use cheddar.Near.{Env, AccountId, Balance}
use cheddar.P3Lib.{second, index, find_acc_idx}
use cheddar.P3Farm.State.{Contract}
use cheddar.P3Farm.Setup.{setup_deposit, expected_deposit, all_deposited, finalize_setup}

-- A deposit for the rewards is accepted for a farm token without one, in the expected amount.
abbrev pub Deposited : AccountId → Balance → Contract → Contract → Type 0
Deposited token x c d =
    (i : ℕ) × (rate : ℕ) × (find_acc_idx token c.farm_tokens ≡ ok i)
    × (get_elem? c.farm_token_rates i ≡ some rate)
    × (expected_deposit c rate ≡ ok x)
    × (get_elem? c.farm_deposits i ≡ some 0)
    × (d.farm_deposits ≡ set c.farm_deposits i x)
    × (c.setup_finalized ≡ false)

-- A deposit that is accepted comes before the end of the setup, for a farm token that has none yet, in
-- exactly the amount that all rounds emit of it; it is recorded for that token and no other.
pub setup_deposit-Deposited :
    (token : AccountId) (x : Balance) (c : Contract)
    → Ensures (Deposited token x c) (setup_deposit token x c)
unfolding setup_deposit index
setup_deposit-Deposited token x c =
    Ensures-bind (Deposited token x c)
      (assert (not c.setup_finalized)
        "setup deposits must be done when contract setup is not finalized")
      _
      λ _ opened. Ensures-bind (Deposited token x c) (find_acc_idx token c.farm_tokens) _ λ i at_i.
        Ensures-bind (Deposited token x c) (index c.farm_token_rates i) _ λ rate rate_is.
          Ensures-bind (Deposited token x c) (expected_deposit c rate) _ λ expected expected_is.
            Ensures-bind (Deposited token x c) (index c.farm_deposits i) _ λ deposit deposit_is.
              Ensures-bind (Deposited token x c)
                (assert (deposit == 0) "deposit already done for the given token") _
                λ _ none_yet.
                  Ensures-bind (Deposited token x c)
                    (assert (x == expected) "Expected deposit for token {} is {}, got {}") _
                    λ _ exact.
                      (i, rate, at_i, ground arith, ground arith, ground arith, refl, ground arith)

-- A second deposit of a token panics, whatever its amount.
pub setup_deposit-once :
    (token : AccountId) (x y : Balance) (c : Contract) {c' : Contract}
    → setup_deposit token x c ≡ ok c'
    → 0 < x
    → (m : String) × (setup_deposit token y c' ≡ panic m)
unfolding setup_deposit index
setup_deposit-once token x y c {c'} e positive = elim (Result-cases (setup_deposit token y c')) [
  | inr refused ↦ refused
  | inl (d, accepted) ↦ absurd (grind (arith, get_elem?-set))
]

all_deposited-nonzero : (xs : List ℕ) (i : ℕ) → all_deposited xs ≡ ok tt → get_elem? xs i ≢ some 0
unfolding all_deposited
all_deposited-nonzero [] i e h = ground arith
all_deposited-nonzero (x ∷ xs) zero e h = ground arith
all_deposited-nonzero (x ∷ xs) (suc i) e h = ground (arith, all_deposited-nonzero xs i)

-- Two lists of one length have the same indices.
same_range :
    (i : ℕ) (xs ys : List ℕ) {x : ℕ}
    → length xs ≡ length ys
    → get_elem? xs i ≡ some x
    → (y : ℕ) × (get_elem? ys i ≡ some y)
same_range i [] ys same there = absurd (ground arith)
same_range i (x ∷ xs) [] same there = absurd (ground arith)
same_range zero (x ∷ xs) (y ∷ ys) same there = (y, refl)
same_range (suc i) (z ∷ xs) (y ∷ ys) {x} same there =
    same_range i xs ys {x = x} (ground arith) (ground arith)

-- The setup ends once only, more than a round (60 seconds) before the start of the farming. On a farm that
-- keeps one deposit for each farm token, every farm token has a deposit above zero then; the deposits
-- and the farm tokens stay as they were.
pub finalize_setup-guarded :
    (env : Env) (i : ℕ) (token : AccountId) (c : Contract) {c' : Contract}
    → length c.farm_tokens ≡ length c.farm_deposits
    → get_elem? c.farm_tokens i ≡ some token
    → finalize_setup env c ≡ ok c'
    → (c.setup_finalized ≡ false)
      × (c'.setup_finalized ≡ true)
      × (env.block_timestamp / second + 60 < c.farming_start)
      × (c'.farm_tokens ≡ c.farm_tokens)
      × (c'.farm_deposits ≡ c.farm_deposits)
      × ((x : Balance) × (get_elem? c'.farm_deposits i ≡ some x) × (0 < x))
unfolding finalize_setup checked_sub
finalize_setup-guarded env i token c {c'} one_each at_i e =
    let (x, there) = same_range i c.farm_tokens c.farm_deposits one_each at_i in
    let paid = all_deposited-nonzero c.farm_deposits i in
    (
      ground arith,
      ground arith,
      ground arith,
      ground arith,
      ground arith,
      (x, ground (arith, there), ground (arith, there, paid)),
    )
