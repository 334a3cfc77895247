-- ===== src/P3Farm/Emission/Crops.antt =====
-- The promises of a harvest (p3-farm/src/lib.rs) against the units that it pays.
use cheddar.Prelude.{
  ℕ, zero, suc, ◌+◌, ◌*◌, ◌/◌, ◌≡◌, List, [], ◌∷◌, ◌++◌, ok, arith, Ensures, Ensures-bind,
  Ensures-at, Ensures-if, Ensures-intro, length, refl, Result-cases, inl, inr, ◌==◌, if◌then◌else◌,
}
use cheddar.Prelude.Words.{mul_u256, checked_div, as_u128, fit}
use cheddar.Near.{AccountId, Balance}
use cheddar.P3Lib.{near, index, safe_mul, e24}
use cheddar.P3Farm.State.{Contract, Promise, transfer, ft_transfer, farmed_sent}
use cheddar.P3Farm.Transfers.{transfer_farmed_tokens, withdraw_crop_from, send_crop}

-- What farmed units are worth at a rate, rounded down.
abbrev pub worth : Balance → ℕ → Balance
worth x rate = x * rate / e24

pub safe_mul-worth : (x rate : ℕ) {y : Balance} → safe_mul x rate ≡ ok y → y ≡ worth x rate
unfolding safe_mul mul_u256 checked_div as_u128 fit
safe_mul-worth x rate {y} e = ground arith

-- The list from an index on.
unfoldable pub suffix : ℕ → List ℕ → List ℕ
suffix zero xs = xs
suffix (suc i) [] = []
suffix (suc i) (x ∷ xs) = suffix i xs

pub index-suffix :
    (i : ℕ) (xs : List ℕ) {x : ℕ} → index xs i ≡ ok x → suffix i xs ≡ x ∷ suffix (i + 1) xs
unfolding index suffix
index-suffix i [] e = absurd (ground arith)
index-suffix zero (y ∷ xs) e = ground arith
index-suffix (suc i) (y ∷ xs) {x} e = ground (arith, index-suffix i xs {x = x} (ground arith))

-- One farm token for those units: NEAR is sent as such, any other token with its callback.
abbrev pub payment : AccountId → ℕ → AccountId → Balance → Promise
payment a i token amount =
    if token == near then transfer a amount else ft_transfer token a amount (farmed_sent a i amount)

-- The units of a harvest in each farm token, at its rate.
unfoldable pub crop : AccountId → Balance → ℕ → List AccountId → List ℕ → List Promise
crop a x i (token ∷ tokens) (rate ∷ rates) =
    payment a i token (worth x rate) ∷ crop a x (i + 1) tokens rates
crop a x i _ _ = []

abbrev pub Pays : List Promise → Contract × List Promise → Type 0
Pays ps t = t.1 ≡ ps

transfer_farmed_tokens-payment :
    (a token : AccountId) (i : ℕ) (x : Balance) (c : Contract) (qs : List Promise) {d : Contract}
    {ps : List Promise}
    → transfer_farmed_tokens a i x c ≡ ok (d, ps)
    → index c.farm_tokens i ≡ ok token
    → (ps ++ qs ≡ payment a i token x ∷ qs)
      × (d.farm_token_rates ≡ c.farm_token_rates)
      × (d.farm_tokens ≡ c.farm_tokens)
unfolding transfer_farmed_tokens
transfer_farmed_tokens-payment a token i x c qs {d} {ps} e at_i = ground (arith, at_i)

crop_none :
    (a : AccountId) (x : Balance) (i : ℕ) (tokens : List AccountId) (rates : List ℕ)
    → 0 ≡ length tokens
    → [] ≡ crop a x i tokens rates
unfolding crop
crop_none a x i [] rates none = refl
crop_none a x i (t ∷ ts) rates none = absurd (ground arith)

withdraw_crop_from-Pays :
    (n i : ℕ) (a : AccountId) (x : Balance) (c : Contract)
    → n ≡ length (suffix i c.farm_tokens)
    → Ensures
        (Pays (crop a x i (suffix i c.farm_tokens) (suffix i c.farm_token_rates)))
        (withdraw_crop_from n i a x c)
unfolding withdraw_crop_from crop transfer_farmed_tokens
withdraw_crop_from-Pays zero i a x c many = crop_none a x i _ _ many
withdraw_crop_from-Pays (suc n) i a x c many =
    let P = Pays (crop a x i (suffix i c.farm_tokens) (suffix i c.farm_token_rates)) in
    Ensures-bind P (index c.farm_token_rates i) _ λ rate read.
      Ensures-bind P (safe_mul x rate) _ λ amount is_worth.
        Ensures-bind P (transfer_farmed_tokens a i amount c) _ λ (c1, ps) sent.
          Ensures-bind P (withdraw_crop_from n (i + 1) a x c1) _ λ (c2, qs) rest.
            elim (Result-cases (index c.farm_tokens i)) [
              | inl (token, at_i) ↦
                  (let one = transfer_farmed_tokens-payment a token i amount c qs sent at_i in
                    let tokens = index-suffix i c.farm_tokens {x = token} at_i in
                    let others =
                      Ensures-at
                        (Pays (
                          crop a x (i + 1) (suffix (i + 1) c1.farm_tokens)
                            (suffix (i + 1) c1.farm_token_rates)))
                        _
                        (withdraw_crop_from-Pays n (i + 1) a x c1
                          (ground (arith, many, tokens, one)))
                        rest in
                    ground (
                      arith,
                      one,
                      tokens,
                      index-suffix i c.farm_token_rates {x = rate} read,
                      safe_mul-worth x rate is_worth,
                      others,
                    ))
              | inr (m, missing) ↦ absurd (ground (arith, sent, missing))
            ]

-- The units are sent once in every farm token, if there are any.
pub send_crop-Pays :
    (a : AccountId) (x : Balance) (c : Contract)
    → Ensures
        (Pays (if x == 0 then [] else crop a x 0 c.farm_tokens c.farm_token_rates))
        (send_crop a x c)
unfolding send_crop suffix
send_crop-Pays a x c =
    let P = Pays (if x == 0 then [] else crop a x 0 c.farm_tokens c.farm_token_rates) in
    Ensures-if P (x == 0) _ _ (λ none. ground (arith, none))
      (λ some. Ensures-intro P _ λ t e. ground (
        arith,
        some,
        Ensures-at (Pays (crop a x 0 c.farm_tokens c.farm_token_rates)) _
            (withdraw_crop_from-Pays (length c.farm_tokens) 0 a x c refl) e,
      ))
