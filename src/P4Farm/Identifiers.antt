-- ===== src/P4Farm/Identifiers.antt =====
-- NFT identifiers and the other helpers of the P4 farm (p4-farm-nft/src/helpers.rs).
use Prim.Native.Char.{Char, code}
use Prim.Native.String.{char_at, ◌++◌}
use text.Mathlib.Text.{◌==◌ as str_eq}
use cheddar.Prelude.{
  ℕ, zero, suc, ◌+◌, ◌-◌, ◌*◌, ◌/◌, ◌%◌, ◌^◌, Bool, true, false, String, List, [], ◌∷◌, Option,
  none, some, Result, ok, panic, ◌>>=◌, ◌>>◌, assert, expect, ltb, ◌==◌, if◌then◌else◌, length,
  get_elem?,
}
use cheddar.Prelude.Words.{u128_limit, fit, mul_u128}
use cheddar.Near.{Env, AccountId, Balance, not_ready, failed, successful}
use cheddar.P3Lib.{e24, safe_mul}
use cheddar.P4Farm.State.{TokenId, ParseAccount}

-- The contract is built for wasm32, where a `usize` has 32 bits.
abbrev pub usize_limit : ℕ
usize_limit = 2 ^ 32

unfoldable pub add_usize : ℕ → ℕ → Result ℕ
add_usize a b = fit usize_limit "attempt to add with overflow" (a + b)

abbrev pub nft_units_max_transfer_num : ℕ
nft_units_max_transfer_num = 5

-- `String::is_empty`
unfoldable pub is_empty : String → Bool
is_empty String.[] = true
is_empty (String.◌∷◌ c s) = false

-- The parts of a split text, with a character put before the first.
abbrev pub onto_first : Char → List String → List String
onto_first c [] = String.◌∷◌ c String.[] ∷ []
onto_first c (part ∷ parts) = String.◌∷◌ c part ∷ parts

-- `s.split("@")`
unfoldable pub split_at_delimiter : String → List String
split_at_delimiter String.[] = String.[] ∷ []
split_at_delimiter (String.◌∷◌ c s) =
    let rest = split_at_delimiter s in
    if code c == b'@' then String.[] ∷ rest else onto_first c rest

-- `Display` of a `usize`, with at most that many digits.
unfoldable pub decimal_from : ℕ → ℕ → String
decimal_from zero n = String.[]
decimal_from (suc digits) n =
    let higher = decimal_from digits (n / 10) in
    let last = String.◌∷◌ (char_at "0123456789" (n % 10)) String.[] in
    if ltb n 10 then last else higher ++ last

-- A number below 2 ^ 32 has at most ten digits.
unfoldable pub decimal : ℕ → String
unfolding decimal_from
decimal n = decimal_from 10 n

-- `format!("{}{}{}", contract, NFT_DELIMETER, token_id)`
unfoldable pub join_ids : String → TokenId → String
join_ids contract token_id = contract ++ ("@" ++ token_id)

-- The number of Cheddar that one more NFT needs.
unfoldable pub expected_cheddar_stake : ℕ → Balance → Result Balance
unfolding add_usize
expected_cheddar_stake num_nfts cheddar_rate = do
  expected_num_nfts ← add_usize num_nfts 1
  fit u128_limit "Math overflow while computing expected Cheddar stake"
      (expected_num_nfts * cheddar_rate)

abbrev next_index : Option ℕ → Option ℕ
next_index none = none
next_index (some i) = some (suc i)

-- `iter().position(|x| x == token)`
unfoldable pub token_position : TokenId → List TokenId → Option ℕ
token_position token [] = none
token_position token (x ∷ xs) =
    if str_eq x token then some 0 else next_index (token_position token xs)

unfoldable pub find_token_idx : TokenId → List TokenId → Result ℕ
unfolding token_position
find_token_idx token token_v = expect (token_position token token_v) "invalid token"

-- The two parts, with the first one parsed.
abbrev pub two_parts : ParseAccount → List String → Result (AccountId × TokenId)
two_parts parse (contract ∷ token_id ∷ []) = do
  nft_contract_id ← expect (parse contract) "called `Result::unwrap()` on an `Err` value"
  ok (nft_contract_id, token_id)
two_parts parse _ = panic "expected 'contract_id@token_id' pair"

unfoldable pub extract_contract_token_ids : ParseAccount → String → Result (AccountId × TokenId)
unfolding split_at_delimiter
extract_contract_token_ids parse ids = two_parts parse (split_at_delimiter ids)

-- `for (i, rate) in stake_rates.iter().enumerate()`, with the least value so far.
unfoldable pub min_stake_from : Balance → List (List TokenId) → List ℕ → Result Balance
min_stake_from least staked [] = ok least
min_stake_from least [] (rate ∷ rates) = panic "index out of bounds"
min_stake_from least (x ∷ xs) (rate ∷ rates) = do
  staked_tokens ← mul_u128 (length x) e24
  s ← safe_mul staked_tokens rate
  min_stake_from (if ltb s least then s else least) xs rates

unfoldable pub min_stake : List (List TokenId) → List ℕ → Result Balance
unfolding min_stake_from
min_stake staked stake_rates = min_stake_from (u128_limit - 1) staked stake_rates

unfoldable pub check_all_empty : List (List TokenId) → Bool
check_all_empty [] = true
check_all_empty ([] ∷ xs) = check_all_empty xs
check_all_empty ((t ∷ ts) ∷ xs) = false

unfoldable pub promise_result_as_failed : Env → Result Bool
promise_result_as_failed env = do
  assert (length env.promise_results == 1) "Contract expected a result on the callback"
  elim (get_elem? env.promise_results 0) [
    | none ↦ panic "promise result index out of bounds"
    | some result ↦ elim result [
      | failed ↦ ok true
      | not_ready ↦ ok false
      | successful _ ↦ ok false
    ]
  ]
