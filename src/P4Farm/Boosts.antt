-- ===== src/P4Farm/Boosts.antt =====
-- The identifiers of boost NFTs, and what becomes of them when they are staked
-- (p4-farm-nft/src/helpers.rs, vault.rs).
use Prim.Native.Char.{code}
use Prim.Native.String.{count, ◌++◌}
use text.Mathlib.TextLemmas.{nil-append, cons-append}
use cheddar.Prelude.{
  ℕ, zero, suc, ◌≤◌, ◌<◌, ◌≡◌, ◌≢◌, refl, Bool, true, false, ◌||◌, String, List, [], ◌∷◌, length,
  none, some, ok, panic, arith, ◌==◌, if◌then◌else◌, Ensures-bind, Ensures-at, Ensures-if,
  Option-cases, Bool-cases, Result-cases, inl, inr,
}
use cheddar.Near.{Env, AccountId}
use cheddar.P3Lib.{find_acc_idx, position, add_at}
use cheddar.P4Farm.State.{TokenId, ParseAccount, Vault, Contract}
use cheddar.P4Farm.Identifiers.{
  is_empty, min_stake, split_at_delimiter, two_parts, decimal, decimal_from, join_ids,
  extract_contract_token_ids,
}
use cheddar.P4Farm.Rewards.{get_vault, ping_all, recompute_stake, stake_units}
use cheddar.P4Farm.Staking.{put_boost, boost_stake}

-- The text has an "@".
unfoldable pub has_delimiter : String → Bool
has_delimiter String.[] = false
has_delimiter (String.◌∷◌ c s) = code c == b'@' || has_delimiter s

-- The part before the first "@" of a joined pair is the contract.
split-join_ids :
    (k : String) (t : TokenId)
    → has_delimiter k ≡ false
    → split_at_delimiter (join_ids k t) ≡ k ∷ split_at_delimiter t
unfolding has_delimiter split_at_delimiter join_ids
split-join_ids String.[] t plain =
    rw (nil-append ("@" ++ t)) (rw (cons-append _ "" t) (rw (nil-append t)))
split-join_ids (String.◌∷◌ c s) t plain =
    rw (cons-append c s ("@" ++ t)) (ground (arith, split-join_ids s t))

split-plain : (t : TokenId) → has_delimiter t ≡ false → split_at_delimiter t ≡ t ∷ []
unfolding has_delimiter split_at_delimiter
split-plain String.[] plain = refl
split-plain (String.◌∷◌ c s) plain = ground (arith, split-plain s)

-- A text has at least one part, and at least two with an "@".
split-some : (t : TokenId) → (x : String) × (r : List String) × (split_at_delimiter t ≡ x ∷ r)
unfolding split_at_delimiter
split-some String.[] = ("", [], refl)
split-some (String.◌∷◌ c s) = elim (Bool-cases (code c == b'@')) [
  | inl here ↦ ("", split_at_delimiter s, rw here)
  | inr there ↦ let (x, r, e) = split-some s in (String.◌∷◌ c x, r, rw there (rw e))
]

split-delimited :
    (t : TokenId)
    → has_delimiter t ≡ true
    → (x : String) × (y : String) × (r : List String) × (split_at_delimiter t ≡ x ∷ (y ∷ r))
unfolding has_delimiter split_at_delimiter
split-delimited String.[] found = absurd (ground (arith, found))
split-delimited (String.◌∷◌ c s) found = elim (Bool-cases (code c == b'@')) [
  | inl here ↦ let (x, r, e) = split-some s in ("", x, r, rw here (rw e))
  | inr there ↦
      let (x, y, r, e) = split-delimited s (ground (arith, found)) in
      (String.◌∷◌ c x, y, r, rw there (rw e))
]

-- For a contract text without "@" that is parsed as an account: the pair that is joined from it and
-- a token is taken apart into that account and that token, unless the token has an "@", for which it
-- panics.
pub extract-join_ids :
    (parse : ParseAccount) (k : String) (t : TokenId) {a : AccountId}
    → has_delimiter k ≡ false
    → parse k ≡ some a
    → extract_contract_token_ids parse (join_ids k t)
      ≡ (if has_delimiter t then panic "expected 'contract_id@token_id' pair" else ok (a, t))
unfolding extract_contract_token_ids
extract-join_ids parse k t {a} plain parsed =
    rw (split-join_ids k t plain) (elim (Bool-cases (has_delimiter t)) [
      | inl found ↦ let (x, y, r, e) = split-delimited t found in rw found (rw e)
      | inr none_found ↦ rw none_found (rw (split-plain t none_found) (ground (arith, parsed)))
    ])

-- A number of one digit.
one_digit : (j : ℕ) → j < 10 → (has_delimiter (decimal j) ≡ false) × (count (decimal j) ≡ 1)
unfolding has_delimiter decimal decimal_from
one_digit zero h = (refl, refl)
one_digit (suc zero) h = (refl, refl)
one_digit (suc (suc zero)) h = (refl, refl)
one_digit (suc (suc (suc zero))) h = (refl, refl)
one_digit (suc (suc (suc (suc zero)))) h = (refl, refl)
one_digit (suc (suc (suc (suc (suc zero))))) h = (refl, refl)
one_digit (suc (suc (suc (suc (suc (suc zero)))))) h = (refl, refl)
one_digit (suc (suc (suc (suc (suc (suc (suc zero))))))) h = (refl, refl)
one_digit (suc (suc (suc (suc (suc (suc (suc (suc zero)))))))) h = (refl, refl)
one_digit (suc (suc (suc (suc (suc (suc (suc (suc (suc zero))))))))) h = (refl, refl)
one_digit (suc (suc (suc (suc (suc (suc (suc (suc (suc (suc j)))))))))) h = absurd (omega arith)

-- The index of a found account is below the length of the list.
pub find_acc_idx-lt :
    (a : AccountId) (xs : List AccountId) {j : ℕ} → find_acc_idx a xs ≡ ok j → j < length xs
unfolding find_acc_idx position
find_acc_idx-lt a [] {j} e = absurd (ground arith)
find_acc_idx-lt a (x ∷ xs) {j} e = elim (Option-cases (position a xs)) [
  | inl missing ↦ ground arith
  | inr (k, found) ↦ ground (arith, find_acc_idx-lt a xs {j = k})
]

-- Texts of accounts have two characters at least.
abbrev pub NeedsTwoCharacters : ParseAccount → Type 0
NeedsTwoCharacters parse = (s : String) → count s < 2 → parse s ≡ none

two_parts-unparsed :
    (parse : ParseAccount) (k : String) (xs : List String) {r : AccountId × TokenId}
    → parse k ≡ none
    → two_parts parse (k ∷ xs) ≢ ok r
two_parts-unparsed parse k [] {r} unparsed e = ground arith
two_parts-unparsed parse k (x ∷ []) {r} unparsed e = ground arith
two_parts-unparsed parse k (x ∷ (y ∷ ys)) {r} unparsed e = ground arith

extract-one_digit :
    (parse : ParseAccount) (j : ℕ) (t : TokenId) {r : AccountId × TokenId}
    → NeedsTwoCharacters parse
    → j < 10
    → extract_contract_token_ids parse (join_ids (decimal j) t) ≢ ok r
unfolding extract_contract_token_ids
extract-one_digit parse j t {r} needs small e =
    let (plain, one) = one_digit j small in
    two_parts-unparsed parse (decimal j) (split_at_delimiter t) {r = r}
      (needs (decimal j) (omega (arith, one))) (rw (← split-join_ids (decimal j) t plain) e)

joined-filled : (k : String) (t : TokenId) → is_empty (join_ids k t) ≡ false
unfolding is_empty join_ids
joined-filled String.[] t = rw (nil-append ("@" ++ t)) (rw (cons-append _ "" t))
joined-filled (String.◌∷◌ c s) t = rw (cons-append c s ("@" ++ t))

-- Units are counted for a boost NFT only if its pair is taken apart.
boosted-extracted :
    (parse : ParseAccount) (v : Vault) (c : Contract) {r : Vault × Contract}
    → is_empty v.boost_nft ≡ false
    → recompute_stake parse v c ≡ ok r
    → (ids : AccountId × TokenId) × (extract_contract_token_ids parse v.boost_nft ≡ ok ids)
unfolding recompute_stake stake_units
boosted-extracted parse v c {r} filled e =
    elim (Result-cases (extract_contract_token_ids parse v.boost_nft)) [
      | inl known ↦ known
      | inr (m, refused) ↦ elim (Result-cases (min_stake v.staked c.stake_rates)) [
        | inl (s, counted) ↦ absurd (ground arith)
        | inr (m, uncounted) ↦ absurd (ground arith)
      ]
    ]

-- In a farm of at most ten boost contracts, with identifiers of at least two characters: boost_stake
-- panics, or refuses the NFT and changes nothing. No boost NFT is ever accepted.
pub boost_stake-Refused :
    (parse : ParseAccount) (env : Env) (a nft : AccountId) (t : TokenId) (c : Contract)
    {r : Contract × Bool}
    → NeedsTwoCharacters parse
    → length c.boost_nft_contracts ≤ 10
    → boost_stake parse env a nft t c ≡ ok r
    → r ≡ (c, false)
unfolding boost_stake put_boost
boost_stake-Refused parse env a nft t c {r} needs few e =
    let P : Contract × Bool → Type 0 = λ q. q ≡ (c, false) in
    Ensures-at P _
      (Ensures-bind P (find_acc_idx nft c.boost_nft_contracts) _ λ j at.
        Ensures-bind P (get_vault c a) _ λ v _.
          Ensures-if P (is_empty v.boost_nft) _ _
            (λ _. Ensures-bind P (ping_all env v c) _ λ (v1, c1) _.
              Ensures-bind P (add_at c1.total_boost j 1) _ λ total _.
                Ensures-bind P
                  (recompute_stake parse (record v1 { boost_nft = join_ids (decimal j) t })
                    (record c1 { total_boost = total }))
                  _
                  λ _ counted.
                    let (ids, known) =
                      boosted-extracted parse _ _ (joined-filled (decimal j) t) counted in
                    let bound = find_acc_idx-lt nft c.boost_nft_contracts at in
                    absurd (extract-one_digit parse j t needs (omega (arith, bound, few)) known))
            (λ _. refl))
      e
