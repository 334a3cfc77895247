-- ===== src/Cheddar/Refunds.antt =====
-- The resolution of ft_transfer_call: what goes back to the sender (cheddar/src/internal.rs).
use native.Mathlib.Decide.{dec_lt}
use cheddar.Prelude.{
  ℕ, ◌+◌, ◌-◌, ◌≤◌, ◌≡◌, ◌≢◌, min, Option, none, some, List, ok, arith, get_elem?, Option-cases,
  inl, inr, ◌⊎◌, refl, if◌then◌else◌, ◌==◌,
}
use cheddar.Prelude.Words.{add_u128, fit, checked_sub}
use cheddar.Near.{Env, AccountId, Balance, PromiseResult, not_ready, failed, successful}
use cheddar.Near.LookupMap.{LookupMap, get, insert, get-insert, weight-add-le, weight-le}
use cheddar.Cheddar.{Contract, AccBalance}
use cheddar.Cheddar.Internal.{put_account}
use cheddar.Cheddar.Methods.{ft_resolve_transfer_adjust, refund_unused, unused_amount}
use cheddar.Cheddar.Supply.{IsBalanced, token_of}
use cheddar.Cheddar.Transfers.{Holds}

-- What the receiver's answer says it did not use, read off the chain's result.
module _ (from_slice : List ℕ → Option Balance) where
  abbrev pub Answer : Env → Balance → Balance → Type 0
  Answer env amount unused =
      unused_amount from_slice amount (get_elem? env.promise_results 0) ≡ ok unused

  pub unused_amount-le :
      (amount : Balance) (p : Option PromiseResult) {u : Balance}
      → unused_amount from_slice amount p ≡ ok u
      → u ≤ amount
  unfolding unused_amount
  unused_amount-le amount none e = cc
  unused_amount-le amount (some not_ready) e = cc
  unused_amount-le amount (some failed) e = ground arith
  unused_amount-le amount (some (successful b)) e = ground arith

  -- What the sender's side sees: its account credited, or the refund burned if it is gone.
  abbrev pub Refunded : AccountId → Balance → Balance → Contract → Contract → Type 0
  Refunded s back burned c c' =
      ((sb : AccBalance) × Holds c s sb
        × Holds c' s (record sb { token = sb.token + back })
        × (burned ≡ 0))
      ⊎ ((get s c.accounts ≡ none) × (burned ≡ back))

  pub record Resolved (s r : AccountId) (amount unused : Balance) (ab : AccBalance) (c : Contract)
      (used burned : Balance) (c' : Contract) : Type 0 where
    pub split : used + min ab.token unused ≡ amount
    pub receiver : Holds c' r (record ab { token = ab.token - min ab.token unused })
    pub sender : Refunded s (min ab.token unused) burned c c'
    pub supply : c'.total_supply + burned ≡ c.total_supply
    pub others : (a : AccountId) → a ≢ s → a ≢ r → get a c'.accounts ≡ get a c.accounts

  -- however the refund ends
  refund_unused-Resolved :
      (s r : AccountId) (amount unused : Balance) (ab : AccBalance) (c : Contract)
      → IsBalanced c
      → s ≢ r
      → Holds c r ab
      → unused ≤ amount
      → (c' : Contract) × (used : Balance) × (burned : Balance) × (refund_unused from_slice r ab s
            amount unused c
          ≡ ok (c', used, burned))
        × Resolved s r amount unused ab c used burned c'
  unfolding refund_unused put_account checked_sub add_u128 fit
  refund_unused-Resolved s r amount unused ab c h ne found le =
      elim (Option-cases (get s c.accounts)) [
        | inl gone ↦ (
          record c { accounts = taken; total_supply = c.total_supply - back },
          amount - back,
          back,
          ground (arith, look s, weight-le token_of r c.accounts),
          record {
            split = omega arith;
            receiver = ground (arith, look r);
            sender = inr (gone, refl);
            supply = ground (arith, weight-le token_of r c.accounts);
            others = λ a p q. ground (arith, look a);
          },
        )
        | inr (sb, there) ↦
            let paid = record sb { token = sb.token + back } in
            (
              record c { accounts = insert s paid taken },
              amount - back,
              0,
              ground (arith, look s, weight-add-le token_of s r c.accounts ne),
              record {
                split = omega arith;
                receiver = ground (arith, look r, get-insert r s paid taken);
                sender = inl (sb, there, ground (arith, get-insert s s paid taken), refl);
                supply = omega arith;
                others = λ a p q. ground (arith, look a, get-insert a s paid taken);
              },
            )
      ]
    where
      back : Balance
      back = min ab.token unused

      taken : LookupMap AccBalance
      taken = insert r (record ab { token = ab.token - back }) c.accounts

      look :
          (a : AccountId)
          → get a taken
            ≡ (if a == r then some (record ab { token = ab.token - back }) else get a c.accounts)
      look a = get-insert a r (record ab { token = ab.token - back }) c.accounts

  nothing_unused-Resolved :
      (s r : AccountId) (amount unused : Balance) (ab : AccBalance) (c : Contract)
      → Holds c r ab
      → min ab.token unused ≡ 0
      → Resolved s r amount unused ab c amount 0 c
  nothing_unused-Resolved s r amount unused ab c found zero = record {
    split = omega arith;
    receiver = ground arith;
    sender = elim (Option-cases (get s c.accounts)) [
      | inl gone ↦ inr (gone, omega arith)
      | inr (sb, there) ↦ inl (sb, there, ground arith, refl)
    ];
    supply = omega arith;
    others = λ a p q. refl;
  }

  -- The resolution of a transfer call, once the receiver has answered and while the receiver is
  -- registered, always returns. Of the amount, the unused part goes back as far as the receiver
  -- still has it: the receiver loses it, a registered sender gets it, and if the sender is gone it
  -- is burned. The rest counts as used. No other account changes.
  pub ft_resolve_transfer_adjust-Resolved :
      (env : Env) (s r : AccountId) (amount unused : Balance) (ab : AccBalance) (c : Contract)
      → IsBalanced c
      → s ≢ r
      → Holds c r ab
      → Answer env amount unused
      → (c' : Contract) × (used : Balance) × (burned : Balance) × (ft_resolve_transfer_adjust
            from_slice env s r amount c
          ≡ ok (c', used, burned))
        × Resolved s r amount unused ab c used burned c'
  unfolding ft_resolve_transfer_adjust
  ft_resolve_transfer_adjust-Resolved env s r amount unused ab c h ne found answer =
      let le = unused_amount-le amount (get_elem? env.promise_results 0) answer in
      let (c', used, burned, went, done) =
        refund_unused-Resolved s r amount unused ab c h ne found le in
      elim (dec_lt 0 (min ab.token unused)) [
        | yes some_back ↦ (c', used, burned, ground arith, done)
        | no none_back ↦ (
          c,
          amount,
          0,
          ground arith,
          nothing_unused-Resolved s r amount unused ab c found (omega arith),
        )
      ]
