-- ===== src/Cheddar/Ledger/Refines.antt =====
-- The token contract (cheddar/src/lib.rs, storage.rs) as an implementation of the ledger: who makes each
-- call, and what the calls enter.
use cheddar.Prelude.{
  ℕ, ◌<◌, ◌≡◌, refl, sym, subst, Bool, Option, List, [], ◌∷◌, String, ok, arith, inl, inr, ◌⊎◌,
  ◌==◌, Result-cases,
}
use cheddar.Near.{Env, AccountId, Balance}
use cheddar.Near.LookupMap.{get, IsMap}
use cheddar.Cheddar.{Contract, Metadata}
use cheddar.Cheddar.Internal.{balance_of, contains}
use cheddar.Cheddar.Methods.{
  new, ft_mint, self_burn, add_minter, remove_minter, set_metadata_icon, set_metadata_reference,
  set_owner, ft_transfer, ft_transfer_call, ft_resolve_transfer, ft_resolve_transfer_adjust,
}
use cheddar.Cheddar.History
use cheddar.Cheddar.Ledger.{Ledger, Ledger-eq, Caller, account, callback, Entry, Log}
use cheddar.Cheddar.Ledger.Effects.{
  ledger, storage_deposit-Books, storage_unregister-Books, ft_resolve_transfer_adjust-Refund,
}
use cheddar.Cheddar.Ledger.Calls.{
  Enters, at, mints-Enters, burns-Enters, transfers-Enters, Refund-Enters, governs-Enters,
  mint_vested-Enters, cancel_vesting-Enters,
}

Entry-loses :
    (l l' : Ledger) (by : Caller) (a : AccountId)
    → Entry l by l'
    → l'.balance a < l.balance a
    → (by ≡ account a) ⊎ (by ≡ account l.owner) ⊎ (by ≡ callback)
Entry-loses l l' _ a (Entry.kept by) less = absurd (omega arith)
Entry-loses l l' _ a (Entry.governed by m o right) less = absurd (omega arith)
Entry-loses l l' _ a (Entry.minted by r x right) less = ground arith
Entry-loses l l' _ a (Entry.burned by b x right held covered) less = ground arith
Entry-loses l l' _ a (Entry.moved by r x ne held) less = ground arith
Entry-loses l l' _ a (Entry.returned s r x held) less = inr (inr refl)
Entry-loses l l' _ a (Entry.lost r x held covered) less = inr (inr refl)

-- The ledger of a new token.
unfoldable pub opening : AccountId → Ledger
opening owner_id = record {
  balance = λ a. 0;
  supply = 0;
  minter = λ a. owner_id == a;
  owner = owner_id;
}

module _ (is_valid : Metadata → Bool) (from_slice : List ℕ → Option Balance) where
  -- Who makes the call. Only the contract itself may call the resolution of a transfer call.
  unfoldable pub caller : {c c' : Contract} → History.Step is_valid from_slice c c' → Caller
  caller (History.Step.mints env r x e) = account env.predecessor_account_id
  caller (History.Step.burns env x e) = account env.predecessor_account_id
  caller (History.Step.adds_minter env a e) = account env.predecessor_account_id
  caller (History.Step.removes_minter env a e) = account env.predecessor_account_id
  caller (History.Step.sets_icon env svg e) = account env.predecessor_account_id
  caller (History.Step.sets_reference env r k e) = account env.predecessor_account_id
  caller (History.Step.sets_owner env a e) = account env.predecessor_account_id
  caller (History.Step.mints_vested env r x s t e) = account env.predecessor_account_id
  caller (History.Step.cancels_vesting env a e) = account env.predecessor_account_id
  caller (History.Step.transfers env r x e) = account env.predecessor_account_id
  caller (History.Step.transfers_call env r x k p e) = account env.predecessor_account_id
  caller (History.Step.resolves env s r x u e) = callback
  caller (History.Step.deposits env who b p e) = account env.predecessor_account_id
  caller (History.Step.unregisters env force b p e) = account env.predecessor_account_id

  resolves-Enters :
      (env : Env) (s r : AccountId) (x : Balance) (c : Contract) {c' : Contract} {used : Balance}
      → IsMap c.accounts
      → ft_resolve_transfer from_slice env s r x c ≡ ok (c', used)
      → Enters callback c c'
  unfolding ft_resolve_transfer
  resolves-Enters env s r x c {c'} {used} m e =
      elim (Result-cases (ft_resolve_transfer_adjust from_slice env s r x c)) [
        | inl ((c₁, u, burned), went) ↦
            elim (ft_resolve_transfer_adjust-Refund from_slice env s r x c m went) [
              | inl nothing ↦
                  (let same : c ≡ c' = ground arith in
                    subst (Enters callback c) same
                      (record { no_repeats = m; entry = Entry.kept callback }))
              | inr refund ↦
                  (let same : c₁ ≡ c' = ground arith in
                    subst (Enters callback c) same (Refund-Enters s r c c₁ refund))
            ]
        | inr (msg, refused) ↦ absurd (ground arith)
      ]

  Step-Enters :
      {c c' : Contract} (s : History.Step is_valid from_slice c c')
      → IsMap c.accounts
      → Enters (caller s) c c'
  unfolding caller ft_mint self_burn add_minter remove_minter set_metadata_icon
      set_metadata_reference set_owner ft_transfer ft_transfer_call ledger
  Step-Enters {c} {c'} (History.Step.mints env r x e) m =
      mints-Enters env.predecessor_account_id r x c m (ground arith) (ground arith)
  Step-Enters {c} {c'} (History.Step.burns env x e) m =
      burns-Enters env.predecessor_account_id env.predecessor_account_id x c m (inl refl)
        (ground arith)
  Step-Enters {c} {c'} (History.Step.adds_minter env a e) m =
      governs-Enters _ c c' m (ground arith) (ground arith) (ground arith)
  Step-Enters {c} {c'} (History.Step.removes_minter env a e) m =
      governs-Enters _ c c' m (ground arith) (ground arith) (ground arith)
  Step-Enters {c} {c'} (History.Step.sets_icon env svg e) m =
      governs-Enters _ c c' m (ground arith) (ground arith) (ground arith)
  Step-Enters {c} {c'} (History.Step.sets_reference env r k e) m =
      governs-Enters _ c c' m (ground arith) (ground arith) (ground arith)
  Step-Enters {c} {c'} (History.Step.sets_owner env a e) m =
      governs-Enters _ c c' m (ground arith) (ground arith) (ground arith)
  Step-Enters {c} {c'} (History.Step.mints_vested env r x s t e) m =
      mint_vested-Enters env r x s t c m e
  Step-Enters {c} {c'} (History.Step.cancels_vesting env a e) m = cancel_vesting-Enters env a c m e
  Step-Enters {c} {c'} (History.Step.transfers env r x e) m =
      transfers-Enters env env.predecessor_account_id r x c m (ground arith)
  Step-Enters {c} {c'} (History.Step.transfers_call env r x k p e) m =
      transfers-Enters env env.predecessor_account_id r x c m (ground arith)
  Step-Enters {c} {c'} (History.Step.resolves env s r x u e) m = resolves-Enters env s r x c m e
  Step-Enters {c} {c'} (History.Step.deposits env who b p e) m =
      at _ _ _ c c' (storage_deposit-Books env who c m e) (Entry.kept _)
  Step-Enters {c} {c'} (History.Step.unregisters env force b p e) m =
      let (covered, books) = storage_unregister-Books env force c m e in
      at _ _ _ c c' books (
        Entry.burned env.predecessor_account_id env.predecessor_account_id _ (inl refl)
          (omega arith) covered)

  unfoldable pub callers : {c c' : Contract} → History.Reach is_valid from_slice c c' → List Caller
  callers History.Reach.here = []
  callers (History.Reach.next r s) = caller s ∷ callers r

  Reach-no_repeats :
      {c c' : Contract}
      → IsMap c.accounts
      → History.Reach is_valid from_slice c c'
      → IsMap c'.accounts
  Reach-no_repeats m History.Reach.here = m
  Reach-no_repeats m (History.Reach.next r s) = (Step-Enters s (Reach-no_repeats m r)).no_repeats

  Reach-Logged :
      {c c' : Contract}
      → IsMap c.accounts
      → (h : History.Reach is_valid from_slice c c') → Log (ledger c) (callers h) (ledger c')
  unfolding callers
  Reach-Logged m History.Reach.here = Log.opened
  Reach-Logged m (History.Reach.next r s) =
      Log.entered (Reach-Logged m r) (Step-Enters s (Reach-no_repeats m r)).entry

  new-Opened :
      (icon : String) (owner : AccountId) {c : Contract}
      → new is_valid icon owner ≡ ok c
      → IsMap c.accounts × (opening owner ≡ ledger c)
  unfolding new ledger balance_of get contains opening
  new-Opened icon owner {c} e = (
    ground arith,
    Ledger-eq _ _ (λ a. ground arith) (ground arith) (λ a. ground arith) (ground arith),
  )

  -- The token contract implements the ledger. Whatever calls follow on its creation, the balances,
  -- the supply, the minters and the owner come about by one entry for each call, in the order of the
  -- calls, and each entry is one that its caller may make: a minter creates tokens; the owner changes
  -- the minters and the owner, and may destroy tokens; any other account destroys or moves tokens of
  -- its own only; the callback of a transfer call sends tokens back or destroys them.
  pub history-Logged :
      (icon : String) (owner : AccountId) {c c' : Contract}
      → new is_valid icon owner ≡ ok c
      → (h : History.Reach is_valid from_slice c c') → Log (opening owner) (callers h) (ledger c')
  history-Logged icon owner {c} {c'} e h =
      let (m, o) = new-Opened icon owner e in
      subst (λ l. Log l (callers h) (ledger c')) (sym o) (Reach-Logged m h)

  -- In every state that is reached from the creation, a call that lowers the balance of an account is
  -- made by that account or by the owner, or is the callback of a transfer call.
  pub loses-Caller :
      (icon : String) (owner : AccountId) {c₀ c c' : Contract}
      → new is_valid icon owner ≡ ok c₀
      → History.Reach is_valid from_slice c₀ c
      → (s : History.Step is_valid from_slice c c') (a : AccountId)
      → balance_of c' a < balance_of c a
      → (caller s ≡ account a) ⊎ (caller s ≡ account c.owner_id) ⊎ (caller s ≡ callback)
  unfolding ledger
  loses-Caller icon owner {c₀} {c} {c'} e h s a less =
      Entry-loses _ _ _ a (Step-Enters s (Reach-no_repeats (new-Opened icon owner e).0 h)).entry
        less
