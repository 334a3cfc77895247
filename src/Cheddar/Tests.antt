-- ===== src/Cheddar/Tests.antt =====
-- The token contract on small states, and each of its theorems at an input that meets its hypotheses.
use cheddar.Prelude.{
  ℕ, ◌+◌, ◌≤◌, ◌<◌, ◌≡◌, refl, true, false, Bool, Option, none, some, List, [], ◌∷◌, ok, panic,
  arith, ◌≢◌, ◌⊎◌,
}
use cheddar.Prelude.Words.{fit, add_u128, checked_sub, mul_u256, checked_div, as_u128}
use cheddar.Near.{Env, AccountId, Balance, successful}
use cheddar.Near.LookupMap.{get, insert, remove, sum_by}
use cheddar.Cheddar.{
  Contract, Metadata, VestingRecord, AccBalance, fraction_of, compute_amount_locked,
}
use cheddar.Cheddar.Methods.{
  new, self_burn, ft_balance_of, ft_mint, ft_transfer, mint_vested, cancel_vesting, remove_minter,
  ft_resolve_transfer_adjust, unused_amount,
}
use cheddar.Cheddar.Internal.{
  internal_transfer, check_vesting, credit, mint, internal_burn, contains, balance_of,
}
use cheddar.Cheddar.Vesting.{new_vesting}
use cheddar.Cheddar.Minters.{count}
use cheddar.Cheddar.Methods.{position, swap_remove}
use cheddar.Cheddar.History
use cheddar.Cheddar.History.Conservation.{total_supply-eq-sum}
use cheddar.Cheddar.Supply.{IsBalanced}
use cheddar.Cheddar.Ledger.{Log, account, callback}
use cheddar.Cheddar.Ledger.Effects.{ledger}
use cheddar.Cheddar.Ledger.Refines.{opening, caller, callers, history-Logged, loses-Caller}
use cheddar.Cheddar.Transfers.{
  Moved, ft_transfer-Moved, ft_transfer-keeps_locked, ft_transfer_total,
}
use cheddar.Cheddar.Locks.{
  IsSchedule, locked_at, compute_amount_locked-eq, compute_amount_locked_antitone,
}
use cheddar.Cheddar.Refunds.{Resolved, ft_resolve_transfer_adjust-Resolved}
use cheddar.Cheddar.Minters.{remove_minter-contains, IsDistinct}
use cheddar.Cheddar.Schedules.{mint_vested_lem, cancel_vesting_lem}

-- A call by `who` with that deposit, at that time.
abbrev call : AccountId → Balance → ℕ → Env
call who deposit now = record {
  predecessor_account_id = who;
  signer_account_id = who;
  attached_deposit = deposit;
  block_timestamp = now;
  storage_byte_cost = 10;
  prepaid_gas = 0;
  promise_results = [];
}

abbrev any_metadata : Metadata → Bool
any_metadata m = true

abbrev holding : Balance → AccBalance
holding x = record { near = 1120; token = x }

abbrev schedule : VestingRecord
schedule = record { amount = 40; cliff_timestamp = 100; end_timestamp = 200 }

abbrev blank : Metadata
blank = record { icon = some ""; reference = none; reference_hash = none }

-- Owner 9; account 1 is vested.
abbrev book : Contract
book = record {
  metadata = blank;
  accounts = (1, holding 50) ∷ (2, holding 7) ∷ (3, holding 0) ∷ [];
  owner_id = 9;
  minters = 9 ∷ 8 ∷ 7 ∷ [];
  total_supply = 57;
  vested = (1, schedule) ∷ [];
}

-- Halfway between the cliff and the end, half is locked: 30 more would leave too little.
transfer_under_lock :
    ft_transfer (call 1 1 150) 2 31 book
    ≡ panic "Account with vesting, balance can't go lower than {}"
unfolding ft_transfer internal_transfer check_vesting credit fraction_of compute_amount_locked get
    insert fit add_u128 checked_sub mul_u256 checked_div as_u128
transfer_under_lock = refl

abbrev after_transfer : Contract
after_transfer = record book { accounts = (1, holding 20) ∷ (2, holding 37) ∷ (3, holding 0) ∷ [] }

transfer_within_lock : ft_transfer (call 1 1 150) 2 30 book ≡ ok after_transfer
unfolding ft_transfer internal_transfer check_vesting credit fraction_of compute_amount_locked get
    insert fit add_u128 checked_sub mul_u256 checked_div as_u128
transfer_within_lock = refl

book-IsBalanced : IsBalanced book
unfolding sum_by
book-IsBalanced = omega arith

schedule-IsSchedule : IsSchedule schedule
schedule-IsSchedule = omega arith

-- The owner creates the contract and mints 5 to account 4.
abbrev created : Contract
created = record {
  metadata = blank;
  accounts = [];
  owner_id = 9;
  minters = 9 ∷ [];
  total_supply = 0;
  vested = [];
}

abbrev minted : Contract
minted = record created { accounts = (4, record { near = 0; token = 5 }) ∷ []; total_supply = 5 }

new_mints : ft_mint (call 9 1 0) 4 5 created ≡ ok minted
unfolding ft_mint mint get insert contains add_u128 fit
new_mints = refl

total_supply-eq-sum_example : IsBalanced minted
unfolding new
total_supply-eq-sum_example =
    total_supply-eq-sum any_metadata (λ b. none) "" 9 {c = created} refl
      (History.Reach.next History.Reach.here (History.Step.mints (call 9 1 0) 4 5 new_mints))

history-Logged_example : Log (opening 9) (account 9 ∷ []) (ledger minted)
unfolding new callers caller
history-Logged_example =
    history-Logged any_metadata (λ b. none) "" 9 {c = created} refl
      (History.Reach.next History.Reach.here (History.Step.mints (call 9 1 0) 4 5 new_mints))

abbrev burned : Contract
burned = record minted { accounts = (4, record { near = 0; token = 3 }) ∷ []; total_supply = 3 }

holder_burns : self_burn (call 4 1 0) 2 minted ≡ ok burned
unfolding self_burn internal_burn get insert checked_sub
holder_burns = refl

loses-Caller_example : (account 4 ≡ account 4) ⊎ (account 4 ≡ account 9) ⊎ (account 4 ≡ callback)
unfolding new caller balance_of get
loses-Caller_example =
    loses-Caller any_metadata (λ b. none) "" 9 {c₀ = created} {c = minted} {c' = burned} refl
      (History.Reach.next History.Reach.here (History.Step.mints (call 9 1 0) 4 5 new_mints))
      (History.Step.burns (call 4 1 0) 2 holder_burns) 4 (omega arith)

ft_transfer-Moved_example : ((call 1 1 150).attached_deposit ≡ 1) × Moved 1 2 30 book after_transfer
ft_transfer-Moved_example = ft_transfer-Moved (call 1 1 150) 2 30 book transfer_within_lock

half_locked : compute_amount_locked (call 1 1 150) schedule ≡ ok 20
unfolding compute_amount_locked fraction_of mul_u256 checked_div as_u128 fit
half_locked = refl

ft_transfer-keeps_locked_example : 20 ≤ 20
unfolding get
ft_transfer-keeps_locked_example =
    ft_transfer-keeps_locked (call 1 1 150) 2 30 book {v = schedule} {ab = holding 20}
      transfer_within_lock refl half_locked refl

free_sender :
    (v : VestingRecord)
    → get 2 book.vested ≡ some v
    → (l : Balance) × (compute_amount_locked (call 2 1 0) v ≡ ok l) × (l ≤ 3)
unfolding get
free_sender v e = absurd (cc)

ft_transfer_total_example : (c' : Contract) × (ft_transfer (call 2 1 0) 3 4 book ≡ ok c')
unfolding get
ft_transfer_total_example =
    ft_transfer_total (call 2 1 0) 3 4 book (holding 7) (holding 0) book-IsBalanced refl
      (omega arith) (omega arith) refl refl (omega arith) free_sender

compute_amount_locked-eq_example :
    compute_amount_locked (call 1 1 125) schedule ≡ ok (locked_at 125 schedule)
compute_amount_locked-eq_example =
    compute_amount_locked-eq (call 1 1 125) schedule schedule-IsSchedule

quarter_locked : compute_amount_locked (call 1 1 175) schedule ≡ ok 10
unfolding compute_amount_locked fraction_of mul_u256 checked_div as_u128 fit
quarter_locked = refl

compute_amount_locked_antitone_example : (10 ≤ 20) × (20 ≤ 40)
compute_amount_locked_antitone_example =
    compute_amount_locked_antitone (call 1 1 150) (call 1 1 175) schedule schedule-IsSchedule
      (omega arith) half_locked quarter_locked

-- Account 1 got 30 from account 2 and answers that it did not use 12.
abbrev answered : Env
answered = record (call 1 0 0) { promise_results = successful (12 ∷ []) ∷ [] }

abbrev first_byte : List ℕ → Option Balance
first_byte [] = none
first_byte (b ∷ bs) = some b

ft_resolve_transfer_adjust-Resolved_example :
    (c' : Contract) × (used : Balance) × (burned : Balance) × (ft_resolve_transfer_adjust first_byte
        answered 2 1 30 book
      ≡ ok (c', used, burned))
    × Resolved first_byte 2 1 30 12 (holding 50) book used burned c'
unfolding get unused_amount
ft_resolve_transfer_adjust-Resolved_example =
    ft_resolve_transfer_adjust-Resolved first_byte answered 2 1 30 12 (holding 50) book
      book-IsBalanced (omega arith) refl refl

book-IsDistinct : IsDistinct book.minters
unfolding count
book-IsDistinct a = ground arith

remove_minter-contains_example :
    (contains (7 ∷ 8 ∷ []) 9 ≡ false)
    × ((b : AccountId) → b ≢ 9 → contains (7 ∷ 8 ∷ []) b ≡ contains book.minters b)
    × IsDistinct (7 ∷ 8 ∷ [])
unfolding remove_minter position swap_remove
remove_minter-contains_example =
    remove_minter-contains (call 9 1 0) 9 book {c' = record book { minters = 7 ∷ 8 ∷ [] }}
      book-IsDistinct refl

-- Account 5 registers with 2000 attached; 112 bytes cost 1120.
abbrev registered : Contract
registered = record book {
  accounts = (1, holding 50) ∷ (2, holding 7) ∷ (3, holding 0) ∷ (5, holding 0) ∷ [];
}

-- Account 3 holds no tokens: its deposit of 1120 is not sent back.
abbrev left : Contract
left = record book { accounts = (1, holding 50) ∷ (2, holding 7) ∷ [] }

abbrev vested_two : Contract
vested_two = record book {
  accounts = (1, holding 50) ∷ (2, holding 47) ∷ (3, holding 0) ∷ [];
  total_supply = 97;
  vested = (1, schedule) ∷ (2, schedule) ∷ [];
}

mints_vested : mint_vested (call 9 1 0) 2 40 100 200 book ≡ ok vested_two
unfolding mint_vested mint new_vesting contains get insert add_u128 fit
mints_vested = refl

mint_vested_lem_example :
    (contains book.minters 9 ≡ true)
    × (get 2 book.vested ≡ none)
    × ((v : VestingRecord) × (get 2 vested_two.vested ≡ some v) × IsSchedule v × (v.amount ≡ 40))
    × (ft_balance_of 2 vested_two ≡ ft_balance_of 2 book + 40)
    × (vested_two.total_supply ≡ book.total_supply + 40)
mint_vested_lem_example =
    mint_vested_lem (call 9 1 0) 2 40 100 200 book (omega arith) (omega arith) mints_vested

-- At the end of the first quarter only 30 of the 40 are locked, and all 40 are burned.
abbrev cancelled : Contract
cancelled = record book {
  accounts = (1, holding 10) ∷ (2, holding 7) ∷ (3, holding 0) ∷ [];
  total_supply = 17;
  vested = [];
}

cancels : cancel_vesting (call 9 1 125) 1 book ≡ ok cancelled
unfolding cancel_vesting internal_burn compute_amount_locked fraction_of get insert remove
    checked_sub mul_u256 checked_div as_u128 fit
cancels = refl

cancel_vesting_lem_example :
    (9 ≡ book.owner_id)
    × ((l : Balance) × (compute_amount_locked (call 9 1 125) schedule ≡ ok l) × (0 < l))
    × (ft_balance_of 1 cancelled + 40 ≡ ft_balance_of 1 book)
    × (cancelled.total_supply + 40 ≡ book.total_supply)
    × (get 1 cancelled.vested ≡ none)
unfolding get
cancel_vesting_lem_example =
    cancel_vesting_lem (call 9 1 125) 1 book schedule (refl, tt) refl cancels
