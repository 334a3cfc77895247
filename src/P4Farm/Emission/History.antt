-- ===== src/P4Farm/Emission/History.antt =====
-- What the P4 farm (p4-farm-nft/src) owes and has paid, along a history of calls, against what the rounds
-- emit.
use cheddar.Prelude.{
  ℕ, ◌+◌, ◌*◌, ◌≤◌, ◌≡◌, false, List, [], Result, ok, panic, get_or, if◌then◌else◌,
}
use cheddar.Near.{Env, Balance}
use cheddar.P3Lib.{acc_overflow}
use cheddar.P4Farm.State.{ParseAccount, Contract, Promise}
use cheddar.P4Farm.Identifiers.{promise_result_as_failed}
use cheddar.P4Farm.Rewards.{current_round}
use cheddar.P4Farm.History.{Step, Reach}
use cheddar.P4Farm.Emission.{IsStarted, owed_all, emitted}
use cheddar.P4Farm.Emission.Crops.{crop_sent}
use cheddar.P4Farm.Emission.Sends.{worth_in}
use cheddar.P4Farm.Emission.Exits.{crop_of, last_of}

-- What the rounds since the last update emit by the time of a call, scaled.
abbrev pub emitted_by : Contract → Result ℕ → ℕ
emitted_by c (ok r) = emitted r c
emitted_by c (panic _) = 0

-- The call comes in a round of the farming, or while nothing was emitted yet.
abbrev pub Paced : Env → Contract → Type 0
Paced env c = (r : ℕ) × (current_round env c ≡ ok r) × IsStarted r c.reward_acc

-- The answer to a callback says that the tokens arrived.
abbrev pub Arrived : Env → Type 0
Arrived env = promise_result_as_failed env ≡ ok false

module _ (parse : ParseAccount) where
  -- What the rounds emit at the calls that bring the rewards up to date.
  unfoldable pub emission : {c c' : Contract} → Step parse c c' → ℕ
  emission {c} (Step.receives_nft env owner t msg returned e) = emitted_by c (current_round env c)
  emission {c} (Step.unstakes env nft t left p e) = emitted_by c (current_round env c)
  emission {c} (Step.closes env p e) = emitted_by c (current_round env c)
  emission {c} (Step.withdraws_crop env p e) = emitted_by c (current_round env c)
  emission {c} (Step.withdraws_boost env p e) = emitted_by c (current_round env c)
  emission {c} (Step.unregisters env force b p e) = emitted_by c (current_round env c)
  emission s = 0

  -- The farmed units that a call pays to its caller.
  unfoldable pub units_paid : {c c' : Contract} → Step parse c c' → Balance
  units_paid {c} (Step.unstakes env nft t left p e) = if last_of env c then crop_of env c else 0
  units_paid {c} (Step.closes env p e) = crop_of env c
  units_paid {c} (Step.withdraws_crop env p e) = crop_of env c
  units_paid {c} (Step.unregisters env force b p e) =
      if get_or force false then crop_of env c else 0
  units_paid s = 0

  -- The calls that bring the rewards up to date are paced, and what is sent arrives.
  unfoldable pub IsRegular : {c c' : Contract} → Step parse c c' → Type 0
  IsRegular {c} (Step.receives_nft env owner t msg returned e) = Paced env c
  IsRegular {c} (Step.unstakes env nft t left p e) = Paced env c
  IsRegular {c} (Step.closes env p e) = Paced env c
  IsRegular {c} (Step.withdraws_crop env p e) = Paced env c
  IsRegular {c} (Step.withdraws_boost env p e) = Paced env c
  IsRegular {c} (Step.unregisters env force b p e) = Paced env c
  IsRegular (Step.staked_arrives env user i t e) = Arrived env
  IsRegular (Step.farmed_arrives env user i x e) = Arrived env
  IsRegular (Step.cheddar_arrives env user x e) = Arrived env
  IsRegular (Step.boost_arrives env user ids i e) = Arrived env
  IsRegular s = Unit

  abbrev pub Settles : {c c' : Contract} → Step parse c c' → Type 0
  Settles {c} {c'} s = owed_all c' + units_paid s * acc_overflow ≤ owed_all c + emission s

  -- The promises of a call. A withdrawal of recovered tokens pays no units, and is left out.
  unfoldable pub promises : {c c' : Contract} → Step parse c c' → List Promise
  promises (Step.unstakes env nft t left p e) = p
  promises (Step.closes env p e) = p
  promises (Step.withdraws_crop env p e) = p
  promises (Step.withdraws_boost env p e) = p
  promises (Step.registers env who p e) = p
  promises (Step.unregisters env force b p e) = p
  promises s = []

  -- What the promises of all calls send of the farm token at an index.
  unfoldable pub sent_all : {c c' : Contract} → ℕ → Reach parse c c' → Balance
  sent_all i Reach.here = 0
  sent_all i (Reach.next h s) = sent_all i h + crop_sent i (promises s)

  -- What the units of each call are worth in that token at its rate, rounded down.
  unfoldable pub worth_all : {c c' : Contract} → ℕ → Reach parse c c' → Balance
  worth_all i Reach.here = 0
  worth_all i (Reach.next {c₁} h s) = worth_all i h + worth_in i c₁ (units_paid s)

  unfoldable pub emission_all : {c c' : Contract} → Reach parse c c' → ℕ
  emission_all Reach.here = 0
  emission_all (Reach.next h s) = emission_all h + emission s

  unfoldable pub paid_all : {c c' : Contract} → Reach parse c c' → Balance
  paid_all Reach.here = 0
  paid_all (Reach.next h s) = paid_all h + units_paid s

  unfoldable pub AllRegular : {c c' : Contract} → Reach parse c c' → Type 0
  AllRegular Reach.here = Unit
  AllRegular (Reach.next h s) = AllRegular h × IsRegular s
