-- ===== src/Cheddar/State.antt =====
-- The state of the token contract (cheddar/src/lib.rs, storage.rs, vesting.rs).
use cheddar.Prelude.{ℕ, Option, String, List, ◌+◌, ◌*◌}
use cheddar.Near.{AccountId, Balance}
use cheddar.Near.LookupMap.{LookupMap}

-- The storage size in bytes for one account.
abbrev pub account_storage : ℕ
account_storage = 3 * 16 + 64

pub record AccBalance : Type 0 where
  pub near : Balance
  pub token : Balance

pub record VestingRecord : Type 0 where
  pub amount : Balance
  pub cliff_timestamp : ℕ
  pub end_timestamp : ℕ

-- The fields of the NEP-148 metadata that the contract writes.
pub record Metadata : Type 0 where
  pub icon : Option String
  pub reference : Option String
  pub reference_hash : Option String

pub record Contract : Type 0 where
  pub metadata : Metadata
  pub accounts : LookupMap AccBalance
  pub owner_id : AccountId
  pub minters : List AccountId
  pub total_supply : Balance
  pub vested : LookupMap VestingRecord

-- What a call asks the chain to do after it: NEAR sent to an account, or the receiver of a
-- transfer notified, with that gas and with the resolution of the transfer as callback.
pub data Promise : Type 0 where
  transfer : AccountId → Balance → Promise
  ft_on_transfer : (sender_id receiver_id : AccountId) → Balance → String → ℕ → Promise
