-- ===== src/Cheddar/Deposits.antt =====
-- Registration and its NEAR deposit (cheddar/src/storage.rs).
use cheddar.Prelude.{◌+◌, Option, none, some, List, [], ◌∷◌}
use cheddar.Near.{Balance}
use cheddar.Cheddar.{AccBalance, Promise, transfer}

-- NEAR that the promises of a call send away.
unfoldable pub sent : List Promise → Balance
sent [] = 0
sent (transfer _ x ∷ ps) = x + sent ps
sent (Promise.ft_on_transfer _ _ _ _ _ ∷ ps) = sent ps

near_of : Option AccBalance → Balance
near_of none = 0
near_of (some ab) = ab.near
