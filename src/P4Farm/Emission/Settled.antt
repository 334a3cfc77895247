-- ===== src/P4Farm/Emission/Settled.antt =====
-- What the P4 farm (p4-farm-nft/src) owes and has paid, along a history of calls, against what the rounds
-- emit.
use cheddar.P4Farm.Emission.Sends.{Sends}
