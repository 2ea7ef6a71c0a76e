-- ===== src/Bridge.antt =====
-- The two directions of the bridge, from one side's packets to the other's.
pub mod Joining
pub mod Frames
pub mod FromPsp
pub mod AfterRestart
pub mod LostPacket
pub mod ToPsp
pub mod ManyToPsp
pub mod Awaiting
pub mod System
pub mod Passes
pub mod Receives
pub mod Emits
pub mod Together
pub mod Interleaving
pub mod Draining
pub mod Finishing
