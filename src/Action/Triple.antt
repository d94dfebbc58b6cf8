-- ===== src/Action/Triple.antt =====
-- Rules for proofs about calls.
pub mod Rules
pub mod Invariants
pub use Rules.*
pub use Invariants.*
