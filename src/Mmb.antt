-- ===== src/Mmb.antt =====
-- src/mmb: the checker of the binary proof file.
pub mod UnifyCmd
pub mod ProofCmd
pub mod Item
pub mod State
pub mod Unify
pub mod Proof
pub mod Verify
pub mod Termination
pub mod Step
pub mod Soundness
