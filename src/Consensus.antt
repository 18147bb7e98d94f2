-- ===== src/Consensus.antt =====
-- The consensus rules (consensus/): slots and epochs, stakeholders, and who leads a slot.
pub mod Ouroboros
