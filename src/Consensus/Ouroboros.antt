-- ===== src/Consensus/Ouroboros.antt =====
-- The class Ouroboros of consensus/Ouroboros.h and consensus/Ouroboros.cpp. SHA-256 is libsodium's
-- and the clock is the system's: a digest function and the local time are parameters.
mod Defs
pub mod Slots
mod Ranking
pub mod Pool
pub mod Leader
mod Tests
pub use Defs.{Config, Ouroboros, max_leader_pool_size}
unfoldable pub use Defs.{
  init, set_stakeholders, get_timestamp, get_slot_from_timestamp, get_current_slot,
  get_epoch_from_slot, get_slot_in_epoch, get_slot_start_time, get_slot_end_time, get_stake,
  get_total_stake, get_eligible_leader_pool, hex_encode, parse_hex, decimal, nth, fill, with_stake,
  goes_before, insert_by_stake, sort_by_stake, hash_slot_and_epoch, hash_value, select_slot_leader,
  get_slot_leader, is_slot_leader, validate_slot_leader, validate_block_timing,
  is_stake_update_needed,
}
