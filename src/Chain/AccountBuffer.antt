-- ===== src/Chain/AccountBuffer.antt =====
-- chain/AccountBuffer.h and chain/AccountBuffer.cpp: the accounts of the chain, or of a scratch copy
-- of it, and every operation on them. An error keeps its code (E_ACCOUNT, E_BALANCE, E_INPUT).
mod Defs
pub mod Balances
pub mod Spending
pub mod Transfers
pub mod Deposits
pub mod Expected
pub mod Accounts
pub mod WriteOff
mod Tests
pub use Defs.{
  Account, Buffer, id_genesis, id_fee, id_reserve, id_recycle, id_first_user, initial_token_supply,
  e_account, e_balance, e_input, balance_of, or_zero,
}
unfoldable pub use Defs.{
  has_account, is_negative_balance_allowed, get_account, get_balance, account_ids_before_block_id,
  get_stakeholders, add, update, seed_from_committed_if_missing, verify_spending_power,
  verify_balance, deposit_balance, withdraw_balance, transfer_balance, write_off, write, pay_fee,
  move_funds, recycle, verify_spending_of, verify_balance_of, balances_match, safe_add, remove,
  clear,
}
