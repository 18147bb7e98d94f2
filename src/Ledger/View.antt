-- ===== src/Ledger/View.antt =====
-- What the chain uses of a ledger: an interface, which Ledger.Search fills.
use pp_ledger.Base.{ℕ, ℤ}
use pp_ledger.Base.Roe.{Roe}
use pp_ledger.Ledger.Types.{ChainNode}

pub record Reader : Type 0 where
  pub starting_block_id : ℕ
  pub next_block_id : ℕ
  pub read_block : ℕ → Roe ChainNode
  pub find_block_by_timestamp : ℤ → Roe ChainNode
