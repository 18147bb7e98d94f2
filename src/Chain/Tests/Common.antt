-- ===== src/Chain/Tests/Common.antt =====
-- The ledger, the consensus and the bank of the tests.
use pp_ledger.Base.{ℕ, ◌*◌, ◌+◌, arith, List, [], ◌∷◌, ltb, if◌then◌else◌, ℤ, pos}
use pp_ledger.Base.Roe.{Roe, ok, err}
use pp_ledger.Map.{lookup}
use pp_ledger.Ledger.{Window, TxDefault, TxNewUser, TxRenewal, Record, Block, ChainNode, Reader}
use pp_ledger.Ledger.Search.{reader}
use pp_ledger.Consensus.Ouroboros.{Ouroboros, init, set_stakeholders}
use pp_ledger.Chain.Types.{Wallet, BlockChainConfig, Checkpoint}
use pp_ledger.Chain.AccountBuffer.{Account, Buffer, get_balance}
use pp_ledger.Chain.AccountBuffer.Balances.{IsValid}

abbrev pub alice : ℕ
alice = 1073741824

abbrev pub bob : ℕ
bob = 1073741825

abbrev pub carol : ℕ
carol = 1073741826

abbrev pub wallet : ℤ → Wallet
wallet v = record {
  balances = (0, v) ∷ [];
  public_keys = (5 ∷ []) ∷ [];
  min_signatures = 1;
  key_type = 1;
}

abbrev pub account : ℕ → ℕ → ℤ → Account
account n b v = record { id = n; wallet = wallet v; block_id = b }

abbrev pub bank : Buffer
bank =
    (1, account 1 15 (pos 0))
    ∷ (alice, account alice 1 (pos 100))
    ∷ (bob, account bob 15 (pos 5))
    ∷ []

pub bank-IsValid : IsValid bank
unfolding get_balance lookup
bank-IsValid = record {
  sorted = ground arith;
  named = λ k a e. ground (arith, e);
  ranged = λ k token. ground arith;
}

abbrev pub window : Window
window = record { idempotent_id = 77; validation_ts_min = pos 1000; validation_ts_max = pos 1100 }

abbrev pub payment : TxDefault
payment = record {
  token_id = 0;
  from_wallet_id = alice;
  to_wallet_id = bob;
  amount = 30;
  fee = 2;
  meta = [];
  window = window;
}

abbrev pub new_user : TxNewUser
new_user = record {
  from_wallet_id = alice;
  to_wallet_id = carol;
  amount = 40;
  fee = 2;
  meta = [];
  window = window;
}

abbrev pub renewal : TxRenewal
renewal = record { wallet_id = alice; fee = 0; meta = [] }

abbrev pub record_of : ℕ → Record
record_of type = record { type = type; payload = []; signatures = [] }

-- A block of slot `id`, with the given records and `id` as its hash
abbrev pub block_at : ℕ → List Record → Block
block_at id recs = record {
  index = id;
  timestamp = pos (1000 + 5 * id);
  records = recs;
  previous_hash = (id + 47) ∷ [];
  nonce = 0;
  slot = id;
  slot_leader = 9;
  tx_index = id;
}

abbrev pub node_of : ℕ → List Record → ChainNode
node_of id recs = record { block = block_at id recs; hash = (id + 48) ∷ [] }

-- Blocks 0 to 19, each with a payment
abbrev pub read_node : ℕ → Roe ChainNode
read_node id = if ltb id 20 then ok (node_of id (record_of 0 ∷ [])) else err 1

abbrev pub ledger : Reader
ledger = reader read_node 0 20

abbrev pub network : Ouroboros
network = set_stakeholders ((9, 50) ∷ []) 0 (
    init (record {
      genesis_time = pos 1000;
      time_offset = pos 0;
      slot_duration = 5;
      slots_per_epoch = 10;
    }))

-- A fee of 1 and 1 more for each kibibyte
abbrev pub config : BlockChainConfig
config = record {
  genesis_time = pos 1000;
  slot_duration = 5;
  slots_per_epoch = 10;
  max_custom_meta_size = 10000;
  max_transactions_per_block = 2;
  min_fee_coefficients = 1 ∷ 1 ∷ [];
  free_custom_meta_size = 100;
  checkpoint = record { min_blocks = 10; min_age_seconds = 0 };
  max_validation_timespan_seconds = 3600;
}

abbrev pub checkpoint : Checkpoint
checkpoint = record { last_id = 0; current_id = 0 }
