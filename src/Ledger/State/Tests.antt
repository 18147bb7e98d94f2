-- ===== src/Ledger/State/Tests.antt =====
-- A ledger with one block, packed data, and the theorems at concrete inputs.
use pp_ledger.Base.{
  ℕ, ◌*◌, ◌≡◌, refl, true, false, List, [], ◌∷◌, ◌++◌, some, length, arith, pos, inr, map,
}
use pp_ledger.Base.Roe.{ok, err, done}
use pp_ledger.Pack.Bytes.{Bytes, be_bytes}
use pp_ledger.Pack.Archive.{write_string}
use pp_ledger.Pack.Containers.{write_all}
use pp_ledger.Ledger.Types.{ChainNode, TypedTx, tx_default}
use pp_ledger.Ledger.Packing.{
  pack_tx, type_of, decode, decode-pack_tx, block_to_string, block_from_string,
  block_from_string-block_to_string,
}
use pp_ledger.Ledger.FileStore.{
  FileStore, new_header, encode_header, frames, index_of, le_bytes, min_max_size,
}
use pp_ledger.Ledger.Store.{file_blocks}
use pp_ledger.Ledger.State.Defs.{
  LedgerState, add_block, read_block, read_last_block, node_to_string,
}
use pp_ledger.Ledger.State.Text.{FitsNode}
use pp_ledger.Ledger.State.Blocks.{
  HoldsNodes, add_block-HoldsNodes, read_block-HoldsNodes, add_block_unsaved,
}

abbrev payment : TypedTx
payment = tx_default (record {
  token_id = 0;
  from_wallet_id = 1073741824;
  to_wallet_id = 1073741825;
  amount = 10;
  fee = 1;
  meta = 104 ∷ 105 ∷ [];
  window = record { idempotent_id = 7; validation_ts_min = pos 100; validation_ts_max = pos 200 };
})

decode-pack_tx_example :
    decode
      (record { type = 0; payload = pack_tx payment ++ (255 ∷ []); signatures = (1 ∷ []) ∷ [] })
    ≡ ok payment
unfolding encode_header le_bytes be_bytes write_string write_all node_to_string block_to_string
    type_of pack_tx
decode-pack_tx_example = decode-pack_tx payment (255 ∷ []) ((1 ∷ []) ∷ []) (ground arith)

abbrev node_at : ℕ → ChainNode
node_at id = record {
  block = record {
    index = id;
    timestamp = pos (10 * id);
    records = record { type = 6; payload = 1 ∷ 2 ∷ []; signatures = (3 ∷ []) ∷ [] } ∷ [];
    previous_hash = 8 ∷ [];
    nonce = 0;
    slot = id;
    slot_leader = 0;
    tx_index = 0;
  };
  hash = 9 ∷ [];
}

block_from_string-block_to_string_example :
    block_from_string (block_to_string (node_at 4).block ++ []) ≡ some (node_at 4).block
unfolding encode_header le_bytes be_bytes write_string write_all node_to_string block_to_string
    type_of pack_tx
block_from_string-block_to_string_example =
    block_from_string-block_to_string (node_at 4).block [] (ground arith)

abbrev one_text : List Bytes
one_text = node_to_string (node_at 0) ∷ []

abbrev one_file : Bytes
one_file = encode_header (new_header 1) ++ frames one_text

-- Block 0 is stored and in the cache.
abbrev one_ledger : LedgerState FileStore
one_ledger = record {
  meta = record { starting_block_id = 0; checkpoint_ids = [] };
  store = record {
    file = one_file;
    is_open = true;
    is_failed = false;
    max_size = min_max_size;
    current_size = length one_file;
    header = new_header 1;
    header_valid = true;
    block_count = 1;
    block_index = index_of 24 one_text;
    index_built = true;
  };
  cache = some (node_at 0);
  index_file = [];
}

node_at-FitsNode : FitsNode (node_at 1)
unfolding encode_header le_bytes be_bytes write_string write_all node_to_string block_to_string
    type_of pack_tx
node_at-FitsNode = ground arith

one_ledger-HoldsNodes : HoldsNodes file_blocks (node_at 0 ∷ []) one_ledger
unfolding encode_header le_bytes be_bytes write_string write_all node_to_string block_to_string
    type_of pack_tx
one_ledger-HoldsNodes = record {
  stored = (
    record {
      opened = refl;
      valid = refl;
      known = refl;
      written = refl;
      sized = refl;
      bounded = ground arith;
      small = ground arith;
    },
    record { indexed = refl; counted = refl },
  );
  fitting = ground arith;
  cached = inr (node_at 0, refl, refl);
  in_range = ground arith;
}

add_block-HoldsNodes_example :
    (t : LedgerState FileStore) × (add_block file_blocks true (node_at 1) one_ledger ≡ (done, t))
    × HoldsNodes file_blocks (node_at 0 ∷ node_at 1 ∷ []) t
unfolding encode_header le_bytes be_bytes write_string write_all node_to_string block_to_string
    type_of pack_tx
add_block-HoldsNodes_example =
    add_block-HoldsNodes file_blocks (node_at 0 ∷ []) (node_at 1) one_ledger one_ledger-HoldsNodes
      node_at-FitsNode (ground arith) (ground arith)

read_block-HoldsNodes_example :
    (t : LedgerState FileStore) × (read_block file_blocks 0 one_ledger ≡ (ok (node_at 0), t))
    × HoldsNodes file_blocks (node_at 0 ∷ []) t
unfolding encode_header le_bytes be_bytes write_string write_all node_to_string block_to_string
    type_of pack_tx
read_block-HoldsNodes_example =
    read_block-HoldsNodes file_blocks (node_at 0 ∷ []) (node_at 0) 0 one_ledger
      one_ledger-HoldsNodes refl

add_block_unsaved_example :
    (t : LedgerState FileStore) × (add_block file_blocks false (node_at 1) one_ledger ≡ (err 2, t))
    × file_blocks.Holds (map node_to_string (node_at 0 ∷ node_at 1 ∷ [])) t.store
    × (read_last_block file_blocks t ≡ (ok (node_at 0), t))
    × (read_block file_blocks 1 t ≡ (ok (node_at 0), t))
unfolding encode_header le_bytes be_bytes write_string write_all node_to_string block_to_string
    type_of pack_tx
add_block_unsaved_example =
    add_block_unsaved file_blocks (node_at 0 ∷ []) (node_at 1) (node_at 0) one_ledger
      one_ledger-HoldsNodes refl (ground arith) (ground arith)
