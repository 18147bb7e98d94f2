-- ===== src/Ledger/Tests.antt =====
-- Runs of the search and of the checkpoints, and the theorems at concrete inputs.
use pp_ledger.Base.{
  ℕ, ◌*◌, ◌≤◌, ◌<◌, ◌≡◌, ◌⊎◌, refl, arith, List, [], ◌∷◌, ◌++◌, All, ltb, if◌then◌else◌, true, pos,
  ◌≤ℤ◌,
}
use pp_ledger.Base.Roe.{Roe, ok, err, done}
use pp_ledger.Ledger.Types.{ChainNode}
use pp_ledger.Ledger.Search.{
  search, find_block_by_timestamp, IsOrdered, find_block_by_timestamp_first,
}
use pp_ledger.Ledger.Checkpoints.{
  is_sorted, has_no_repeat, matches, all_below, update_checkpoints, IsAscending,
  update_checkpoints_sound,
}

-- Blocks 0, 1, 2, …, ten seconds apart
abbrev node_at : ℕ → ChainNode
node_at id = record {
  block = record {
    index = id;
    timestamp = pos (10 * id);
    records = [];
    previous_hash = [];
    nonce = 0;
    slot = id;
    slot_leader = 0;
    tx_index = 0;
  };
  hash = [];
}

abbrev read_node : ℕ → Roe ChainNode
read_node id = if ltb id 5 then ok (node_at id) else err 1

found_block : find_block_by_timestamp read_node (pos 11) 1 5 ≡ ok (node_at 2)
unfolding search find_block_by_timestamp is_sorted has_no_repeat matches all_below
    update_checkpoints
found_block = refl

abbrev nodes-IsOrdered : IsOrdered read_node 1 5
nodes-IsOrdered = record {
  block = node_at;
  readable = λ id lo hi. ground arith;
  named = λ id lo hi. refl;
  ordered = λ i j lo le hi. ground arith;
}

find_block_by_timestamp_first_example :
    (node : ChainNode) × (find_block_by_timestamp read_node (pos 11) 1 5 ≡ ok node)
    × (pos 11 ≤ℤ node.block.timestamp)
    × (node.block.index ≤ 3)
unfolding search find_block_by_timestamp is_sorted has_no_repeat matches all_below
    update_checkpoints
find_block_by_timestamp_first_example =
    find_block_by_timestamp_first read_node (pos 11) 1 5 nodes-IsOrdered 3 (ground arith)
      (ground arith) (ground arith)

abbrev new_ids : List ℕ
new_ids = 10 ∷ 20 ∷ []

abbrev old_ids : List ℕ
old_ids = 10 ∷ []

extended : update_checkpoints true 100 new_ids old_ids ≡ (done, new_ids)
unfolding search find_block_by_timestamp is_sorted has_no_repeat matches all_below
    update_checkpoints
extended = refl

update_checkpoints_sound_example :
    (new_ids ≡ new_ids)
    × IsAscending new_ids
    × All (λ id. id < 100) new_ids
    × (((more : List ℕ) × (new_ids ≡ old_ids ++ more))
        ⊎ ((more : List ℕ) × (old_ids ≡ new_ids ++ more)))
unfolding search find_block_by_timestamp is_sorted has_no_repeat matches all_below
    update_checkpoints
update_checkpoints_sound_example =
    update_checkpoints_sound true 100 new_ids old_ids new_ids extended
