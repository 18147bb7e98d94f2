-- ===== src/Chain/Tests/TxSearch.antt =====
-- The search by index over the twenty blocks of the tests.

use pp_ledger.Base.{ℕ, ◌<◌, ◌≡◌, refl, [], ◌∷◌, arith, lt→ltb}
use pp_ledger.Base.Roe.{ok, err}
use pp_ledger.Base.Word.{add_u64}
use pp_ledger.Chain.Types.{e_invalid_argument}
use pp_ledger.Chain.TxSearch.{IsNumbered, find_transaction_by_index, find_transaction_by_index_lem}
use pp_ledger.Chain.Tests.Common.{record_of, node_of, read_node}

read_node_lem : (id : ℕ) → id < 20 → read_node id ≡ ok (node_of id (record_of 0 ∷ []))
read_node_lem id h = simp (lt→ltb id 20 h)

abbrev numbered_nodes : IsNumbered read_node 0 20
numbered_nodes = record {
  block = λ id. node_of id (record_of 0 ∷ []);
  readable = λ id lo hi. read_node_lem id hi;
  numbered = λ id lo hi. omega arith;
  small = λ id lo hi. omega (arith, hi);
}

find_transaction_by_index_lem_example :
    find_transaction_by_index read_node (read_node 19) 0 20 13 ≡ ok (record_of 0)
find_transaction_by_index_lem_example =
    find_transaction_by_index_lem read_node 0 20 numbered_nodes 13 0 (record_of 0) (read_node 19)
      refl (omega arith) (omega arith) refl

past_the_end : find_transaction_by_index read_node (read_node 19) 0 20 20 ≡ err e_invalid_argument
unfolding find_transaction_by_index add_u64
past_the_end = refl
