-- ===== src/Consensus/Ouroboros/Tests.antt =====
-- Runs of the consensus on three stakeholders, and the theorems at concrete inputs.
use pp_ledger.Base.{
  ℕ, zero, suc, ◌-ℤ◌, ◌+ℤ◌, ◌%◌, ◌≤◌, ◌<◌, ◌≡◌, ◌⊎◌, ◌↔◌, All, refl, arith, [], ◌∷◌, some, pos,
  get_elem?, take, true,
}
use pp_ledger.Map.{lookup, insert}
use pp_ledger.Consensus.Ouroboros.Defs.{
  Config, Ouroboros, Bytes, init, fill, set_stakeholders, get_stake, get_slot_from_timestamp,
  get_eligible_leader_pool, select_slot_leader, validate_block_timing, with_stake, goes_before,
  insert_by_stake, sort_by_stake, max_leader_pool_size,
}
use pp_ledger.Consensus.Ouroboros.Slots.{validate_block_timing_iff}
use pp_ledger.Consensus.Ouroboros.Pool.{OccursId, Outranks, IsRanked}
use pp_ledger.Consensus.Ouroboros.Leader.{IsDigest, input, be_value, select_slot_leader_index}

-- Slots of 5 seconds from time 1000, and three stakeholders, of which one has no stake
abbrev config : Config
config = record {
  genesis_time = pos 1000;
  time_offset = pos 0;
  slot_duration = 5;
  slots_per_epoch = 10;
}

abbrev network : Ouroboros
network = set_stakeholders ((7, 20) ∷ (9, 50) ∷ (8, 0) ∷ []) 0 (init config)

abbrev repeat : ℕ → ℕ → Bytes
repeat zero b = []
repeat (suc n) b = b ∷ repeat n b

abbrev constant_digest : Bytes → Bytes
constant_digest x = repeat 32 1

pool_order : get_eligible_leader_pool network ≡ 9 ∷ 7 ∷ []
unfolding fill insert lookup set_stakeholders init get_stake get_eligible_leader_pool with_stake
    goes_before insert_by_stake sort_by_stake ◌-ℤ◌ ◌+ℤ◌
pool_order = refl

constant_digest-IsDigest : IsDigest constant_digest
unfolding fill insert lookup set_stakeholders init get_stake get_eligible_leader_pool with_stake
    goes_before insert_by_stake sort_by_stake ◌-ℤ◌ ◌+ℤ◌
constant_digest-IsDigest = record { size = λ x. refl; bytes = λ x. ground arith }

validate_block_timing_iff_example :
    (validate_block_timing (pos 1012) 2 network ≡ true)
    ↔ (get_slot_from_timestamp (pos 1012) network ≡ some 2)
unfolding fill insert lookup set_stakeholders init get_stake get_eligible_leader_pool with_stake
    goes_before insert_by_stake sort_by_stake ◌-ℤ◌ ◌+ℤ◌
validate_block_timing_iff_example =
    validate_block_timing_iff (pos 1012) 2 network (ground arith) (ground arith) (ground arith)
      (ground arith) (ground arith) (ground arith) (ground arith) (ground arith)

select_slot_leader_index_example :
    (get_elem? (9 ∷ 7 ∷ []) (be_value 0 (take 8 (constant_digest (input 2 0))) % 2)
      ≡ some (select_slot_leader constant_digest 2 0 network))
    × All (λ m. 0 < get_stake m network) (9 ∷ 7 ∷ [])
    × IsRanked network (9 ∷ 7 ∷ [])
    × (2 ≤ max_leader_pool_size)
    × (OccursId 7 (9 ∷ 7 ∷ [])
        ⊎ (All (λ m. Outranks network m 7) (9 ∷ 7 ∷ []) × (◌≡◌ {A = ℕ} 2 max_leader_pool_size)))
unfolding fill insert lookup set_stakeholders init get_stake get_eligible_leader_pool with_stake
    goes_before insert_by_stake sort_by_stake ◌-ℤ◌ ◌+ℤ◌
select_slot_leader_index_example =
    select_slot_leader_index constant_digest constant_digest-IsDigest 2 0 7 network (ground arith)
      (ground arith)
