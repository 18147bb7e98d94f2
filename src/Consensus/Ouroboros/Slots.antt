-- ===== src/Consensus/Ouroboros/Slots.antt =====
-- Slots and timestamps.
use Prim.Native.Nat.{◌^◌}
use pp_ledger.Base.{
  ℕ, ◌+◌, ◌*◌, ◌/◌, ◌≤◌, ◌<◌, ◌≡◌, ◌↔◌, true, some, arith, ℤ, pos, ◌+ℤ◌, ◌-ℤ◌, ◌≤ℤ◌, +ℤ_parts,
  -ℤ_parts, pos_part, false, ◌==◌, ltb_ℤ, int_laws, ◌∙◌, ap,
}
use pp_ledger.Base.Word.{
  IsI64, to_i64_small, add_i64_exact, sub_i64_exact, mul_u64, add_i64, to_u64,
}
use pp_ledger.Consensus.Ouroboros.Defs.{
  Ouroboros, get_slot_from_timestamp, validate_block_timing, get_slot_start_time,
}

div_iff : (n d k : ℕ) → 0 < d → (n / d ≡ k) ↔ ((k * d ≤ n) × (n < k * d + d))
div_iff n d k h = (λ e. grind (arith, e), λ e. grind (arith, e))

-- What `start` is, where nothing overflows.
start_exact :
    (slot : ℕ) (o : Ouroboros)
    → slot * o.slot_duration < 2 ^ 63
    → IsI64 (o.genesis_time +ℤ pos (slot * o.slot_duration))
    → get_slot_start_time slot o ≡ o.genesis_time +ℤ pos (slot * o.slot_duration)
unfolding get_slot_start_time mul_u64
start_exact slot o small fits = ground (
  arith,
  to_i64_small (slot * o.slot_duration) small,
  add_i64_exact o.genesis_time (pos (slot * o.slot_duration)) fits,
)

slot_exact :
    (timestamp : ℤ) (o : Ouroboros)
    → 0 < o.slot_duration
    → 0 < o.slots_per_epoch
    → o.genesis_time ≤ℤ timestamp
    → IsI64 (timestamp -ℤ o.genesis_time)
    → get_slot_from_timestamp timestamp o
      ≡ some (pos_part (timestamp -ℤ o.genesis_time) / o.slot_duration)
unfolding get_slot_from_timestamp
slot_exact timestamp o hd he after elapsed =
    let since : timestamp -ℤ o.genesis_time ≡ pos (pos_part (timestamp -ℤ o.genesis_time)) =
      ground (arith, after, -ℤ_parts timestamp o.genesis_time) in
    let d : (o.slot_duration == 0) ≡ false = ground arith in
    let e : (o.slots_per_epoch == 0) ≡ false = ground arith in
    let t : ltb_ℤ timestamp o.genesis_time ≡ false = ground arith in
    let unsigned : to_u64 (timestamp -ℤ o.genesis_time) ≡ pos_part (timestamp -ℤ o.genesis_time) =
      ground (arith, since, elapsed) in
    rw (d, e, t) (rw (sub_i64_exact timestamp o.genesis_time elapsed, unsigned))

end_exact :
    (g : ℤ) (a d : ℕ) → IsI64 (g +ℤ pos (a + d)) → add_i64 (g +ℤ pos a) (pos d) ≡ g +ℤ pos (a + d)
end_exact g a d fits =
    let same : g +ℤ pos a +ℤ pos d ≡ g +ℤ pos (a + d) = omega int_laws in
    add_i64_exact (g +ℤ pos a) (pos d) (rw same fits) ∙ same

-- A block's time is accepted for a slot exactly when the slot is the one that contains the time.
-- The configuration is set, the block is not older than the genesis, and the end of the slot and the
-- time since the genesis fit an int64_t.
pub validate_block_timing_iff :
    (timestamp : ℤ) (slot : ℕ) (o : Ouroboros)
    → 0 < o.slot_duration
    → 0 < o.slots_per_epoch
    → o.genesis_time ≤ℤ timestamp
    → IsI64 o.genesis_time
    → IsI64 timestamp
    → IsI64 (timestamp -ℤ o.genesis_time)
    → slot * o.slot_duration + o.slot_duration < 2 ^ 63
    → IsI64 (o.genesis_time +ℤ pos (slot * o.slot_duration + o.slot_duration))
    → (validate_block_timing timestamp slot o ≡ true)
      ↔ (get_slot_from_timestamp timestamp o ≡ some slot)
unfolding validate_block_timing
validate_block_timing_iff timestamp slot o hd he after rg rt elapsed small fits =
    let n = pos_part (timestamp -ℤ o.genesis_time) in
    let d = o.slot_duration in
    let since = -ℤ_parts timestamp o.genesis_time in
    let sum = +ℤ_parts o.genesis_time (pos (slot * d)) in
    let sum' = +ℤ_parts o.genesis_time (pos (slot * d + d)) in
    let start = start_exact slot o (omega arith) (ground (arith, fits, rg, sum, sum')) in
    let next = end_exact o.genesis_time (slot * d) d fits in
    let slots = div_iff n d slot hd in
    let duration = to_i64_small d (omega arith) in
    rw (slot_exact timestamp o hd he after elapsed, start, duration, next)
      (
        λ h. ap some (slots.1 (ground (arith, h, since, sum, sum', after))),
        λ h.
            let q : n / d ≡ slot = ground (arith, h) in
            ground (arith, slots.0 q, since, sum, sum', after),
      )
