-- ===== src/Ledger/FileStore/Loop.antt =====
-- A size prefix for which the loop of buildBlockIndex does not end.
use pp_ledger.Base.{
  ℕ, zero, suc, ◌+◌, ◌-◌, ◌^◌, ◌≤◌, ◌<◌, ◌≡◌, refl, ap, ◌∙◌, true, false, none, some, arith, pos,
  ltb_ℤ, leb_ℤ,
}
use pp_ledger.Base.Word.{to_i64, add_u64, add_i64}
use pp_ledger.Pack.Bytes.{Bytes}
use pp_ledger.Ledger.FileStore.Bytes.{le_value, read_at}
use pp_ledger.Ledger.FileStore.Defs.{scan}
use pp_ledger.Ledger.FileStore.Scan.{add_i64_pos}

-- The size that the prefix's own eight bytes carry over to 0.
abbrev pub stuck_size : ℕ
stuck_size = 2 ^ 64 - 8

-- With the bytes of 2 ^ 64 - 8 where the size of a block is read, and eight bytes there: after any
-- number of rounds the loop has not ended.
pub scan_stuck :
    (rounds offset file_end : ℕ) (file bs : Bytes)
    → offset + 8 ≤ file_end
    → file_end < 2 ^ 62
    → read_at (pos offset) 8 file ≡ some bs
    → le_value bs ≡ stuck_size
    → scan rounds (pos offset) (pos file_end) file ≡ none
unfolding scan
scan_stuck zero offset file_end file bs le small got value = refl
scan_stuck (suc rounds) offset file_end file bs le small got value =
    let at : add_i64 (pos offset) (pos 8) ≡ pos (offset + 8) =
      add_i64_pos offset 8 (omega (arith, le, small)) in
    let stay : add_i64 (pos offset) (to_i64 (add_u64 8 stuck_size)) ≡ pos offset =
      add_i64_pos offset 0 (omega (arith, le, small)) ∙ ap pos (omega arith) in
    let inside : leb_ℤ (pos (offset + 8)) (pos file_end) ≡ true = ground (arith, le) in
    let not_past : ltb_ℤ (pos file_end) (pos offset) ≡ false = ground (arith, le) in
    simp (
      at,
      inside,
      got,
      value,
      stay,
      not_past,
      scan_stuck rounds offset file_end file bs le small got value,
    )
