-- ===== src/Consensus/Ouroboros/Defs.antt =====
-- The state and the operations of the class Ouroboros.
use Prim.Native.Nat.{◌^◌}
use pp_ledger.Base.{
  ℕ, zero, suc, ◌+◌, ◌-◌, ◌*◌, ◌/◌, ◌%◌, Bool, false, ◌&&◌, ◌||◌, not, Option, none, some, List, [],
  ◌∷◌, ◌++◌, ltb, leb, ◌==◌, if◌then◌else◌, length, get_elem?, take, ℤ, ltb_ℤ, leb_ℤ,
}
use pp_ledger.Base.Word.{to_i64, to_u64, add_i64, sub_i64, add_u64, mul_u64}
use pp_ledger.Base.Roe.{Roe, ok, err}
use pp_ledger.Map.{Map, lookup, insert}

-- A std::string, as its bytes.
abbrev pub Bytes : Type 0
Bytes = List ℕ

pub record Config : Type 0 where
  pub genesis_time : ℤ
  pub time_offset : ℤ
  pub slot_duration : ℕ
  pub slots_per_epoch : ℕ

pub record Ouroboros : Type 0 where
  pub config : Config
  pub open config use *
  pub stakeholders : Map ℕ
  pub last_stake_update_epoch : ℕ

-- kMaxLeaderPoolSize
abbrev pub max_leader_pool_size : ℕ
max_leader_pool_size = 100

unfoldable pub init : Config → Ouroboros
init c = record { config = c; stakeholders = []; last_stake_update_epoch = 2 ^ 64 - 1 }

-- A later entry for an id replaces an earlier one.
unfoldable pub fill : List (ℕ × ℕ) → Map ℕ → Map ℕ
fill [] m = m
fill ((id, stake) ∷ rest) m = fill rest (insert id stake m)

unfoldable pub set_stakeholders : List (ℕ × ℕ) → ℕ → Ouroboros → Ouroboros
unfolding fill
set_stakeholders holders epoch o = record o {
  stakeholders = fill holders [];
  last_stake_update_epoch = epoch;
}

unfoldable pub get_timestamp : ℤ → Ouroboros → ℤ
get_timestamp local o = add_i64 local o.time_offset

-- none stands for the exception of assertConfigIsSet
unfoldable pub get_slot_from_timestamp : ℤ → Ouroboros → Option ℕ
get_slot_from_timestamp timestamp o =
    if o.slot_duration == 0 || o.slots_per_epoch == 0
    then none
    else (if ltb_ℤ timestamp o.genesis_time
        then some 0
        else some (to_u64 (sub_i64 timestamp o.genesis_time) / o.slot_duration))

unfoldable pub get_current_slot : ℤ → Ouroboros → Option ℕ
get_current_slot local o = get_slot_from_timestamp (get_timestamp local o) o

unfoldable pub get_epoch_from_slot : ℕ → Ouroboros → ℕ
get_epoch_from_slot slot o = slot / o.slots_per_epoch

unfoldable pub get_slot_in_epoch : ℕ → Ouroboros → ℕ
get_slot_in_epoch slot o = slot % o.slots_per_epoch

unfoldable pub is_stake_update_needed : ℕ → Ouroboros → Bool
is_stake_update_needed epoch o = not (epoch == o.last_stake_update_epoch)

unfoldable pub get_slot_start_time : ℕ → Ouroboros → ℤ
get_slot_start_time slot o = add_i64 o.genesis_time (to_i64 (mul_u64 slot o.slot_duration))

unfoldable pub get_slot_end_time : ℕ → Ouroboros → ℤ
get_slot_end_time slot o = add_i64 (get_slot_start_time slot o) (to_i64 o.slot_duration)

unfoldable pub get_stake : ℕ → Ouroboros → ℕ
get_stake id o = elim (lookup id o.stakeholders) [ none ↦ 0 | some s ↦ s ]

unfoldable pub total_from : ℕ → Map ℕ → ℕ
total_from sum [] = sum
total_from sum ((_, s) ∷ m) = total_from (add_u64 sum s) m

unfoldable pub get_total_stake : Ouroboros → ℕ
unfolding total_from
get_total_stake o = total_from 0 o.stakeholders

-- The order of the pool: by stake, falling, and by id where the stakes are the same.
unfoldable pub goes_before : ℕ × ℕ → ℕ × ℕ → Bool
goes_before a b = if a.1 == b.1 then ltb a.0 b.0 else ltb b.1 a.1

-- std::sort by that order
unfoldable pub insert_by_stake : ℕ × ℕ → List (ℕ × ℕ) → List (ℕ × ℕ)
unfolding goes_before
insert_by_stake a [] = a ∷ []
insert_by_stake a (b ∷ bs) = if goes_before a b then a ∷ b ∷ bs else b ∷ insert_by_stake a bs

unfoldable pub sort_by_stake : List (ℕ × ℕ) → List (ℕ × ℕ)
unfolding insert_by_stake
sort_by_stake [] = []
sort_by_stake (a ∷ rest) = insert_by_stake a (sort_by_stake rest)

unfoldable pub with_stake : List (ℕ × ℕ) → List (ℕ × ℕ)
with_stake [] = []
with_stake (a ∷ rest) = let kept = with_stake rest in if a.1 == 0 then kept else a ∷ kept

abbrev pub ids : List (ℕ × ℕ) → List ℕ
ids [] = []
ids (a ∷ rest) = a.0 ∷ ids rest

unfoldable pub get_eligible_leader_pool : Ouroboros → List ℕ
unfolding sort_by_stake with_stake
get_eligible_leader_pool o =
    ids (take max_leader_pool_size (sort_by_stake (with_stake o.stakeholders)))

-- `ss << n`: decimal digits; twenty are enough for a uint64_t
unfoldable pub decimal : ℕ → ℕ → Bytes
decimal zero n = []
decimal (suc fuel) n =
    let rest = decimal fuel (n / 10) in
    if ltb n 10 then (48 + n) ∷ [] else rest ++ ((48 + n % 10) ∷ [])

-- "pp-ledger/ouroboros/v1:slot:" and ":epoch:"
abbrev pub slot_prefix : Bytes
slot_prefix =
    112 ∷ 112 ∷ 45 ∷ 108 ∷ 101 ∷ 100 ∷ 103 ∷ 101 ∷ 114 ∷ 47 ∷ 111 ∷ 117 ∷ 114 ∷ 111 ∷ 98 ∷ 111 ∷ 114
    ∷ 111 ∷ 115 ∷ 47 ∷ 118 ∷ 49 ∷ 58 ∷ 115 ∷ 108 ∷ 111 ∷ 116 ∷ 58 ∷ []

abbrev pub epoch_prefix : Bytes
epoch_prefix = 58 ∷ 101 ∷ 112 ∷ 111 ∷ 99 ∷ 104 ∷ 58 ∷ []

-- One hexadecimal digit, lower case.
abbrev pub hex_digit : ℕ → ℕ
hex_digit d = if ltb d 10 then 48 + d else 87 + d

unfoldable pub hex_encode : Bytes → Bytes
hex_encode [] = []
hex_encode (x ∷ xs) = hex_digit (x / 16) ∷ hex_digit (x % 16) ∷ hex_encode xs

-- strtoull(…, 16) of lower-case digits: it stops at another character
unfoldable pub parse_hex : ℕ → Bytes → ℕ
parse_hex acc [] = acc
parse_hex acc (c ∷ cs) =
    let digit = parse_hex (acc * 16 + (c - 48)) cs in
    let letter = parse_hex (acc * 16 + (c - 87)) cs in
    if leb 48 c && leb c 57 then digit else (if leb 97 c && leb c 102 then letter else acc)

-- pool[index]; the index is below the size, so the 0 is never read
unfoldable pub nth : List ℕ → ℕ → ℕ
nth pool i = elim (get_elem? pool i) [ none ↦ 0 | some id ↦ id ]

-- The digest is a parameter: crypto_hash_sha256 of libsodium.
module _ (digest : Bytes → Bytes) where
  unfoldable pub hash_slot_and_epoch : ℕ → ℕ → Bytes
  hash_slot_and_epoch slot epoch =
      hex_encode (digest (slot_prefix ++ (decimal 20 slot ++ (epoch_prefix ++ decimal 20 epoch))))

  unfoldable pub hash_value : ℕ → ℕ → ℕ
  hash_value slot epoch = parse_hex 0 (take 16 (hash_slot_and_epoch slot epoch))

  unfoldable pub select_slot_leader : ℕ → ℕ → Ouroboros → ℕ
  select_slot_leader slot epoch o =
      let pool = get_eligible_leader_pool o in
      if length pool == 0
      then 0
      else (if ltb (length (hash_slot_and_epoch slot epoch)) 16
          then nth pool 0
          else nth pool (hash_value slot epoch % length pool))

  unfoldable pub get_slot_leader : ℕ → Ouroboros → Roe ℕ
  get_slot_leader slot o =
      if length o.stakeholders == 0
      then err 1
      else ok (select_slot_leader slot (get_epoch_from_slot slot o) o)

  unfoldable pub is_slot_leader : ℕ → ℕ → Ouroboros → Bool
  is_slot_leader slot id o = elim (get_slot_leader slot o) [
    | ok leader ↦ leader == id
    | err _ ↦ false
  ]

  unfoldable pub validate_slot_leader : ℕ → ℕ → Ouroboros → Bool
  validate_slot_leader leader slot o =
      leader == select_slot_leader slot (get_epoch_from_slot slot o) o

unfoldable pub validate_block_timing : ℤ → ℕ → Ouroboros → Bool
validate_block_timing timestamp slot o =
    let slot_start = get_slot_start_time slot o in
    leb_ℤ slot_start timestamp && ltb_ℤ timestamp (add_i64 slot_start (to_i64 o.slot_duration))
