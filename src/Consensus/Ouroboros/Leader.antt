-- ===== src/Consensus/Ouroboros/Leader.antt =====
-- Who leads a slot.

use pp_ledger.Base.{
  ℕ, zero, suc, ◌+◌, ◌*◌, ◌/◌, ◌%◌, ◌≤◌, ◌<◌, ◌≡◌, ◌⊎◌, refl, ap, ◌∙◌, inl, inr, false, List, [],
  ◌∷◌, ◌++◌, arith, ltb, ◌==◌, Bool-cases, length, get_elem?, take, All, none, some,
}
use pp_ledger.Base.Roe.{ok}
use pp_ledger.Map.{IsSorted, lookup}
use pp_ledger.Consensus.Ouroboros.Defs.{
  Ouroboros, Bytes, max_leader_pool_size, get_stake, get_eligible_leader_pool, get_epoch_from_slot,
  nth, hash_slot_and_epoch, hash_value, hex_encode, hex_digit, parse_hex, select_slot_leader,
  get_slot_leader, is_slot_leader, validate_slot_leader, decimal, slot_prefix, epoch_prefix,
}
use pp_ledger.Consensus.Ouroboros.Pool.{
  pool-staked, pool_complete, pool_bound, pool-IsRanked, OccursId, Outranks, IsRanked,
}

-- The number that bytes spell, the first the highest.
abbrev pub be_value : ℕ → List ℕ → ℕ
be_value acc [] = acc
be_value acc (x ∷ xs) = be_value (acc * 256 + x) xs

abbrev twice : ℕ → ℕ
twice zero = zero
twice (suc n) = suc (suc (twice n))

parse_digit :
    (acc d : ℕ) (cs : Bytes)
    → d < 16
    → parse_hex acc (hex_digit d ∷ cs) ≡ parse_hex (acc * 16 + d) cs
unfolding parse_hex
parse_digit acc d cs h = ground arith

-- Reading back twice as many digits as there are bytes gives the bytes' number.
parse_hex_encode :
    (n acc : ℕ) (ds : Bytes)
    → All (λ x. x < 256) ds
    → parse_hex acc (take (twice n) (hex_encode ds)) ≡ be_value acc (take n ds)
unfolding hex_encode
parse_hex_encode zero acc ds h = unfold parse_hex in refl
parse_hex_encode (suc n) acc [] h = unfold parse_hex in refl
parse_hex_encode (suc n) acc (x ∷ xs) h =
    parse_digit acc (x / 16) (hex_digit (x % 16) ∷ take (twice n) (hex_encode xs))
      (omega (arith, h.0))
    ∙ parse_digit (acc * 16 + x / 16) (x % 16) (take (twice n) (hex_encode xs)) (omega arith)
    ∙ parse_hex_encode n ((acc * 16 + x / 16) * 16 + x % 16) xs h.1
    ∙ same
  where
    same :
        be_value ((acc * 16 + x / 16) * 16 + x % 16) (take n xs)
        ≡ be_value (acc * 256 + x) (take n xs)
    same = ap (λ (a : ℕ). be_value a (take n xs)) (omega arith)

length-hex : (ds : Bytes) → length (hex_encode ds) ≡ 2 * length ds
unfolding hex_encode
length-hex [] = refl
length-hex (x ∷ xs) = omega (arith, length-hex xs)

nonempty : (id : ℕ) (xs : List ℕ) → OccursId id xs → 0 < length xs
nonempty id [] o = elim o [ ]
nonempty id (x ∷ xs) o = omega arith

elem_lem : (xs : List ℕ) (i : ℕ) → i < length xs → get_elem? xs i ≡ some (nth xs i)
unfolding nth
elem_lem [] i lt = elim lt [ ]
elem_lem (x ∷ xs) zero lt = refl
elem_lem (x ∷ xs) (suc i) lt = elem_lem xs i (omega arith)

elem-All : (P : ℕ → Type 0) (xs : List ℕ) (i a : ℕ) → All P xs → get_elem? xs i ≡ some a → P a
elem-All P [] i a h e = cc
elem-All P (x ∷ xs) zero a h e = let same : x ≡ a = cc in rw same at (h.0)
elem-All P (x ∷ xs) (suc i) a h e = elem-All P xs i a h.1 e

stake_length : (id : ℕ) (m : List (ℕ × ℕ)) → length m ≡ 0 → lookup id m ≡ none
unfolding lookup
stake_length id [] h = refl
stake_length id (x ∷ m) h = absurd (omega arith)

registered : (o : Ouroboros) (id : ℕ) → 0 < get_stake id o → (length o.stakeholders == 0) ≡ false
unfolding get_stake
registered o id p = elim (Bool-cases (length o.stakeholders == 0)) [
  | inr e ↦ e
  | inl e ↦ absurd (ground (arith, e, p, stake_length id o.stakeholders))
]

-- What is relied on of libsodium's SHA-256: 32 bytes come out.
pub record IsDigest (digest : Bytes → Bytes) : Type 0 where
  pub size : (x : Bytes) → length (digest x) ≡ 32
  pub bytes : (x : Bytes) → All (λ b. b < 256) (digest x)

-- What is hashed for a slot of an epoch.
abbrev pub input : ℕ → ℕ → Bytes
input slot epoch = slot_prefix ++ (decimal 20 slot ++ (epoch_prefix ++ decimal 20 epoch))

module _ (digest : Bytes → Bytes) (d : IsDigest digest) where
  value_lem :
      (slot epoch : ℕ)
      → hash_value digest slot epoch ≡ be_value 0 (take 8 (digest (input slot epoch)))
  unfolding hash_value hash_slot_and_epoch
  value_lem slot epoch =
      parse_hex_encode 8 0 (digest (input slot epoch)) (d.bytes (input slot epoch))

  long_enough : (slot epoch : ℕ) → ltb (length (hash_slot_and_epoch digest slot epoch)) 16 ≡ false
  unfolding hash_slot_and_epoch
  long_enough slot epoch =
      ground (arith, length-hex (digest (input slot epoch)), d.size (input slot epoch))

  -- The leader, from a pool that is not empty
  leader_at :
      (slot epoch : ℕ) (o : Ouroboros)
      → 0 < length (get_eligible_leader_pool o)
      → get_elem?
          (get_eligible_leader_pool o)
          (be_value 0 (take 8 (digest (input slot epoch))) % length (get_eligible_leader_pool o))
        ≡ some (select_slot_leader digest slot epoch o)
  unfolding select_slot_leader nth
  leader_at slot epoch o h =
      let pool = get_eligible_leader_pool o in
      let i = be_value 0 (take 8 (digest (input slot epoch))) % length pool in
      let full : (length pool == 0) ≡ false = ground arith in
      rw (full, long_enough slot epoch, value_lem slot epoch) (elem_lem pool i (omega arith))

  some_member :
      (id : ℕ) (o : Ouroboros)
      → IsSorted o.stakeholders
      → 0 < get_stake id o
      → 0 < length (get_eligible_leader_pool o)
  some_member id o h p = elim (pool_complete o id h p) [
    | inl member ↦ nonempty id (get_eligible_leader_pool o) member
    | inr (_, full) ↦ omega arith
  ]

  -- With a hash of 32 bytes, the stakeholders in ascending order of their ids, and one of them with
  -- a positive stake: the leader is the member of the pool at the first eight bytes of the hash, as
  -- a big-endian number, modulo the size of the pool. The pool has 100 members at most, all with a
  -- positive stake, each ranked above those behind it (by stake, then by the smaller id); the
  -- stakeholder is in it, or there are 100 that all rank above it.
  pub select_slot_leader_index :
      (slot epoch id : ℕ) (o : Ouroboros)
      → IsSorted o.stakeholders
      → 0 < get_stake id o
      → (get_elem?
            (get_eligible_leader_pool o)
            (be_value 0 (take 8 (digest (input slot epoch))) % length (get_eligible_leader_pool o))
          ≡ some (select_slot_leader digest slot epoch o))
        × All (λ m. 0 < get_stake m o) (get_eligible_leader_pool o)
        × IsRanked o (get_eligible_leader_pool o)
        × (length (get_eligible_leader_pool o) ≤ max_leader_pool_size)
        × (OccursId id (get_eligible_leader_pool o)
            ⊎ (All (λ m. Outranks o m id) (get_eligible_leader_pool o)
                × (length (get_eligible_leader_pool o) ≡ max_leader_pool_size)))
  select_slot_leader_index slot epoch id o h p = (
    leader_at slot epoch o (some_member id o h p),
    pool-staked o h,
    pool-IsRanked o h,
    pool_bound o,
    pool_complete o id h p,
  )

  -- With a hash of 32 bytes and the stakeholders in ascending order of their ids, where some
  -- stakeholder has a positive stake, every slot has a leader, and the leader is a stakeholder
  -- with a positive stake.
  pub get_slot_leader_staked :
      (slot id : ℕ) (o : Ouroboros)
      → IsSorted o.stakeholders
      → 0 < get_stake id o
      → (leader : ℕ) × (get_slot_leader digest slot o ≡ ok leader) × (0 < get_stake leader o)
  unfolding get_slot_leader
  get_slot_leader_staked slot id o h p =
      let pool = get_eligible_leader_pool o in
      let epoch = get_epoch_from_slot slot o in
      let at = leader_at slot epoch o (some_member id o h p) in
      let known : (length o.stakeholders == 0) ≡ false = registered o id p in
      (
        select_slot_leader digest slot epoch o,
        rw known refl,
        elem-All (λ m. 0 < get_stake m o) pool _ (select_slot_leader digest slot epoch o)
            (pool-staked o h) at,
      )

  -- Both tests of a block's leader, `validateSlotLeader` and `isSlotLeader`, say the same once
  -- there is a stakeholder.
  pub validate_slot_leader_eq :
      (leader slot : ℕ) (o : Ouroboros)
      → 0 < length o.stakeholders
      → validate_slot_leader digest leader slot o ≡ is_slot_leader digest slot leader o
  unfolding validate_slot_leader is_slot_leader get_slot_leader
  validate_slot_leader_eq leader slot o h = ground arith
