-- ===== src/Chain/TxSignatures.antt =====
-- Signatures of a transaction (chain/TxSignatures.cpp, and Chain::validateTxSignatures of chain/Chain.cpp).
-- Whether a signature is one of a message under a key (Crypto::verify, libsodium) is the parameter `verify`.
use pp_ledger.Base.{
  ℕ, zero, suc, ◌≤◌, ◌≡◌, ◌≢◌, refl, ap, subst, Bool, true, false, not, ◌&&◌, List, [], ◌∷◌, map,
  Option, none, some, arith, length, ltb, ◌==◌, if◌then◌else◌, get_elem?, All, Distinct, inl, inr,
  Option-cases, Bool-cases,
}
use pp_ledger.Base.Roe.{Roe, ok, err, Done, done}
use pp_ledger.Ledger.{Bytes, Record}
use pp_ledger.Chain.Types.{e_tx_signature, e_account_not_found}
use pp_ledger.Chain.AccountBuffer.{Account, Buffer, id_genesis, get_account}

-- The keys of an account, each with whether it has been used
abbrev pub Keys : Type 0
Keys = List (Bool × Bytes)

module _ (verify : ℕ → Bytes → Bytes → Bytes → Bool) (key_type : ℕ) (message : Bytes) where
  -- The first unused key that the signature fits is used up.
  unfoldable pub use_key : Bytes → Keys → Option Keys
  use_key signature [] = none
  use_key signature ((used, key) ∷ keys) =
      let later = use_key signature keys in
      if not used && verify key_type key message signature
      then some ((true, key) ∷ keys)
      else elim later [ none ↦ none | some rest ↦ some ((used, key) ∷ rest) ]

  unfoldable pub use_keys : List Bytes → Keys → Done
  unfolding use_key
  use_keys [] keys = done
  use_keys (signature ∷ signatures) keys = elim (use_key signature keys) [
    | none ↦ err e_tx_signature
    | some rest ↦ use_keys signatures rest
  ]

  -- Each signature is of the key at its place.
  abbrev pub Signs : List Bytes → List Bytes → List ℕ → Type 0
  Signs keys [] [] = Unit
  Signs keys [] (i ∷ places) = ⊥
  Signs keys (s ∷ signatures) [] = ⊥
  Signs keys (s ∷ signatures) (i ∷ places) =
      ((key : Bytes) × (get_elem? keys i ≡ some key) × (verify key_type key message s ≡ true))
      × Signs keys signatures places

unfoldable pub verify_signatures_against_account :
    (ℕ → Bytes → Bytes → Bytes → Bool) → Bytes → List Bytes → Account → Done
unfolding use_keys
verify_signatures_against_account verify message signatures a =
    if ltb (length signatures) a.wallet.min_signatures
    then err e_tx_signature
    else use_keys verify a.wallet.key_type message signatures
        (map (λ key. (false, key)) a.wallet.public_keys)

-- `signer` is what RecordHandler::getSignerAccountId returns for the record.
unfoldable pub validate_tx_signatures :
    (ℕ → Bytes → Bytes → Bytes → Bool) → Roe ℕ → Record → Bool → Buffer → Done
unfolding verify_signatures_against_account
validate_tx_signatures verify signer rec is_strict bank =
    if length rec.signatures == 0 then err e_tx_signature else elim signer [
      | err e ↦ err e
      | ok id ↦ elim (get_account id bank) [
        | err _ ↦
            if is_strict
            then (if length bank == 0 && id == id_genesis then done else err e_account_not_found)
            else done
        | ok a ↦ verify_signatures_against_account verify rec.payload rec.signatures a
      ]
    ]

abbrev pub snd_all : Keys → List Bytes
snd_all keys = map (λ p. p.1) keys

module _ (verify : ℕ → Bytes → Bytes → Bytes → Bool) (key_type : ℕ) (message : Bytes) where
  -- A key that was free before, at a place, and is not afterwards; the keys stay the same.
  record Uses (signature : Bytes) (keys rest : Keys) : Type 0 where
    place : ℕ
    key : Bytes
    free : get_elem? keys place ≡ some (false, key)
    fits : verify key_type key message signature ≡ true
    same : snd_all rest ≡ snd_all keys
    later :
        (j : ℕ) (k : Bytes)
        → get_elem? rest j ≡ some (false, k)
        → (get_elem? keys j ≡ some (false, k)) × (j ≢ place)

  Uses-later :
      (signature : Bytes) (p : Bool × Bytes) (keys rest : Keys)
      → Uses signature keys rest
      → Uses signature (p ∷ keys) (p ∷ rest)
  Uses-later signature p keys rest u = record {
    place = suc u.place;
    key = u.key;
    free = u.free;
    fits = u.fits;
    same = ap (λ ks. p.1 ∷ ks) u.same;
    later = λ j k. at j k;
  }
    where
      at :
          (j : ℕ) (k : Bytes)
          → get_elem? (p ∷ rest) j ≡ some (false, k)
          → (get_elem? (p ∷ keys) j ≡ some (false, k)) × (j ≢ suc u.place)
      at zero k e = (e, λ q. omega (arith, q))
      at (suc j) k e = let (f, ne) = u.later j k e in (f, λ q. ne (omega (arith, q)))

  Uses-first :
      (signature key : Bytes) (keys : Keys)
      → verify key_type key message signature ≡ true
      → Uses signature ((false, key) ∷ keys) ((true, key) ∷ keys)
  Uses-first signature key keys e = record {
    place = 0;
    key = key;
    free = refl;
    fits = e;
    same = refl;
    later = λ j k. at j k;
  }
    where
      at :
          (j : ℕ) (k : Bytes)
          → get_elem? ((true, key) ∷ keys) j ≡ some (false, k)
          → (get_elem? ((false, key) ∷ keys) j ≡ some (false, k)) × (j ≢ 0)
      at zero k e = absurd (ground (arith, e))
      at (suc j) k e = (e, λ q. omega (arith, q))

  use_key-Uses :
      (signature : Bytes) (keys rest : Keys)
      → use_key verify key_type message signature keys ≡ some rest
      → Uses signature keys rest
  unfolding use_key
  use_key-Uses signature [] rest h = absurd (ground (arith, h))
  use_key-Uses signature ((true, key) ∷ keys) rest h =
      elim (Option-cases (use_key verify key_type message signature keys)) [
        | inl none_later ↦ absurd (ground (arith, none_later, h))
        | inr (more, later) ↦
            let same : (true, key) ∷ more ≡ rest = ground (arith, later, h) in
            subst (Uses signature ((true, key) ∷ keys)) same
              (Uses-later signature (true, key) keys more (use_key-Uses signature keys more later))
      ]
  use_key-Uses signature ((false, key) ∷ keys) rest h =
      elim (Bool-cases (verify key_type key message signature)) [
        | inl fits ↦
            let same : (true, key) ∷ keys ≡ rest = ground (arith, fits, h) in
            subst (Uses signature ((false, key) ∷ keys)) same (Uses-first signature key keys fits)
        | inr other ↦ elim (Option-cases (use_key verify key_type message signature keys)) [
          | inl none_later ↦ absurd (ground (arith, other, none_later, h))
          | inr (more, later) ↦
              let same : (false, key) ∷ more ≡ rest = ground (arith, other, later, h) in
              subst (Uses signature ((false, key) ∷ keys)) same (
                Uses-later signature (false, key) keys more
                  (use_key-Uses signature keys more later))
        ]
      ]

  abbrev IsFree : Keys → ℕ → Type 0
  IsFree keys i = (k : Bytes) × (get_elem? keys i ≡ some (false, k))

  get_elem?-snd :
      (keys : Keys) (i : ℕ) (p : Bool × Bytes)
      → get_elem? keys i ≡ some p
      → get_elem? (snd_all keys) i ≡ some p.1
  get_elem?-snd [] i p e = absurd (ground (arith, e))
  get_elem?-snd (q ∷ keys) zero p e =
      let same : q ≡ p = ground (arith, e) in ap (λ (r : Bool × Bytes). some r.1) same
  get_elem?-snd (q ∷ keys) (suc i) p e = get_elem?-snd keys i p e

  earlier :
      (signature : Bytes) (keys rest : Keys) (u : Uses signature keys rest) (places : List ℕ)
      → All (IsFree rest) places
      → All (IsFree keys) places × All (λ j. j ≢ u.place) places
  earlier signature keys rest u [] a = (tt, tt)
  earlier signature keys rest u (j ∷ places) ((k, e), a) =
      let (f, ne) = u.later j k e in
      let (fs, nes) = earlier signature keys rest u places a in (((k, f), fs), (ne, nes))

  use_keys_lem :
      (signatures : List Bytes) (keys : Keys)
      → use_keys verify key_type message signatures keys ≡ done
      → (places : List ℕ) × Signs verify key_type message (snd_all keys) signatures places
        × Distinct places
        × All (IsFree keys) places
  unfolding use_keys
  use_keys_lem [] keys h = ([], tt, tt, tt)
  use_keys_lem (s ∷ signatures) keys h =
      elim (Option-cases (use_key verify key_type message s keys)) [
        | inl none_fits ↦ absurd (ground (arith, none_fits, h))
        | inr (rest, used) ↦
            let u = use_key-Uses s keys rest used in
            let (places, signs, distinct, free) =
              use_keys_lem signatures rest (ground (arith, used, h)) in
            let (frees, others) = earlier s keys rest u places free in
            (
              u.place ∷ places,
              (
                (u.key, get_elem?-snd keys u.place (false, u.key) u.free, u.fits),
                subst (λ ks. Signs verify key_type message ks signatures places) u.same signs,
              ),
              (others, distinct),
              ((u.key, u.free), frees),
            )
      ]

snd_all_unused : (keys : List Bytes) → snd_all (map (λ key. (false, key)) keys) ≡ keys
snd_all_unused [] = refl
snd_all_unused (k ∷ keys) = ap (λ ks. k ∷ ks) (snd_all_unused keys)

-- Signatures that are accepted for an account are at least as many as its wallet asks for, and each is one
-- of the message under the key at some place of the wallet's list, no two at the same place. A key that the
-- list repeats counts once for each place.
pub verify_signatures_against_account_sound :
    (verify : ℕ → Bytes → Bytes → Bytes → Bool) (message : Bytes) (signatures : List Bytes)
    (a : Account)
    → verify_signatures_against_account verify message signatures a ≡ done
    → (a.wallet.min_signatures ≤ length signatures)
      × ((places : List ℕ) × Signs verify a.wallet.key_type message a.wallet.public_keys signatures
            places
          × Distinct places)
unfolding verify_signatures_against_account
verify_signatures_against_account_sound verify message signatures a h =
    elim (Bool-cases (ltb (length signatures) a.wallet.min_signatures)) [
      | inl few ↦ absurd (ground (arith, few, h))
      | inr enough ↦
          let (places, signs, distinct, free) =
            use_keys_lem verify a.wallet.key_type message signatures
              (map (λ key. (false, key)) a.wallet.public_keys) (ground (arith, enough, h)) in
          (
            ground (arith, enough),
            (
              places,
              subst (λ ks. Signs verify a.wallet.key_type message ks signatures places)
                  (snd_all_unused a.wallet.public_keys) signs,
              distinct,
            ),
          )
    ]
