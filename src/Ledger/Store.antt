-- ===== src/Ledger/Store.antt =====
-- What the ledger uses of its block store, with what it relies on, and a FileStore as such a store.
-- (The ledger's DirDirStore spreads blocks over many FileStores.)
use pp_ledger.Base.{ℕ, ◌+◌, ◌≤◌, ◌≡◌, ap, List, [], ◌∷◌, ◌++◌, none, some, length, get_elem?, inr}
use pp_ledger.Base.Roe.{Roe, ok, err}
use pp_ledger.Pack.Bytes.{Bytes}
use pp_ledger.Ledger.FileStore.{FileStore, append_block, read_block, IsStore, IsIndexed}
use pp_ledger.Ledger.FileStore.Writing.{append_block_lem}
use pp_ledger.Ledger.FileStore.Reading.{or_range, read_block_lem}

pub record BlockStore (S : Type 0) : Type 1 where
  pub append : Bytes → S → Roe ℕ × S
  pub count : S → ℕ
  pub read : ℕ → S → Roe Bytes
  -- The store has these entries, and it has room for one more.
  pub Holds : List Bytes → S → Type 0
  pub Fits : Bytes → S → Type 0
  pub append-Holds :
      (entries : List Bytes) (entry : Bytes) (s : S)
      → Holds entries s
      → Fits entry s
      → (t : S) × (append entry s ≡ (ok (length entries), t)) × Holds (entries ++ (entry ∷ [])) t
  pub count_lem : (entries : List Bytes) (s : S) → Holds entries s → count s ≡ length entries
  pub read_lem :
      (entries : List Bytes) (entry : Bytes) (i : ℕ) (s : S)
      → Holds entries s
      → get_elem? entries i ≡ some entry
      → read i s ≡ ok entry

-- A read that does not return counts as one that fails.
unfoldable pub file_read : ℕ → FileStore → Roe Bytes
file_read i s = elim (read_block i s) [ none ↦ err 0 | some (r, _) ↦ r ]

pub file_read_lem :
    (entries : List Bytes) (entry : Bytes) (i : ℕ) (s : FileStore)
    → IsStore entries s × IsIndexed entries s
    → get_elem? entries i ≡ some entry
    → file_read i s ≡ ok entry
unfolding file_read
file_read_lem entries entry i s (v, x) e =
    let (t, got, w, y) = read_block_lem entries i s v (inr x) in rw (got, file_read) (ap or_range e)

abbrev pub file_blocks : BlockStore FileStore
file_blocks = record {
  append = append_block;
  count = λ s. s.block_count;
  read = file_read;
  Holds = λ entries s. IsStore entries s × IsIndexed entries s;
  Fits = λ entry s. s.current_size + (8 + length entry) ≤ s.max_size;
  append-Holds = λ entries entry s (v, x) fits.
      let (t, e, w, y) = append_block_lem entries entry s v x fits in (t, e, (w, y));
  count_lem = λ entries s (v, x). x.counted;
  read_lem = file_read_lem;
}
