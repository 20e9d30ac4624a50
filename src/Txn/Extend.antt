-- ===== src/Txn/Extend.antt =====
-- src/freelist.c: `freelist_allocate_block` with an empty free list. The file grows, the first of its
-- new blocks is the result, and the others are on the list.
use mathlib.Core.Path.{subst}
use mathlib.Core.List.{Memᴰ}
use mathlib.Core.List.Memᴰ.{head, tail}
use everdb_native.Base.{
  ℕ, zero, suc, ◌+◌, ◌*◌, ◌^◌, ◌≤◌, ◌<◌, ◌≡◌, ◌∙◌, refl, true, false, some, List, [], ◌∷◌, ltb,
  arith, length, sym, ap, inl, inr, Bool-cases,
}
use everdb_native.Base.Word.{add32}
use everdb_native.Memory.{Mem, u32_bytes}
use everdb_native.Memory.Ranges.{AreBytes-u32_bytes}
use everdb_native.MemHash.{MemHash, mem_hash_set}
use everdb_native.Core.{Db, TxnState, Blocks, IsWritable, block_addr}
use everdb_native.Core.Words.{Inside, Apart, block_addr_small}
use everdb_native.Io.{Os, bytes_of}
use everdb_native.Io.Resize.{IsReliable, Resized, io_resize-Resized}
use everdb_native.Array.{small_bytes}
use everdb_native.Array.Small.{IsSmall}
use everdb_native.Array.Moved.{SameBytes, IsSmall-moved}
use everdb_native.Array.Stack.{array_push-Pushed}
use everdb_native.Freelist.{
  u32_rounds, set_freelist, grown, push_blocks, extend_file, freelist_allocate_block,
}
use everdb_native.Freelist.View.{stack, push_all, IsUnique}
use everdb_native.Txn.{
  allocated, check_txn, set_block_state, set_head, txn_allocate_block, txn_modify_block,
}
use everdb_native.Txn.Copy.{Copied, copy_and_mark}
use everdb_native.Txn.States.{InState, check_txn-open, block_state-known}
use everdb_native.MemHash.Map.{IsValid}
use everdb_native.MemHash.Grow.{HasRoomFor}
use everdb_native.Txn.Release.{Grown, Pushed-Grown, Grown-none}
use everdb_native.Run.{ok}
use everdb_native.Run.Returns
use everdb_native.Run.Returns.{Returns, returns}

-- The `r` numbers from `i` on.
abbrev pub upto : (i r : ℕ) → List ℕ
upto i zero = []
upto i (suc r) = i ∷ upto (i + 1) r

pub length-upto : (i r : ℕ) → length (upto i r) ≡ r
length-upto i zero = refl
length-upto i (suc r) = omega (arith, length-upto (i + 1) r)

pub upto_range : (i r b : ℕ) → Memᴰ b (upto i r) → (i ≤ b) × (b < i + r)
upto_range i zero b m = elim m [ ]
upto_range i (suc r) b (head e) = omega (arith, e)
upto_range i (suc r) b (tail m) = omega (arith, upto_range (i + 1) r b m)

pub upto-IsUnique : (i r : ℕ) → IsUnique (upto i r)
upto-IsUnique i zero = tt
upto-IsUnique i (suc r) =
    ((λ m. absurd (omega (arith, upto_range (i + 1) r i m))), upto-IsUnique (i + 1) r)

module _ (os : Os) (B : Blocks) (db : Db) (word : db.nblocks < 2 ^ 32) where
  -- The loop over the new blocks ends and pushes each of them.
  push_blocks-Grown :
      (r fuel i n : ℕ) (m : Mem)
      → i + r ≡ db.nblocks
      → r < fuel
      → IsSmall m db.freelist 4 n
      → (n + r) * 4 ≤ small_bytes
      → Returns
          (λ _ e. (e ≡ record db { mem = e.mem }) × Grown m e.mem db.freelist n (upto i r))
          (push_blocks os B fuel i (record db { mem = m }))
  unfolding push_blocks
  push_blocks-Grown r zero i n m at more list room = absurd (omega arith)
  push_blocks-Grown zero (suc fuel) i n m at more list room =
      let last : ltb i db.nblocks ≡ false = ground arith in
      rw last (returns (refl, Grown-none m db.freelist n list))
  push_blocks-Grown (suc r) (suc fuel) i n m at more list room =
      let go : ltb i db.nblocks ≡ true = ground arith in
      let succ : add32 i 1 ≡ i + 1 = unfold add32 in omega arith in
      rw (go, succ)
        (Returns.bind
          (array_push-Pushed B (record db { mem = m }) db.freelist 4 n list (u32_bytes i)
            (omega arith) (unfold u32_bytes in refl) (AreBytes-u32_bytes i))
          λ _ d (only, p).
            subst
              (λ x.
                Returns
                  (λ _ e.
                    (e ≡ record db { mem = e.mem })
                    × Grown m e.mem db.freelist n (i ∷ upto (i + 1) r))
                  (push_blocks os B fuel (i + 1) x))
              (sym only)
              (Returns.mono
                (push_blocks-Grown r fuel (i + 1) (n + 1) d.mem (omega arith) (omega arith) p.small
                  (omega arith))
                λ _ e (same, g). (
                  same,
                  Pushed-Grown m d.mem e.mem db.freelist n i (upto (i + 1) r) (omega arith) p g,
                )))

-- The file has grown to `n` blocks, and the block `b` is the first of the new ones; the others are on the free
-- list, which was empty. Below the new size only the free list's root has changed.
pub record Extended (n r : ℕ) (db : Db) (b : ℕ) (e : Db) : Type 0 where
  pub first : b ≡ db.nblocks
  pub state : e ≡ record db {
    mapped = e.mapped;
    writable = e.writable;
    mem = e.mem;
    filesize = e.filesize;
    nblocks = n;
  }
  pub list : IsSmall e.mem db.freelist 4 r
  pub items : stack e.mem db.freelist r ≡ push_all (upto (db.nblocks + 1) r) []
  pub kept : (p : ℕ) → p < n * 4096 → ¬ Inside db.freelist p → e.mem p ≡ db.mem p

module _ (os : Os) (B : Blocks) (reliable : IsReliable os) (db : Db) (r : ℕ)
    (size : db.nblocks + 1 + r ≡ grown db.nblocks) (some_blocks : 4 ≤ db.nblocks)
    (small : grown db.nblocks < 2 ^ 20) (room : r * 4 ≤ small_bytes) (root : db.freelist ≡ 2)
    (list : IsSmall db.mem db.freelist 4 0) where
  state_after_resize :
      (d : Db)
      → Resized (grown db.nblocks) db d
      → d ≡ record db {
        mapped = d.mapped;
        writable = d.writable;
        mem = d.mem;
        filesize = d.filesize;
        nblocks = grown db.nblocks;
      }
  state_after_resize d s = ground (
    arith, s.nblocks, s.session.readonly, s.session.h_file, s.session.freelist, s.session.objlist,
    s.session.txn_id, s.session.txn,
  )

  -- After the resize to `d` and the loop to `e`.
  extended :
      (d e : Db)
      → Resized (grown db.nblocks) db d
      → e ≡ record d { mem = e.mem }
      → Grown d.mem e.mem d.freelist 0 (upto (db.nblocks + 1) r)
      → Extended (grown db.nblocks) r db db.nblocks e
  extended d e s only g =
      let bs = upto (db.nblocks + 1) r in
      let whole : bytes_of (grown db.nblocks) ≡ grown db.nblocks * 4096 =
        unfold bytes_of in omega arith in
      let count : 0 + length bs ≡ r = omega (arith, length-upto (db.nblocks + 1) r) in
      let h : Grown d.mem e.mem db.freelist 0 bs =
        subst (λ x. Grown d.mem e.mem x 0 bs) s.session.freelist g in
      let state = state_after_resize d s in
      record {
        first = refl;
        state = ground (arith, only, state);
        list = subst (IsSmall e.mem db.freelist 4) count h.list;
        items = subst (λ k. stack e.mem db.freelist k ≡ push_all bs []) count h.items;
        kept = λ p lt out.
            h.outside p (elim (Bool-cases (ltb p (block_addr db.freelist))) [
              | inl below ↦ inl (ground arith)
              | inr above ↦ inr (ground (arith, out))
            ])
            ∙ s.kept p (omega (arith, whole));
      }

  extend_file-Extended : Returns (Extended (grown db.nblocks) r db) (extend_file os B db)
  unfolding extend_file
  extend_file-Extended =
      let n = grown db.nblocks in
      let whole : bytes_of n ≡ n * 4096 = unfold bytes_of in omega arith in
      let next : add32 db.nblocks 1 ≡ db.nblocks + 1 = unfold add32 in omega arith in
      Returns.bind (io_resize-Resized os reliable n db (omega (arith, whole)) (omega arith))
        λ _ d s.
          let root_addr = block_addr_small 2 (omega arith) in
          let same : SameBytes db.mem d.mem db.freelist db.freelist =
            λ o lt. s.kept _ (rw root (omega (arith, whole, root_addr))) in
          let moved = IsSmall-moved db.mem d.mem db.freelist db.freelist 4 0 same list in
          let whole_state = state_after_resize d s in
          rw next (
            Returns.bind
              (push_blocks-Grown os B d (rw s.nblocks (omega arith)) r u32_rounds (db.nblocks + 1) 0
                d.mem (size ∙ sym s.nblocks) (unfold u32_rounds in omega arith)
                (rw s.session.freelist moved) (omega (arith, room)))
              λ _ e (only, g). returns (extended d e s only g))

  freelist_allocate_block-Extended :
      IsWritable B db db.freelist
      → Returns (Extended (grown db.nblocks) r db) (freelist_allocate_block os B db)
  unfolding freelist_allocate_block set_freelist
  freelist_allocate_block-Extended own = rw (own db refl, list.length) extend_file-Extended

  pub txn_allocate_block-extends :
      (t : TxnState) (ts : List TxnState) (table : MemHash)
      → db.txn ≡ t ∷ ts
      → IsWritable B db db.freelist
      → mem_hash_set t.blocks db.nblocks allocated ≡ some table
      → Returns
          (λ b e.
            (d : Db) × Extended (grown db.nblocks) r db b d
            × (e ≡ record d { txn = record t { blocks = table } ∷ ts }))
          (txn_allocate_block os B db)
  unfolding txn_allocate_block set_block_state set_head
  txn_allocate_block-extends t ts table current own set = rw (check_open current) (
      Returns.bind (freelist_allocate_block-Extended own) λ b d x.
        let txn : d.txn ≡ t ∷ ts = ap (λ (y : Db). y.txn) x.state ∙ current in
        let marked : mem_hash_set t.blocks b allocated ≡ some table =
          subst (λ y. mem_hash_set t.blocks y allocated ≡ some table) (sym x.first) set in
        rw (txn, marked) (returns (d, x, refl)))
    where
      check_open : db.txn ≡ t ∷ ts → check_txn db ≡ ok tt db
      check_open e = unfold check_txn in rw e

  -- With an empty free list, the copy of a block that the transaction has not touched goes to the first new block.
  pub txn_modify_block-extends :
      (t : TxnState) (ts : List TxnState) (b : ℕ)
      → InState db t ts b 0
      → IsValid t.blocks
      → IsWritable B db db.freelist
      → Apart b db.freelist
      → Apart b db.nblocks
      → Apart db.nblocks db.freelist
      → HasRoomFor t.blocks db.nblocks
      → Returns
          (λ c e.
            (d : Db) × Extended (grown db.nblocks) r db c d
            × (e ≡ record d { mem = e.mem; txn = e.txn })
            × Copied d.mem db.freelist t ts b db.nblocks r e)
          (txn_modify_block os B b db)
  unfolding txn_modify_block
  txn_modify_block-extends t ts b at valid own far apart aside has =
      simp (check_txn-open os B db at, block_state-known os B db at)
        (Returns.bind (freelist_allocate_block-Extended own) λ c d x.
          let txn : d.txn ≡ t ∷ ts = ap (λ (y : Db). y.txn) x.state ∙ at.current in
          rw x.first (
            Returns.mono
              (copy_and_mark t ts b db.nblocks db.freelist r valid far apart aside (omega arith) d
                d.mem d.mem txn (λ p away. refl) x.list (λ j lt. refl) has)
              λ c' e (same, state, copied). (
                d,
                subst (λ y. Extended (grown db.nblocks) r db y d) (x.first ∙ sym same) x,
                state,
                copied,
              )))
