-- ===== src/Page/Index.antt =====
-- `page_write_host_index` against `page_read_host_index`.
use everdb_native.Base.{ℕ, ◌≡◌, ◌⊎◌, inl, inr, refl, ◌==◌, leb, ltb, arith, Bool-cases}
use everdb_native.Memory.{Mem, load32}
use everdb_native.Core.{Db, Blocks, read32}
use everdb_native.Page.{
  index0, index1, data_at, index_at, level_one, table_nblocks, Lookup, found, missing,
  page_read_host_index, page_write_host_index,
}
use everdb_native.Run.{Outcome, ok, fail}

-- The blocks on the way to the block of an index.
abbrev pub OnPath : Mem → (root i b : ℕ) → Type 0
OnPath m root i b =
    (b ≡ root)
    ⊎ ((b ≡ load32 m (index_at root (index0 i))) ⊎ (page_read_host_index m root i ≡ found b))

-- The outcome of a lookup that changes nothing.
abbrev pub looked_up : Lookup → Db → Outcome Db ℕ
looked_up (found b) db = ok b db
looked_up (missing code b) db = fail code db

-- If the blocks on the way to an index are written in place, `page_write_host_index` gives what
-- `page_read_host_index` gives, with the same error, and changes nothing.
pub page_write_host_index-page_read_host_index :
    (B : Blocks) (db : Db) (root i : ℕ)
    → ((b : ℕ) → OnPath db.mem root i b → B.change b db ≡ ok b db)
    → page_write_host_index B root i db ≡ looked_up (page_read_host_index db.mem root i) db
unfolding page_write_host_index page_read_host_index read32
page_write_host_index-page_read_host_index B db root i own =
    elim (Bool-cases (leb (table_nblocks db.mem root) i)) [
      | inl out ↦ rw out
      | inr inside ↦ elim (Bool-cases (table_nblocks db.mem root == 0)) [
        | inl none_there ↦ absurd (ground arith)
        | inr some_there ↦ elim (Bool-cases (ltb i level_one)) [
          | inl first ↦ rw (
            inside,
            some_there,
            first,
            own root (inl refl),
            own (load32 db.mem (data_at root i)) (inr (inr (rw (inside, some_there, first)))),
          )
          | inr second ↦
              let page = load32 db.mem (index_at root (index0 i)) in
              rw (
                inside,
                some_there,
                second,
                own root (inl refl),
                own page (inr (inl refl)),
                own (load32 db.mem (data_at page (index1 i)))
                    (inr (inr (rw (inside, some_there, second)))),
              )
        ]
      ]
    ]
