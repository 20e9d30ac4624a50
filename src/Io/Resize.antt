-- ===== src/Io/Resize.antt =====
-- Every outcome of `io_resize`, and its sizes.
use mathlib.Core.Path.{subst}
use everdb_native.Base.{
  ℕ, ◌*◌, ◌^◌, ◌≤◌, ◌<◌, ◌≡◌, ◌≢◌, ◌⊎◌, inl, inr, refl, true, false, Bool, ◌==◌, leb, ltb,
  if◌then◌else◌, arith, Bool-cases,
}
use everdb_native.Base.Word.{minus}
use everdb_native.Memory.{Mem}
use everdb_native.Core.{Db}
use everdb_native.Io.{
  Os, err_size_max, io_map_close, resize_failed, bytes_of, grow_file, cut_file, map_file, io_resize,
}
use everdb_native.Run.{Outcome, ok, fail, hung, crashed}
use everdb_native.Run.Returns
use everdb_native.Run.Returns.{Returns, returns}

-- The fields that no resize touches.
pub record SameSession (db db' : Db) : Type 0 where
  pub readonly : db'.readonly ≡ db.readonly
  pub h_file : db'.h_file ≡ db.h_file
  pub freelist : db'.freelist ≡ db.freelist
  pub objlist : db'.objlist ≡ db.objlist
  pub txn_id : db'.txn_id ≡ db.txn_id
  pub txn : db'.txn ≡ db.txn

-- The file is mapped with `n` blocks, writable if the handle is not read-only. Its bytes up to the new size are as they were, and behind it
-- as they were or, in a cut file, 0.
pub record Resized (n : ℕ) (db db' : Db) : Type 0 where
  pub mapped : db'.mapped ≡ true
  pub writable : db'.writable ≡ (db.readonly == 0)
  pub nblocks : db'.nblocks ≡ n
  pub filesize : db'.filesize ≡ bytes_of n
  pub kept : (p : ℕ) → p < bytes_of n → db'.mem p ≡ db.mem p
  pub cut : bytes_of n < db.filesize → (p : ℕ) → bytes_of n ≤ p → db'.mem p ≡ 0
  pub session : SameSession db db'

-- The database is unmapped and has no blocks.
pub record Unmapped (db db' : Db) : Type 0 where
  pub mapped : db'.mapped ≡ false
  pub nblocks : db'.nblocks ≡ 0
  pub filesize : db'.filesize ≡ 0
  pub session : SameSession db db'

-- What `io_resize` may end in: done; refused at once, with nothing changed, exactly for a size out of
-- range; or failed in one of the three calls, with nothing mapped.
abbrev pub Resizes : (n : ℕ) → Db → Outcome Db (Unit {0}) → Type 0
Resizes n db (ok _ db') = (n < 0xffffff00) × Resized n db db'
Resizes n db (fail e db') =
    ((0xffffff00 ≤ n) × (e ≡ err_size_max) × (db' ≡ db))
    ⊎ ((n < 0xffffff00) × ((e ≡ minus 11) ⊎ ((e ≡ minus 12) ⊎ (e ≡ minus 9))) × Unmapped db db')
Resizes n db hung = ⊥
Resizes n db crashed = ⊥

module _ (os : Os) (size : ℕ) (db : Db) where
  grow_file_cases : (grow_file os size db ≡ ok tt db) ⊎ (grow_file os size db ≡ fail (minus 11) db)
  unfolding grow_file
  grow_file_cases = elim (Bool-cases (ltb db.filesize size)) [
    | inr enough ↦ inl (rw enough)
    | inl short ↦ elim (Bool-cases (os.posix_fallocate db size == 0)) [
      | inl e ↦ inl (rw (short, e))
      | inr e ↦ inr (rw (short, e))
    ]
  ]

  -- The bytes from `size` on are cut off.
  abbrev cut_at : Db
  cut_at = record db { mem = λ p. if ltb p size then db.mem p else 0 }

  cut_file_cases :
      ((db.filesize ≤ size) × (cut_file os size db ≡ ok tt db))
      ⊎ ((cut_file os size db ≡ ok tt cut_at) ⊎ (cut_file os size db ≡ fail (minus 12) db))
  unfolding cut_file
  cut_file_cases = elim (Bool-cases (ltb size db.filesize)) [
    | inr fits ↦ inl (ground arith, rw fits)
    | inl long ↦ elim (Bool-cases (os.ftruncate db size)) [
      | inl e ↦ inr (inl (rw (long, e)))
      | inr e ↦ inr (inr (rw (long, e)))
    ]
  ]

  map_file_cases :
      (map_file os size db ≡ ok tt (record db { mapped = true; writable = db.readonly == 0 }))
      ⊎ (map_file os size db ≡ fail (minus 9) db)
  unfolding map_file
  map_file_cases = elim (Bool-cases (os.mmap db size)) [ inl e ↦ inl (rw e) | inr e ↦ inr (rw e) ]

module _ (os : Os) (n : ℕ) (db : Db) where
  -- Whatever the operating system does, `io_resize` ends, in success with the file mapped at the new
  -- size, or refused as too large with nothing changed, or failed with the error of one of the three
  -- calls and nothing mapped.
  pub io_resize-Resizes : Resizes n db (io_resize os n db)
  unfolding io_resize io_map_close resize_failed
  io_resize-Resizes = elim (Bool-cases (leb 0xffffff00 n)) [
    | inl large ↦ rw large (inl (ground arith, refl, refl))
    | inr small ↦
        let range : n < 0xffffff00 = ground arith in
        let size = bytes_of n in
        let db₁ : Db = record db { mapped = false } in
        elim (grow_file_cases os size db₁) [
          | inr grow ↦ rw (small, grow) (inr (range, inl refl, unmapped _))
          | inl grow ↦ elim (cut_file_cases os size db₁) [
            | inl (fits, cut) ↦ elim (map_file_cases os size db₁) [
              | inr map ↦ rw (small, grow, cut, map) (inr (range, inr (inr refl), unmapped _))
              | inl map ↦
                  rw (small, grow, cut, map)
                    (
                      range,
                      record {
                        mapped = refl;
                        writable = refl;
                        nblocks = refl;
                        filesize = refl;
                        kept = λ p lt. refl;
                        cut = λ long p le. absurd (omega arith);
                        session = session _ _ _ _ _;
                      },
                    )
            ]
            | inr (inr cut) ↦ rw (small, grow, cut) (inr (range, inr (inl refl), unmapped _))
            | inr (inl cut) ↦ elim (map_file_cases os size (cut_at os size db₁)) [
              | inr map ↦ rw (small, grow, cut, map) (inr (range, inr (inr refl), unmapped _))
              | inl map ↦
                  rw (small, grow, cut, map)
                    (
                      range,
                      record {
                        mapped = refl;
                        writable = refl;
                        nblocks = refl;
                        filesize = refl;
                        kept = λ p lt. ground arith;
                        cut = λ long p le. ground arith;
                        session = session _ _ _ _ _;
                      },
                    )
            ]
          ]
        ]
  ]
    where
      session :
          (m w : Bool) (bytes : Mem) (f k : ℕ)
          → SameSession db
              (record db { mapped = m; writable = w; mem = bytes; filesize = f; nblocks = k })
      session m w bytes f k = record {
        readonly = refl;
        h_file = refl;
        freelist = refl;
        objlist = refl;
        txn_id = refl;
        txn = refl;
      }

      unmapped :
          (bytes : Mem)
          → Unmapped db (record db { mapped = false; mem = bytes; filesize = 0; nblocks = 0 })
      unmapped bytes = record {
        mapped = refl;
        nblocks = refl;
        filesize = refl;
        session = session _ _ _ _ _;
      }

-- An operating system whose calls succeed: `mmap` does except for an empty range.
pub record IsReliable (os : Os) : Type 0 where
  pub fallocates : (db : Db) (size : ℕ) → os.posix_fallocate db size ≡ 0
  pub truncates : (db : Db) (size : ℕ) → os.ftruncate db size ≡ true
  pub maps : (db : Db) (size : ℕ) → size ≢ 0 → os.mmap db size ≡ true

module _ (os : Os) (reliable : IsReliable os) (size : ℕ) (db : Db) where
  grow_file_reliable : grow_file os size db ≡ ok tt db
  unfolding grow_file
  grow_file_reliable =
      rw (reliable.fallocates db size)
        (elim (Bool-cases (ltb db.filesize size)) [ inl e ↦ rw e | inr e ↦ rw e ])

  cut_file_reliable : (db' : Db) × (cut_file os size db ≡ ok tt db')
  unfolding cut_file
  cut_file_reliable = elim (Bool-cases (ltb size db.filesize)) [
    | inl e ↦ (cut_at os size db, rw (e, reliable.truncates db size))
    | inr e ↦ (db, rw e)
  ]

  map_file_reliable :
      size ≢ 0
      → map_file os size db ≡ ok tt (record db { mapped = true; writable = db.readonly == 0 })
  unfolding map_file
  map_file_reliable filled = rw (reliable.maps db size filled)

module _ (os : Os) (reliable : IsReliable os) (n : ℕ) (db : Db) where
  succeeds : bytes_of n ≢ 0 → n < 0xffffff00 → (db' : Db) × (io_resize os n db ≡ ok tt db')
  unfolding io_resize io_map_close
  succeeds filled range =
      let small : leb 0xffffff00 n ≡ false = ground arith in
      let size = bytes_of n in
      let db₁ : Db = record db { mapped = false } in
      let (db₂, cut) = cut_file_reliable os reliable size db₁ in
      (
        record db₂ { mapped = true; writable = db₂.readonly == 0; filesize = size; nblocks = n },
        rw (
          small,
          grow_file_reliable os reliable size db₁,
          cut,
          map_file_reliable os reliable size db₂ filled,
        ),
      )

  -- On a reliable system `io_resize` succeeds for every size in range whose number of bytes is not a
  -- multiple of 2 ^ 32, and the file then has the number of bytes that the 32-bit shift gives.
  pub io_resize-Resized :
      bytes_of n ≢ 0 → n < 0xffffff00 → Returns (λ _ db'. Resized n db db') (io_resize os n db)
  io_resize-Resized filled range =
      let (db', e) = succeeds filled range in
      rw e (returns (subst (Resizes n db) e (io_resize-Resizes os n db)).1)

-- On a reliable system a resize to 2 ^ 20 blocks or more, within the range and with a number of bytes
-- that is not a multiple of 2 ^ 32, succeeds and leaves a file that is too short for its blocks.
pub io_resize_wraps :
    (os : Os) (n : ℕ) (db : Db)
    → IsReliable os
    → 2 ^ 20 ≤ n
    → n < 0xffffff00
    → bytes_of n ≢ 0
    → Returns (λ _ db'. (db'.nblocks ≡ n) × (db'.filesize < db'.nblocks * 4096)) (io_resize os n db)
unfolding bytes_of
io_resize_wraps os n db reliable large range filled =
    Returns.mono (io_resize-Resized os reliable n db filled range)
      λ _ db' r. (r.nblocks, ground (arith, r.nblocks, r.filesize))
