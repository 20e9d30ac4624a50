-- ===== src/Io.antt =====
-- src/io.c, the Linux half: the file and its mapping. The operating system's calls are the
-- parameters of `Os`: each says whether the call succeeds in a state.
pub mod Resize
use everdb_native.Base.{
  ℕ, ◌+◌, ◌*◌, ◌/◌, ◌%◌, ◌^◌, Bool, true, false, ◌&&◌, Option, none, some, List, [], ◌∷◌, ◌==◌, leb,
  ltb, if◌then◌else◌,
}
use everdb_native.Base.Word.{minus}
use everdb_native.Memory.{Mem}
use everdb_native.Core.{Db, block_size}
use everdb_native.Run.{M, Outcome, ok, fail, ◌>>=◌, ◌>>◌, done, gets, modify, check_code, attempt}

abbrev pub err_file_open : ℕ
err_file_open = 2001

abbrev pub err_file_size : ℕ
err_file_size = 2002

abbrev pub err_size_max : ℕ
err_size_max = 2003

-- What `open` and `fstat` give: the descriptor, the size if `fstat` succeeds, and the contents.
pub record OpenFile : Type 0 where
  pub fd : ℕ
  pub size : Option ℕ
  pub contents : Mem

-- `open fname readonly overwrite`; `posix_fallocate` gives its error number.
pub record Os : Type 0 where
  pub open_file : List ℕ → ℕ → ℕ → Option OpenFile
  pub posix_fallocate : Db → ℕ → ℕ
  pub ftruncate : Db → ℕ → Bool
  pub mmap : Db → ℕ → Bool

-- memset(db, 0, sizeof(edb)), with the file left as it is
unfoldable pub zeroed : Db → Db
zeroed db = record {
  readonly = 0;
  h_file = 0;
  mapped = false;
  writable = false;
  mem = db.mem;
  filesize = 0;
  nblocks = 0;
  freelist = 0;
  objlist = 0;
  txn_id = 0;
  txn = [];
}

unfoldable pub io_map_close : M Db (Unit {0})
io_map_close db = ok tt (record db { mapped = false })

unfoldable pub io_close : M Db (Unit {0})
io_close = do
  io_map_close
  modify λ db. record db {
    h_file = if ltb db.h_file (2 ^ 31) then 0 else db.h_file;
    filesize = 0;
    nblocks = 0;
  }

-- The label `err` of `io_resize`.
unfoldable pub resize_failed : ℕ → M Db (Unit {0})
resize_failed e = do
  io_map_close
  modify λ db. record db { filesize = 0; nblocks = 0 }
  check_code false e

-- The shift is one of 32-bit words.
unfoldable pub bytes_of : ℕ → ℕ
bytes_of nblocks = nblocks * block_size % 2 ^ 32

-- `posix_fallocate` or `ftruncate`, and `mmap`: the error code of the first that fails.
module _ (os : Os) where
  unfoldable pub grow_file : ℕ → M Db (Unit {0})
  grow_file size db =
      if ltb db.filesize size
      then check_code (os.posix_fallocate db size == 0) (minus 11) db
      else ok tt db

  unfoldable pub cut_file : ℕ → M Db (Unit {0})
  cut_file size db =
      if ltb size db.filesize
      then (if os.ftruncate db size
          then ok tt (record db { mem = λ p. if ltb p size then db.mem p else 0 })
          else fail (minus 12) db)
      else ok tt db

  unfoldable pub map_file : ℕ → M Db (Unit {0})
  map_file size db =
      if os.mmap db size
      then ok tt (record db { mapped = true; writable = db.readonly == 0 })
      else fail (minus 9) db

  unfoldable pub io_resize : ℕ → M Db (Unit {0})
  io_resize nblocks =
      if leb 0xffffff00 nblocks
      then check_code false err_size_max
      else let size = bytes_of nblocks in
        io_map_close
        >> attempt (do grow_file size; cut_file size; map_file size)
            (λ _. modify λ db. record db { filesize = size; nblocks = nblocks }) resize_failed

  -- The body of `io_open` up to the label `err`.
  unfoldable pub open_blocks : List ℕ → ℕ → ℕ → M Db (Unit {0})
  open_blocks fname readonly overwrite db =
      let fresh = record (zeroed db) { h_file = minus 1 } in
      if leb 1 readonly && leb 1 overwrite
      then fail (minus 4) fresh
      else elim (os.open_file fname readonly overwrite) [
        | none ↦ fail err_file_open (record fresh { readonly = readonly })
        | some file ↦
            let opened = record fresh {
              readonly = readonly;
              h_file = file.fd;
              mem = file.contents;
            } in
            elim file.size [
              | none ↦ fail err_file_size opened
              | some size ↦
                  let sized = record opened { filesize = size } in
                  if size % block_size == 0
                  then (let nblocks = size / block_size % 2 ^ 32 in
                      io_resize (if nblocks == 0 then 1 else nblocks) sized)
                  else fail (minus 5) sized
            ]
      ]

  unfoldable pub io_open : List ℕ → ℕ → ℕ → M Db (Unit {0})
  io_open fname readonly overwrite =
      attempt (open_blocks fname readonly overwrite) (λ _. done)
        λ e. do io_close; modify zeroed; check_code false e
