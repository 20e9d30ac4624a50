-- ===== src/Tests/Data.antt =====
-- Handles, operating systems and block functions for the tests.
use everdb_native.Base.{ℕ, ◌*◌, ◌==◌, true, false, some, [], if◌then◌else◌}
use everdb_native.Memory.{Mem}
use everdb_native.Core.{Db, Blocks}
use everdb_native.Io.{Os}
use everdb_native.Run.{ok, fail}

abbrev pub blank : Db
blank = record {
  readonly = 0;
  h_file = 0;
  mapped = false;
  writable = false;
  mem = λ p. 0;
  filesize = 0;
  nblocks = 0;
  freelist = 0;
  objlist = 0;
  txn_id = 0;
  txn = [];
}

-- A handle whose file has these contents.
abbrev pub holding : Mem → Db
holding m = record blank { mem = m; mapped = true; nblocks = 16; freelist = 1 }

-- Every call of the operating system succeeds, `mmap` for a range that is not empty; the file has
-- `n` blocks.
abbrev pub obliging : ℕ → Os
obliging n = record {
  open_file = λ f r o. some (record { fd = 3; size = some (n * 4096); contents = λ p. p });
  posix_fallocate = λ db size. 0;
  ftruncate = λ db size. true;
  mmap = λ db size. if size == 0 then false else true;
}

-- Block functions that no test may call, but for changing a block in place.
abbrev pub in_place : Blocks
in_place = record { allocate = λ db. fail 1 db; change = λ b db. ok b db; free = λ b db. fail 1 db }
