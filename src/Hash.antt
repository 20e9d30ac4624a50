-- ===== src/Hash.antt =====
-- src/hash.h, src/hash.c: the on-disk hash is a stub. `hash_get` and `hash_set` return -1 always.
use everdb_native.Base.{ℕ, ◌+◌, List}
use everdb_native.Base.Word.{minus}
use everdb_native.Memory.{Mem, load32}
use everdb_native.Core.{Db, block_addr}
use everdb_native.Page.{page_init}
use everdb_native.Run.{M, fail}

unfoldable pub hash_hash : List ℕ → ℕ
hash_hash bytes = 0

unfoldable pub hash_init : ℕ → M Db (Unit {0})
hash_init root = page_init root

-- The header {level, split, nitems} stands in front of the page header.
unfoldable pub hash_nitems : Mem → ℕ → ℕ
hash_nitems m root = load32 m (block_addr root + 4088)

unfoldable pub hash_get : ℕ → List ℕ → M Db (List ℕ)
hash_get root key = fail (minus 1)

unfoldable pub hash_set : ℕ → List ℕ → List ℕ → M Db (Unit {0})
hash_set root key value = fail (minus 1)
