-- ===== src/Tests/Files.antt =====
-- The file and `edb_open` at concrete inputs.
use everdb_native.Base.{ℕ, ◌*◌, ◌≡◌, ◌<◌, refl, arith, []}
use everdb_native.Io.{bytes_of, io_resize}
use everdb_native.Io.Resize.{
  IsReliable, Resizes, Resized, io_resize-Resizes, io_resize-Resized, io_resize_wraps,
}
use everdb_native.Edb.{edb_open}
use everdb_native.Edb.Create.{Created, edb_open-Created}
use everdb_native.Run.Returns.{Returns}
use everdb_native.Tests.Data.{blank, obliging}

pub obliging-IsReliable : (n : ℕ) → IsReliable (obliging n)
obliging-IsReliable n = record {
  fallocates = λ db size. refl;
  truncates = λ db size. refl;
  maps = λ db size filled. ground arith;
}

io_resize-Resizes_example : Resizes 6 blank (io_resize (obliging 0) 6 blank)
io_resize-Resizes_example = io_resize-Resizes (obliging 0) 6 blank

io_resize-Resized_example : Returns (λ _ db'. Resized 6 blank db') (io_resize (obliging 0) 6 blank)
unfolding bytes_of
io_resize-Resized_example =
    io_resize-Resized (obliging 0) (obliging-IsReliable 0) 6 blank (omega arith) (omega arith)

io_resize_wraps_example :
    Returns
      (λ _ db'. (db'.nblocks ≡ 1048577) × (db'.filesize < db'.nblocks * 4096))
      (io_resize (obliging 0) 1048577 blank)
unfolding bytes_of
io_resize_wraps_example =
    io_resize_wraps (obliging 0) 1048577 blank (obliging-IsReliable 0) (omega arith) (omega arith)
      (omega arith)

edb_open-Created_example : Returns (λ _ db'. Created db') (edb_open (obliging 0) [] 0 1 blank)
edb_open-Created_example =
    edb_open-Created (obliging 0) (obliging-IsReliable 0) [] blank 3 (λ p. p) refl
