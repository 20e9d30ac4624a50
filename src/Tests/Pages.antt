-- ===== src/Tests/Pages.antt =====
-- Page tables at concrete inputs: the table at block 4 has the one data block 9.
use everdb_native.Base.{◌≡◌, refl}
use everdb_native.Memory.{Mem, store32}
use everdb_native.Page.{page_read_host_index, page_write_host_index}
use everdb_native.Page.Index.{looked_up, page_write_host_index-page_read_host_index}
use everdb_native.Tests.Data.{in_place, holding}

abbrev table_mem : Mem
table_mem = store32 (store32 (λ p. 0) 20476 1) 16384 9

page_write_host_index_example :
    page_write_host_index in_place 4 0 (holding table_mem)
    ≡ looked_up (page_read_host_index table_mem 4 0) (holding table_mem)
page_write_host_index_example =
    page_write_host_index-page_read_host_index in_place (holding table_mem) 4 0 (λ b on. refl)
