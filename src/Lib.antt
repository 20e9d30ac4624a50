-- ===== src/Lib.antt =====
-- A model of everdb-native, an embedded database: one file of 4096-byte blocks, mapped into memory,
-- with transactions by copy-on-write, page tables, arrays and B+ trees.
--
-- The state is the record `Db` of Core (src/core.h, `edb_t`). The contents of the mapping are one
-- function from addresses to bytes; a pointer into it is an address, and a `u32` field is read and
-- written in its four bytes. A function that can fail is a state transformer with an outcome (Run): a
-- result, an error code, a call that does not end, or undefined behaviour. The state at an error is the
-- state that the C code leaves behind. Numbers are natural numbers, and arithmetic on `u32` wraps
-- around where it is written with `add32`, `sub32`, `mul32` or `% 2 ^ 32`.
--
-- Which file models which part:
--   Memory, Run, Base   bytes and words, outcomes, shared lemmas
--   Core                src/core.h, src/types.h, src/util.h: the handle and block addresses
--   MemHash             src/mem_hash.h: the table of block states of a transaction
--   Io                  src/io.c, the Linux half: opening, closing and resizing the file
--   Math                src/math.h
--   Page                src/page.h, src/page.c: page tables of one and two levels
--   Array               src/array.h, src/array.c: arrays in one block or in a page table
--   Hash                src/hash.h, src/hash.c: the stubs of the hash on disk
--   BTree               src/btree.h, src/btree.c: nodes, then Read, Write and Pop
--   Freelist            src/freelist.c
--   Txn                 src/txn.c: block functions, then Begin, Commit and Abort
--   Edb                 src/edb.c: the public interface, object handles in Edb.Objects
--
-- A definition has the name of the C function. A part of a long function, such as a branch or the body
-- of a loop, is a definition of its own. The other files of a folder hold proofs and are named for what
-- they prove; Tests holds runs of the whole program and the lemmas at concrete inputs.
--
-- How the parts interact: page tables, arrays and trees call the block functions of the current
-- transaction (allocate, modify, free), these call the free list, and the free list is an array and
-- calls the block functions again. The data structures take the block functions as the record `Blocks`,
-- and the growth of a tree takes what it needs of them as the laws of Core.Allocator, which Txn.Room shows
-- for a transaction.
-- Txn ties the knot: `blocks os d` are the block functions whose calls nest at most `d` deep.
--
-- Parameters. The calls of the operating system are the record `Os`: whether each succeeds in a state.
-- What is said of a working system is `IsReliable`: the calls succeed, and `mmap` does for a range that
-- is not empty.
--
-- Bounds and fuel. The binary search takes at most as many rounds as the node has entries. The probe
-- loop of the table has 2 ^ 32 rounds, after which its counter is back at its start; the loops over
-- blocks and table entries have 2 ^ 32 rounds, which a `u32` counter does not exceed. `page_resize` has
-- one round for each block. The functions on trees take the depth of the recursion, for which the height
-- of the tree is enough. Where the fuel runs out the outcome is `hung`, never a result.
--
-- The steps of a transaction (Txn.Step) are calls on a table of at most 315 keys with low hashes, for
-- which the probe loop and the resizes end, and on a free list in its root block: copies of user blocks and
-- of the object list's root, writes, releases of blocks and of copies, allocations, and changes of the field
-- `objlist`. An empty free list makes the file grow. The theorems on commits leave out a transaction that
-- has copied the object list's root; those on aborts do not.
--
-- Not modelled: the fault of a write through a mapping without PROT_WRITE (`writable` of the handle says how
-- the last mapping was made); the Windows code; logging; a failing `malloc`; the address at which the file is mapped,
-- and with it a pointer kept over a resize; reads and writes outside the mapping, which find bytes like
-- those inside it; the tests and the test framework.
pub mod Base
pub mod Memory
pub mod Run
pub mod MemHash
pub mod Core
pub mod Math
pub mod Io
pub mod Page
pub mod Array
pub mod Hash
pub mod BTree
pub mod Freelist
pub mod Txn
pub mod Edb
mod Tests
