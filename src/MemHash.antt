-- ===== src/MemHash.antt =====
-- src/mem_hash.h: the open-addressing hash table from u32 to u32 that holds the state of a
-- transaction's blocks. A function returns `none` where the C code does not return a defined
-- result: a probe loop that finds no slot, or the read past the end of HASH_SIZES.
pub mod Probe
pub mod Spread
pub mod Map
pub mod Merge
pub mod Grow
use Prim.Native.Nat.{bit_xor}
use everdb_native.Base.{
  ℕ, zero, suc, ◌+◌, ◌-◌, ◌*◌, ◌/◌, ◌%◌, ◌^◌, ◌≡◌, Bool, true, false, ◌||◌, ◌&&◌, Option, none,
  some, List, [], ◌∷◌, ◌==◌, leb, ltb, if◌then◌else◌, length, get_or, set, replicate,
}
use everdb_native.Base.Word.{add32, mul32}

pub record Item : Type 0 where
  pub k : ℕ
  pub v : ℕ

-- The capacity is the length of the array.
pub record MemHash : Type 0 where
  pub count : ℕ
  pub capacity : ℕ
  pub entries : List Item

abbrev pub item : ℕ → ℕ → Item
item k v = record { k = k; v = v }

abbrev pub unset : Item
unset = item 0 0

-- calloc(1, sizeof(mem_hash))
unfoldable pub new : MemHash
new = record { count = 0; capacity = 0; entries = [] }

-- The static table HASH_SIZES.
abbrev pub hash_sizes : List ℕ
hash_sizes =
    3 ∷ 7 ∷ 13 ∷ 23 ∷ 41 ∷ 71 ∷ 127 ∷ 223 ∷ 373 ∷ 631 ∷ 1061 ∷ 1777 ∷ 1801 ∷ 3011 ∷ 5021 ∷ 8369
    ∷ 13963 ∷ 23279 ∷ 38803 ∷ 64679 ∷ 107827 ∷ 179717 ∷ 299539 ∷ 499253 ∷ 832103 ∷ 1386839 ∷ 2311409
    ∷ 3852361 ∷ 6420683 ∷ []

-- `k = ((k >> 16) ^ k) * 0x45d9f3b` and the last line without the product
abbrev fold16 : ℕ → ℕ
fold16 k = bit_xor (k / 2 ^ 16) k

unfoldable pub hash : ℕ → ℕ
hash k = let k₁ = mul32 (fold16 k) 0x45d9f3b in let k₂ = mul32 (fold16 k₁) 0x45d9f3b in fold16 k₂

unfoldable pub probe : ℕ → ℕ → ℕ
probe h i = add32 h ((i * i + i) % 2 ^ 32 / 2)

unfoldable pub entry_at : MemHash → ℕ → Item
entry_at t slot = get_or t.entries slot unset

-- The test that ends both do-while loops: the entry is unset or has the key.
unfoldable pub stops : ℕ → Item → Bool
stops k e = (e.k == 0) || (e.k == k)

-- The do-while loop of `mem_hash_set` and `mem_hash_get`, from round `i` on. The counter is a u32.
unfoldable pub find_slot : ℕ → MemHash → (h k i : ℕ) → Option ℕ
find_slot zero t h k i = none
find_slot (suc fuel) t h k i =
    let slot = probe h i % t.capacity in
    let next = find_slot fuel t h k (add32 i 1) in
    if stops k (entry_at t slot) then some slot else next

-- After 2 ^ 32 rounds the counter is back at 0, so a loop that has not ended then never ends.
unfoldable pub probe_limit : ℕ
probe_limit = 2 ^ 32

-- The slot in which the loop for the key `k` ends.
unfoldable pub locate : MemHash → ℕ → Option ℕ
locate t k = find_slot probe_limit t (hash k) k 0

-- The loop over HASH_SIZES: the first size that is large enough.
unfoldable pub next_size : List ℕ → ℕ → Option ℕ
next_size [] wanted = none
next_size (n ∷ ns) wanted = if leb wanted n then some n else next_size ns wanted

abbrev pub doubled : MemHash → ℕ
doubled t = add32 (mul32 t.count 2) 1

infixl 5 ◌>>=◌
abbrev pub ◌>>=◌ : {A B : Type 0} → Option A → (A → Option B) → Option B
none >>= f = none
some a >>= f = f a

-- The loop of `mem_hash_resize` over the old entries, with `mem_hash_set` as an argument.
unfoldable pub reinsert : (MemHash → ℕ → ℕ → Option MemHash) → List Item → MemHash → Option MemHash
reinsert set_item [] t = some t
reinsert set_item (e ∷ es) t =
    if e.k == 0 then reinsert set_item es t else set_item t e.k e.v >>= reinsert set_item es

-- `mem_hash_resize`.
unfoldable pub resize : (MemHash → ℕ → ℕ → Option MemHash) → MemHash → Option MemHash
resize set_item t = next_size hash_sizes (doubled t) >>= λ capacity.
    if leb capacity t.capacity
    then some (record t { capacity = capacity })
    else reinsert set_item t.entries
        (record { count = 0; capacity = capacity; entries = replicate capacity unset })

-- The write at the end of `mem_hash_set`.
unfoldable pub put : MemHash → ℕ → ℕ → ℕ → MemHash
put t slot k v = record t {
  count = if (entry_at t slot).k == 0 then add32 t.count 1 else t.count;
  entries = set t.entries slot (item k v);
}

-- `mem_hash_set` and `mem_hash_resize` call each other: `depth` bounds the nesting.
unfoldable pub set_item : ℕ → MemHash → ℕ → ℕ → Option MemHash
set_item zero t k v = none
set_item (suc depth) t k v =
    let larger = resize (set_item depth) t in
    do
      t ← if ltb t.capacity (doubled t) then larger else some t
      slot ← locate t k
      some (put t slot k v)

-- `mem_hash_set`. A resized table has room for every entry that it takes over, so the calls made
-- by `mem_hash_resize` do not resize again.
unfoldable pub mem_hash_set : MemHash → ℕ → ℕ → Option MemHash
mem_hash_set t k v = set_item 2 t k v

unfoldable pub mem_hash_get : MemHash → ℕ → Option ℕ
mem_hash_get t k =
    if t.capacity == 0 then some 0 else (locate t k >>= λ slot. some (entry_at t slot).v)
