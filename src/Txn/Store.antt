-- ===== src/Txn/Store.antt =====
-- What holds between transactions, and the state of a transaction that has just begun.
use mathlib.Core.Path.{subst}
use mathlib.Core.List.{Memᴰ}
use everdb_native.Freelist.View.{stack, stack_same, item_stack, IsUnique}
use everdb_native.Txn.{freed}
use everdb_native.Txn.Exclusive.{IsUser}
use everdb_native.Base.{ℕ, zero, suc, ◌+◌, ◌-◌, ◌<◌, ◌≡◌, ◌≢◌, refl, some, arith, sym, ap, get_or}
use everdb_native.Memory.{memcpy}
use everdb_native.MemHash.{hash, probe, entry_at, stops, find_slot, probe_limit, locate}
use everdb_native.MemHash.Spread.{size_3, IsLow}
use everdb_native.MemHash.Grow.{HasRoomFor}
use everdb_native.MemHash.Map.{IsValid, Holds, Holds_unique}
use everdb_native.Core.{Db, block_addr}
use everdb_native.Core.Words.{ne-Apart}
use everdb_native.Array.Small.{IsSmall}
use everdb_native.Array.Moved.{SameBytes, IsSmall-moved, item_moved}
use everdb_native.Txn.Cycle.{IsIdle, bootstrap, begun}
use everdb_native.Txn.Isolation.{IsCommitted, Isolated}

-- No transaction is open, and the free list fits its root block; it has user blocks only, none of them
-- live and none twice. The roots are live, and block 2 is not.
pub record IsStored (Live : ℕ → Type 0) (db : Db) (n : ℕ) : Type 0 where
  pub idle : IsIdle db
  pub committed : IsCommitted Live
  pub roots : Live 1 × Live 3
  pub list : IsSmall db.mem 1 4 n
  pub user : (b : ℕ) → Memᴰ b (stack db.mem 1 n) → IsUser b × (¬ Live b)
  pub unique : IsUnique (stack db.mem 1 n)

bootstrap-IsValid : IsValid bootstrap
unfolding get_or hash probe entry_at stops find_slot probe_limit locate
bootstrap-IsValid = record {
  placed = record { wide = refl; home = home };
  counted = refl;
  size = size_3 refl;
  blank = blank_slot;
}
  where
    home :
        (s : ℕ)
        → s < 3
        → (entry_at bootstrap s).k ≢ 0
        → locate bootstrap (entry_at bootstrap s).k ≡ some s
    home zero lt filled = refl
    home (suc zero) lt filled = absurd (filled refl)
    home (suc (suc zero)) lt filled = absurd (filled refl)
    home (suc (suc (suc s))) lt filled = absurd (omega arith)

    blank_slot : (s : ℕ) → s < 3 → (entry_at bootstrap s).k ≡ 0 → (entry_at bootstrap s).v ≡ 0
    blank_slot zero lt e = absurd (omega arith)
    blank_slot (suc zero) lt e = refl
    blank_slot (suc (suc zero)) lt e = refl
    blank_slot (suc (suc (suc s))) lt e = absurd (omega arith)

pub bootstrap_only : (b s : ℕ) → b ≢ 0 → Holds bootstrap b s → b ≡ 2
unfolding get_or entry_at
bootstrap_only b s b0 (zero, lt, kb, vs) = omega arith
bootstrap_only b s b0 (suc zero, lt, kb, vs) = absurd (b0 (sym kb))
bootstrap_only b s b0 (suc (suc zero), lt, kb, vs) = absurd (b0 (sym kb))
bootstrap_only b s b0 (suc (suc (suc x)), lt, kb, vs) = absurd (omega arith)

bootstrap_spare : Holds bootstrap 2 1
unfolding get_or entry_at
bootstrap_spare = (0, omega arith, refl, refl)

module _ (Live : ℕ → Type 0) (db : Db) (n : ℕ) (is : IsStored Live db n) where
  copied : SameBytes db.mem (begun db).mem 1 2
  unfolding memcpy block_addr
  copied i lt =
      let from : 4096 + (8192 + i - 8192) ≡ 4096 + i = omega arith in ground (arith, ap db.mem from)

  same : stack (begun db).mem 2 n ≡ stack db.mem 1 n
  same =
      stack_same db.mem (begun db).mem 1 2 n
        (item_moved db.mem (begun db).mem 1 2 4 n copied is.list)

  spare_state : (b v : ℕ) → b ≢ 0 → Holds bootstrap b v → v ≡ 1
  spare_state b v b0 h =
      Holds_unique bootstrap 2 v 1 bootstrap-IsValid.placed (omega arith)
        (subst (λ x. Holds bootstrap x v) (bootstrap_only b v b0 h) h) bootstrap_spare

  -- A transaction that has just begun is isolated from the committed data.
  pub begun-Isolated : Isolated Live db.mem db.nblocks (begun db)
  begun-Isolated = record {
    current = refl;
    root = refl;
    sound = λ b s b0 b2 holds. absurd (b2 (bootstrap_only b s b0 holds));
    valid = bootstrap-IsValid;
    spare = bootstrap_spare;
    n = n;
    list = IsSmall-moved db.mem (begun db).mem 1 2 4 n copied is.list;
    exclusive = record {
      unique = subst IsUnique (sym same) is.unique;
      user = λ b m. is.user b (subst (Memᴰ b) same m);
      unused = λ b v m h.
          let ((low, high), dead) = is.user b (subst (Memᴰ b) same m) in
          absurd (omega (arith, low, bootstrap_only b v (λ z. absurd (omega (arith, low, z))) h));
      freed_once = λ b b0 h. absurd (omega (arith, spare_state b freed b0 h));
      copied_once = λ c b c0 c2 user h. absurd (c2 (bootstrap_only c b c0 h));
    };
    free = λ j lt.
        let ((low, high), dead) = is.user _ (item_stack db.mem 1 n j lt) in
        rw (item_moved db.mem (begun db).mem 1 2 4 n copied is.list j lt) (low, high, dead);
    owned = λ b s b0 s0 sf holds.
        let two = bootstrap_only b s b0 holds in
        (omega (arith, two), λ live. (is.committed b live).1 two);
    kept = λ b p live inside.
        let a = ne-Apart b 2 (is.committed b live).0 (omega arith) (is.committed b live).1 in
        unfold memcpy in ground (arith, a, inside);
  }

pub bootstrap-HasRoomFor : (k : ℕ) → IsLow (hash k) 631 → HasRoomFor bootstrap k
unfolding hash
bootstrap-HasRoomFor k low = record {
  room = omega arith;
  keys = λ q w q0 h.
      (let two : q ≡ 2 = bootstrap_only q w q0 h in
        subst (λ x. IsLow (hash x) 631) (sym two) (omega arith));
  low = low;
}
