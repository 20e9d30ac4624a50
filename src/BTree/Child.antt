-- ===== src/BTree/Child.antt =====
-- The child that `btree_set` goes to, and what its parent needs of the write there.
use everdb_native.Base.{
  ℕ, zero, suc, Option, some, ◌+◌, ◌-◌, ◌%◌, ◌^◌, ◌≤◌, ◌<◌, ◌≡◌, ◌∙◌, inl, inr, refl, arith, sym,
  ◌==◌, if◌then◌else◌, Bool-cases, false,
}
use mathlib.Core.Path.{subst}
use everdb_native.Memory.{Mem, store32}
use everdb_native.Memory.Laws.{load32-lt, load32-store32_same, load32-store32_other}
use everdb_native.Core.{Db, OnlyMem, Blocks, block_addr}
use everdb_native.Core.Words.{Inside}
use everdb_native.BTree.{
  key, datum, magic, magic_leaf, magic_node, self_size, last_key, size_at, key_at, data_at,
  list_find,
}
use everdb_native.BTree.Find.{IsLowerBound}
use everdb_native.BTree.Nodes.{SameNode}
use everdb_native.BTree.Tree.{IsNode, IsTree, Member, least}
use everdb_native.BTree.Frame.{InTree, IsSeparate, SameTree, Framed, frame}
use everdb_native.BTree.Graft.{Put, Rekeyed}
use everdb_native.BTree.Leaf.{Updated}
use everdb_native.BTree.Write.{node_set, btree_set}

-- `m'` differs from `m` in the blocks of the tree at most.
abbrev pub OnlyTree : ℕ → (m m' : Mem) → (root : ℕ) → Type 0
OnlyTree h m m' root = (p : ℕ) → ((x : ℕ) → InTree h m root x → ¬ Inside x p) → m' p ≡ m p

-- No leaf of the tree is full.
abbrev pub HasRoom : ℕ → Mem → (root : ℕ) → Type 0
HasRoom h m root = (x : ℕ) → InTree h m root x → magic m x ≡ magic_leaf → self_size m x < 510

pub InTree_small :
    (h : ℕ) (m : Mem) (root x : ℕ) → IsSeparate h m root → InTree h m root x → x < 2 ^ 20
InTree_small zero m root x s e = absurd s
InTree_small (suc h) m root x (small, s) (inl r) = rw r small
InTree_small (suc h) m root x (small, inl leaf) (inr (inner, rest)) = absurd (omega arith)
InTree_small (suc h) m root x (small, inr (filled, apart, distinct)) (inr (inner, (i, lt, e))) =
    InTree_small h m (datum m root i) x (apart i lt).0 e

pub Updated-Put :
    (h : ℕ) (m m' : Mem) (root lo hi k v : ℕ)
    → IsTree (suc h) m root lo hi
    → root < 2 ^ 20
    → magic m root ≡ magic_leaf
    → lo ≤ k
    → k ≤ hi
    → Updated m m' root k v
    → Put (suc h) m m' root lo hi k (some v)
Updated-Put h m m' root lo hi k v (node, range, rest) small leaf kl kh u = record {
  tree = (u.is_leaf.node, range', inl u.is_leaf.leaf);
  separate = (small, inl u.is_leaf.leaf);
  blocks = λ x.
      (λ e. elim e [ inl r ↦ inl r | inr (inner, q) ↦ absurd (omega (arith, u.is_leaf.leaf)) ]);
  filled = let (i, lt, ki, di) = u.new in omega arith;
  new = λ w e.
      (let same : v ≡ w = ground arith in
        subst (λ x. Member (suc h) m' root k x) same (inl (u.is_leaf.leaf, u.new)));
  gone = λ e. absurd (ground arith);
  kept = λ q w ne. (λ e. elim e [
    | inl (_, entry) ↦ inl (u.is_leaf.leaf, u.kept q w ne entry)
    | inr (inner, r) ↦ absurd (omega arith)
  ]);
  only = λ q w ne. (λ e. elim e [
    | inl (_, entry) ↦ inl (leaf, u.only q w ne entry)
    | inr (inner, r) ↦ absurd (omega (arith, u.is_leaf.leaf))
  ]);
}
  where
    range' : (i : ℕ) → i < self_size m' root → (lo ≤ key m' root i) × (key m' root i ≤ hi)
    range' i lt = elim (Bool-cases (key m' root i == k)) [
      | inl at ↦ ground arith
      | inr off ↦
          let (j, jl, kj, dj) =
            u.only (key m' root i) (datum m' root i) (ground arith) (i, lt, refl, refl) in
          omega (arith, range j jl)
    ]

-- A child's pointer is written again as it was.
pub link_same :
    (m : Mem) (root b : ℕ) → b < 510 → SameNode m (store32 m (data_at root b) (datum m root b)) root
link_same m root b h =
    let a = data_at root b in
    let v = datum m root b in
    record {
      magic_same = load32-store32_other m a (block_addr root) v (omega arith);
      size_same = load32-store32_other m a (size_at root) v (omega arith);
      key_same = λ i lt. load32-store32_other m a (key_at root i) v (omega arith);
      datum_same = λ i lt. elim (Bool-cases (i == b)) [
        | inl at ↦
            let ib : i ≡ b = ground arith in
            subst (λ j. datum (store32 m a v) root j ≡ datum m root j) (sym ib)
              (load32-store32_same m a v ∙ omega (arith, load32-lt m a))
        | inr off ↦ load32-store32_other m a (data_at root i) v (ground arith)
      ];
    }

pub SameNode-trans :
    (m₁ m₂ m₃ : Mem) (x : ℕ) → SameNode m₁ m₂ x → SameNode m₂ m₃ x → SameNode m₁ m₃ x
SameNode-trans m₁ m₂ m₃ x s t = record {
  magic_same = t.magic_same ∙ s.magic_same;
  size_same = t.size_same ∙ s.size_same;
  key_same = λ i lt. t.key_same i lt ∙ s.key_same i lt;
  datum_same = λ i lt. t.datum_same i lt ∙ s.datum_same i lt;
}

pub last_key_same :
    (m m' : Mem) (x : ℕ)
    → SameNode m m' x
    → 0 < self_size m x
    → self_size m x ≤ 510
    → last_key m' x ≡ last_key m x
last_key_same m m' x s filled fits =
    let index : (self_size m x + (2 ^ 32 - 1)) % 2 ^ 32 ≡ self_size m x - 1 = omega arith in
    rw (s.size_same, index) (s.key_same (self_size m x - 1) (omega arith))

pub update_key-Rekeyed :
    (m m₂ : Mem) (root b : ℕ)
    → b < 510
    → SameNode m m₂ root
    → SameNode m₂ (store32 m₂ (key_at root b) (last_key m₂ (datum m root b))) (datum m root b)
    → 0 < self_size m₂ (datum m root b)
    → self_size m₂ (datum m root b) ≤ 510
    → Rekeyed m (store32 m₂ (key_at root b) (last_key m₂ (datum m root b))) root b
update_key-Rekeyed m m₂ root b h s c filled fits =
    let a = key_at root b in
    let child = datum m root b in
    let v = last_key m₂ child in
    let n = self_size m₂ child in
    let m₃ = store32 m₂ a v in
    record {
      magic_same = load32-store32_other m₂ a (block_addr root) v (omega arith) ∙ s.magic_same;
      size_same = load32-store32_other m₂ a (size_at root) v (omega arith) ∙ s.size_same;
      datum_same =
          λ i lt. load32-store32_other m₂ a (data_at root i) v (omega arith) ∙ s.datum_same i lt;
      key_same =
          λ i lt ne. load32-store32_other m₂ a (key_at root i) v (omega arith) ∙ s.key_same i lt;
      key_new =
          load32-store32_same m₂ a v
          ∙ omega (arith, load32-lt m₂ (key_at child ((n + (2 ^ 32 - 1)) % 2 ^ 32)))
          ∙ sym (last_key_same m₂ m₃ child c filled fits);
    }

-- A written tree, seen from before an earlier and after a later write elsewhere.
pub Put-framed :
    (h : ℕ) (m m₁ m₂ m₃ : Mem) (root lo hi lo₀ hi₀ k : ℕ) (o : Option ℕ)
    → Framed h m m₁ root lo₀ hi₀
    → Put h m₁ m₂ root lo hi k o
    → SameTree h m₂ m₃ root
    → SameNode m₂ m₃ root
    → Put h m m₃ root lo hi k o
Put-framed h m m₁ m₂ m₃ root lo hi lo₀ hi₀ k o f p same top =
    let g = frame h m₂ m₃ root lo hi p.tree same in
    record {
      tree = g.tree;
      separate = g.separate p.separate;
      blocks = λ x e. f.blocks x (p.blocks x (g.blocks x e));
      filled = omega (arith, p.filled, top.size_same);
      new = λ w e. g.member k w (p.new w e);
      gone = λ e w q. p.gone e w (g.member_back k w q);
      kept = λ q w ne e. g.member q w (p.kept q w ne (f.member q w e));
      only = λ q w ne e. f.member_back q w (p.only q w ne (g.member_back q w e));
    }

module _ (B : Blocks) (h : ℕ) (db : Db) (root : ℕ) (inner : magic db.mem root ≡ magic_node)
    (filled : 0 < self_size db.mem root) where
  pub btree_set-node :
      (k v : ℕ)
      → btree_set B (suc h) root k v db
        ≡ node_set B
            (btree_set B h)
            root
            (if list_find db.mem root k == self_size db.mem root
              then list_find db.mem root k - 1
              else list_find db.mem root k)
            k
            v
            db
  unfolding btree_set
  btree_set-node k v =
      let some_child : (self_size db.mem root == 0) ≡ false = ground arith in rw (inner, some_child)

-- What `btree_set` promises.
abbrev pub SetsIn : (h : ℕ) (db : Db) (root lo hi k v : ℕ) → Db → Type 0
SetsIn h db root lo hi k v db' =
    OnlyMem db db' × Put h db.mem db'.mem root lo hi k (some v) × OnlyTree h db.mem db'.mem root

-- The child that a key belongs to, and the bound of its keys with the new key among them.
pub record Chosen (m : Mem) (root lo hi k b ch : ℕ) : Type 0 where
  pub bn : b < self_size m root
  pub above : key m root b ≤ ch
  pub below : ch ≤ hi
  pub next : b + 1 < self_size m root → ch ≤ key m root b
  pub low : least m root lo b ≤ k
  pub high : k ≤ ch

pub choose :
    (m : Mem) (root lo hi k b : ℕ)
    → IsNode m root
    → ((i : ℕ) → i < self_size m root → (lo ≤ key m root i) × (key m root i ≤ hi))
    → 0 < self_size m root
    → lo ≤ k
    → k ≤ hi
    → IsLowerBound m root (self_size m root) k b
    → (c : ℕ) × (ch : ℕ) × ((if b == self_size m root then b - 1 else b) ≡ c)
      × Chosen m root lo hi k c ch
choose m root lo hi k b node range filled kl kh lb = elim (Bool-cases (b == self_size m root)) [
  | inl end ↦ (
    b - 1,
    k,
    rw end,
    record {
      bn = ground arith;
      above = ground (arith, lb.below (b - 1));
      below = kh;
      next = λ more. absurd (ground arith);
      low = ground (arith, lb.below (b - 1 - 1));
      high = omega arith;
    },
  )
  | inr within ↦ (
    b,
    key m root b,
    rw within,
    record {
      bn = ground (arith, lb.within);
      above = omega arith;
      below = ground (arith, range b, lb.within);
      next = λ more. omega arith;
      low = ground (arith, lb.below (b - 1));
      high = ground (arith, lb.above b, lb.within);
    },
  )
]

pub InTree_root :
    (h : ℕ) (m : Mem) (root lo hi : ℕ)
    → IsTree h m root lo hi
    → InTree h m root root × (self_size m root ≤ 510)
InTree_root zero m root lo hi t = absurd t
InTree_root (suc h) m root lo hi t = (inl refl, t.0.fits)
