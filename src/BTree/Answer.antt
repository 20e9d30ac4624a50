-- ===== src/BTree/Answer.antt =====
-- The answer of `btree_get` is that of the entries of the tree.
use everdb_native.Base.{ℕ, ◌≢◌, Option, zero, suc, ◌-◌, ◌≡◌, inl, inr, refl, arith}
use mathlib.Core.Path.{subst}
use everdb_native.Memory.{Mem}
use everdb_native.BTree.{key, datum, err_invalid_key}
use everdb_native.BTree.Tree.{IsTree, Member, Member-bounds, least, Answers, btree_get-Answers}
use everdb_native.BTree.Graft.{Put}
use everdb_native.BTree.Read.{Answer, hit, miss, endless, btree_get}

-- A tree has at most one value under a key.
Member_unique :
    (h : ℕ) (m : Mem) (root lo hi k v w : ℕ)
    → IsTree h m root lo hi
    → Member h m root k v
    → Member h m root k w
    → v ≡ w
Member_unique zero m root lo hi k v w t a b = absurd t
Member_unique (suc h) m root lo hi k v w (node, range, rest) (inl (leaf, (i, il, ki, di)))
      (inl (_, (j, jl, kj, dj))) =
    let same : i ≡ j = ground (arith, node.sorted i j, node.sorted j i) in ground (arith, same)
Member_unique (suc h) m root lo hi k v w t (inl (leaf, a)) (inr (inner, b)) = absurd (omega arith)
Member_unique (suc h) m root lo hi k v w t (inr (inner, a)) (inl (leaf, b)) = absurd (omega arith)
Member_unique (suc h) m root lo hi k v w (node, range, inl leaf) (inr (inner, a)) (inr (_, b)) =
    absurd (omega arith)
Member_unique (suc h) m root lo hi k v w (node, range, inr (_, children)) (inr (inner, (i, il, a)))
      (inr (_, (j, jl, b))) =
    let low =
      Member-bounds h m (datum m root i) (least m root lo i) (key m root i) k v (children i il) a in
    let high =
      Member-bounds h m (datum m root j) (least m root lo j) (key m root j) k w (children j jl) b in
    let same : j ≡ i = ground (arith, low, high, node.sorted i (j - 1), node.sorted j (i - 1)) in
    Member_unique h m (datum m root i) (least m root lo i) (key m root i) k v w (children i il) a
      (subst (λ x. Member h m (datum m root x) k w) same b)

module _ (h : ℕ) (m : Mem) (root lo hi k : ℕ) (t : IsTree h m root lo hi) where
  pub hit_of : (v : ℕ) (r : Answer) → Answers h m root k r → Member h m root k v → r ≡ hit k v
  hit_of v (hit q w) (same, there) e =
      let value : w ≡ v = Member_unique h m root lo hi k w v t there e in rw (same, value) refl
  hit_of v (miss c) (code, absent) e = absurd (absent v e)
  hit_of v endless a e = absurd a

  pub miss_of :
      (r : Answer)
      → Answers h m root k r
      → ((v : ℕ) → ¬ Member h m root k v)
      → r ≡ miss err_invalid_key
  miss_of (hit q w) (same, there) absent = absurd (absent w there)
  miss_of (miss c) (code, _) absent = rw code refl
  miss_of endless a absent = absurd a

-- Trees with the same entries give the same answers.
module _ (h h' : ℕ) (m m' : Mem) (root root' lo hi lo' hi' : ℕ) (t : IsTree h m root lo hi)
    (t' : IsTree h' m' root' lo' hi')
    (there : (k v : ℕ) → Member h m root k v → Member h' m' root' k v)
    (back : (k v : ℕ) → Member h' m' root' k v → Member h m root k v) where
  answer_same : (k : ℕ) (r : Answer) → Answers h m root k r → btree_get h' m' root' k ≡ r
  answer_same k (hit q v) (same, e) = rw same (
      hit_of h' m' root' lo' hi' k t' v _ (btree_get-Answers h' m' root' lo' hi' k t')
        (there k v e))
  answer_same k (miss c) (code, absent) = rw code (
      miss_of h' m' root' lo' hi' k t' _ (btree_get-Answers h' m' root' lo' hi' k t')
        λ v e. absent v (back k v e))
  answer_same k endless a = absurd a

  pub btree_get_same : (k : ℕ) → btree_get h' m' root' k ≡ btree_get h m root k
  btree_get_same k = answer_same k _ (btree_get-Answers h m root lo hi k t)

-- Whatever the answer for `q` was before a write of another key, it is the same after it.
pub same_answer :
    (h : ℕ) (m m' : Mem) (root lo hi k : ℕ) (o : Option ℕ) (q : ℕ) (r : Answer)
    → Put h m m' root lo hi k o
    → q ≢ k
    → Answers h m root q r
    → btree_get h m' root q ≡ r
same_answer h m m' root lo hi k o q (hit q' w) put ne (same, there) = rw same (
    hit_of h m' root lo hi q put.tree w _ (btree_get-Answers h m' root lo hi q put.tree)
      (put.kept q w ne there))
same_answer h m m' root lo hi k o q (miss c) put ne (code, absent) = rw code (
    miss_of h m' root lo hi q put.tree _ (btree_get-Answers h m' root lo hi q put.tree)
      λ w e. absent w (put.only q w ne e))
same_answer h m m' root lo hi k o q endless put ne a = absurd a
