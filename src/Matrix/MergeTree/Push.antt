-- ===== src/Matrix/MergeTree/Push.antt =====
-- merge_tree: a tree and the tree with one node more.
use cuda_mpqs.Prelude.{
  ℕ, zero, suc, ◌+◌, ◌-◌, ◌^◌, ◌<◌, ◌≡◌, refl, ◌∙◌, List, [], ◌∷◌, ◌++◌, some, false, ltb,
  get_elem?, length, arith, length-append,
}
use mathlib.Core.Path.{ap₂}
use cuda_mpqs.Matrix.MergeTree.{Node, MergeTree}
use cuda_mpqs.Matrix.MergeTree.Leaves.{Earlier, IsTree, leaves, leaf, node, shape}

-- How deep one looks does not matter, as long as it is deeper than the index.
pub leaves-depth :
    (d e : ℕ) (t : MergeTree) (idx : ℕ)
    → IsTree t
    → idx < t.num_leaves + length t.internal_nodes
    → idx < d
    → idx < e
    → leaves d t idx ≡ leaves e t idx
unfolding leaves
leaves-depth zero e t idx v h p q = absurd (omega arith)
leaves-depth (suc d) zero t idx v h p q = absurd (omega arith)
leaves-depth (suc d) (suc e) t idx v h p q = elim (shape t idx v h) [
  | leaf low ↦ rw (low, leaves)
  | node n high f l r ↦
      rw (high, f, leaves)
        (ap₂ ◌++◌ (leaves-depth d e t n.right v (omega arith) (omega arith) (omega arith))
          (leaves-depth d e t n.left v (omega arith) (omega arith) (omega arith)))
]

unfoldable pub pushed : MergeTree → Node → MergeTree
pushed t n = record t { internal_nodes = t.internal_nodes ++ (n ∷ []) }

get_elem?-pushed :
    (ns : List Node) (n : Node) (k : ℕ)
    → k < length ns
    → get_elem? (ns ++ (n ∷ [])) k ≡ get_elem? ns k
get_elem?-pushed [] n k h = absurd (omega arith)
get_elem?-pushed (m ∷ ns) n zero h = refl
get_elem?-pushed (m ∷ ns) n (suc k) h = get_elem?-pushed ns n k (omega arith)

get_elem?-last : (ns : List Node) (n : Node) → get_elem? (ns ++ (n ∷ [])) (length ns) ≡ some n
get_elem?-last [] n = refl
get_elem?-last (m ∷ ns) n = get_elem?-last ns n

Earlier-pushed :
    (lo : ℕ) (ns : List Node) (n : Node)
    → Earlier lo ns
    → n.left < lo + length ns
    → n.right < lo + length ns
    → Earlier lo (ns ++ (n ∷ []))
Earlier-pushed lo [] n a l r = (omega arith, omega arith, tt)
Earlier-pushed lo (m ∷ ns) n a l r =
    (a.0, a.1, Earlier-pushed (suc lo) ns n a.2 (omega arith) (omega arith))

pub pushed-IsTree :
    (t : MergeTree) (n : Node)
    → IsTree t
    → n.left < t.num_leaves + length t.internal_nodes
    → n.right < t.num_leaves + length t.internal_nodes
    → t.num_leaves + length t.internal_nodes + 1 < 2 ^ 32
    → IsTree (pushed t n)
unfolding pushed
pushed-IsTree t n v l r fits = record {
  earlier = Earlier-pushed t.num_leaves t.internal_nodes n v.earlier l r;
  fits = omega (arith, length-append t.internal_nodes (n ∷ []));
}

pub leaves-pushed_old :
    (d : ℕ) (t : MergeTree) (n : Node) (idx : ℕ)
    → IsTree t
    → idx < t.num_leaves + length t.internal_nodes
    → leaves d (pushed t n) idx ≡ leaves d t idx
unfolding leaves pushed
leaves-pushed_old zero t n idx v h = refl
leaves-pushed_old (suc d) t n idx v h = elim (shape t idx v h) [
  | leaf low ↦ rw (low, leaves)
  | node m high f l r ↦
      let g = get_elem?-pushed t.internal_nodes n (idx - t.num_leaves) (ground arith) ∙ f in
      rw (high, f, g, leaves)
        (ap₂ ◌++◌ (leaves-pushed_old d t n m.right v (omega arith))
          (leaves-pushed_old d t n m.left v (omega arith)))
]

pub leaves-pushed_new :
    (d : ℕ) (t : MergeTree) (n : Node)
    → leaves (suc d) (pushed t n) (t.num_leaves + length t.internal_nodes)
      ≡ leaves d (pushed t n) n.right ++ leaves d (pushed t n) n.left
unfolding leaves pushed
leaves-pushed_new d t n =
    let high : ltb (t.num_leaves + length t.internal_nodes) t.num_leaves ≡ false = ground arith in
    let at : t.num_leaves + length t.internal_nodes - t.num_leaves ≡ length t.internal_nodes =
      omega arith in
    rw (high, at, get_elem?-last t.internal_nodes n, leaves)
