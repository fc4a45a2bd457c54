-- ===== src/Matrix/MergeTree/Leaves.antt =====
-- merge_tree: `expand` and the leaves below a node.
use cuda_mpqs.Prelude.{
  ℕ, zero, suc, ◌+◌, ◌-◌, ◌^◌, ◌<◌, ◌≡◌, refl, ap, ◌∙◌, List, [], ◌∷◌, ◌++◌, none, some, true,
  false, ltb, get_elem?, length, sub32, arith, Bool-cases, inl, inr,
}
use mathlib.Core.List.{append_assoc}
use cuda_mpqs.Matrix.MergeTree.{Node, MergeTree, expand_loop, expand}

-- Node `k` has both children below the index `lo + k`.
abbrev pub Earlier : ℕ → List Node → Type 0
Earlier lo [] = Unit {0}
Earlier lo (n ∷ ns) = (n.left < lo) × (n.right < lo) × Earlier (suc lo) ns

-- A tree whose indices are `uint32_t` and whose nodes point to leaves or to earlier nodes.
pub record IsTree (t : MergeTree) : Type 0 where
  pub earlier : Earlier t.num_leaves t.internal_nodes
  pub fits : t.num_leaves + length t.internal_nodes < 2 ^ 32

pub Earlier-get :
    (lo k : ℕ) (ns : List Node) (n : Node)
    → Earlier lo ns
    → get_elem? ns k ≡ some n
    → (n.left < lo + k) × (n.right < lo + k)
Earlier-get lo k [] n a e = absurd (cc)
Earlier-get lo zero (m ∷ ns) n a e = ground arith
Earlier-get lo (suc k) (m ∷ ns) n a e =
    let ih = Earlier-get (suc lo) k ns n a.2 e in (omega (arith, ih.0), omega (arith, ih.1))

pub get_elem?-in_range :
    (k : ℕ) (ns : List Node) → k < length ns → (n : Node) × (get_elem? ns k ≡ some n)
get_elem?-in_range k [] h = absurd (omega arith)
get_elem?-in_range zero (n ∷ ns) h = (n, refl)
get_elem?-in_range (suc k) (n ∷ ns) h = get_elem?-in_range k ns (omega arith)

-- The leaves below a node, for a node index below `depth`, and the rounds that the loop takes.
unfoldable pub leaves : ℕ → MergeTree → ℕ → List ℕ
leaves zero t idx = []
leaves (suc depth) t idx = elim (ltb idx t.num_leaves) [
  | true ↦ idx ∷ []
  | false ↦ elim (get_elem? t.internal_nodes (idx - t.num_leaves)) [
    | none ↦ []
    | some n ↦ leaves depth t n.right ++ leaves depth t n.left
  ]
]

unfoldable pub rounds : ℕ → MergeTree → ℕ → ℕ
rounds zero t idx = 0
rounds (suc depth) t idx = elim (ltb idx t.num_leaves) [
  | true ↦ 1
  | false ↦ elim (get_elem? t.internal_nodes (idx - t.num_leaves)) [
    | none ↦ 1
    | some n ↦ 1 + rounds depth t n.right + rounds depth t n.left
  ]
]

-- A leaf, or an internal node with children of smaller index.
pub data Shape (t : MergeTree) (idx : ℕ) : Type 0 where
  leaf : ltb idx t.num_leaves ≡ true → Shape t idx
  node :
      (n : Node)
      → ltb idx t.num_leaves ≡ false
      → get_elem? t.internal_nodes (idx - t.num_leaves) ≡ some n
      → n.left < idx
      → n.right < idx
      → Shape t idx

pub shape :
    (t : MergeTree) (idx : ℕ)
    → IsTree t
    → idx < t.num_leaves + length t.internal_nodes
    → Shape t idx
shape t idx v h = elim (Bool-cases (ltb idx t.num_leaves)) [
  | inl low ↦ leaf low
  | inr high ↦
      let (n, e) = get_elem?-in_range (idx - t.num_leaves) t.internal_nodes (ground arith) in
      let (l, r) = Earlier-get t.num_leaves (idx - t.num_leaves) t.internal_nodes n v.earlier e in
      node n high e (ground (arith, l)) (ground (arith, r))
]

expand_node :
    (t : MergeTree) (idx fuel : ℕ) (work out : List ℕ) (n : Node)
    → ltb idx t.num_leaves ≡ false
    → sub32 idx t.num_leaves ≡ idx - t.num_leaves
    → get_elem? t.internal_nodes (idx - t.num_leaves) ≡ some n
    → expand_loop (suc fuel) t (idx ∷ work) out ≡ expand_loop fuel t (n.right ∷ n.left ∷ work) out
unfolding expand_loop
expand_node t idx fuel work out n high w e = rw (high, w, e, expand_loop)

expand_loop-leaves :
    (depth : ℕ) (t : MergeTree) (idx fuel : ℕ) (work out : List ℕ)
    → IsTree t
    → idx < t.num_leaves + length t.internal_nodes
    → idx < depth
    → expand_loop (rounds depth t idx + fuel) t (idx ∷ work) out
      ≡ expand_loop fuel t work (out ++ leaves depth t idx)
unfolding leaves rounds
expand_loop-leaves zero t idx fuel work out v h d = absurd (omega arith)
expand_loop-leaves (suc depth) t idx fuel work out v h d = elim (shape t idx v h) [
  | leaf low ↦
      let e : 1 + fuel ≡ suc fuel = omega arith in
      rw (low, e, leaves, rounds) (unfold expand_loop in rw (low, expand_loop))
  | node n high e l r ↦
      let a = rounds depth t n.right in
      let b = rounds depth t n.left in
      let s : 1 + a + b + fuel ≡ suc (a + (b + fuel)) = omega arith in
      let w : sub32 idx t.num_leaves ≡ idx - t.num_leaves = ground (arith, v.fits) in
      rw (high, e, s, leaves, rounds)
        (expand_node t idx (a + (b + fuel)) work out n high w e
          ∙ expand_loop-leaves depth t n.right (b + fuel) (n.left ∷ work) out v (omega arith)
              (omega arith)
          ∙ expand_loop-leaves depth t n.left fuel work (out ++ leaves depth t n.right) v
              (omega arith) (omega arith)
          ∙ ap (expand_loop fuel t work)
              (append_assoc out (leaves depth t n.right) (leaves depth t n.left)))
]

-- On a well-formed tree `expand` ends and lists the leaves below the node, given fuel for one round more than there are nodes to visit.
pub expand-leaves :
    (t : MergeTree) (idx fuel : ℕ)
    → IsTree t
    → idx < t.num_leaves + length t.internal_nodes
    → rounds (suc idx) t idx < fuel
    → expand fuel t idx ≡ some (leaves (suc idx) t idx)
unfolding expand
expand-leaves t idx fuel v h enough =
    let k = fuel - rounds (suc idx) t idx - 1 in
    let e : fuel ≡ rounds (suc idx) t idx + suc k = omega arith in
    rw e (
      expand_loop-leaves (suc idx) t idx (suc k) [] [] v h (omega arith)
      ∙ unfold expand_loop in refl)
