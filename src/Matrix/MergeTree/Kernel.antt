-- ===== src/Matrix/MergeTree/Kernel.antt =====
-- merge_tree: `expandKernelVector` and the leaves below the selected rows.
use cuda_mpqs.Prelude.{
  ℕ, zero, suc, ◌+◌, ◌/◌, ◌%◌, ◌<◌, ◌≤◌, ◌≡◌, refl, List, [], ◌∷◌, Option, some, leb, ◌==◌,
  if◌then◌else◌, get_or, length, arith, Bool-cases, inl, inr, sum_over, Ascending,
}
use cuda_mpqs.Matrix.MergeTree.{
  MergeTree, freq_add_all, bit_at, collect, odd_leaves, sort, expand_kernel_vector,
}
use cuda_mpqs.Matrix.MergeTree.Leaves.{IsTree, leaves, rounds, expand-leaves}
use cuda_mpqs.Matrix.MergeTree.Frequency.{
  odd_sum, odd_sum-freq_add_all, sum_over-odd_leaves, sum_over-sort, key_count,
  key_count-freq_add_all, count-odd_leaves, sort-Ascending,
}

-- The sum of `f` over the leaves below the selected rows, `n` rows from `i` on.
unfoldable pub selected_sum : (ℕ → ℕ) → List ℕ → List ℕ → MergeTree → ℕ → ℕ → ℕ
selected_sum f bits row_map t zero i = 0
selected_sum f bits row_map t (suc n) i =
    (if bit_at bits i == 1
      then sum_over f (leaves (suc (get_or row_map i 0)) t (get_or row_map i 0))
      else 0)
    + selected_sum f bits row_map t n (i + 1)

-- The row map leads to nodes of the tree, and the fuel is enough for each.
abbrev pub RowsFit : ℕ → List ℕ → MergeTree → ℕ → ℕ → Type 0
RowsFit fuel row_map t zero i = Unit {0}
RowsFit fuel row_map t (suc n) i =
    (get_or row_map i 0 < t.num_leaves + length t.internal_nodes)
    × (rounds (suc (get_or row_map i 0)) t (get_or row_map i 0) < fuel)
    × RowsFit fuel row_map t n (i + 1)

get_or-beyond : (xs : List ℕ) (i : ℕ) → length xs ≤ i → get_or xs i 0 ≡ 0
get_or-beyond [] i h = refl
get_or-beyond (x ∷ xs) zero h = absurd (omega arith)
get_or-beyond (x ∷ xs) (suc i) h = get_or-beyond xs i (omega arith)

bit_at-beyond : (bits : List ℕ) (i : ℕ) → length bits ≤ i / 64 → bit_at bits i ≡ 0
unfolding bit_at
bit_at-beyond bits i h = rw (get_or-beyond bits (i / 64) h) (grind arith)

selected_sum-beyond :
    (f : ℕ → ℕ) (bits row_map : List ℕ) (t : MergeTree) (n i : ℕ)
    → length bits ≤ i / 64
    → selected_sum f bits row_map t n i ≡ 0
unfolding selected_sum
selected_sum-beyond f bits row_map t zero i h = refl
selected_sum-beyond f bits row_map t (suc n) i h =
    rw (bit_at-beyond bits i h)
      (omega (arith, selected_sum-beyond f bits row_map t n (i + 1) (omega arith)))

-- The table after the loop.
record Collected (o : Option (List (ℕ × ℕ))) (added : (ℕ → ℕ) → ℕ) (freq : List (ℕ × ℕ))
    : Type 0 where
  table : List (ℕ × ℕ)
  ends : o ≡ some table
  keys : (c : ℕ) → key_count c table ≤ 1
  sums : (f : ℕ → ℕ) → odd_sum f table % 2 ≡ (odd_sum f freq + added f) % 2

collect_lem :
    (fuel : ℕ) (bits row_map : List ℕ) (t : MergeTree) (n i : ℕ) (freq : List (ℕ × ℕ))
    → IsTree t
    → RowsFit fuel row_map t n i
    → ((c : ℕ) → key_count c freq ≤ 1)
    → Collected (collect fuel bits row_map t n i freq) (λ f. selected_sum f bits row_map t n i) freq
unfolding collect selected_sum
collect_lem fuel bits row_map t zero i freq v r k = record {
  table = freq;
  ends = refl;
  keys = k;
  sums = λ f. omega arith;
}
collect_lem fuel bits row_map t (suc n) i freq v r k =
    elim (Bool-cases (leb (length bits) (i / 64))) [
      | inl over ↦ record {
        table = freq;
        ends = rw (over, collect);
        keys = k;
        sums = λ f. omega (arith, selected_sum-beyond f bits row_map t (suc n) i (ground arith));
      }
      | inr inside ↦ elim (Bool-cases (bit_at bits i == 1)) [
        | inr clear ↦
            let c = collect_lem fuel bits row_map t n (i + 1) freq v r.2 k in
            record {
              table = c.table;
              ends = rw (inside, clear, collect) c.ends;
              keys = c.keys;
              sums = λ f. rw clear (omega (arith, c.sums f));
            }
        | inl hit ↦
            let idx = get_or row_map i 0 in
            let ls = leaves (suc idx) t idx in
            let e = expand-leaves t idx fuel v r.0 r.1 in
            let c =
              collect_lem fuel bits row_map t n (i + 1) (freq_add_all ls freq) v r.2
                (λ d. key_count-freq_add_all d ls freq (k d)) in
            record {
              table = c.table;
              ends = rw (inside, hit, e, collect) c.ends;
              keys = c.keys;
              sums = λ f. rw hit (omega (arith, c.sums f, odd_sum-freq_add_all f ls freq));
            }
      ]
    ]

-- On a well-formed tree and a row map into it, with enough fuel, the expansion of a kernel vector ends with a strictly ascending list, and for every function of the relations its sum over the list agrees modulo 2 with its sum over all leaves below the selected rows: the list holds just the relations that occur an odd number of times.
pub expand_kernel_vector_lem :
    (fuel n : ℕ) (bits row_map : List ℕ) (t : MergeTree)
    → IsTree t
    → RowsFit fuel row_map t n 0
    → (r : List ℕ) × (expand_kernel_vector fuel bits n row_map t ≡ some r)
      × Ascending 0 r
      × ((f : ℕ → ℕ) → sum_over f r % 2 ≡ selected_sum f bits row_map t n 0 % 2)
unfolding expand_kernel_vector odd_sum key_count
expand_kernel_vector_lem fuel n bits row_map t v fit =
    let c = collect_lem fuel bits row_map t n 0 [] v fit (λ d. omega arith) in
    let odd = odd_leaves c.table in
    (
      sort odd,
      rw c.ends,
      sort-Ascending odd (λ d. omega (arith, count-odd_leaves d c.table, c.keys d)),
      λ f. omega (arith, sum_over-sort f odd, sum_over-odd_leaves f c.table, c.sums f),
    )
