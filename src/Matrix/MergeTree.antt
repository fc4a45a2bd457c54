-- ===== src/Matrix/MergeTree.antt =====
-- src/matrix/merge_tree.h, src/matrix/merge_tree.cpp: the history of row merges, and its expansion to
-- original relations. Node k of `internal_nodes` has the global index `num_leaves + k`.
pub mod Leaves
pub mod Push
pub mod Frequency
pub mod Kernel
mod Examples
use cuda_mpqs.Prelude.{
  ℕ, zero, suc, ◌+◌, ◌-◌, ◌*◌, ◌/◌, ◌%◌, ◌^◌, ◌<◌, ◌≡◌, List, [], ◌∷◌, ◌++◌, Option, none, some,
  true, false, ltb, leb, ◌==◌, if◌then◌else◌, get_elem?, get_or, length, add32, sub32,
}

pub record Node : Type 0 where
  pub left : ℕ
  pub right : ℕ

pub record MergeTree : Type 0 where
  pub num_leaves : ℕ
  pub internal_nodes : List Node

-- The loop of `expand`. The head of `work` is the top of the stack. `none`: the fuel ran out, or the
-- assert on the node index fails.
pub expand_loop : ℕ → MergeTree → List ℕ → List ℕ → Option (List ℕ)
expand_loop zero t work out = none
expand_loop (suc fuel) t [] out = some out
expand_loop (suc fuel) t (idx ∷ work) out = elim (ltb idx t.num_leaves) [
  | true ↦ expand_loop fuel t work (out ++ (idx ∷ []))
  | false ↦ elim (get_elem? t.internal_nodes (sub32 idx t.num_leaves)) [
    | none ↦ none
    | some n ↦ expand_loop fuel t (n.right ∷ n.left ∷ work) out
  ]
]

pub expand : ℕ → MergeTree → ℕ → Option (List ℕ)
unfolding expand_loop
expand fuel t idx = expand_loop fuel t (idx ∷ []) []

-- `freq`: the leaves met so far with the number of times; the order of the hash map does not matter,
-- since the result is sorted.
pub freq_add : ℕ → List (ℕ × ℕ) → List (ℕ × ℕ)
freq_add leaf [] = (leaf, 1) ∷ []
freq_add leaf ((k, n) ∷ m) = if k == leaf then (k, add32 n 1) ∷ m else (k, n) ∷ freq_add leaf m

pub freq_add_all : List ℕ → List (ℕ × ℕ) → List (ℕ × ℕ)
unfolding freq_add
freq_add_all [] m = m
freq_add_all (l ∷ ls) m = freq_add_all ls (freq_add l m)

-- Bit `i` of the packed words.
unfoldable pub bit_at : List ℕ → ℕ → ℕ
bit_at words i = get_or words (i / 64) 0 / 2 ^ (i % 64) % 2

-- The loop over the reduced rows, `n` rounds from `i` on. `none` as for `expand`.
pub collect : ℕ → List ℕ → List ℕ → MergeTree → ℕ → ℕ → List (ℕ × ℕ) → Option (List (ℕ × ℕ))
unfolding freq_add_all expand bit_at
collect fuel bits row_map t zero i freq = some freq
collect fuel bits row_map t (suc n) i freq = elim (leb (length bits) (i / 64)) [
  | true ↦ some freq
  | false ↦ elim (bit_at bits i == 1) [
    | false ↦ collect fuel bits row_map t n (i + 1) freq
    | true ↦ elim (expand fuel t (get_or row_map i 0)) [
      | none ↦ none
      | some leaves ↦ collect fuel bits row_map t n (i + 1) (freq_add_all leaves freq)
    ]
  ]
]

pub odd_leaves : List (ℕ × ℕ) → List ℕ
odd_leaves [] = []
odd_leaves ((k, n) ∷ m) = if n % 2 == 1 then k ∷ odd_leaves m else odd_leaves m

-- `std::sort`.
unfoldable pub insert_sorted : ℕ → List ℕ → List ℕ
insert_sorted x [] = x ∷ []
insert_sorted x (y ∷ ys) = if leb x y then x ∷ y ∷ ys else y ∷ insert_sorted x ys

unfoldable pub sort : List ℕ → List ℕ
unfolding insert_sorted
sort [] = []
sort (x ∷ xs) = insert_sorted x (sort xs)

abbrev finish : Option (List (ℕ × ℕ)) → Option (List ℕ)
finish none = none
finish (some freq) = some (sort (odd_leaves freq))

unfoldable pub expand_kernel_vector : ℕ → List ℕ → ℕ → List ℕ → MergeTree → Option (List ℕ)
unfolding collect sort odd_leaves
expand_kernel_vector fuel bits num_rows row_map t =
    finish (collect fuel bits row_map t num_rows 0 [])
