-- ===== src/Matrix/MergeTree/Frequency.antt =====
-- merge_tree: the frequency table of `expandKernelVector`, its odd entries and their order.
use cuda_mpqs.Prelude.{
  ℕ, suc, ◌+◌, ◌%◌, ◌≤◌, ◌≡◌, refl, List, [], ◌∷◌, leb, ◌==◌, if◌then◌else◌, arith, Bool-cases, inl,
  inr, sum_over, max, count, Ascending,
}
use cuda_mpqs.Matrix.MergeTree.{freq_add, freq_add_all, odd_leaves, insert_sorted, sort}

-- The sum of `f` over the leaves that were met an odd number of times.
unfoldable pub odd_sum : (ℕ → ℕ) → List (ℕ × ℕ) → ℕ
odd_sum f [] = 0
odd_sum f ((k, n) ∷ m) = (if n % 2 == 1 then f k else 0) + odd_sum f m

odd_sum-freq_add :
    (f : ℕ → ℕ) (l : ℕ) (m : List (ℕ × ℕ)) → odd_sum f (freq_add l m) % 2 ≡ (odd_sum f m + f l) % 2
unfolding odd_sum freq_add
odd_sum-freq_add f l [] = omega arith
odd_sum-freq_add f l ((k, n) ∷ m) = elim (Bool-cases (k == l)) [
  | inl here ↦ let e : k ≡ l = ground arith in rw here (rw e (ground arith))
  | inr other ↦ rw other (omega (arith, odd_sum-freq_add f l m))
]

pub odd_sum-freq_add_all :
    (f : ℕ → ℕ) (ls : List ℕ) (m : List (ℕ × ℕ))
    → odd_sum f (freq_add_all ls m) % 2 ≡ (odd_sum f m + sum_over f ls) % 2
unfolding freq_add_all
odd_sum-freq_add_all f [] m = omega arith
odd_sum-freq_add_all f (l ∷ ls) m =
    omega (arith, odd_sum-freq_add_all f ls (freq_add l m), odd_sum-freq_add f l m)

pub sum_over-odd_leaves : (f : ℕ → ℕ) (m : List (ℕ × ℕ)) → sum_over f (odd_leaves m) ≡ odd_sum f m
unfolding odd_sum odd_leaves
sum_over-odd_leaves f [] = refl
sum_over-odd_leaves f ((k, n) ∷ m) = ground (arith, sum_over-odd_leaves f m)

sum_over-insert_sorted :
    (f : ℕ → ℕ) (x : ℕ) (ys : List ℕ) → sum_over f (insert_sorted x ys) ≡ f x + sum_over f ys
unfolding insert_sorted
sum_over-insert_sorted f x [] = refl
sum_over-insert_sorted f x (y ∷ ys) = ground (arith, sum_over-insert_sorted f x ys)

pub sum_over-sort : (f : ℕ → ℕ) (xs : List ℕ) → sum_over f (sort xs) ≡ sum_over f xs
unfolding sort
sum_over-sort f [] = refl
sum_over-sort f (x ∷ xs) = omega (arith, sum_over-insert_sorted f x (sort xs), sum_over-sort f xs)

-- Each leaf has one entry in `freq`.
unfoldable pub key_count : ℕ → List (ℕ × ℕ) → ℕ
key_count c [] = 0
key_count c ((k, n) ∷ m) = (if k == c then 1 else 0) + key_count c m

key_count-freq_add :
    (c l : ℕ) (m : List (ℕ × ℕ))
    → key_count c (freq_add l m) ≡ (if l == c then max 1 (key_count c m) else key_count c m)
unfolding key_count freq_add
key_count-freq_add c l [] = ground arith
key_count-freq_add c l ((k, n) ∷ m) = ground (arith, key_count-freq_add c l m)

pub key_count-freq_add_all :
    (c : ℕ) (ls : List ℕ) (m : List (ℕ × ℕ))
    → key_count c m ≤ 1
    → key_count c (freq_add_all ls m) ≤ 1
unfolding freq_add_all
key_count-freq_add_all c [] m h = h
key_count-freq_add_all c (l ∷ ls) m h =
    key_count-freq_add_all c ls (freq_add l m) (ground (arith, key_count-freq_add c l m))

pub count-odd_leaves : (c : ℕ) (m : List (ℕ × ℕ)) → count c (odd_leaves m) ≤ key_count c m
unfolding odd_leaves key_count
count-odd_leaves c [] = omega arith
count-odd_leaves c ((k, n) ∷ m) = ground (arith, count-odd_leaves c m)

insert_sorted-Ascending :
    (lo x : ℕ) (ys : List ℕ)
    → lo ≤ x
    → count x ys ≡ 0
    → Ascending lo ys
    → Ascending lo (insert_sorted x ys)
unfolding insert_sorted
insert_sorted-Ascending lo x [] h z a = (h, tt)
insert_sorted-Ascending lo x (y ∷ ys) h z a = elim (Bool-cases (leb x y)) [
  | inl le ↦ rw le (h, (ground arith, a.1))
  | inr gt ↦ rw gt (a.0, insert_sorted-Ascending (suc y) x ys (ground arith) (ground arith) a.1)
]

count-insert_sorted :
    (c x : ℕ) (ys : List ℕ) → count c (insert_sorted x ys) ≡ (if x == c then 1 else 0) + count c ys
unfolding insert_sorted
count-insert_sorted c x [] = refl
count-insert_sorted c x (y ∷ ys) = ground (arith, count-insert_sorted c x ys)

pub count-sort : (c : ℕ) (xs : List ℕ) → count c (sort xs) ≡ count c xs
unfolding sort
count-sort c [] = refl
count-sort c (x ∷ xs) = omega (arith, count-insert_sorted c x (sort xs), count-sort c xs)

pub sort-Ascending : (xs : List ℕ) → ((c : ℕ) → count c xs ≤ 1) → Ascending 0 (sort xs)
unfolding sort
sort-Ascending [] h = tt
sort-Ascending (x ∷ xs) h =
    insert_sorted-Ascending 0 x (sort xs) (omega arith) (ground (arith, h x, count-sort x xs))
      (sort-Ascending xs (λ c. omega (arith, h c)))
