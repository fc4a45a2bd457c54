-- ===== src/Matrix/Singletons/Monotone.antt =====
-- The compaction of columns keeps their order, and the new numbers of all columns can be told apart.
use native.Mathlib.Nat.{zero-add}
use cuda_mpqs.Prelude.{
  ℕ, zero, suc, ◌+◌, ◌-◌, ◌<◌, ◌≤◌, ◌≡◌, refl, sym, ap, ◌∙◌, subst, List, [], ◌∷◌, map, true, false,
  ltb, ◌==◌, if◌then◌else◌, get_or, arith, count, Ascending, Ascending-count_below, Bool-cases, inl,
  inr, u32_max,
}
use cuda_mpqs.Matrix.Singletons.{Weights, Compaction, compact_cols}
use cuda_mpqs.Matrix.Singletons.Renumber.{
  IsNumbered, number_next, number_next-IsNumbered, skip-IsNumbered, subst_absurd,
  compact_cols-IsNumbered,
}

abbrev pub IsMonotone : Weights → ℕ → (ℕ → ℕ) → Type 0
IsMonotone w i f = (c d : ℕ) → c < d → d < i → 0 < w c → 0 < w d → f c < f d

number_next-IsMonotone :
    (w : Weights) (i : ℕ) (s : Compaction)
    → IsNumbered w i s
    → IsMonotone w i s.old_to_new
    → IsMonotone w (i + 1) (number_next i s).old_to_new
unfolding number_next
number_next-IsMonotone w i s v m c d lt h pc pd =
    let before : (c == i) ≡ false = ground arith in
    elim (Bool-cases (d == i)) [
      | inl last ↦ rw (before, last) (v.below c (ground arith) pc)
      | inr inner ↦ rw (before, inner) (m c d lt (ground arith) pc pd)
    ]

skip-IsMonotone :
    (w : Weights) (i : ℕ) (f : ℕ → ℕ)
    → ltb 0 (w i) ≡ false
    → IsMonotone w i f
    → IsMonotone w (i + 1) f
skip-IsMonotone w i f z m c d lt h pc pd = elim (Bool-cases (d == i)) [
  | inl last ↦ absurd (let e : d ≡ i = ground arith in subst_absurd w d i e z pd)
  | inr inner ↦ m c d lt (ground arith) pc pd
]

compact_cols-IsMonotone :
    (n i : ℕ) (w : Weights) (s : Compaction)
    → IsNumbered w i s
    → IsMonotone w i s.old_to_new
    → IsMonotone w (i + n) (compact_cols n i w s).old_to_new
unfolding compact_cols number_next
compact_cols-IsMonotone zero i w s v m = let e : i + 0 ≡ i = omega arith in rw e m
compact_cols-IsMonotone (suc n) i w s v m =
    let e : i + suc n ≡ i + 1 + n = omega arith in
    elim (Bool-cases (ltb 0 (w i))) [
      | inl used ↦
          rw (e, used, compact_cols)
            (compact_cols-IsMonotone n (i + 1) w (number_next i s) (number_next-IsNumbered w i s v)
              (number_next-IsMonotone w i s v m))
      | inr free ↦
          rw (e, free, compact_cols)
            (compact_cols-IsMonotone n (i + 1) w s (skip-IsNumbered w i s free v)
              (skip-IsMonotone w i s.old_to_new free m))
    ]

-- The compaction of all `n` columns.
abbrev pub compaction : ℕ → Weights → Compaction
compaction n w =
    compact_cols n 0 w (record { old_to_new = λ c. u32_max; col_map = []; new_cols = 0 })

first-IsNumbered :
    (w : Weights)
    → IsNumbered w 0 (record { old_to_new = λ c. u32_max; col_map = []; new_cols = 0 })
first-IsNumbered w = record {
  counted = refl;
  below = λ d l. absurd (omega arith);
  back = λ d l. absurd (omega arith);
}

pub compaction-IsNumbered : (n : ℕ) (w : Weights) → IsNumbered w n (compaction n w)
compaction-IsNumbered n w =
    subst (λ i. IsNumbered w i (compaction n w)) (zero-add n)
      (compact_cols-IsNumbered n 0 w
        (record { old_to_new = λ c. u32_max; col_map = []; new_cols = 0 }) (first-IsNumbered w))

pub compaction-IsMonotone : (n : ℕ) (w : Weights) → IsMonotone w n (compaction n w).old_to_new
compaction-IsMonotone n w =
    subst (λ i. IsMonotone w i (compaction n w).old_to_new) (zero-add n)
      (compact_cols-IsMonotone n 0 w
        (record { old_to_new = λ c. u32_max; col_map = []; new_cols = 0 }) (first-IsNumbered w)
        (λ c d lt h. absurd (omega arith)))

-- A sorted row stays sorted under a function that keeps the order of its columns.
pub map-Ascending :
    (f : ℕ → ℕ) (lo lo' : ℕ) (xs : List ℕ)
    → Ascending lo xs
    → ((c : ℕ) → 1 ≤ count c xs → lo' ≤ f c)
    → ((c d : ℕ) → c < d → 1 ≤ count c xs → 1 ≤ count d xs → f c < f d)
    → Ascending lo' (map f xs)
map-Ascending f lo lo' [] a low mono = tt
map-Ascending f lo lo' (x ∷ xs) a low mono = (
  low x (ground arith),
  map-Ascending f (suc x) (suc (f x)) xs a.1
      (λ c h. let above : x < c = later c h in mono x c above (ground arith) (omega arith))
      (λ c d lt hc hd. mono c d lt (omega arith) (omega arith)),
)
  where
    later : (c : ℕ) → 1 ≤ count c xs → x < c
    later c h = elim (Bool-cases (ltb x c)) [
      | inl less ↦ ground arith
      | inr more ↦ absurd (omega (arith, Ascending-count_below (suc x) c xs (ground arith) a.1, h))
    ]

-- Columns that are dropped get numbers behind the others.
abbrev pub number : ℕ → Weights → ℕ → ℕ
number n w c = let k = compaction n w in if ltb 0 (w c) then k.old_to_new c else k.new_cols + c

abbrev pub column_of : ℕ → Weights → ℕ → ℕ
column_of n w d =
    let k = compaction n w in
    if ltb d k.new_cols then get_or k.col_map d u32_max else d - k.new_cols

pub column_of-number :
    (n : ℕ) (w : Weights) (c : ℕ) → (0 < w c → c < n) → column_of n w (number n w c) ≡ c
column_of-number n w c within = elim (Bool-cases (ltb 0 (w c))) [
  | inl used ↦
      let v = compaction-IsNumbered n w in
      let h = within (ground arith) in
      let low : ltb ((compaction n w).old_to_new c) (compaction n w).new_cols ≡ true =
        ground (arith, v.below c h (ground arith)) in
      rw (used, low) (v.back c h (ground arith))
  | inr free ↦
      let high : ltb ((compaction n w).new_cols + c) (compaction n w).new_cols ≡ false =
        ground arith in
      rw (free, high) (omega arith)
]

-- How often a number stands in a row whose columns are numbered by `f`, which `g` undoes.
pub count-numbered :
    (f g : ℕ → ℕ) (d : ℕ) (xs : List ℕ)
    → ((c : ℕ) → g (f c) ≡ c)
    → count d (map f xs) ≡ (if f (g d) == d then count (g d) xs else 0)
count-numbered f g d [] back = ground arith
count-numbered f g d (x ∷ xs) back =
    let ih = count-numbered f g d xs back in
    elim (Bool-cases (f x == d)) [
      | inl here ↦
          let e : f x ≡ d = ground arith in
          let gx : g d ≡ x = ap g (sym e) ∙ back x in
          let same : (f (g d) == d) ≡ true = rw (gx) here in
          let same' : (x == g d) ≡ true = ground (arith, gx) in
          rw (here, same, same') (omega (arith, ih, if_same same))
      | inr away ↦ elim (Bool-cases (f (g d) == d)) [
        | inl image ↦
            let e : f (g d) ≡ d = ground arith in
            let other : (x == g d) ≡ false = differs x d e away in
            rw (away, image, other) (omega (arith, ih, if_same image))
        | inr none' ↦ rw (away, none') (omega (arith, ih, if_other none'))
      ]
    ]
  where
    if_same : (f (g d) == d) ≡ true → (if f (g d) == d then count (g d) xs else 0) ≡ count (g d) xs
    if_same e = rw e refl

    if_other : (f (g d) == d) ≡ false → (if f (g d) == d then count (g d) xs else 0) ≡ 0
    if_other e = rw e refl

    differs : (y k : ℕ) → f (g k) ≡ k → (f y == k) ≡ false → (y == g k) ≡ false
    differs y k e away = elim (Bool-cases (y == g k)) [
      | inl same ↦
          let p : y ≡ g k = ground arith in let q : f y ≡ k = ap f p ∙ e in absurd (ground arith)
      | inr other ↦ other
    ]
