-- ===== src/Common/Uint512/Modular.antt =====
-- `add_mod`, `sub_mod` and `negate_mod_inplace`.
use native.Mathlib.Nat.{mod-eq_of_lt, add-mul-mod_self_left}
use cuda_mpqs.Prelude.{
  ℕ, zero, suc, ◌+◌, ◌-◌, ◌*◌, ◌%◌, ◌<◌, ◌≤◌, ◌≡◌, ap, sym, ◌∙◌, ◌⊎◌, inl, inr, true, false, arith,
  ltb, Bool-cases, ltb→lt, lt→ltb, if◌then◌else◌,
}
use cuda_mpqs.Common.Uint512.{Limbs, add, sub, add_mod, sub_mod, exceeds, subtract_once}
use cuda_mpqs.Common.Uint512.Value.{value, IsLimbs, span, value_bound}
use cuda_mpqs.Common.Uint512.Sums.{
  add-value, add-IsLimbs, sub-value, sub-value_wrapped, sub-IsLimbs,
}
use cuda_mpqs.Common.Uint512.Order.{less-value}

-- `limbs` is the residue of `t` modulo `m`.
pub record IsResidue (t m : ℕ) (limbs : Limbs) : Type 0 where
  pub is_limbs : IsLimbs 16 limbs
  pub below : value limbs < m
  pub equation : value limbs ≡ t % m

pub residue :
    (t m : ℕ) (xs : Limbs) → IsLimbs 16 xs → value xs < m → value xs ≡ t → IsResidue t m xs
residue t m xs h b e = record {
  is_limbs = h;
  below = b;
  equation = e ∙ sym (mod-eq_of_lt (omega (arith, e, b)));
}

pub IsResidue-plus :
    (t m : ℕ) (xs : Limbs) → IsLimbs 16 xs → value xs < m → value xs + m ≡ t → IsResidue t m xs
IsResidue-plus t m xs h b e = record {
  is_limbs = h;
  below = b;
  equation = sym (
      ap (λ s. s % m) {x = t} {y = value xs + m * 1} (omega (arith, e))
      ∙ add-mul-mod_self_left (value xs) m 1
      ∙ mod-eq_of_lt b);
}

pub IsResidue-times :
    (t m q : ℕ) (xs : Limbs)
    → IsLimbs 16 xs
    → value xs < m
    → value xs + m * q ≡ t
    → IsResidue t m xs
IsResidue-times t m q xs h b e = record {
  is_limbs = h;
  below = b;
  equation = sym (ap (λ s. s % m) (sym e) ∙ add-mul-mod_self_left (value xs) m q ∙ mod-eq_of_lt b);
}

-- A sum cut to the limbs is the sum, or is below both of the terms.
sum_cases :
    (a b s : ℕ)
    → a < s
    → b < s
    → ((a + b) % s ≡ a + b) ⊎ (((a + b) % s + s ≡ a + b) × ((a + b) % s < a))
sum_cases a b s h k = elim (Bool-cases (ltb (a + b) s)) [
  | inl e ↦ inl (mod-eq_of_lt (ltb→lt _ _ e))
  | inr e ↦
      let le : s ≤ a + b = ground arith in
      let w : (a + b) % s ≡ a + b - s =
        ap (λ t. t % s) {x = a + b} {y = a + b - s + s * 1} (omega arith)
        ∙ add-mul-mod_self_left (a + b - s) s 1
        ∙ mod-eq_of_lt (omega arith) in
      inr (omega (arith, w), omega (arith, w))
]

-- With both terms below N, `add_mod` returns the limbs of their sum modulo N, also where the sum does not fit 512 bits.
pub add_mod-IsResidue :
    (xs ys n : Limbs)
    → IsLimbs 16 xs
    → IsLimbs 16 ys
    → IsLimbs 16 n
    → value xs < value n
    → value ys < value n
    → IsResidue (value xs + value ys) (value n) (add_mod xs ys n)
unfolding add_mod
add_mod-IsResidue xs ys n h k l a b =
    let s = add xs ys in
    let hs = add-IsLimbs xs ys h k in
    let e = add-value xs ys h k in
    let top = value_bound 16 n l in
    let below = less-value 16 s xs hs h in
    let over = less-value 16 s n hs l in
    elim (sum_cases (value xs) (value ys) (span 16) (omega arith) (omega arith)) [
      | inl fits ↦ elim (Bool-cases (ltb (value s) (value n))) [
        | inl small ↦
            let no_wrap : ltb (value s) (value xs) ≡ false = ground (arith, e, fits) in
            rw (below, no_wrap, over, small) (residue _ _ s hs (ltb→lt _ _ small) (e ∙ fits))
        | inr large ↦
            let d = sub-value s n hs l (ground arith) in
            let no_wrap : ltb (value s) (value xs) ≡ false = ground (arith, e, fits) in
            rw (below, no_wrap, over, large)
              (IsResidue-plus _ _ _ (sub-IsLimbs s n hs l) (omega (arith, d, e, fits))
                (omega (arith, d, e, fits)))
      ]
      | inr (wraps, low) ↦
          let d = sub-value_wrapped s n hs l (omega (arith, e, wraps)) in
          let wrapped : ltb (value s) (value xs) ≡ true = lt→ltb _ _ (omega (arith, e, low)) in
          rw (below, wrapped)
            (IsResidue-plus _ _ _ (sub-IsLimbs s n hs l) (omega (arith, d, e, wraps))
              (omega (arith, d, e, wraps)))
    ]

pub sub_mod-IsResidue :
    (xs ys n : Limbs)
    → IsLimbs 16 xs
    → IsLimbs 16 ys
    → IsLimbs 16 n
    → value xs < value n
    → value ys < value n
    → IsResidue (value xs + value n - value ys) (value n) (sub_mod xs ys n)
unfolding sub_mod
sub_mod-IsResidue xs ys n h k l a b =
    let d = sub xs ys in
    let hd = sub-IsLimbs xs ys h k in
    let below = less-value 16 xs ys h k in
    elim (Bool-cases (ltb (value xs) (value ys))) [
      | inl lt ↦
          let w = sub-value_wrapped xs ys h k (ltb→lt _ _ lt) in
          let e = add-value d n hd l in
          let sum =
            sum_cases (value d) (value n) (span 16) (value_bound 16 d hd) (value_bound 16 n l) in
          let hs = add-IsLimbs d n hd l in
          rw (below, lt) (residue _ _ _ hs (ground (arith, sum, e, w)) (ground (arith, sum, e, w)))
      | inr ge ↦
          let w = sub-value xs ys h k (ground arith) in
          rw (below, ge) (IsResidue-plus _ _ d hd (omega (arith, w)) (omega (arith, w)))
    ]

-- One subtraction of N takes a number below 2N below N, also where it does not fit 512 bits.
pub subtract_once_lem :
    (t : Limbs × ℕ) (n : Limbs)
    → IsLimbs 16 n
    → IsLimbs 16 t.0
    → value t.0 + span 16 * t.1 < value n + value n
    → let r = subtract_once t n in
      let q : ℕ = if exceeds t n then 1 else 0 in
      IsLimbs 16 r × (value r < value n) × (value r + value n * q ≡ value t.0 + span 16 * t.1)
unfolding subtract_once exceeds
subtract_once_lem (t, zero) n hn h low =
    let below = less-value 16 t n h hn in
    elim (Bool-cases (ltb (value t) (value n))) [
      | inl small ↦ rw (below, small) (h, ltb→lt _ _ small, omega arith)
      | inr large ↦
          let d = sub-value t n h hn (ground arith) in
          rw (below, large) (sub-IsLimbs t n h hn, omega (arith, d, low), omega (arith, d))
    ]
subtract_once_lem (t, suc zero) n hn h low =
    let top = value_bound 16 n hn in
    let d = sub-value_wrapped t n h hn (omega (arith, low, top)) in
    (sub-IsLimbs t n h hn, omega (arith, d, low), omega (arith, d))
subtract_once_lem (t, suc (suc e)) n hn h low = absurd (grind (arith, low, value_bound 16 n hn))
