-- ===== src/Cluster/LargePrime/Table.antt =====
-- `CPULargePrimeTable`: its table, its counters and what it outputs.
use cuda_mpqs.Prelude.{
  ℕ, suc, ◌+◌, ◌<◌, ◌≤◌, ◌≡◌, refl, sym, ap, subst, ◌∙◌, List, [], ◌∷◌, map, arith, length, ◌==◌,
  Bool-cases, inl, inr, false, Option, none, some, count, All,
}
use cuda_mpqs.Common.Montgomery.{Montgomery}
use cuda_mpqs.Cluster.Relations.{Relation}
use cuda_mpqs.Cluster.LargePrime.{LargePrimeTable, combined, find, erase}
use cuda_mpqs.Cluster.LargePrime.Refine.{key_of}

abbrev Entries : Type 0
Entries = List (ℕ × Relation)

abbrev pub keys : Entries → List ℕ
keys table = map (λ e. e.0) table

-- An entry: a stored partial under its large prime.
abbrev pub Stored : (Relation → Type 0) → ℕ × Relation → Type 0
Stored P e = (key_of e.1 ≡ e.0) × (1 < e.0) × P e.1

-- The outcome of a match of two partials with the property.
abbrev pub Combines : (Relation → Type 0) → Montgomery → Relation → Type 0
Combines P mont c =
    (a : Relation) × (b : Relation) × P a
    × P b
    × (key_of a ≡ key_of b)
    × ((a.sqrt_q == b.sqrt_q) ≡ false)
    × (c ≡ combined mont a b)

pub record IsTable (P : Relation → Type 0) (t : LargePrimeTable) : Type 0 where
  pub stored : All (Stored P) t.table
  pub one_each : (k : ℕ) → count k (keys t.table) ≤ 1
  pub inserted : t.total_inserts ≡ length t.table + t.total_matches
  pub matches : t.total_matches ≡ t.total_combines + t.total_dup_dropped

pub find-Stored :
    (P : Relation → Type 0) (key : ℕ) (table : Entries) (r : Relation)
    → All (Stored P) table
    → find key table ≡ some r
    → Stored P (key, r)
unfolding find
find-Stored P key [] r h e = absurd (cc)
find-Stored P key ((k, q) ∷ table) r h e = elim (Bool-cases (k == key)) [
  | inl same' ↦
      let ek : k ≡ key = ground arith in
      let er : some q ≡ some r = sym (rw same' refl) ∙ e in
      subst (λ p. Stored P p) (λ i. (ek i, some_inj er i)) h.0
  | inr other ↦ find-Stored P key table r h.1 (sym (rw other refl) ∙ e)
]
  where
    unsome : Relation → Option Relation → Relation
    unsome d none = d
    unsome d (some x) = x

    some_inj : {x y : Relation} → some x ≡ some y → x ≡ y
    some_inj {x} p = ap (unsome x) p

pub find-none : (key : ℕ) (table : Entries) → find key table ≡ none → count key (keys table) ≡ 0
unfolding find
find-none key [] e = refl
find-none key ((k, q) ∷ table) e = elim (Bool-cases (k == key)) [
  | inl same' ↦ absurd (let b : some q ≡ none = sym (rw same' refl) ∙ e in cc)
  | inr other ↦ rw other (omega (arith, find-none key table (sym (rw other refl) ∙ e)))
]

pub length-erase :
    (key : ℕ) (table : Entries) (r : Relation)
    → find key table ≡ some r
    → length table ≡ suc (length (erase key table))
unfolding find erase
length-erase key [] r e = absurd (cc)
length-erase key ((k, q) ∷ table) r e = elim (Bool-cases (k == key)) [
  | inl same' ↦ rw same' refl
  | inr other ↦ rw other (ap suc (length-erase key table r (sym (rw other refl) ∙ e)))
]

pub All-erase :
    (Q : ℕ × Relation → Type 0) (key : ℕ) (table : Entries) → All Q table → All Q (erase key table)
unfolding erase
All-erase Q key [] h = tt
All-erase Q key ((k, q) ∷ table) h = elim (Bool-cases (k == key)) [
  | inl same' ↦ rw same' h.1
  | inr other ↦ rw other (h.0, All-erase Q key table h.1)
]

pub count-erase :
    (key x : ℕ) (table : Entries) → count x (keys (erase key table)) ≤ count x (keys table)
unfolding erase
count-erase key x [] = omega arith
count-erase key x ((k, q) ∷ table) = elim (Bool-cases (k == key)) [
  | inl same' ↦ rw same' (omega arith)
  | inr other ↦ rw other (omega (arith, count-erase key x table))
]
