-- ===== src/Cluster/LargePrime.antt =====
-- src/cluster/cpu_lp.cu and cpu_lp.h: `CPULargePrimeTable`. The hash table is a list of keys and partials;
-- its order has no effect. A `uint512` of a batch is a number, split into limbs for the arithmetic.
pub mod Factors
pub mod Table
pub mod Process
pub mod Refine
pub mod Valid
mod Examples
use cuda_mpqs.Prelude.{
  ℕ, zero, suc, ◌+◌, ◌-◌, ◌*◌, ◌/◌, ◌%◌, ◌^◌, List, [], ◌∷◌, Bool, true, false, not, ltb, ◌==◌,
  if◌then◌else◌, ◌||◌, add32, bit_xor, length, get_or, Option, none, some,
}
use cuda_mpqs.Common.Uint512.{Limbs}
use cuda_mpqs.Common.Uint512.Value.{value}
use cuda_mpqs.Common.Montgomery.{Montgomery, montgomery, transform, mul, reduce}
use cuda_mpqs.Cluster.Batch.{HostRelationBatch}
use cuda_mpqs.Cluster.Relations.{Relation, extract_partial, empty_batch, push_relation}
use cuda_mpqs.Cluster.Accumulator.{RelationAccumulator, add_lp_relations}

-- The merge of two sorted lists of factors; counts are `uint8_t`.
unfoldable pub merge_factors : List (ℕ × ℕ) → List (ℕ × ℕ) → List (ℕ × ℕ)
merge_factors [] b = b
merge_factors (x ∷ a) [] = x ∷ a
merge_factors (x ∷ a) (y ∷ b) = elim (ltb x.0 y.0) [
  | true ↦ x ∷ merge_factors a (y ∷ b)
  | false ↦ elim (ltb y.0 x.0) [
    | true ↦ y ∷ merge_factors (x ∷ a) b
    | false ↦ (x.0, (x.1 + y.1) % 2 ^ 8) ∷ merge_factors a b
  ]
]

-- The limbs of a number.
unfoldable pub to_limbs : ℕ → ℕ → Limbs
to_limbs zero v = []
to_limbs (suc n) v = v % 2 ^ 32 ∷ to_limbs n (v / 2 ^ 32)

unfoldable pub combine_sqrt_q : Montgomery → ℕ → ℕ → ℕ
unfolding to_limbs transform mul reduce
combine_sqrt_q mont a b =
    let a_mont = transform mont (to_limbs 16 a) in
    let b_mont = transform mont (to_limbs 16 b) in value (reduce mont (mul mont a_mont b_mont))

-- A sign is positive when it is 1.
abbrev pub combine_signs : ℕ → ℕ → ℕ
combine_signs a b = if a == 1 then if b == 1 then 1 else 255 else if b == 1 then 255 else 1

-- The full relation of two partials with the same large prime. `val_2_exp` is an int32_t, here the number
-- of its 32 bits; a sum of two that are not negative is the source's while it is below 2^31.
unfoldable pub combined : Montgomery → Relation → Relation → Relation
unfolding combine_sqrt_q merge_factors
combined mont stored r = record {
  sqrt_q = combine_sqrt_q mont stored.sqrt_q r.sqrt_q;
  sign = combine_signs stored.sign r.sign;
  val_2_exp = add32 stored.val_2_exp r.val_2_exp;
  large_prime = stored.large_prime;
  factors = merge_factors stored.factors r.factors;
  char_bits = bit_xor stored.char_bits r.char_bits;
}

pub record LargePrimeTable : Type 0 where
  pub lp1_bound : ℕ
  pub mont : Montgomery
  pub table : List (ℕ × Relation)
  pub total_inserts : ℕ
  pub total_matches : ℕ
  pub total_combines : ℕ
  pub total_dup_dropped : ℕ

unfoldable pub new_table : ℕ → Limbs → LargePrimeTable
unfolding montgomery
new_table lp1_bound n = record {
  lp1_bound = lp1_bound;
  mont = montgomery n;
  table = [];
  total_inserts = 0;
  total_matches = 0;
  total_combines = 0;
  total_dup_dropped = 0;
}

unfoldable pub find : ℕ → List (ℕ × Relation) → Option Relation
find key [] = none
find key ((k, r) ∷ table) = if k == key then some r else find key table

unfoldable pub erase : ℕ → List (ℕ × Relation) → List (ℕ × Relation)
erase key [] = []
erase key ((k, r) ∷ table) = let rest = erase key table in if k == key then table else (k, r) ∷ rest

-- `combinePartials`: the combined relation is appended unless both partials have the same root.
unfoldable pub combine_partials :
    Relation
    → Relation
    → LargePrimeTable × HostRelationBatch
    → LargePrimeTable × HostRelationBatch × Bool
unfolding combined push_relation
combine_partials stored r (t, output) =
    if stored.sqrt_q == r.sqrt_q
    then (record t { total_dup_dropped = t.total_dup_dropped + 1 }, output, false)
    else let c = combined t.mont stored r in (t, push_relation output c (length c.factors), true)

-- The match of a partial with a stored one, which leaves the table.
unfoldable pub match_partial :
    ℕ
    → Relation
    → Relation
    → LargePrimeTable × HostRelationBatch
    → LargePrimeTable × HostRelationBatch
unfolding combine_partials erase
match_partial key stored r (t, output) =
    let (t', output', is_combined) =
      combine_partials stored r (record t { total_matches = t.total_matches + 1 }, output) in
    (
      record t' {
        total_combines = if is_combined then t'.total_combines + 1 else t'.total_combines;
        table = erase key t'.table;
      },
      output',
    )

-- The body of the loop of `insertAndMatch`.
unfoldable pub insert_or_match :
    Relation → LargePrimeTable × HostRelationBatch → LargePrimeTable × HostRelationBatch
unfolding find match_partial
insert_or_match r (t, output) =
    let key = r.large_prime % 2 ^ 64 in
    if key == 0 || key == 1 then (t, output) else elim (find key t.table) [
      | some stored ↦ match_partial key stored r (t, output)
      | none ↦
          (record t { total_inserts = t.total_inserts + 1; table = (key, r) ∷ t.table }, output)
    ]

-- The loop over `n` partials, from the index `i` on.
unfoldable pub match_loop :
    HostRelationBatch
    → ℕ
    → ℕ
    → LargePrimeTable × HostRelationBatch
    → LargePrimeTable × HostRelationBatch
unfolding insert_or_match extract_partial
match_loop partials zero i s = s
match_loop partials (suc n) i s =
    match_loop partials n (i + 1) (insert_or_match (extract_partial partials i) s)

unfoldable pub deliver :
    LargePrimeTable × HostRelationBatch
    → RelationAccumulator
    → LargePrimeTable × RelationAccumulator
unfolding add_lp_relations
deliver (t, output) accumulator =
    if ltb 0 output.num_relations
    then (t, add_lp_relations output accumulator)
    else (t, accumulator)

unfoldable pub insert_and_match :
    HostRelationBatch
    → LargePrimeTable
    → RelationAccumulator
    → LargePrimeTable × RelationAccumulator
unfolding match_loop deliver empty_batch
insert_and_match partials t accumulator =
    if partials.num_relations == 0
    then (t, accumulator)
    else deliver (match_loop partials partials.num_relations 0 (t, empty_batch)) accumulator
