-- ===== src/Cluster/LargePrime/Examples.antt =====
-- `CPULargePrimeTable` modulo 77, with 3 and 5 as the factor base.
use cuda_mpqs.Prelude.{
  ℕ, ◌+◌, ◌*◌, ◌%◌, ◌^◌, ◌<◌, ◌≡◌, refl, List, [], ◌∷◌, replicate, arith, ◌==◌, if◌then◌else◌, All,
  Ascending,
}
use cuda_mpqs.Common.Uint512.{Limbs}
use cuda_mpqs.Common.Uint512.Value.{value, limb, replicate-IsLimbs}
use cuda_mpqs.Common.Montgomery.{Montgomery, montgomery}
use cuda_mpqs.Common.Montgomery.Multiply.{IsContext}
use cuda_mpqs.Common.Montgomery.Setup.{montgomery-IsContext}
use cuda_mpqs.Cluster.Relations.{Relation}
use cuda_mpqs.Cluster.Relations.View.{batch_of}
use cuda_mpqs.Cluster.Accumulator.{RelationAccumulator}
use cuda_mpqs.Cluster.Accumulator.Refine.{holding}
use cuda_mpqs.Cluster.LargePrime.{LargePrimeTable, insert_and_match, merge_factors}
use cuda_mpqs.Cluster.LargePrime.Factors.{indices, exponent, merge_factors_lem}
use cuda_mpqs.Cluster.LargePrime.Refine.{delivered, process_all, insert_and_match-process_all}
use cuda_mpqs.Cluster.LargePrime.Table.{Combines, IsTable}
use cuda_mpqs.Cluster.LargePrime.Process.{with_prime, insert_and_match_lem}
use cuda_mpqs.Cluster.LargePrime.Valid.{IsPartial, Represents, insert_and_match-Represents}

abbrev modulus : Limbs
modulus = 77 ∷ replicate 15 0

abbrev context : Montgomery
context = montgomery modulus

context-IsContext : IsContext context
context-IsContext =
    montgomery-IsContext modulus (limb (omega arith) (replicate-IsLimbs 15)) refl (omega arith)

abbrev prime : ℕ → ℕ
prime i = if i == 0 then 3 else 5

-- 25 is - 4 * 13 modulo 77.
abbrev first : Relation
first = record {
  sqrt_q = 5;
  sign = 255;
  val_2_exp = 2;
  large_prime = 13;
  factors = [];
  char_bits = 0;
}

-- 36 is - 3 * 5 * 13 modulo 77.
abbrev second : Relation
second = record {
  sqrt_q = 6;
  sign = 255;
  val_2_exp = 0;
  large_prime = 13;
  factors = (0, 1) ∷ (1, 1) ∷ [];
  char_bits = 0;
}

first-IsPartial : IsPartial (value context.n) prime first
unfolding montgomery
first-IsPartial = record {
  root_fits = omega arith;
  exponent_fits = omega arith;
  counts_fit = tt;
  prime_fits = omega arith;
  represents = record { left = 51; right = 0; equation = refl };
}

second-IsPartial : IsPartial (value context.n) prime second
unfolding montgomery
second-IsPartial = record {
  root_fits = omega arith;
  exponent_fits = omega arith;
  counts_fit = (omega arith, omega arith);
  prime_fits = omega arith;
  represents = record { left = 192; right = 0; equation = refl };
}

abbrev table : LargePrimeTable
table = record {
  lp1_bound = 1000;
  mont = context;
  table = (13, first) ∷ [];
  total_inserts = 1;
  total_matches = 0;
  total_combines = 0;
  total_dup_dropped = 0;
}

table-IsTable : IsTable (IsPartial (value context.n) prime) table
table-IsTable = record {
  stored = ((refl, omega arith, first-IsPartial), tt);
  one_each = λ k. ground arith;
  inserted = refl;
  matches = refl;
}

abbrev accumulator : RelationAccumulator
accumulator = holding 100 105 (record { kept = []; seen = []; per_source = λ s. 0 })

insert_and_match-Represents_example :
    (t' : LargePrimeTable) × (out : List Relation) × (insert_and_match
        (batch_of (second ∷ []))
        table
        accumulator
      ≡ (t', delivered out accumulator))
    × IsTable (IsPartial (value context.n) prime) t'
    × All
        (λ c.
          Represents (value context.n) prime c (c.large_prime * c.large_prime)
          × (c.sqrt_q < value context.n)
          × (c.val_2_exp < 2 ^ 31))
        out
insert_and_match-Represents_example =
    insert_and_match-Represents prime (second ∷ []) table accumulator context-IsContext
      (second-IsPartial, tt) table-IsTable

insert_and_match_lem_example :
    (t' : LargePrimeTable) × (out : List Relation) × (insert_and_match
        (batch_of (second ∷ []))
        table
        accumulator
      ≡ (t', delivered out accumulator))
    × IsTable (IsPartial (value context.n) prime) t'
    × All (Combines (IsPartial (value context.n) prime) context) out
    × (t'.total_inserts + t'.total_matches ≡ 1 + 0 + with_prime (second ∷ []))
insert_and_match_lem_example =
    insert_and_match_lem (IsPartial (value context.n) prime) (second ∷ []) table accumulator
      (second-IsPartial, tt) table-IsTable

insert_and_match-process_all_example :
    let s = process_all (second ∷ first ∷ second ∷ []) (table, []) in
    insert_and_match (batch_of (second ∷ first ∷ second ∷ [])) table accumulator
    ≡ (s.0, delivered s.1 accumulator)
insert_and_match-process_all_example =
    insert_and_match-process_all (second ∷ first ∷ second ∷ []) table accumulator

abbrev left_factors : List (ℕ × ℕ)
left_factors = (1, 2) ∷ (4, 200) ∷ []

abbrev right_factors : List (ℕ × ℕ)
right_factors = (0, 1) ∷ (4, 100) ∷ (9, 1) ∷ []

merged : merge_factors left_factors right_factors ≡ (0, 1) ∷ (1, 2) ∷ (4, 44) ∷ (9, 1) ∷ []
unfolding merge_factors
merged = refl

merge_factors_lem_example :
    Ascending 0 (indices (merge_factors left_factors right_factors))
    × ((p : ℕ)
        → exponent p (merge_factors left_factors right_factors) % 2 ^ 8
          ≡ (exponent p left_factors + exponent p right_factors) % 2 ^ 8)
merge_factors_lem_example =
    merge_factors_lem left_factors right_factors (omega arith, (omega arith, tt))
      (omega arith, (omega arith, (omega arith, tt)))
