-- ===== src/Cluster/LargePrime/Refine.antt =====
-- `insertAndMatch` on lists of relations.
use cuda_mpqs.Prelude.{
  ℕ, suc, ◌+◌, ◌%◌, ◌^◌, ◌≡◌, refl, sym, ap, ◌∙◌, List, [], ◌∷◌, ◌++◌, arith, length, length-append,
  ltb, ◌==◌, ◌||◌, if◌then◌else◌, Bool-cases, Option-cases, inl, inr, true, false, Option, none,
  some,
}
use cuda_mpqs.Cluster.Batch.{HostRelationBatch}
use cuda_mpqs.Cluster.Relations.{Relation}
use cuda_mpqs.Cluster.Relations.Slices.{append_assoc}
use cuda_mpqs.Cluster.Relations.View.{
  batch_of, extract_partial-batch_of, push_relation-batch_of, empty_batch-batch_of,
}
use cuda_mpqs.Cluster.Accumulator.{RelationAccumulator, add_lp_relations}
use cuda_mpqs.Cluster.LargePrime.{
  LargePrimeTable, combined, find, erase, combine_partials, match_partial, insert_or_match,
  match_loop, deliver, insert_and_match,
}

-- A match: the stored partial leaves the table, and the combined relation is output unless both
-- partials have the same root.
abbrev pub matched :
    ℕ → Relation → Relation → LargePrimeTable × List Relation → LargePrimeTable × List Relation
matched key stored r (t, out) =
    let t' = record t { total_matches = t.total_matches + 1; table = erase key t.table } in
    if stored.sqrt_q == r.sqrt_q
    then (record t' { total_dup_dropped = t.total_dup_dropped + 1 }, out)
    else (record t' { total_combines = t.total_combines + 1 }, out ++ combined t.mont stored r ∷ [])

abbrev pub processed :
    ℕ
    → Relation
    → Option Relation
    → LargePrimeTable × List Relation
    → LargePrimeTable × List Relation
processed key r none (t, out) =
    (record t { total_inserts = t.total_inserts + 1; table = (key, r) ∷ t.table }, out)
processed key r (some stored) s = matched key stored r s

abbrev pub key_of : Relation → ℕ
key_of r = r.large_prime % 2 ^ 64

-- One partial.
abbrev pub process : Relation → LargePrimeTable × List Relation → LargePrimeTable × List Relation
process r s =
    if key_of r == 0 || key_of r == 1
    then s
    else processed (key_of r) r (find (key_of r) s.0.table) s

abbrev pub process_all :
    List Relation → LargePrimeTable × List Relation → LargePrimeTable × List Relation
process_all [] s = s
process_all (r ∷ rs) s = process_all rs (process r s)

-- The state with its output as a batch.
abbrev pub with_batch : LargePrimeTable × List Relation → LargePrimeTable × HostRelationBatch
with_batch (t, out) = (t, batch_of out)

match_partial-with_batch :
    (key : ℕ) (stored r : Relation) (s : LargePrimeTable × List Relation)
    → match_partial key stored r (with_batch s) ≡ with_batch (matched key stored r s)
unfolding match_partial combine_partials
match_partial-with_batch key stored r (t, out) = elim (Bool-cases (stored.sqrt_q == r.sqrt_q)) [
  | inl same' ↦ rw same' refl
  | inr new ↦ rw new (
      ap
        (λ b. (
          record t {
            total_matches = t.total_matches + 1;
            total_combines = t.total_combines + 1;
            table = erase key t.table;
          },
          b,
        ))
        (push_relation-batch_of out (combined t.mont stored r)))
]

insert_or_match-with_batch :
    (r : Relation) (s : LargePrimeTable × List Relation)
    → insert_or_match r (with_batch s) ≡ with_batch (process r s)
unfolding insert_or_match
insert_or_match-with_batch r (t, out) = elim (Bool-cases (key_of r == 0 || key_of r == 1)) [
  | inl skip ↦ rw skip refl
  | inr real ↦ elim (Option-cases (find (key_of r) t.table)) [
    | inl new ↦ rw (real, new) refl
    | inr (stored, old) ↦ rw (real, old) (match_partial-with_batch (key_of r) stored r (t, out))
  ]
]

match_loop-with_batch :
    (rs ss : List Relation) (s : LargePrimeTable × List Relation)
    → match_loop (batch_of (rs ++ ss)) (length ss) (length rs) (with_batch s)
      ≡ with_batch (process_all ss s)
unfolding match_loop
match_loop-with_batch rs [] s = refl
match_loop-with_batch rs (r ∷ ss) s =
    let n = length-append rs (r ∷ []) in
    let longer = sym (append_assoc rs (r ∷ []) ss) in
    let next = with_batch (process r s) in
    ap
      (λ q.
        match_loop (batch_of (rs ++ r ∷ ss)) (length ss) (length rs + 1)
          (insert_or_match q (with_batch s)))
      (extract_partial-batch_of rs ss r)
    ∙ ap (match_loop (batch_of (rs ++ r ∷ ss)) (length ss) (length rs + 1))
        (insert_or_match-with_batch r s)
    ∙ ap (λ qs. match_loop (batch_of qs) (length ss) (length rs + 1) next) longer
    ∙ ap (λ i. match_loop (batch_of ((rs ++ r ∷ []) ++ ss)) (length ss) i next) {x = length rs + 1}
        {y = length (rs ++ r ∷ [])} (omega (arith, n))
    ∙ match_loop-with_batch (rs ++ r ∷ []) ss (process r s)

-- The output goes to the accumulator unless it is empty.
abbrev pub delivered : List Relation → RelationAccumulator → RelationAccumulator
delivered [] a = a
delivered (r ∷ rs) a = add_lp_relations (batch_of (r ∷ rs)) a

deliver-with_batch :
    (s : LargePrimeTable × List Relation) (a : RelationAccumulator)
    → deliver (with_batch s) a ≡ (s.0, delivered s.1 a)
unfolding deliver
deliver-with_batch (t, []) a = refl
deliver-with_batch (t, r ∷ rs) a =
    let e : ltb 0 (suc (length rs)) ≡ true = ground arith in rw e refl

-- `insertAndMatch` on the batch of a list takes the partials one by one, in their order, and hands the combined relations to the accumulator as one batch.
pub insert_and_match-process_all :
    (rs : List Relation) (t : LargePrimeTable) (a : RelationAccumulator)
    → let s = process_all rs (t, []) in insert_and_match (batch_of rs) t a ≡ (s.0, delivered s.1 a)
unfolding insert_and_match
insert_and_match-process_all [] t a = refl
insert_and_match-process_all (r ∷ rs) t a =
    let e : (suc (length rs) == 0) ≡ false = ground arith in
    rw e (
      ap (λ b. deliver (match_loop (batch_of (r ∷ rs)) (suc (length rs)) 0 (t, b)) a)
        empty_batch-batch_of
      ∙ ap (λ s. deliver s a) (match_loop-with_batch [] (r ∷ rs) (t, []))
      ∙ deliver-with_batch (process_all (r ∷ rs) (t, [])) a)
