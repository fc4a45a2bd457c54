-- ===== src/Cluster/Accumulator/Refine.antt =====
-- `addRelations` on lists of relations.
use cuda_mpqs.Prelude.{
  ℕ, ◌+◌, ◌≡◌, refl, sym, ap, ◌∙◌, List, [], ◌∷◌, ◌++◌, arith, length, length-append, ltb, ◌==◌,
  if◌then◌else◌, count, Bool-cases, inl, inr,
}
use cuda_mpqs.Cluster.Relations.{Relation, extract_partial, push_relation}
use cuda_mpqs.Cluster.Relations.Slices.{append_assoc}
use cuda_mpqs.Cluster.Relations.View.{
  batch_of, extract_partial-batch_of, factor_count-batch_of, push_relation-batch_of,
}
use cuda_mpqs.Cluster.Accumulator.{
  RelationAccumulator, hash_of, compute_relation_hash, append_single_relation, add_relation,
  add_relations_loop, add_relations,
}

abbrev pub relation_hash : Relation → ℕ
relation_hash r = hash_of (length r.factors) r

-- What an accumulator keeps, as a list.
pub record Kept : Type 0 where
  pub kept : List Relation
  pub seen : List ℕ
  pub per_source : ℕ → ℕ

-- A relation joins the list unless its hash has been seen.
abbrev pub keep : ℕ → Relation → Kept → Kept
keep source_id r k = if ltb 0 (count (relation_hash r) k.seen) then k else record {
  kept = k.kept ++ r ∷ [];
  seen = relation_hash r ∷ k.seen;
  per_source = λ s. if s == source_id then k.per_source s + 1 else k.per_source s;
}

abbrev pub keep_all : ℕ → List Relation → Kept → Kept
keep_all source_id [] k = k
keep_all source_id (r ∷ rs) k = keep_all source_id rs (keep source_id r k)

-- The accumulator that holds a list.
abbrev pub holding : ℕ → ℕ → Kept → RelationAccumulator
holding target effective_target k = record {
  target = target;
  effective_target = effective_target;
  accumulated = batch_of k.kept;
  seen = k.seen;
  per_source = k.per_source;
}

pub compute_relation_hash-batch_of :
    (rs ss : List Relation) (r : Relation)
    → compute_relation_hash (batch_of (rs ++ r ∷ ss)) (length rs) ≡ relation_hash r
unfolding compute_relation_hash
compute_relation_hash-batch_of rs ss r =
    ap (λ n. hash_of n (extract_partial (batch_of (rs ++ r ∷ ss)) (length rs)))
      (factor_count-batch_of rs ss r)
    ∙ ap (hash_of (length r.factors)) (extract_partial-batch_of rs ss r)

append_single_relation-batch_of :
    (dest rs ss : List Relation) (r : Relation)
    → append_single_relation (batch_of dest) (batch_of (rs ++ r ∷ ss)) (length rs)
      ≡ batch_of (dest ++ r ∷ [])
unfolding append_single_relation
append_single_relation-batch_of dest rs ss r =
    ap
      (λ n. push_relation (batch_of dest) (extract_partial (batch_of (rs ++ r ∷ ss)) (length rs)) n)
      (factor_count-batch_of rs ss r)
    ∙ ap (λ q. push_relation (batch_of dest) q (length r.factors))
        (extract_partial-batch_of rs ss r)
    ∙ push_relation-batch_of dest r

add_relation-holding :
    (s t e : ℕ) (rs ss : List Relation) (r : Relation) (k : Kept)
    → add_relation (batch_of (rs ++ r ∷ ss)) s (length rs) (holding t e k)
      ≡ holding t e (keep s r k)
unfolding add_relation
add_relation-holding s t e rs ss r k =
    let h = compute_relation_hash-batch_of rs ss r in
    elim (Bool-cases (ltb 0 (count (relation_hash r) k.seen))) [
      | inl old ↦ rw (h, old) refl
      | inr new ↦
          rw (h, new)
            (λ i. record {
              target = t;
              effective_target = e;
              accumulated = append_single_relation-batch_of k.kept rs ss r i;
              seen = relation_hash r ∷ k.seen;
              per_source = λ x. if x == s then k.per_source x + 1 else k.per_source x;
            })
    ]

add_relations_loop-holding :
    (s t e : ℕ) (rs ss : List Relation) (k : Kept)
    → add_relations_loop (batch_of (rs ++ ss)) s (length ss) (length rs) (holding t e k)
      ≡ holding t e (keep_all s ss k)
unfolding add_relations_loop
add_relations_loop-holding s t e rs [] k = refl
add_relations_loop-holding s t e rs (r ∷ ss) k =
    let n = length-append rs (r ∷ []) in
    let longer = sym (append_assoc rs (r ∷ []) ss) in
    ap (add_relations_loop (batch_of (rs ++ r ∷ ss)) s (length ss) (length rs + 1))
      (add_relation-holding s t e rs ss r k)
    ∙ ap
        (λ qs.
          add_relations_loop (batch_of qs) s (length ss) (length rs + 1) (holding t e (keep s r k)))
        longer
    ∙ ap
        (λ i.
          add_relations_loop (batch_of ((rs ++ r ∷ []) ++ ss)) s (length ss) i
            (holding t e (keep s r k)))
        {x = length rs + 1} {y = length (rs ++ r ∷ [])} (omega (arith, n))
    ∙ add_relations_loop-holding s t e (rs ++ r ∷ []) ss (keep s r k)

-- Adding a batch to the accumulator that holds a list gives the accumulator that holds the list with those relations of the batch, in their order, whose hash has not been seen before.
pub add_relations-holding :
    (s t e : ℕ) (rs : List Relation) (k : Kept)
    → add_relations (batch_of rs) s (holding t e k) ≡ holding t e (keep_all s rs k)
unfolding add_relations
add_relations-holding s t e rs k = add_relations_loop-holding s t e [] rs k
