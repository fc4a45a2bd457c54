-- ===== src/Cluster/Accumulator/Distinct.antt =====
-- `addRelations`: what the accumulator holds after a batch.
use cuda_mpqs.Prelude.{
  ℕ, ◌+◌, ◌<◌, ◌≤◌, ◌≡◌, refl, sym, ap, subst, ◌∙◌, List, [], ◌∷◌, ◌++◌, map, arith, length,
  length-append, ltb, ltb→lt, ◌==◌, if◌then◌else◌, count, count-append, Bool-cases, inl, inr, true,
  false, All,
}
use mathlib.Core.List.{append-nil}
use cuda_mpqs.Cluster.Relations.{Relation}
use cuda_mpqs.Cluster.Relations.Slices.{append_assoc, map-append}
use cuda_mpqs.Cluster.Relations.View.{batch_of}
use cuda_mpqs.Cluster.Accumulator.{add_relations}
use cuda_mpqs.Cluster.Accumulator.Refine.{
  relation_hash, Kept, keep, keep_all, holding, add_relations-holding,
}

-- The seen hashes are those of the kept relations, and no two of these have the same.
pub record IsDistinct (k : Kept) : Type 0 where
  pub same_hashes : (h : ℕ) → count h k.seen ≡ count h (map relation_hash k.kept)
  pub at_most_once : (h : ℕ) → count h k.seen ≤ 1

-- How one state follows from another by adding relations of one source.
pub record Grows (s : ℕ) (k k' : Kept) : Type 0 where
  pub new : List Relation
  pub kept : k'.kept ≡ k.kept ++ new
  pub source : k'.per_source s ≡ k.per_source s + length new
  pub others : (s' : ℕ) → (s' == s) ≡ false → k'.per_source s' ≡ k.per_source s'
  pub seen : (h : ℕ) → count h k.seen ≤ count h k'.seen

keep-IsDistinct : (s : ℕ) (r : Relation) (k : Kept) → IsDistinct k → IsDistinct (keep s r k)
keep-IsDistinct s r k d = elim (Bool-cases (ltb 0 (count (relation_hash r) k.seen))) [
  | inl old ↦ rw old d
  | inr new ↦
      let hash = relation_hash r in
      let absent : count hash k.seen ≡ 0 = ground arith in
      rw new (record {
        same_hashes = λ h.
            let e = ap (count h) (map-append relation_hash k.kept (r ∷ [])) in
            omega
              (arith, d.same_hashes h, e, count-append h (map relation_hash k.kept) (hash ∷ []));
        at_most_once = λ h. once h hash absent (d.at_most_once h);
      })
]
  where
    once :
        (h hash : ℕ)
        → count hash k.seen ≡ 0
        → count h k.seen ≤ 1
        → (if hash == h then 1 else 0) + count h k.seen ≤ 1
    once h hash absent le = elim (Bool-cases (hash == h)) [
      | inl e ↦
          let e' : hash ≡ h = ground arith in
          let z : count h k.seen ≡ 0 = subst (λ x. count x k.seen ≡ 0) e' absent in
          rw e (omega (arith, z))
      | inr ne ↦ rw ne (omega (arith, le))
    ]

keep-Grows : (s : ℕ) (r : Relation) (k : Kept) → Grows s k (keep s r k)
keep-Grows s r k = elim (Bool-cases (ltb 0 (count (relation_hash r) k.seen))) [
  | inl old ↦ rw old (record {
    new = [];
    kept = sym (append-nil k.kept);
    source = omega arith;
    others = λ s' ne. refl;
    seen = λ h. omega arith;
  })
  | inr new ↦ rw new (record {
    new = r ∷ [];
    kept = refl;
    source = ground arith;
    others = λ s' ne. rw ne refl;
    seen = λ h. omega arith;
  })
]

-- A relation that was added has its hash in the set.
keep-seen : (s : ℕ) (r : Relation) (k : Kept) → 0 < count (relation_hash r) (keep s r k).seen
keep-seen s r k = elim (Bool-cases (ltb 0 (count (relation_hash r) k.seen))) [
  | inl old ↦ rw old (ltb→lt _ _ old)
  | inr new ↦
      let e : (relation_hash r == relation_hash r) ≡ true = ground arith in
      rw (new, e) (omega arith)
]

Grows-trans : (s : ℕ) (a b c : Kept) → Grows s a b → Grows s b c → Grows s a c
Grows-trans s a b c g h = record {
  new = g.new ++ h.new;
  kept = h.kept ∙ ap (λ k. k ++ h.new) g.kept ∙ append_assoc a.kept g.new h.new;
  source = omega (arith, g.source, h.source, length-append g.new h.new);
  others = λ s' ne. h.others s' ne ∙ g.others s' ne;
  seen = λ x. omega (arith, g.seen x, h.seen x);
}

keep_all_lem :
    (s : ℕ) (rs : List Relation) (k : Kept)
    → IsDistinct k
    → let k' = keep_all s rs k in
      IsDistinct k' × Grows s k k' × All (λ r. 0 < count (relation_hash r) k'.seen) rs
keep_all_lem s [] k d = (
  d,
  record {
    new = [];
    kept = sym (append-nil k.kept);
    source = omega arith;
    others = λ s' ne. refl;
    seen = λ h. omega arith;
  },
  tt,
)
keep_all_lem s (r ∷ rs) k d =
    let k1 = keep s r k in
    let (d', g, a) = keep_all_lem s rs k1 (keep-IsDistinct s r k d) in
    (
      d',
      Grows-trans s k k1 _ (keep-Grows s r k) g,
      (omega (arith, keep-seen s r k, g.seen (relation_hash r)), a),
    )

-- From an accumulator without repeated hashes, adding a batch of a source keeps every relation held before at its place, appends relations of which no two have the same hash, counts exactly these for the source, and afterwards every relation of the batch has its hash in the set of those seen.
pub add_relations_lem :
    (s t e : ℕ) (rs : List Relation) (k : Kept)
    → IsDistinct k
    → (k' : Kept) × (add_relations (batch_of rs) s (holding t e k) ≡ holding t e k')
      × IsDistinct k'
      × Grows s k k'
      × All (λ r. 0 < count (relation_hash r) k'.seen) rs
add_relations_lem s t e rs k d =
    let (d', g, a) = keep_all_lem s rs k d in
    (keep_all s rs k, add_relations-holding s t e rs k, d', g, a)

keep_all-known :
    (s : ℕ) (rs : List Relation) (k : Kept)
    → All (λ r. 0 < count (relation_hash r) k.seen) rs
    → keep_all s rs k ≡ k
keep_all-known s [] k h = refl
keep_all-known s (r ∷ rs) k h =
    let old : ltb 0 (count (relation_hash r) k.seen) ≡ true = ground arith in
    rw old (keep_all-known s rs k h.1)

-- A batch that is delivered again, from whatever source, changes nothing.
pub add_relations-again :
    (s s' t e : ℕ) (rs : List Relation) (k : Kept)
    → IsDistinct k
    → let once = add_relations (batch_of rs) s (holding t e k) in
      add_relations (batch_of rs) s' once ≡ once
add_relations-again s s' t e rs k d =
    let (d', g, a) = keep_all_lem s rs k d in
    let first = add_relations-holding s t e rs k in
    ap (add_relations (batch_of rs) s') first
    ∙ add_relations-holding s' t e rs (keep_all s rs k)
    ∙ ap (holding t e) (keep_all-known s' rs (keep_all s rs k) a)
    ∙ sym first
