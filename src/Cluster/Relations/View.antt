-- ===== src/Cluster/Relations/View.antt =====
-- The batch that stands for a list of relations.
use mathlib.Core.List.{append-nil}
use cuda_mpqs.Prelude.{
  ℕ, ◌+◌, ◌≡◌, refl, sym, ap, ◌∙◌, List, [], ◌∷◌, ◌++◌, map, arith, length, get_or, length-append,
  ltb, lt→ltb, if_true, true,
}
use cuda_mpqs.Cluster.Batch.{HostRelationBatch}
use cuda_mpqs.Cluster.Relations.{
  Relation, zip, slice, extract_partial, factor_count, empty_batch, push_relation,
}
use cuda_mpqs.Cluster.Relations.Slices.{
  map-append, length-map, append_assoc, zip-map, slice-append, slice-first,
}

-- The offsets behind the first.
abbrev pub offsets_from : ℕ → List Relation → List ℕ
offsets_from acc [] = []
offsets_from acc (r ∷ rs) = (acc + length r.factors) ∷ offsets_from (acc + length r.factors) rs

abbrev pub all_factors : List Relation → List (ℕ × ℕ)
all_factors [] = []
all_factors (r ∷ rs) = r.factors ++ all_factors rs

abbrev pub batch_of : List Relation → HostRelationBatch
batch_of rs = record {
  sqrt_q = map (λ r. r.sqrt_q) rs;
  signs = map (λ r. r.sign) rs;
  val_2_exps = map (λ r. r.val_2_exp) rs;
  large_primes = map (λ r. r.large_prime) rs;
  char_bits = map (λ r. r.char_bits) rs;
  factor_offsets = 0 ∷ offsets_from 0 rs;
  factor_indices = map (λ f. f.0) (all_factors rs);
  factor_counts = map (λ f. f.1) (all_factors rs);
  num_relations = length rs;
  num_factors = length (all_factors rs);
}

pub empty_batch-batch_of : empty_batch ≡ batch_of []
unfolding empty_batch
empty_batch-batch_of = refl

pub all_factors-append :
    (rs ss : List Relation) → all_factors (rs ++ ss) ≡ all_factors rs ++ all_factors ss
all_factors-append [] ss = refl
all_factors-append (r ∷ rs) ss =
    ap (◌++◌ r.factors) (all_factors-append rs ss)
    ∙ sym (append_assoc r.factors (all_factors rs) (all_factors ss))

pub offsets_from-append :
    (acc : ℕ) (rs ss : List Relation)
    → offsets_from acc (rs ++ ss)
      ≡ offsets_from acc rs ++ offsets_from (acc + length (all_factors rs)) ss
offsets_from-append acc [] ss = ap (λ k. offsets_from k ss) (omega arith)
offsets_from-append acc (r ∷ rs) ss = ap (◌∷◌ (acc + length r.factors)) (
    offsets_from-append (acc + length r.factors) rs ss
    ∙ ap (λ k. offsets_from (acc + length r.factors) rs ++ offsets_from k ss)
        (omega (arith, length-append r.factors (all_factors rs))))

-- The end of a relation's factors, alone.
one_factors : (r : Relation) → all_factors (r ∷ []) ≡ r.factors
one_factors r = append-nil r.factors

snoc_factors :
    (rs : List Relation) (r : Relation) → all_factors (rs ++ r ∷ []) ≡ all_factors rs ++ r.factors
snoc_factors rs r = all_factors-append rs (r ∷ []) ∙ ap (λ fs. all_factors rs ++ fs) (one_factors r)

-- A relation pushed on the batch of a list gives the batch of the longer list.
pub push_relation-batch_of :
    (rs : List Relation) (r : Relation)
    → push_relation (batch_of rs) r (length r.factors) ≡ batch_of (rs ++ r ∷ [])
unfolding push_relation
push_relation-batch_of rs r =
    let n = length-append (all_factors rs) r.factors in
    let fs = snoc_factors rs r in
    let off : (0 ∷ offsets_from 0 rs) ++ (length (all_factors rs) + length r.factors) ∷ []
        ≡ 0 ∷ offsets_from 0 (rs ++ r ∷ []) =
      sym (
        ap (◌∷◌ 0) (
          offsets_from-append 0 rs (r ∷ [])
          ∙ ap (λ k. offsets_from 0 rs ++ (k + length r.factors) ∷ []) (omega arith))) in
    λ i. record {
      sqrt_q = sym (map-append (λ r. r.sqrt_q) rs (r ∷ [])) i;
      signs = sym (map-append (λ r. r.sign) rs (r ∷ [])) i;
      val_2_exps = sym (map-append (λ r. r.val_2_exp) rs (r ∷ [])) i;
      large_primes = sym (map-append (λ r. r.large_prime) rs (r ∷ [])) i;
      char_bits = sym (map-append (λ r. r.char_bits) rs (r ∷ [])) i;
      factor_offsets = off i;
      factor_indices =
          (sym (map-append (λ f. f.0) (all_factors rs) r.factors) ∙ ap (map (λ f. f.0)) (sym fs)) i;
      factor_counts =
          (sym (map-append (λ f. f.1) (all_factors rs) r.factors) ∙ ap (map (λ f. f.1)) (sym fs)) i;
      num_relations = sym (length-append rs (r ∷ [])) i;
      num_factors = (sym n ∙ ap length (sym fs)) i;
    }

module _ {ℓ} {A : Type ℓ} where
  get_or-split : (xs ys : List A) (y d : A) → get_or (xs ++ y ∷ ys) (length xs) d ≡ y
  get_or-split [] ys y d = refl
  get_or-split (x ∷ xs) ys y d = get_or-split xs ys y d

column :
    (f : Relation → ℕ) (rs ss : List Relation) (r : Relation)
    → get_or (map f (rs ++ r ∷ ss)) (length rs) 0 ≡ f r
column f rs ss r =
    ap (λ xs. get_or xs (length rs) 0) (map-append f rs (r ∷ ss))
    ∙ ap (λ k. get_or (map f rs ++ f r ∷ map f ss) k 0) (sym (length-map f rs))
    ∙ get_or-split (map f rs) (map f ss) (f r) 0

pub offset :
    (acc : ℕ) (rs ss : List Relation)
    → get_or (acc ∷ offsets_from acc (rs ++ ss)) (length rs) 0 ≡ acc + length (all_factors rs)
offset acc [] ss = omega arith
offset acc (r ∷ rs) ss =
    offset (acc + length r.factors) rs ss ∙ omega (arith, length-append r.factors (all_factors rs))

factor_slice :
    (g : ℕ × ℕ → ℕ) (rs ss : List Relation) (r : Relation)
    → let t = length (all_factors rs) in
      slice t (t + length r.factors) (map g (all_factors (rs ++ r ∷ ss))) ≡ map g r.factors
factor_slice g rs ss r =
    let t = length (all_factors rs) in
    let before = map g (all_factors rs) in
    let mine = map g r.factors in
    let after = map g (all_factors ss) in
    let whole : map g (all_factors (rs ++ r ∷ ss)) ≡ before ++ (mine ++ after) =
      ap (map g) (all_factors-append rs (r ∷ ss))
      ∙ map-append g (all_factors rs) (r.factors ++ all_factors ss)
      ∙ ap (λ fs. before ++ fs) (map-append g r.factors (all_factors ss)) in
    let n = length-map g (all_factors rs) in
    let m = length-map g r.factors in
    ap (slice t (t + length r.factors)) whole
    ∙ ap (λ k. slice k (t + length r.factors) (before ++ (mine ++ after))) {x = t}
        {y = length before + 0} (omega (arith, n))
    ∙ ap (λ k. slice (length before + 0) k (before ++ (mine ++ after))) {x = t + length r.factors}
        {y = length before + length mine} (omega (arith, n, m))
    ∙ slice-append 0 (length mine) before (mine ++ after)
    ∙ slice-first mine after

next_offset :
    (rs ss : List Relation) (r : Relation)
    → get_or (batch_of (rs ++ r ∷ ss)).factor_offsets (length rs + 1) 0
      ≡ length (all_factors rs) + length r.factors
next_offset rs ss r =
    let n = length-append rs (r ∷ []) in
    ap (λ ls. get_or (0 ∷ offsets_from 0 ls) (length rs + 1) 0) (sym (append_assoc rs (r ∷ []) ss))
    ∙ ap (λ k. get_or (0 ∷ offsets_from 0 ((rs ++ r ∷ []) ++ ss)) k 0) {x = length rs + 1}
        {y = length (rs ++ r ∷ [])} (omega (arith, n))
    ∙ offset 0 (rs ++ r ∷ []) ss
    ∙ omega arith
    ∙ ap length (snoc_factors rs r)
    ∙ length-append (all_factors rs) r.factors

-- Each relation is read back from the batch of a list.
pub extract_partial-batch_of :
    (rs ss : List Relation) (r : Relation)
    → extract_partial (batch_of (rs ++ r ∷ ss)) (length rs) ≡ r
unfolding extract_partial
extract_partial-batch_of rs ss r =
    let b = batch_of (rs ++ r ∷ ss) in
    let t = length (all_factors rs) in
    let start : get_or b.factor_offsets (length rs) 0 ≡ t = offset 0 rs (r ∷ ss) ∙ omega arith in
    let stop = next_offset rs ss r in
    let part : (g : ℕ × ℕ → ℕ)
        → slice (get_or b.factor_offsets (length rs) 0) (get_or b.factor_offsets (length rs + 1) 0)
            (map g (all_factors (rs ++ r ∷ ss)))
          ≡ map g r.factors =
      λ g.
        ap
          (λ k.
            slice k (get_or b.factor_offsets (length rs + 1) 0)
              (map g (all_factors (rs ++ r ∷ ss))))
          start
        ∙ ap (λ k. slice t k (map g (all_factors (rs ++ r ∷ ss)))) stop
        ∙ factor_slice g rs ss r in
    let inside : ltb (length rs) (length b.char_bits) ≡ true =
      lt→ltb _ _
        (omega (arith, length-map (λ r. r.char_bits) (rs ++ r ∷ ss), length-append rs (r ∷ ss))) in
    λ i. record {
      sqrt_q = column (λ r. r.sqrt_q) rs ss r i;
      sign = column (λ r. r.sign) rs ss r i;
      val_2_exp = column (λ r. r.val_2_exp) rs ss r i;
      large_prime = column (λ r. r.large_prime) rs ss r i;
      factors =
          (ap
                (λ xs. zip xs (
                  slice (get_or b.factor_offsets (length rs) 0)
                    (get_or b.factor_offsets (length rs + 1) 0) b.factor_counts))
                (part (λ f. f.0))
              ∙ ap (zip (map (λ f. f.0) r.factors)) (part (λ f. f.1))
              ∙ zip-map r.factors)
            i;
      char_bits =
          (if_true (get_or b.char_bits (length rs) 0) 0 inside ∙ column (λ r. r.char_bits) rs ss r)
            i;
    }

-- Relations and factors of the batch are as many as it says.
pub batch_of-counts :
    (rs : List Relation)
    → ((batch_of rs).num_relations ≡ length rs)
      × (get_or (batch_of rs).factor_offsets (length rs) 0 ≡ (batch_of rs).num_factors)
batch_of-counts rs = (
  refl,
  ap (λ ss. get_or (0 ∷ offsets_from 0 ss) (length rs) 0) (sym (append-nil rs))
      ∙ offset 0 rs []
      ∙ omega arith,
)

pub factor_count-batch_of :
    (rs ss : List Relation) (r : Relation)
    → factor_count (batch_of (rs ++ r ∷ ss)) (length rs) ≡ length r.factors
unfolding factor_count
factor_count-batch_of rs ss r = omega (arith, next_offset rs ss r, offset 0 rs (r ∷ ss))
