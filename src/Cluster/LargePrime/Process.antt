-- ===== src/Cluster/LargePrime/Process.antt =====
-- `insertAndMatch`: what each partial does to the table, and what comes out.
use cuda_mpqs.Prelude.{
  ℕ, ◌+◌, ◌<◌, ◌≤◌, ◌≡◌, refl, ap, subst, ◌∙◌, List, [], ◌∷◌, arith, length, length-append, ◌==◌,
  ◌||◌, if◌then◌else◌, Bool-cases, Option-cases, inl, inr, none, some, count, All, All-append,
}
use cuda_mpqs.Common.Montgomery.{Montgomery}
use cuda_mpqs.Cluster.Relations.{Relation}
use cuda_mpqs.Cluster.Relations.View.{batch_of}
use cuda_mpqs.Cluster.Accumulator.{RelationAccumulator}
use cuda_mpqs.Cluster.LargePrime.{LargePrimeTable, combined, find, erase, insert_and_match}
use cuda_mpqs.Cluster.LargePrime.Refine.{
  key_of, matched, processed, process, process_all, delivered, insert_and_match-process_all,
}
use cuda_mpqs.Cluster.LargePrime.Table.{
  keys, Stored, Combines, IsTable, find-Stored, find-none, length-erase, All-erase, count-erase,
}

abbrev State : Type 0
State = LargePrimeTable × List Relation

-- The table is well formed, and each output is a match of two partials.
pub record IsState (P : Relation → Type 0) (m : Montgomery) (s : State) : Type 0 where
  pub is_table : IsTable P s.0
  pub same_mont : s.0.mont ≡ m
  pub output : All (Combines P m) s.1
  pub as_many : length s.1 ≤ s.0.total_combines

inserted-IsState :
    (P : Relation → Type 0) (m : Montgomery) (r : Relation) (s : State)
    → P r
    → 1 < key_of r
    → find (key_of r) s.0.table ≡ none
    → IsState P m s
    → IsState P m (processed (key_of r) r none s)
inserted-IsState P m r (t, out) p big new h =
    let w = h.is_table in
    record {
      is_table = record {
        stored = ((refl, big, p), w.stored);
        one_each = λ k. one k (w.one_each k);
        inserted = omega (arith, w.inserted);
        matches = w.matches;
      };
      same_mont = h.same_mont;
      output = h.output;
      as_many = h.as_many;
    }
  where
    one :
        (k : ℕ)
        → count k (keys t.table) ≤ 1
        → (if key_of r == k then 1 else 0) + count k (keys t.table) ≤ 1
    one k le = elim (Bool-cases (key_of r == k)) [
      | inl same' ↦
          let e : key_of r ≡ k = ground arith in
          let z : count k (keys t.table) ≡ 0 =
            subst (λ x. count x (keys t.table) ≡ 0) e (find-none (key_of r) t.table new) in
          rw same' (omega (arith, z))
      | inr other ↦ rw other (omega (arith, le))
    ]

erased-IsTable :
    (P : Relation → Type 0) (key d c : ℕ) (stored : Relation) (t : LargePrimeTable)
    → find key t.table ≡ some stored
    → d + c ≡ 1
    → IsTable P t
    → IsTable P (record t {
      total_matches = t.total_matches + 1;
      table = erase key t.table;
      total_combines = t.total_combines + c;
      total_dup_dropped = t.total_dup_dropped + d;
    })
erased-IsTable P key d c stored t old one w = record {
  stored = All-erase (Stored P) key t.table w.stored;
  one_each = λ k. omega (arith, count-erase key k t.table, w.one_each k);
  inserted = omega (arith, w.inserted, length-erase key t.table stored old);
  matches = omega (arith, w.matches, one);
}

matched-IsState :
    (P : Relation → Type 0) (m : Montgomery) (r stored : Relation) (s : State)
    → P r
    → find (key_of r) s.0.table ≡ some stored
    → IsState P m s
    → IsState P m (matched (key_of r) stored r s)
matched-IsState P m r stored (t, out) p old h =
    let w = h.is_table in
    let q = find-Stored P (key_of r) t.table stored w.stored old in
    elim (Bool-cases (stored.sqrt_q == r.sqrt_q)) [
      | inl same' ↦
          let w' = erased-IsTable P (key_of r) 1 0 stored t old refl w in
          rw same' (record {
            is_table = record {
              stored = w'.stored;
              one_each = w'.one_each;
              inserted = w'.inserted;
              matches = omega (arith, w'.matches);
            };
            same_mont = h.same_mont;
            output = h.output;
            as_many = h.as_many;
          })
      | inr new ↦
          let w' = erased-IsTable P (key_of r) 0 1 stored t old refl w in
          rw new (record {
            is_table = record {
              stored = w'.stored;
              one_each = w'.one_each;
              inserted = w'.inserted;
              matches = omega (arith, w'.matches);
            };
            same_mont = h.same_mont;
            output =
                All-append (Combines P m) out (combined t.mont stored r ∷ []) h.output
                  ((stored, r, q.2, p, q.0, new, ap (λ x. combined x stored r) h.same_mont), tt);
            as_many = omega (arith, h.as_many, length-append out (combined t.mont stored r ∷ []));
          })
    ]

-- The partials that have a large prime.
abbrev pub with_prime : List Relation → ℕ
with_prime [] = 0
with_prime (r ∷ rs) = (if key_of r == 0 || key_of r == 1 then 0 else 1) + with_prime rs

process-IsState :
    (P : Relation → Type 0) (m : Montgomery) (r : Relation) (s : State)
    → P r
    → IsState P m s
    → IsState P m (process r s)
process-IsState P m r s p h = elim (Bool-cases (key_of r == 0 || key_of r == 1)) [
  | inl skip ↦ rw skip h
  | inr real ↦ elim (Option-cases (find (key_of r) s.0.table)) [
    | inl new ↦ rw (real, new) (inserted-IsState P m r s p (ground arith) new h)
    | inr (stored, old) ↦ rw (real, old) (matched-IsState P m r stored s p old h)
  ]
]

-- Each partial with a large prime is inserted or matched.
process-counts :
    (r : Relation) (s : State)
    → (process r s).0.total_inserts + (process r s).0.total_matches
      ≡ s.0.total_inserts + s.0.total_matches + (if key_of r == 0 || key_of r == 1 then 0 else 1)
process-counts r (t, out) = elim (Bool-cases (key_of r == 0 || key_of r == 1)) [
  | inl skip ↦ rw skip (omega arith)
  | inr real ↦ elim (Option-cases (find (key_of r) t.table)) [
    | inl new ↦ rw (real, new) (omega arith)
    | inr (stored, old) ↦ elim (Bool-cases (stored.sqrt_q == r.sqrt_q)) [
      | inl same' ↦ rw (real, old, same') (omega arith)
      | inr other ↦ rw (real, old, other) (omega arith)
    ]
  ]
]

process_all-IsState :
    (P : Relation → Type 0) (m : Montgomery) (rs : List Relation) (s : State)
    → All P rs
    → IsState P m s
    → IsState P m (process_all rs s)
      × ((process_all rs s).0.total_inserts + (process_all rs s).0.total_matches
          ≡ s.0.total_inserts + s.0.total_matches + with_prime rs)
process_all-IsState P m [] s p h = (h, omega arith)
process_all-IsState P m (r ∷ rs) s p h =
    let (h', e) = process_all-IsState P m rs (process r s) p.1 (process-IsState P m r s p.0 h) in
    (h', e ∙ ap (λ k. k + with_prime rs) (process-counts r s) ∙ omega arith)

-- A batch of partials keeps the table well formed: each stored partial stands under its own large prime, above 1 and no prime twice, the inserts are the stored partials and the matches, and the matches are those combined and those dropped. Each partial with a large prime is inserted or matched, and the relations handed to the accumulator are each combined from two partials of the same large prime with different roots.
pub insert_and_match_lem :
    (P : Relation → Type 0) (rs : List Relation) (t : LargePrimeTable) (a : RelationAccumulator)
    → All P rs
    → IsTable P t
    → (t' : LargePrimeTable) × (out : List Relation) × (insert_and_match (batch_of rs) t a
        ≡ (t', delivered out a))
      × IsTable P t'
      × All (Combines P t.mont) out
      × (t'.total_inserts + t'.total_matches ≡ t.total_inserts + t.total_matches + with_prime rs)
insert_and_match_lem P rs t a p w =
    let start : IsState P t.mont (t, []) = record {
      is_table = w;
      same_mont = refl;
      output = tt;
      as_many = omega arith;
    } in
    let (h, e) = process_all-IsState P t.mont rs (t, []) p start in
    let s = process_all rs (t, []) in
    (s.0, s.1, insert_and_match-process_all rs t a, h.is_table, h.output, e)
