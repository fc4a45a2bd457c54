-- ===== src/Cluster/WorkPool/Totals.antt =====
-- work_pool: the counts that the pool reports, and what a checkout and a reclaim return.
use cuda_mpqs.Prelude.{
  ℕ, ◌+◌, ◌-◌, ◌%◌, ◌^◌, ◌≤◌, ◌<◌, min, ◌≡◌, ◌≢◌, refl, ◌⊎◌, none, some, List, [], ◌∷◌, ◌++◌, ◌&&◌,
  true, false, leb, ◌==◌, if◌then◌else◌, add64, arith, ap, inl, inr, Bool-cases,
}
use cuda_mpqs.Cluster.WorkPool.{
  WorkUnit, CheckedOutWork, WorkPool, track, split_head, split_rest, checkout_returned,
  checkout_work, reclaim_loop, reclaim_work, units_total, remaining, is_empty, exhausted,
  chunks_total, chunks_total_for, in_flight_for,
}
use cuda_mpqs.Cluster.WorkPool.Range.{IsInRange, advance, advance-IsInRange}

-- The sums without wrap-around.
unfoldable pub units_sum : List WorkUnit → ℕ
units_sum [] = 0
units_sum (u ∷ us) = u.count + units_sum us

pub chunks_sum : List CheckedOutWork → ℕ
chunks_sum [] = 0
chunks_sum (c ∷ cs) = c.unit.count + chunks_sum cs

pub chunks_sum_for : ℕ → List CheckedOutWork → ℕ
chunks_sum_for w [] = 0
chunks_sum_for w (c ∷ cs) = (if c.worker_id == w then c.unit.count else 0) + chunks_sum_for w cs

units_total-mod :
    (acc : ℕ) (us : List WorkUnit)
    → acc < 2 ^ 64
    → units_total acc us ≡ (acc + units_sum us) % 2 ^ 64
unfolding units_total units_sum
units_total-mod acc [] h = omega arith
units_total-mod acc (u ∷ us) h = omega (arith, units_total-mod (add64 acc u.count) us (omega arith))

chunks_total-mod :
    (acc : ℕ) (cs : List CheckedOutWork)
    → acc < 2 ^ 64
    → chunks_total acc cs ≡ (acc + chunks_sum cs) % 2 ^ 64
unfolding chunks_total chunks_sum
chunks_total-mod acc [] h = omega arith
chunks_total-mod acc (u ∷ us) h =
    omega (arith, chunks_total-mod (add64 acc u.unit.count) us (omega arith))

chunks_total_for-mod :
    (w acc : ℕ) (cs : List CheckedOutWork)
    → acc < 2 ^ 64
    → chunks_total_for w acc cs ≡ (acc + chunks_sum_for w cs) % 2 ^ 64
unfolding chunks_total_for chunks_sum_for
chunks_total_for-mod w acc [] h = omega arith
chunks_total_for-mod w acc (c ∷ cs) h = elim (Bool-cases (c.worker_id == w)) [
  | inl hit ↦
      rw (hit) (omega (arith, chunks_total_for-mod w (add64 acc c.unit.count) cs (omega arith)))
  | inr miss ↦ rw (miss) (omega (arith, chunks_total_for-mod w acc cs h))
]

-- The a-values that are not handed out, without wrap-around.
unfoldable pub left : WorkPool → ℕ
left p = (p.limit - p.next) + units_sum p.returned

remaining-mod : (p : WorkPool) → remaining p ≡ left p % 2 ^ 64
unfolding remaining left
remaining-mod p = ground (arith, units_total-mod 0 p.returned (omega arith))

in_flight_for-mod :
    (p : WorkPool) (w : ℕ) → in_flight_for p w ≡ chunks_sum_for w p.in_flight % 2 ^ 64
unfolding in_flight_for
in_flight_for-mod p w = omega (arith, chunks_total_for-mod w 0 p.in_flight (omega arith))

-- One pass of `reclaimWork` over `in_flight_`.
reclaim_loop-count :
    (w : ℕ) (cs : List CheckedOutWork) (us : List WorkUnit) (k : ℕ)
    → k < 2 ^ 64
    → ((reclaim_loop w cs us k).2 ≡ (k + chunks_sum_for w cs) % 2 ^ 64)
      × (units_sum (reclaim_loop w cs us k).1 ≡ units_sum us + chunks_sum_for w cs)
unfolding reclaim_loop chunks_sum_for units_sum
reclaim_loop-count w [] us k h = (omega arith, omega arith)
reclaim_loop-count w (c ∷ cs) us k h = elim (Bool-cases (c.worker_id == w)) [
  | inl hit ↦
      rw (hit, reclaim_loop)
        (let ih = reclaim_loop-count w cs (c.unit ∷ us) (add64 k c.unit.count) (omega arith) in
          (omega (arith, ih.0), omega (arith, ih.1)))
  | inr miss ↦
      rw (miss, reclaim_loop)
        (let ih = reclaim_loop-count w cs us k h in (omega (arith, ih.0), omega (arith, ih.1)))
]

reclaim_loop_self :
    (w : ℕ) (cs : List CheckedOutWork) (us : List WorkUnit) (k : ℕ)
    → chunks_sum_for w (reclaim_loop w cs us k).0 ≡ 0
unfolding reclaim_loop chunks_sum_for
reclaim_loop_self w [] us k = refl
reclaim_loop_self w (c ∷ cs) us k = elim (Bool-cases (c.worker_id == w)) [
  | inl hit ↦ rw (hit, reclaim_loop) (reclaim_loop_self w cs (c.unit ∷ us) (add64 k c.unit.count))
  | inr miss ↦ rw (miss, reclaim_loop) (rw miss (omega (arith, reclaim_loop_self w cs us k)))
]

reclaim_loop-others :
    (w v : ℕ) (cs : List CheckedOutWork) (us : List WorkUnit) (k : ℕ)
    → v ≢ w
    → chunks_sum_for v (reclaim_loop w cs us k).0 ≡ chunks_sum_for v cs
unfolding reclaim_loop chunks_sum_for
reclaim_loop-others w v [] us k ne = refl
reclaim_loop-others w v (c ∷ cs) us k ne = elim (Bool-cases (c.worker_id == w)) [
  | inl hit ↦
      rw (hit, reclaim_loop)
        (ground (arith, hit, reclaim_loop-others w v cs (c.unit ∷ us) (add64 k c.unit.count) ne))
  | inr miss ↦ rw (miss, reclaim_loop) (omega (arith, reclaim_loop-others w v cs us k ne))
]

-- Reclaiming a worker returns what that worker had in flight, makes as much assignable (both counts modulo 2^64), leaves the worker nothing in flight and every other worker what it had.
pub reclaim_work_lem :
    (p : WorkPool) (worker : ℕ)
    → let (q, reclaimed) = reclaim_work p worker in
      (reclaimed ≡ in_flight_for p worker)
      × (remaining q ≡ add64 (remaining p) reclaimed)
      × (in_flight_for q worker ≡ 0)
      × ((other : ℕ) → other ≢ worker → in_flight_for q other ≡ in_flight_for p other)
unfolding reclaim_work
reclaim_work_lem p worker =
    let q = (reclaim_work p worker).0 in
    let ih = reclaim_loop-count worker p.in_flight p.returned 0 (omega arith) in
    (
      omega (arith, ih.0, in_flight_for-mod p worker),
      unfold left in omega (arith, ih.0, ih.1, remaining-mod q, remaining-mod p),
      omega (arith, in_flight_for-mod q worker, reclaim_loop_self worker p.in_flight p.returned 0),
      λ other ne. omega (
        arith,
        in_flight_for-mod q other,
        in_flight_for-mod p other,
        reclaim_loop-others worker other p.in_flight p.returned 0 ne,
      ),
    )

checkout_returned-some :
    (p : WorkPool) (us : List WorkUnit) (count worker now : ℕ)
    → IsInRange p
    → p.returned ≡ us
    → leb p.limit p.next && is_empty us ≡ false
    → let (q, r) = checkout_returned p us count worker now in
      (cw : CheckedOutWork) × (r ≡ some cw)
      × (cw.worker_id ≡ worker)
      × (cw.unit.count ≤ count)
      × (q.in_flight ≡ p.in_flight ++ (cw ∷ []))
      × (left q + cw.unit.count ≡ left p)
unfolding checkout_returned track left units_sum split_head split_rest advance
checkout_returned-some p [] count worker now v e open' =
    let more : leb p.limit p.next ≡ false = ground arith in
    let (a, moved) = advance-IsInRange p count v more in
    (
      record {
        chunk_id = p.next_chunk_id;
        unit = record { start = p.next; count = min count (p.limit - p.next) };
        worker_id = worker;
        checkout_time = now;
      },
      rw more,
      refl,
      omega arith,
      rw more,
      rw (more, moved) (omega arith),
    )
checkout_returned-some p (u ∷ us) count worker now v e open' = (
  record {
    chunk_id = p.next_chunk_id;
    unit = split_head u count;
    worker_id = worker;
    checkout_time = now;
  },
  refl,
  refl,
  ground arith,
  refl,
  ground (arith, ap units_sum e),
)

empty_checkout :
    (p : WorkPool) (us : List WorkUnit) (count worker now : ℕ)
    → leb p.limit p.next && is_empty us ≡ true
    → let (q, r) = checkout_returned p us count worker now in (q ≡ p) × (r ≡ none)
unfolding checkout_returned
empty_checkout p [] count worker now full =
    let done : leb p.limit p.next ≡ true = ground arith in (rw done, rw done)
empty_checkout p (u ∷ us) count worker now full = absurd (ground arith)

-- On an exhausted pool `checkoutWork` gives nothing and changes nothing. On any other pool it gives a chunk of at most the requested size to the worker, records just that chunk in flight, and takes its size off the assignable a-values (which are below 2^64).
pub checkout_work_lem :
    (p : WorkPool) (count worker now : ℕ)
    → IsInRange p
    → left p < 2 ^ 64
    → let (q, r) = checkout_work p count worker now in
      ((exhausted p ≡ true) × (q ≡ p) × (r ≡ none))
      ⊎ ((exhausted p ≡ false)
          × ((cw : CheckedOutWork) × (r ≡ some cw)
              × (cw.worker_id ≡ worker)
              × (cw.unit.count ≤ count)
              × (q.in_flight ≡ p.in_flight ++ (cw ∷ []))
              × (remaining q + cw.unit.count ≡ remaining p)))
unfolding checkout_work exhausted
checkout_work_lem p count worker now v h = elim (Bool-cases (exhausted p)) [
  | inl full ↦ let (q, r) = empty_checkout p p.returned count worker now full in inl (full, q, r)
  | inr more ↦
      let (cw, r, w, c, f, l) = checkout_returned-some p p.returned count worker now v refl more in
      inr (
        more,
        (
          cw,
          r,
          w,
          c,
          f,
          omega (arith, l, remaining-mod p, remaining-mod (checkout_work p count worker now).0),
        ),
      )
]
