-- ===== src/Cluster/WorkPool/Coverage.antt =====
-- work_pool: where each a-value index stands: in flight, returned, ahead of the linear cursor, or
-- sieved.
use cuda_mpqs.Prelude.{
  ℕ, ◌+◌, ◌-◌, ◌^◌, ◌≤◌, ◌<◌, min, ◌≡◌, refl, false, ◌&&◌, Option, none, some, List, [], ◌∷◌, ◌++◌,
  ltb, leb, ◌==◌, if◌then◌else◌, All, add64, arith, Bool-cases, ltb→lt, subst, ap, ◌∙◌, inl, inr,
}
use cuda_mpqs.Cluster.WorkPool.{
  WorkUnit, CheckedOutWork, WorkPool, Call, checks_out, completes, returns, reclaims, reclaims_part,
  init, track, split_head, split_rest, checkout_returned, checkout_work, find_chunk, erase_chunk,
  complete_chunk, return_found, return_chunk, reclaim_loop, reclaim_work, partial_found,
  reclaim_partial, step, run,
}
use cuda_mpqs.Cluster.WorkPool.Range.{
  covers, Below, IsInRange, advance, advance-IsInRange, find_chunk-Below, step-IsInRange,
  init-IsInRange,
}

unfoldable pub in_units : ℕ → List WorkUnit → ℕ
in_units x [] = 0
in_units x (u ∷ us) = covers x u + in_units x us

unfoldable pub in_chunks : ℕ → List CheckedOutWork → ℕ
in_chunks x [] = 0
in_chunks x (c ∷ cs) = covers x c.unit + in_chunks x cs

abbrev pub in_linear : ℕ → WorkPool → ℕ
in_linear x p = if leb p.next x && ltb x p.limit then 1 else 0

-- How many times the pool still holds the index.
unfoldable pub held : ℕ → WorkPool → ℕ
unfolding in_units in_chunks
held x p = in_linear x p + in_chunks x p.in_flight + in_units x p.returned

-- What a call takes out of the pool for good: the units that it reports as sieved.
unit_list : Option CheckedOutWork → List WorkUnit
unit_list none = []
unit_list (some c) = c.unit ∷ []

sieved_part : ℕ → Option CheckedOutWork → List WorkUnit
sieved_part consumed none = []
sieved_part consumed (some c) =
    record { start = c.unit.start; count = min consumed c.unit.count } ∷ []

pub sieved : WorkPool → Call → List WorkUnit
unfolding unit_list sieved_part
sieved p (checks_out count worker now) = []
sieved p (completes id) = unit_list (find_chunk id p.in_flight)
sieved p (returns id) = []
sieved p (reclaims worker) = []
sieved p (reclaims_part id consumed) = sieved_part consumed (find_chunk id p.in_flight)

pub sieved_by : WorkPool → List Call → List WorkUnit
sieved_by p [] = []
sieved_by p (c ∷ cs) = sieved p c ++ sieved_by (step p c) cs

in_chunks-append :
    (x : ℕ) (cs ds : List CheckedOutWork) → in_chunks x (cs ++ ds) ≡ in_chunks x cs + in_chunks x ds
unfolding in_chunks
in_chunks-append x [] ds = omega arith
in_chunks-append x (c ∷ cs) ds = omega (arith, in_chunks-append x cs ds)

in_units-append :
    (x : ℕ) (cs ds : List WorkUnit) → in_units x (cs ++ ds) ≡ in_units x cs + in_units x ds
unfolding in_units
in_units-append x [] ds = omega arith
in_units-append x (c ∷ cs) ds = omega (arith, in_units-append x cs ds)

-- Splitting a range moves no index.
covers-split :
    (x s c k : ℕ) (n : ℕ)
    → k ≤ c
    → covers x (record { start = s; count = k })
        + covers x (record { start = s + k; count = c - k })
      ≡ covers x (record { start = s; count = c })
covers-split x s c k n h = ground arith

-- Taking a chunk off `in_flight_` takes its indices off, and no others.
erase_chunk-in_chunks :
    (x id : ℕ) (cs : List CheckedOutWork) (c : CheckedOutWork)
    → find_chunk id cs ≡ some c
    → in_chunks x (erase_chunk id cs) + covers x c.unit ≡ in_chunks x cs
unfolding find_chunk erase_chunk in_chunks
erase_chunk-in_chunks x id [] c e = absurd (cc)
erase_chunk-in_chunks x id (d ∷ cs) c e = elim (Bool-cases (d.chunk_id == id)) [
  | inl hit ↦ ground arith
  | inr miss ↦
      let ih = erase_chunk-in_chunks x id cs c in
      rw (miss, erase_chunk) (omega (arith, ih (ground arith)))
]

erase_chunk_missing :
    (id : ℕ) (cs : List CheckedOutWork) → find_chunk id cs ≡ none → erase_chunk id cs ≡ cs
unfolding find_chunk erase_chunk
erase_chunk_missing id [] e = refl
erase_chunk_missing id (c ∷ cs) e = ground (arith, erase_chunk_missing id cs)

held-track :
    (x : ℕ) (p : WorkPool) (u : WorkUnit) (worker now : ℕ)
    → held x (track p u worker now).0 ≡ held x p + covers x u
unfolding held track in_chunks
held-track x p u worker now =
    let c : CheckedOutWork = record {
      chunk_id = p.next_chunk_id;
      unit = u;
      worker_id = worker;
      checkout_time = now;
    } in
    omega (arith, in_chunks-append x p.in_flight (c ∷ []))

split-covers :
    (x n : ℕ) (u : WorkUnit) (count : ℕ) (us : List WorkUnit) {e : ℕ}
    → e < 2 ^ 64
    → n ≤ e
    → Below n u
    → covers x (split_head u count) + in_units x (split_rest u count us)
      ≡ covers x u + in_units x us
unfolding split_head split_rest in_units
split-covers x n u count us h k b = elim (Bool-cases (ltb count u.count)) [
  | inl more ↦
      let wrap : add64 u.start count ≡ u.start + count = omega (arith, ltb→lt count u.count more) in
      rw (more, wrap)
        (omega (
          arith,
          covers-split x u.start u.count count 0 (omega (arith, ltb→lt count u.count more)),
        ))
  | inr fits ↦ rw fits
]

linear-split :
    (x n l k : ℕ)
    → n + k ≤ l
    → (if leb (n + k) x && ltb x l then 1 else 0) + covers x (record { start = n; count = k })
      ≡ (if leb n x && ltb x l then 1 else 0)
linear-split x n l k h = ground arith

held-advance :
    (x : ℕ) (p : WorkPool) (count : ℕ)
    → IsInRange p
    → leb p.limit p.next ≡ false
    → held x (advance p count)
        + covers x (record { start = p.next; count = min count (p.limit - p.next) })
      ≡ held x p
unfolding held advance
held-advance x p count v more =
    let (a, moved) = advance-IsInRange p count v more in
    let split = linear-split x p.next p.limit (min count (p.limit - p.next)) (omega (arith, v)) in
    rw moved (omega (arith, split))

held-checkout_returned :
    (x : ℕ) (p : WorkPool) (us : List WorkUnit) (count worker now : ℕ)
    → IsInRange p
    → p.returned ≡ us
    → held x (checkout_returned p us count worker now).0 ≡ held x p
unfolding checkout_returned advance
held-checkout_returned x p [] count worker now v e = elim (Bool-cases (leb p.limit p.next)) [
  | inl full ↦ rw full
  | inr more ↦
      let (a, moved) = advance-IsInRange p count v more in
      rw more (held-track x _ _ worker now ∙ held-advance x p count v more)
]
held-checkout_returned x p (u ∷ us) count worker now v e =
    held-track x _ _ worker now
    ∙ unfold held in
      omega (
        arith,
        split-covers x p.next u count us v.fits v.cursor
            (subst (All (Below p.next)) e v.reclaimed).0,
        ap (in_units x) e,
      )

reclaim_loop-covers :
    (x worker : ℕ) (cs : List CheckedOutWork) (us : List WorkUnit) (k : ℕ)
    → in_chunks x (reclaim_loop worker cs us k).0 + in_units x (reclaim_loop worker cs us k).1
      ≡ in_chunks x cs + in_units x us
unfolding reclaim_loop in_chunks in_units
reclaim_loop-covers x worker [] us k = refl
reclaim_loop-covers x worker (c ∷ cs) us k = elim (Bool-cases (c.worker_id == worker)) [
  | inl hit ↦
      rw (hit, reclaim_loop)
        (omega (arith, reclaim_loop-covers x worker cs (c.unit ∷ us) (add64 k c.unit.count)))
  | inr miss ↦ rw (miss, reclaim_loop) (omega (arith, reclaim_loop-covers x worker cs us k))
]

held-complete_chunk :
    (x : ℕ) (p : WorkPool) (id : ℕ) (o : Option CheckedOutWork)
    → find_chunk id p.in_flight ≡ o
    → held x (complete_chunk p id) + in_units x (unit_list o) ≡ held x p
unfolding complete_chunk unit_list in_units held
held-complete_chunk x p id none e = rw (erase_chunk_missing id p.in_flight e) (omega arith)
held-complete_chunk x p id (some c) e = omega (arith, erase_chunk-in_chunks x id p.in_flight c e)

held-return_found :
    (x : ℕ) (p : WorkPool) (id : ℕ) (o : Option CheckedOutWork)
    → find_chunk id p.in_flight ≡ o
    → held x (return_found p id o).0 ≡ held x p
unfolding return_found in_units held
held-return_found x p id none e = refl
held-return_found x p id (some c) e = omega (arith, erase_chunk-in_chunks x id p.in_flight c e)

held-partial_found :
    (x : ℕ) (p : WorkPool) (id consumed : ℕ) (o : Option CheckedOutWork)
    → IsInRange p
    → find_chunk id p.in_flight ≡ o
    → held x (partial_found p id consumed o) + in_units x (sieved_part consumed o) ≡ held x p
unfolding partial_found sieved_part in_units held
held-partial_found x p id consumed none v e = omega arith
held-partial_found x p id consumed (some c) v e =
    let k = min consumed c.unit.count in
    let low = find_chunk-Below p.next id p.in_flight c v.flights e in
    let gone = erase_chunk-in_chunks x id p.in_flight c e in
    let split = covers-split x c.unit.start c.unit.count k 0 (omega arith) in
    elim (Bool-cases (ltb 0 (c.unit.count - k))) [
      | inl more ↦
          let wrap : add64 c.unit.start k ≡ c.unit.start + k = omega (arith, v.fits, v.cursor) in
          rw (more, wrap) (omega (arith, gone, split))
      | inr full ↦ rw full (ground (arith, gone, split))
    ]

held-step :
    (x : ℕ) (p : WorkPool) (c : Call)
    → IsInRange p
    → held x (step p c) + in_units x (sieved p c) ≡ held x p
unfolding step sieved
held-step x p (checks_out count worker now) v =
    unfold checkout_work in_units in
    omega (arith, held-checkout_returned x p p.returned count worker now v refl)
held-step x p (completes id) v = held-complete_chunk x p id _ refl
held-step x p (returns id) v =
    unfold return_chunk in_units in omega (arith, held-return_found x p id _ refl)
held-step x p (reclaims worker) v =
    unfold reclaim_work in_units held in
    omega (arith, reclaim_loop-covers x worker p.in_flight p.returned 0)
held-step x p (reclaims_part id consumed) v =
    unfold reclaim_partial in held-partial_found x p id consumed _ v refl

held-run :
    (x : ℕ) (p : WorkPool) (cs : List Call)
    → IsInRange p
    → held x (run p cs) + in_units x (sieved_by p cs) ≡ held x p
unfolding run sieved_by in_units
held-run x p [] v = omega arith
held-run x p (c ∷ cs) v = omega (
  arith,
  held-run x (step p c) cs (step-IsInRange p c v),
  held-step x p c v,
  in_units-append x (sieved p c) (sieved_by (step p c) cs),
)

-- Whatever calls are made on a fresh pool, each index of the range [a_start, a_start + total_a) is in exactly one place: ahead of the cursor, in one chunk in flight, in one returned unit, or in one unit reported as sieved; no other index is anywhere.
pub held-run-init :
    (x a_start total_a unit_size : ℕ) (cs : List Call)
    → a_start + total_a < 2 ^ 64
    → let p = init a_start total_a unit_size in
      held x (run p cs) + in_units x (sieved_by p cs)
      ≡ covers x (record { start = a_start; count = total_a })
held-run-init x a_start total_a unit_size cs h =
    held-run x _ cs (init-IsInRange a_start total_a unit_size h)
    ∙ unfold init held in_units in_chunks in ground arith

limit-checkout :
    (p : WorkPool) (us : List WorkUnit) (count worker now : ℕ)
    → (checkout_returned p us count worker now).0.limit ≡ p.limit
unfolding checkout_returned track
limit-checkout p [] count worker now = ground arith
limit-checkout p (u ∷ us) count worker now = refl

limit-return_found :
    (p : WorkPool) (id : ℕ) (o : Option CheckedOutWork) → (return_found p id o).0.limit ≡ p.limit
unfolding return_found
limit-return_found p id none = refl
limit-return_found p id (some c) = refl

limit-partial_found :
    (p : WorkPool) (id consumed : ℕ) (o : Option CheckedOutWork)
    → (partial_found p id consumed o).limit ≡ p.limit
unfolding partial_found
limit-partial_found p id consumed none = refl
limit-partial_found p id consumed (some c) = refl

limit-step : (p : WorkPool) (c : Call) → (step p c).limit ≡ p.limit
unfolding step checkout_work complete_chunk return_chunk reclaim_work reclaim_partial
limit-step p (checks_out count worker now) = limit-checkout p p.returned count worker now
limit-step p (completes id) = refl
limit-step p (returns id) = limit-return_found p id _
limit-step p (reclaims worker) = refl
limit-step p (reclaims_part id consumed) = limit-partial_found p id consumed _

-- No call moves the end of the range.
pub limit-run : (p : WorkPool) (cs : List Call) → (run p cs).limit ≡ p.limit
unfolding run
limit-run p [] = refl
limit-run p (c ∷ cs) = limit-run (step p c) cs ∙ limit-step p c
