-- ===== src/Cluster/WorkPool/Range.antt =====
-- work_pool: the units of the pool and its range.
use cuda_mpqs.Prelude.{
  ℕ, ◌+◌, ◌-◌, ◌^◌, ◌≤◌, ◌<◌, min, ◌≡◌, refl, false, ◌&&◌, Option, none, some, List, [], ◌∷◌, ltb,
  leb, ◌==◌, if◌then◌else◌, All, All-append, add64, arith, Bool-cases, ltb→lt, subst, inl, inr,
}
use cuda_mpqs.Cluster.WorkPool.{
  WorkUnit, CheckedOutWork, WorkPool, Call, checks_out, completes, returns, reclaims, reclaims_part,
  init, track, split_head, split_rest, checkout_returned, checkout_work, find_chunk, erase_chunk,
  complete_chunk, return_found, return_chunk, reclaim_loop, reclaim_work, partial_found,
  reclaim_partial, step, run,
}

-- 1 if the unit holds the index, else 0.
abbrev pub covers : ℕ → WorkUnit → ℕ
covers x u = if leb u.start x && ltb x (u.start + u.count) then 1 else 0

-- Every unit that was handed out lies below the cursor, and the cursor below the end of the range.
abbrev pub Below : ℕ → WorkUnit → Type 0
Below n u = u.start + u.count ≤ n

pub record IsInRange (p : WorkPool) : Type 0 where
  pub fits : p.limit < 2 ^ 64
  pub cursor : p.next ≤ p.limit
  pub flights : All (λ c. Below p.next c.unit) p.in_flight
  pub reclaimed : All (Below p.next) p.returned

Below-mono :
    (m n : ℕ) (cs : List CheckedOutWork)
    → m ≤ n
    → All (λ c. Below m c.unit) cs
    → All (λ c. Below n c.unit) cs
Below-mono m n [] h a = tt
Below-mono m n (c ∷ cs) h a = (omega arith, Below-mono m n cs h a.1)

Below-mono_units : (m n : ℕ) (us : List WorkUnit) → m ≤ n → All (Below m) us → All (Below n) us
Below-mono_units m n [] h a = tt
Below-mono_units m n (u ∷ us) h a = (omega arith, Below-mono_units m n us h a.1)

erase_chunk-Below :
    (n id : ℕ) (cs : List CheckedOutWork)
    → All (λ c. Below n c.unit) cs
    → All (λ c. Below n c.unit) (erase_chunk id cs)
unfolding erase_chunk
erase_chunk-Below n id [] a = tt
erase_chunk-Below n id (c ∷ cs) a = ground (arith, erase_chunk-Below n id cs a.1)

pub find_chunk-Below :
    (n id : ℕ) (cs : List CheckedOutWork) (c : CheckedOutWork)
    → All (λ d. Below n d.unit) cs
    → find_chunk id cs ≡ some c
    → Below n c.unit
unfolding find_chunk
find_chunk-Below n id [] c a e = absurd (cc)
find_chunk-Below n id (d ∷ cs) c a e = ground (arith, find_chunk-Below n id cs c a.1)

track-IsInRange :
    (p : WorkPool) (u : WorkUnit) (worker now : ℕ)
    → IsInRange p
    → Below p.next u
    → IsInRange (track p u worker now).0
unfolding track
track-IsInRange p u worker now v b = record {
  fits = v.fits;
  cursor = v.cursor;
  flights = All-append _ p.in_flight _ v.flights (b, tt);
  reclaimed = v.reclaimed;
}

-- The linear cursor moved on by `actual`.
unfoldable pub advance : WorkPool → ℕ → WorkPool
advance p count = record p { next = add64 p.next (min count (p.limit - p.next)) }

pub advance-IsInRange :
    (p : WorkPool) (count : ℕ)
    → IsInRange p
    → leb p.limit p.next ≡ false
    → IsInRange (advance p count) × ((advance p count).next ≡ p.next + min count (p.limit - p.next))
unfolding advance
advance-IsInRange p count v more = (
  record {
    fits = v.fits;
    cursor = omega (arith, moved, v);
    flights = Below-mono _ _ p.in_flight (omega (arith, moved)) v.flights;
    reclaimed = Below-mono_units _ _ p.returned (omega (arith, moved)) v.reclaimed;
  },
  moved,
)
  where
    moved : (advance p count).next ≡ p.next + min count (p.limit - p.next)
    moved = ground (arith, v.fits, v.cursor)

split_head-Below : (n : ℕ) (u : WorkUnit) (count : ℕ) → Below n u → Below n (split_head u count)
unfolding split_head
split_head-Below n u count b = ground arith

split_rest-Below :
    (n : ℕ) (u : WorkUnit) (count : ℕ) (us : List WorkUnit) {e : ℕ}
    → e < 2 ^ 64
    → n ≤ e
    → All (Below n) (u ∷ us)
    → All (Below n) (split_rest u count us)
unfolding split_rest
split_rest-Below n u count us h k a = elim (Bool-cases (ltb count u.count)) [
  | inl more ↦ rw more (omega (arith, ltb→lt count u.count more), a.1)
  | inr fits ↦ rw fits (a.1)
]

checkout_returned-IsInRange :
    (p : WorkPool) (us : List WorkUnit) (count worker now : ℕ)
    → IsInRange p
    → p.returned ≡ us
    → IsInRange (checkout_returned p us count worker now).0
unfolding checkout_returned advance
checkout_returned-IsInRange p [] count worker now v e = elim (Bool-cases (leb p.limit p.next)) [
  | inl full ↦ rw full v
  | inr more ↦
      let (a, moved) = advance-IsInRange p count v more in
      rw more (track-IsInRange _ _ worker now a (omega (arith, moved)))
]
checkout_returned-IsInRange p (u ∷ us) count worker now v e =
    track-IsInRange _ _ worker now
      (record {
        fits = v.fits;
        cursor = v.cursor;
        flights = v.flights;
        reclaimed =
            split_rest-Below p.next u count us v.fits v.cursor
              (subst (All (Below p.next)) e v.reclaimed);
      })
      (split_head-Below p.next u count (subst (All (Below p.next)) e v.reclaimed).0)

reclaim_loop-Below :
    (n worker : ℕ) (cs : List CheckedOutWork) (us : List WorkUnit) (k : ℕ)
    → All (λ c. Below n c.unit) cs
    → All (Below n) us
    → All (λ c. Below n c.unit) (reclaim_loop worker cs us k).0
      × All (Below n) (reclaim_loop worker cs us k).1
unfolding reclaim_loop
reclaim_loop-Below n worker [] us k a b = (tt, b)
reclaim_loop-Below n worker (c ∷ cs) us k a b = elim (Bool-cases (c.worker_id == worker)) [
  | inl hit ↦ rw (hit, reclaim_loop) (reclaim_loop-Below n worker cs (c.unit ∷ us) _ a.1 (a.0, b))
  | inr miss ↦
      let ih = reclaim_loop-Below n worker cs us k a.1 b in
      rw (miss, reclaim_loop) ((a.0, ih.0), ih.1)
]

partial_found-IsInRange :
    (p : WorkPool) (id consumed : ℕ) (o : Option CheckedOutWork)
    → IsInRange p
    → find_chunk id p.in_flight ≡ o
    → IsInRange (partial_found p id consumed o)
unfolding partial_found
partial_found-IsInRange p id consumed none v e = v
partial_found-IsInRange p id consumed (some c) v e = record {
  fits = v.fits;
  cursor = v.cursor;
  flights = erase_chunk-Below p.next id p.in_flight v.flights;
  reclaimed = elim (Bool-cases (ltb 0 (c.unit.count - min consumed c.unit.count))) [
    | inl more ↦
        let low = find_chunk-Below p.next id p.in_flight c v.flights e in
        rw more (omega (arith, v.fits, v.cursor), v.reclaimed)
    | inr full ↦ rw full (v.reclaimed)
  ];
}

return_found-IsInRange :
    (p : WorkPool) (id : ℕ) (o : Option CheckedOutWork)
    → IsInRange p
    → find_chunk id p.in_flight ≡ o
    → IsInRange (return_found p id o).0
unfolding return_found
return_found-IsInRange p id none v e = v
return_found-IsInRange p id (some c) v e = record {
  fits = v.fits;
  cursor = v.cursor;
  flights = erase_chunk-Below p.next id p.in_flight v.flights;
  reclaimed = (find_chunk-Below p.next id p.in_flight c v.flights e, v.reclaimed);
}

-- Every call keeps the handed-out units below the cursor and the cursor within the range.
pub step-IsInRange : (p : WorkPool) (c : Call) → IsInRange p → IsInRange (step p c)
unfolding step
step-IsInRange p (checks_out count worker now) v =
    unfold checkout_work in checkout_returned-IsInRange p p.returned count worker now v refl
step-IsInRange p (completes id) v =
    unfold complete_chunk in
    record {
      fits = v.fits;
      cursor = v.cursor;
      flights = erase_chunk-Below p.next id p.in_flight v.flights;
      reclaimed = v.reclaimed;
    }
step-IsInRange p (returns id) v = unfold return_chunk in return_found-IsInRange p id _ v refl
step-IsInRange p (reclaims worker) v =
    let ih = reclaim_loop-Below p.next worker p.in_flight p.returned 0 v.flights v.reclaimed in
    unfold reclaim_work in
    record { fits = v.fits; cursor = v.cursor; flights = ih.0; reclaimed = ih.1 }
step-IsInRange p (reclaims_part id consumed) v =
    unfold reclaim_partial in partial_found-IsInRange p id consumed _ v refl

pub run-IsInRange : (p : WorkPool) (cs : List Call) → IsInRange p → IsInRange (run p cs)
unfolding run
run-IsInRange p [] v = v
run-IsInRange p (c ∷ cs) v = run-IsInRange (step p c) cs (step-IsInRange p c v)

pub init-IsInRange :
    (a_start total_a unit_size : ℕ)
    → a_start + total_a < 2 ^ 64
    → IsInRange (init a_start total_a unit_size)
unfolding init
init-IsInRange a_start total_a unit_size h = record {
  fits = omega arith;
  cursor = omega arith;
  flights = tt;
  reclaimed = tt;
}
