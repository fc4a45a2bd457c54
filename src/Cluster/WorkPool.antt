-- ===== src/Cluster/WorkPool.antt =====
-- src/cluster/work_pool.h, src/cluster/work_pool.cpp: the pool of a-value ranges with tracked
-- checkout. The mutex makes each method one atomic step, so a method is a function on the pool;
-- the clock reading at a checkout is an argument.
pub mod Range
pub mod Coverage
pub mod Cursor
pub mod Totals
pub mod Ids
mod Examples
use cuda_mpqs.Prelude.{
  ℕ, ◌+◌, ◌-◌, ◌^◌, ◌%◌, min, ◌≡◌, refl, Bool, true, false, ◌&&◌, Option, none, some, List, [], ◌∷◌,
  ◌++◌, ltb, leb, ◌==◌, if◌then◌else◌, add64, sub64, add32,
}

-- A contiguous range of a-value indices.
pub record WorkUnit : Type 0 where
  pub start : ℕ
  pub count : ℕ

pub record CheckedOutWork : Type 0 where
  pub chunk_id : ℕ
  pub unit : WorkUnit
  pub worker_id : ℕ
  pub checkout_time : ℕ

-- The head of `returned` is the back of the vector `returned_`; `in_flight` is in the vector's order.
pub record WorkPool : Type 0 where
  pub next : ℕ
  pub limit : ℕ
  pub unit_size : ℕ
  pub next_chunk_id : ℕ
  pub in_flight : List CheckedOutWork
  pub returned : List WorkUnit

pub init : ℕ → ℕ → ℕ → WorkPool
init a_start total_a unit_size = record {
  next = a_start;
  limit = add64 a_start total_a;
  unit_size = unit_size;
  next_chunk_id = 0;
  in_flight = [];
  returned = [];
}

-- The tail that both branches of `checkoutWork` share: number the unit and record it in flight.
pub track : WorkPool → WorkUnit → ℕ → ℕ → WorkPool × Option CheckedOutWork
track p wu worker now =
    let cw : CheckedOutWork = record {
      chunk_id = p.next_chunk_id;
      unit = wu;
      worker_id = worker;
      checkout_time = now;
    } in
    (
      record p { next_chunk_id = add32 p.next_chunk_id 1; in_flight = p.in_flight ++ (cw ∷ []) },
      some cw,
    )

-- The part of a returned unit that is handed out, and what goes back on `returned_`.
pub split_head : WorkUnit → ℕ → WorkUnit
split_head wu count = if ltb count wu.count then record wu { count = count } else wu

pub split_rest : WorkUnit → ℕ → List WorkUnit → List WorkUnit
split_rest wu count rest =
    if ltb count wu.count
    then record { start = add64 wu.start count; count = wu.count - count } ∷ rest
    else rest

pub checkout_returned : WorkPool → List WorkUnit → ℕ → ℕ → ℕ → WorkPool × Option CheckedOutWork
unfolding track
checkout_returned p [] count worker now =
    if leb p.limit p.next
    then (p, none)
    else let actual = min count (p.limit - p.next) in
      track (record p { next = add64 p.next actual }) (record { start = p.next; count = actual })
        worker now
checkout_returned p (wu ∷ rest) count worker now =
    track (record p { returned = split_rest wu count rest }) (split_head wu count) worker now

pub checkout_work : WorkPool → ℕ → ℕ → ℕ → WorkPool × Option CheckedOutWork
unfolding checkout_returned
checkout_work p count worker now = checkout_returned p p.returned count worker now

pub unit_of : Option CheckedOutWork → Option WorkUnit
unit_of none = none
unit_of (some cw) = some cw.unit

-- `requestWork()` and `requestWork(requested_count)`: a checkout for worker 0.
pub request_default : WorkPool → ℕ → WorkPool × Option WorkUnit
unfolding unit_of
request_default p now = let (q, cw) = checkout_work p p.unit_size 0 now in (q, unit_of cw)

pub request_work : WorkPool → ℕ → ℕ → WorkPool × Option WorkUnit
unfolding unit_of
request_work p requested now = let (q, cw) = checkout_work p requested 0 now in (q, unit_of cw)

-- The linear searches over `in_flight_`: the first entry with the id, and the vector without it.
pub find_chunk : ℕ → List CheckedOutWork → Option CheckedOutWork
find_chunk id [] = none
find_chunk id (c ∷ cs) = if c.chunk_id == id then some c else find_chunk id cs

pub erase_chunk : ℕ → List CheckedOutWork → List CheckedOutWork
erase_chunk id [] = []
erase_chunk id (c ∷ cs) = if c.chunk_id == id then cs else c ∷ erase_chunk id cs

pub complete_chunk : WorkPool → ℕ → WorkPool
complete_chunk p id = record p { in_flight = erase_chunk id p.in_flight }

pub return_found : WorkPool → ℕ → Option CheckedOutWork → WorkPool × ℕ
return_found p id none = (p, 0)
return_found p id (some c) = (
  record p { in_flight = erase_chunk id p.in_flight; returned = c.unit ∷ p.returned },
  c.unit.count,
)

pub return_chunk : WorkPool → ℕ → WorkPool × ℕ
unfolding return_found
return_chunk p id = return_found p id (find_chunk id p.in_flight)

pub reclaim_loop :
    ℕ → List CheckedOutWork → List WorkUnit → ℕ → List CheckedOutWork × List WorkUnit × ℕ
reclaim_loop worker [] returned reclaimed = ([], returned, reclaimed)
reclaim_loop worker (c ∷ cs) returned reclaimed = elim (c.worker_id == worker) [
  | true ↦ reclaim_loop worker cs (c.unit ∷ returned) (add64 reclaimed c.unit.count)
  | false ↦
      let (kept, returned', reclaimed') = reclaim_loop worker cs returned reclaimed in
      (c ∷ kept, returned', reclaimed')
]

pub reclaim_work : WorkPool → ℕ → WorkPool × ℕ
reclaim_work p worker =
    let (kept, returned', reclaimed) = reclaim_loop worker p.in_flight p.returned 0 in
    (record p { in_flight = kept; returned = returned' }, reclaimed)

pub partial_found : WorkPool → ℕ → ℕ → Option CheckedOutWork → WorkPool
partial_found p id consumed none = p
partial_found p id consumed (some c) =
    let actual = min consumed c.unit.count in
    let remainder = c.unit.count - actual in
    record p {
      in_flight = erase_chunk id p.in_flight;
      returned =
          if ltb 0 remainder
          then record { start = add64 c.unit.start actual; count = remainder } ∷ p.returned
          else p.returned;
    }

pub reclaim_partial : WorkPool → ℕ → ℕ → WorkPool
unfolding partial_found
reclaim_partial p id consumed = partial_found p id consumed (find_chunk id p.in_flight)

pub in_flight_chunks : WorkPool → List CheckedOutWork
in_flight_chunks p = p.in_flight

pub units_total : ℕ → List WorkUnit → ℕ
units_total acc [] = acc
units_total acc (u ∷ us) = units_total (add64 acc u.count) us

pub remaining : WorkPool → ℕ
unfolding units_total
remaining p =
    let linear = if ltb p.next p.limit then p.limit - p.next else 0 in
    add64 linear (units_total 0 p.returned)

abbrev pub is_empty {ℓ} : {A : Type ℓ} → List A → Bool
is_empty [] = true
is_empty (x ∷ xs) = false

pub exhausted : WorkPool → Bool
exhausted p = leb p.limit p.next && is_empty p.returned

pub chunks_total : ℕ → List CheckedOutWork → ℕ
chunks_total acc [] = acc
chunks_total acc (c ∷ cs) = chunks_total (add64 acc c.unit.count) cs

pub in_flight_count : WorkPool → ℕ
unfolding chunks_total
in_flight_count p = chunks_total 0 p.in_flight

pub chunks_total_for : ℕ → ℕ → List CheckedOutWork → ℕ
chunks_total_for worker acc [] = acc
chunks_total_for worker acc (c ∷ cs) =
    chunks_total_for worker (if c.worker_id == worker then add64 acc c.unit.count else acc) cs

pub in_flight_for : WorkPool → ℕ → ℕ
unfolding chunks_total_for
in_flight_for p worker = chunks_total_for worker 0 p.in_flight

pub remaining_or_in_flight : WorkPool → ℕ
unfolding remaining in_flight_count
remaining_or_in_flight p = add64 (remaining p) (in_flight_count p)

pub min_flight : ℕ → List CheckedOutWork → ℕ
min_flight c [] = c
min_flight c (w ∷ ws) = min_flight (min c w.unit.start) ws

pub min_returned : ℕ → List WorkUnit → ℕ
min_returned c [] = c
min_returned c (u ∷ us) = min_returned (min c u.start) us

pub completed_prefix_cursor : WorkPool → ℕ
unfolding min_flight min_returned
completed_prefix_cursor p = min_returned (min_flight p.next p.in_flight) p.returned

pub next_cursor : WorkPool → ℕ
next_cursor p = p.next

pub end_cursor : WorkPool → ℕ
end_cursor p = p.limit

-- The asserts of `setCursor`: `none` is a failed assert.
pub set_cursor : WorkPool → ℕ → Option WorkPool
set_cursor p cursor =
    if is_empty p.in_flight && is_empty p.returned && leb cursor p.limit
    then some (record p { next = cursor })
    else none

-- One call of a method that changes the pool, and a history of them.
pub data Call : Type 0 where
  checks_out : ℕ → ℕ → ℕ → Call
  completes : ℕ → Call
  returns : ℕ → Call
  reclaims : ℕ → Call
  reclaims_part : ℕ → ℕ → Call

pub step : WorkPool → Call → WorkPool
step p (checks_out count worker now) = (checkout_work p count worker now).0
step p (completes id) = complete_chunk p id
step p (returns id) = (return_chunk p id).0
step p (reclaims worker) = (reclaim_work p worker).0
step p (reclaims_part id consumed) = reclaim_partial p id consumed

pub run : WorkPool → List Call → WorkPool
run p [] = p
run p (c ∷ cs) = run (step p c) cs
