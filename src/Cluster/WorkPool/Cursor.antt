-- ===== src/Cluster/WorkPool/Cursor.antt =====
-- work_pool.h: `completedPrefixCursor` and `setCursor`, the checkpoint and the resume of a pool.
use cuda_mpqs.Prelude.{
  ℕ, ◌+◌, ◌^◌, ◌≤◌, ◌<◌, min, ◌≡◌, refl, some, List, [], ◌∷◌, ◌&&◌, ltb, leb, if◌then◌else◌, arith,
}
use cuda_mpqs.Cluster.WorkPool.{
  WorkUnit, CheckedOutWork, WorkPool, Call, init, min_flight, min_returned, completed_prefix_cursor,
  set_cursor, run,
}
use cuda_mpqs.Cluster.WorkPool.Range.{run-IsInRange, init-IsInRange}
use cuda_mpqs.Cluster.WorkPool.Coverage.{
  in_units, in_chunks, held, sieved_by, held-run-init, limit-run,
}

min_flight-le : (c : ℕ) (cs : List CheckedOutWork) → min_flight c cs ≤ c
unfolding min_flight
min_flight-le c [] = omega arith
min_flight-le c (w ∷ ws) = omega (arith, min_flight-le (min c w.unit.start) ws)

min_returned-le : (c : ℕ) (us : List WorkUnit) → min_returned c us ≤ c
unfolding min_returned
min_returned-le c [] = omega arith
min_returned-le c (u ∷ us) = omega (arith, min_returned-le (min c u.start) us)

below_flights : (x c : ℕ) (cs : List CheckedOutWork) → x < min_flight c cs → in_chunks x cs ≡ 0
unfolding min_flight in_chunks
below_flights x c [] h = refl
below_flights x c (w ∷ ws) h =
    ground (arith, below_flights x (min c w.unit.start) ws h, min_flight-le (min c w.unit.start) ws)

below_returned : (x c : ℕ) (us : List WorkUnit) → x < min_returned c us → in_units x us ≡ 0
unfolding min_returned in_units
below_returned x c [] h = refl
below_returned x c (u ∷ us) h =
    ground (arith, below_returned x (min c u.start) us h, min_returned-le (min c u.start) us)

completed_prefix_cursor-le : (p : WorkPool) → completed_prefix_cursor p ≤ p.next
unfolding completed_prefix_cursor
completed_prefix_cursor-le p = omega (
  arith,
  min_returned-le (min_flight p.next p.in_flight) p.returned,
  min_flight-le p.next p.in_flight,
)

below_cursor : (x : ℕ) (p : WorkPool) → x < completed_prefix_cursor p → held x p ≡ 0
unfolding completed_prefix_cursor held
below_cursor x p h =
    let c = min_flight p.next p.in_flight in
    ground (
      arith,
      min_returned-le c p.returned,
      min_flight-le p.next p.in_flight,
      below_returned x c p.returned,
      below_flights x p.next p.in_flight,
    )

limit-init :
    (a_start total_a unit_size : ℕ)
    → a_start + total_a < 2 ^ 64
    → (init a_start total_a unit_size).limit ≡ a_start + total_a
unfolding init
limit-init a_start total_a unit_size h = omega arith

-- After any calls on a fresh pool, every index from the start of the range up to the completed-prefix cursor has been reported as sieved exactly once.
pub completed_prefix-sieved :
    (x a_start total_a unit_size : ℕ) (cs : List Call)
    → a_start + total_a < 2 ^ 64
    → a_start ≤ x
    → x < completed_prefix_cursor (run (init a_start total_a unit_size) cs)
    → in_units x (sieved_by (init a_start total_a unit_size) cs) ≡ 1
completed_prefix-sieved x a_start total_a unit_size cs h lo hi =
    let p = run (init a_start total_a unit_size) cs in
    let v = run-IsInRange _ cs (init-IsInRange a_start total_a unit_size h) in
    ground (
      arith,
      below_cursor x p hi,
      held-run-init x a_start total_a unit_size cs h,
      completed_prefix_cursor-le p,
      v.cursor,
      limit-run (init a_start total_a unit_size) cs,
      limit-init a_start total_a unit_size h,
    )

held-set :
    (x a_start total_a unit_size c : ℕ)
    → a_start + total_a < 2 ^ 64
    → held x (record (init a_start total_a unit_size) { next = c })
      ≡ (if leb c x && ltb x (a_start + total_a) then 1 else 0)
unfolding held init in_units in_chunks
held-set x a_start total_a unit_size c h = ground arith

-- A pool that is built anew and set to the completed-prefix cursor of a lost one is accepted by `setCursor`, and each index of the range was sieved before the loss or is handed out again.
pub set_cursor-resumes :
    (a_start total_a unit_size : ℕ) (cs : List Call)
    → a_start + total_a < 2 ^ 64
    → let p = init a_start total_a unit_size in
      (q : WorkPool) × (set_cursor p (completed_prefix_cursor (run p cs)) ≡ some q)
      × ((x : ℕ) → a_start ≤ x → x < a_start + total_a → 1 ≤ in_units x (sieved_by p cs) + held x q)
unfolding set_cursor
set_cursor-resumes a_start total_a unit_size cs h =
    let p = init a_start total_a unit_size in
    let c = completed_prefix_cursor (run p cs) in
    let v = run-IsInRange p cs (init-IsInRange a_start total_a unit_size h) in
    let fits : c ≤ p.limit =
      omega (arith, completed_prefix_cursor-le (run p cs), v.cursor, limit-run p cs) in
    (
      record p { next = c },
      unfold init in ground (arith, fits),
      λ x lo hi. ground (
        arith,
        held-set x a_start total_a unit_size c h,
        completed_prefix-sieved x a_start total_a unit_size cs h lo,
      ),
    )
