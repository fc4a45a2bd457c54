-- ===== src/Cluster/WorkPool/Examples.antt =====
-- work_pool: runs of the pool, and its theorems at them.
use cuda_mpqs.Prelude.{
  ℕ, ◌+◌, ◌≤◌, ◌<◌, ◌≡◌, ◌≢◌, refl, ◌⊎◌, true, false, none, some, List, [], ◌∷◌, ◌++◌, arith, add64,
}
use cuda_mpqs.Cluster.WorkPool.{
  CheckedOutWork, WorkPool, Call, checks_out, completes, reclaims, reclaims_part, init, split_head,
  split_rest, checkout_returned, checkout_work, find_chunk, erase_chunk, complete_chunk,
  return_chunk, reclaim_loop, reclaim_work, partial_found, reclaim_partial, completed_prefix_cursor,
  set_cursor, remaining, exhausted, in_flight_for, step, run,
}
use cuda_mpqs.Cluster.WorkPool.Range.{init-IsInRange}
use cuda_mpqs.Cluster.WorkPool.Coverage.{in_units, held, sieved_by, held-run-init}
use cuda_mpqs.Cluster.WorkPool.Cursor.{completed_prefix-sieved, set_cursor-resumes}
use cuda_mpqs.Cluster.WorkPool.Totals.{left, units_sum, reclaim_work_lem, checkout_work_lem}
use cuda_mpqs.Cluster.WorkPool.Ids.{return_chunk-checkout_work}

-- Worker 1 takes two chunks and worker 2 one; the first is completed, the second is recalled after 3
-- a-values, and worker 2 is lost.
abbrev history : List Call
history =
    checks_out 10 1 0
    ∷ checks_out 10 1 5
    ∷ checks_out 10 2 6
    ∷ completes 0
    ∷ reclaims_part 1 3
    ∷ reclaims 2
    ∷ []

after_history : WorkPool
unfolding run init step checkout_work checkout_returned complete_chunk reclaim_work reclaim_partial
    find_chunk erase_chunk reclaim_loop partial_found split_head split_rest
after_history = run (init 100 50 64) history

after_history-remaining : (remaining after_history ≡ 37) × (after_history.in_flight ≡ [])
unfolding after_history remaining
after_history-remaining = (refl, refl)

after_history-cursor : completed_prefix_cursor after_history ≡ 113
unfolding after_history completed_prefix_cursor
after_history-cursor = refl

-- Returned work is served first, the last returned unit first, and is split.
split_run :
    (checkout_work after_history 4 3 9).1
    ≡ some (record {
      chunk_id = 3;
      unit = record { start = 120; count = 4 };
      worker_id = 3;
      checkout_time = 9;
    })
unfolding after_history
split_run = refl

held-run-init_example :
    held 111 (run (init 100 50 64) history) + in_units 111 (sieved_by (init 100 50 64) history) ≡ 1
held-run-init_example = held-run-init 111 100 50 64 history (omega arith)

completed_prefix-sieved_example : in_units 112 (sieved_by (init 100 50 64) history) ≡ 1
unfolding after_history
completed_prefix-sieved_example =
    completed_prefix-sieved 112 100 50 64 history (omega arith) (omega arith)
      (omega (arith, after_history-cursor))

set_cursor-resumes_example :
    let p = init 100 50 64 in
    (q : WorkPool) × (set_cursor p (completed_prefix_cursor (run p history)) ≡ some q)
    × ((x : ℕ) → 100 ≤ x → x < 100 + 50 → 1 ≤ in_units x (sieved_by p history) + held x q)
set_cursor-resumes_example = set_cursor-resumes 100 50 64 history (omega arith)

reclaim_work_lem_example :
    let p = run (init 100 50 64) (checks_out 10 1 0 ∷ checks_out 10 2 5 ∷ []) in
    let (q, reclaimed) = reclaim_work p 1 in
    (reclaimed ≡ in_flight_for p 1)
    × (remaining q ≡ add64 (remaining p) reclaimed)
    × (in_flight_for q 1 ≡ 0)
    × ((other : ℕ) → other ≢ 1 → in_flight_for q other ≡ in_flight_for p other)
reclaim_work_lem_example =
    reclaim_work_lem (run (init 100 50 64) (checks_out 10 1 0 ∷ checks_out 10 2 5 ∷ [])) 1

checkout_work_lem_example :
    let p = init 100 50 64 in
    let (q, r) = checkout_work p 10 1 0 in
    ((exhausted p ≡ true) × (q ≡ p) × (r ≡ none))
    ⊎ ((exhausted p ≡ false)
        × ((cw : CheckedOutWork) × (r ≡ some cw)
            × (cw.worker_id ≡ 1)
            × (cw.unit.count ≤ 10)
            × (q.in_flight ≡ p.in_flight ++ (cw ∷ []))
            × (remaining q + cw.unit.count ≡ remaining p)))
unfolding init left units_sum
checkout_work_lem_example =
    checkout_work_lem (init 100 50 64) 10 1 0 (init-IsInRange 100 50 64 (omega arith)) (omega arith)

abbrev fourth_chunk : CheckedOutWork
fourth_chunk = record {
  chunk_id = 3;
  unit = record { start = 120; count = 4 };
  worker_id = 3;
  checkout_time = 9;
}

return_chunk-checkout_work_example :
    let q = (checkout_work after_history 4 3 9).0 in
    ((return_chunk q 3).1 ≡ 4)
    × ((return_chunk q 3).0.in_flight ≡ after_history.in_flight)
    × ((return_chunk q 3).0.returned ≡ record { start = 120; count = 4 } ∷ q.returned)
unfolding after_history
return_chunk-checkout_work_example =
    return_chunk-checkout_work 100 50 64 history 4 3 9 fourth_chunk (omega arith) split_run
