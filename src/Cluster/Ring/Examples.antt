-- ===== src/Cluster/Ring/Examples.antt =====
-- spsc_ring: a ring of four slots, and a push that comes while a batch is being popped.
use cuda_mpqs.Prelude.{ℕ, ◌≡◌, refl, List, [], ◌∷◌, some, none, true, false}
use cuda_mpqs.Cluster.Ring.{
  RingCall, pushes, pops, batch_starts, batch_reads, batch_ends, asks_size, pushed, popped,
  popped_batch, sized, silent, new_threads, run,
}

abbrev calls : List (RingCall ℕ)
calls =
    pushes 1
    ∷ pushes 2
    ∷ batch_starts 9
    ∷ batch_reads
    ∷ pushes 3
    ∷ pushes 4
    ∷ asks_size
    ∷ batch_ends
    ∷ pushes 5
    ∷ pops
    ∷ pops
    ∷ pops
    ∷ []

-- The push of 3 finds room and is not in the batch; that of 4 fails, since the batch has not ended.
replies :
    run 2 (new_threads 2 0) calls
    ≡ pushed true
      ∷ pushed true
      ∷ silent
      ∷ silent
      ∷ pushed true
      ∷ pushed false
      ∷ sized 3
      ∷ popped_batch (1 ∷ 2 ∷ [])
      ∷ pushed true
      ∷ popped (some 3)
      ∷ popped (some 5)
      ∷ popped none
      ∷ []
unfolding run new_threads
replies = refl
