-- ===== src/Cluster/Ring/Interleaved.antt =====
-- spsc_ring: the steps of the two threads in any order, and the queue that they act on.
use cuda_mpqs.Prelude.{
  ℕ, ◌+◌, ◌^◌, ◌≡◌, List, [], ◌∷◌, ◌++◌, Option, none, some, Bool, true, false, ltb, if◌then◌else◌,
  take, drop, length,
}
use cuda_mpqs.Cluster.Ring.{
  SpscRing, BatchPop, RingCall, pushes, pops, batch_starts, batch_reads, batch_ends, asks_size,
  RingReply, pushed, popped, popped_batch, sized, silent, run,
}
use cuda_mpqs.Cluster.Ring.Queue.{wrap, IsRing}

-- The specification: the queue, in two parts while a batch is being popped. `taken` is what the batch
-- will return. It is out of the queue only when the batch ends, and takes up room until then.
pub record Queue {ℓ} (A : Type ℓ) : Type ℓ where
  pub taken : Option (List A)
  pub rest : List A

module _ {ℓ} {A : Type ℓ} where
  push_behind : ℕ → List A → A → List A → List A × Bool
  push_behind k taken x q =
      if ltb (length (taken ++ q) + 1) (2 ^ k) then (q ++ (x ∷ []), true) else (q, false)

  pop_front : List A → List A × Option A
  pop_front [] = ([], none)
  pop_front (x ∷ q) = (q, some x)

  queue_idle : ℕ → List A → RingCall A → Queue A × RingReply A
  queue_idle k q (pushes x) =
      let (q', ok) = push_behind k [] x q in (record { taken = none; rest = q' }, pushed ok)
  queue_idle k q pops = let (q', x) = pop_front q in (record { taken = none; rest = q' }, popped x)
  queue_idle k q (batch_starts n) = (record { taken = some (take n q); rest = drop n q }, silent)
  queue_idle k q batch_reads = (record { taken = none; rest = q }, silent)
  queue_idle k q batch_ends = (record { taken = none; rest = q }, silent)
  queue_idle k q asks_size = (record { taken = none; rest = q }, sized (length q))

  queue_batch : ℕ → List A → List A → RingCall A → Queue A × RingReply A
  queue_batch k xs q (pushes x) =
      let (q', ok) = push_behind k xs x q in (record { taken = some xs; rest = q' }, pushed ok)
  queue_batch k xs q pops = (record { taken = some xs; rest = q }, silent)
  queue_batch k xs q (batch_starts n) = (record { taken = some xs; rest = q }, silent)
  queue_batch k xs q batch_reads = (record { taken = some xs; rest = q }, silent)
  queue_batch k xs q batch_ends = (record { taken = none; rest = q }, popped_batch xs)
  queue_batch k xs q asks_size = (record { taken = some xs; rest = q }, sized (length (xs ++ q)))

  queue_step_from : ℕ → Option (List A) → List A → RingCall A → Queue A × RingReply A
  queue_step_from k none q c = queue_idle k q c
  queue_step_from k (some xs) q c = queue_batch k xs q c

  queue_step : ℕ → Queue A → RingCall A → Queue A × RingReply A
  queue_step k s c = queue_step_from k s.taken s.rest c

  pub queue_run : ℕ → Queue A → List (RingCall A) → List (RingReply A)
  queue_run k s [] = []
  queue_run k s (c ∷ cs) = let (s', reply) = queue_step k s c in reply ∷ queue_run k s' cs

  abbrev pub empty_queue : Queue A
  empty_queue = record { taken = none; rest = [] }

  -- A batch half way: `todo` was in the ring at its start and is not read yet, `new` has come since.
  record IsBatch (k : ℕ) (xs q : List A) (r : SpscRing A) (b : BatchPop A) : Type ℓ where
    todo : List A
    new : List A
    whole : IsRing k (xs ++ q) r
    ahead : IsRing k (todo ++ new) (record r { head = b.at })
    snapshot : b.until ≡ wrap (2 ^ k) (b.at + length todo)
    returns : xs ≡ b.out ++ take b.left todo
    leaves : q ≡ drop b.left todo ++ new

  -- The ring and the queue give the same replies from here on.
  record Agrees (k : ℕ) (cs : List (RingCall A)) : Type ℓ where
    idle :
        (q : List A) (r : SpscRing A)
        → IsRing k q r
        → run k (record { ring = r; batch = none }) cs
          ≡ queue_run k (record { taken = none; rest = q }) cs
    popping :
        (xs q : List A) (r : SpscRing A) (b : BatchPop A)
        → IsBatch k xs q r b
        → run k (record { ring = r; batch = some b }) cs
          ≡ queue_run k (record { taken = some xs; rest = q }) cs
