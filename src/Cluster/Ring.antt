-- ===== src/Cluster/Ring.antt =====
-- src/cluster/spsc_ring.h: `SPSCRing` with 2^k slots, one producer and one consumer. A `tryPush`, `tryPop`
-- or `approxSize` by one of the two threads takes effect at its one access to the index that the
-- other thread stores: at that load, or, where it succeeds, at its own store. `popBatch` does not: it
-- loads `tail_` first and stores `head_` last, and the producer runs in between, so its start, the
-- rounds of its loop and its end are steps of their own. A slot that is moved from keeps its value.
pub mod Queue
pub mod Interleaved
mod Examples
use cuda_mpqs.Prelude.{
  ℕ, zero, suc, ◌+◌, ◌-◌, ◌%◌, ◌^◌, bit_and, List, [], ◌∷◌, ◌++◌, Option, none, some, Bool, true,
  false, ◌==◌, if◌then◌else◌, ◌||◌, get_elem?, set, replicate, sub64,
}

pub record SpscRing {ℓ} (A : Type ℓ) : Type ℓ where
  pub head : ℕ
  pub tail : ℕ
  pub slots : List A

-- The variables of `popBatch`: `max_n - count`, `t`, `h` and `out`.
pub record BatchPop {ℓ} (A : Type ℓ) : Type ℓ where
  pub left : ℕ
  pub until : ℕ
  pub at : ℕ
  pub out : List A

-- The steps of the producer and of the consumer, and what a call returns at its last step.
pub data RingCall {ℓ} (A : Type ℓ) : Type ℓ where
  pushes : A → RingCall A
  pops : RingCall A
  batch_starts : ℕ → RingCall A
  batch_reads : RingCall A
  batch_ends : RingCall A
  asks_size : RingCall A

pub data RingReply {ℓ} (A : Type ℓ) : Type ℓ where
  pushed : Bool → RingReply A
  popped : Option A → RingReply A
  popped_batch : List A → RingReply A
  sized : ℕ → RingReply A
  silent : RingReply A

-- The ring, and the batch that the consumer is popping.
pub record Threads {ℓ} (A : Type ℓ) : Type ℓ where
  pub ring : SpscRing A
  pub batch : Option (BatchPop A)

-- `(i + 1) & mask_`
pub next_slot : ℕ → ℕ → ℕ
next_slot k i = bit_and (i + 1) (2 ^ k - 1)

module _ {ℓ} {A : Type ℓ} where
  -- All slots begin with the default value.
  unfoldable pub new_ring : ℕ → A → SpscRing A
  new_ring k a = record { head = 0; tail = 0; slots = replicate (2 ^ k) a }

  pub try_push : ℕ → A → SpscRing A → SpscRing A × Bool
  unfolding next_slot
  try_push k item r =
      let next = next_slot k r.tail in
      if next == r.head
      then (r, false)
      else (record r { tail = next; slots = set r.slots r.tail item }, true)

  pub try_pop : ℕ → SpscRing A → SpscRing A × Option A
  unfolding next_slot
  try_pop k r =
      if r.head == r.tail
      then (r, none)
      else (record r { head = next_slot k r.head }, get_elem? r.slots r.head)

  pub push_back : List A → Option A → List A
  push_back out none = out
  push_back out (some x) = out ++ (x ∷ [])

  -- The loop of `popBatch`, at most `n` rounds.
  pub pop_loop : ℕ → ℕ → List A → ℕ → ℕ → List A → ℕ × List A
  unfolding next_slot push_back
  pop_loop k zero slots t h out = (h, out)
  pop_loop k (suc n) slots t h out =
      let rest = pop_loop k n slots t (next_slot k h) (push_back out (get_elem? slots h)) in
      if h == t then (h, out) else rest

  -- The loads at the start of `popBatch`.
  pub start_batch : ℕ → SpscRing A → BatchPop A
  start_batch max_n r = record { left = max_n; until = r.tail; at = r.head; out = [] }

  -- One round of the loop; none when the loop is over.
  pub read_one : ℕ → List A → BatchPop A → BatchPop A
  unfolding next_slot push_back
  read_one k slots b = if b.left == 0 || b.at == b.until then b else record b {
    left = b.left - 1;
    at = next_slot k b.at;
    out = push_back b.out (get_elem? slots b.at);
  }

  -- The rounds that are left, and the store of `head_`.
  pub end_batch : ℕ → SpscRing A → BatchPop A → SpscRing A × List A
  unfolding pop_loop
  end_batch k r b =
      let (h, out) = pop_loop k b.left r.slots b.until b.at b.out in (record r { head = h }, out)

  pub approx_size : ℕ → SpscRing A → ℕ
  approx_size k r = bit_and (sub64 r.tail r.head) (2 ^ k - 1)

  -- The consumer is one thread: while it pops a batch it makes no other call, and none of the steps of
  -- a batch comes outside one. Such a step has no effect.
  pub idle_step : ℕ → SpscRing A → RingCall A → Threads A × RingReply A
  unfolding try_push try_pop start_batch approx_size
  idle_step k r (pushes x) =
      let (r', ok) = try_push k x r in (record { ring = r'; batch = none }, pushed ok)
  idle_step k r pops = let (r', x) = try_pop k r in (record { ring = r'; batch = none }, popped x)
  idle_step k r (batch_starts n) = (record { ring = r; batch = some (start_batch n r) }, silent)
  idle_step k r batch_reads = (record { ring = r; batch = none }, silent)
  idle_step k r batch_ends = (record { ring = r; batch = none }, silent)
  idle_step k r asks_size = (record { ring = r; batch = none }, sized (approx_size k r))

  pub batch_step : ℕ → SpscRing A → BatchPop A → RingCall A → Threads A × RingReply A
  unfolding try_push read_one end_batch approx_size
  batch_step k r b (pushes x) =
      let (r', ok) = try_push k x r in (record { ring = r'; batch = some b }, pushed ok)
  batch_step k r b pops = (record { ring = r; batch = some b }, silent)
  batch_step k r b (batch_starts n) = (record { ring = r; batch = some b }, silent)
  batch_step k r b batch_reads = (record { ring = r; batch = some (read_one k r.slots b) }, silent)
  batch_step k r b batch_ends =
      let (r', xs) = end_batch k r b in (record { ring = r'; batch = none }, popped_batch xs)
  batch_step k r b asks_size = (record { ring = r; batch = some b }, sized (approx_size k r))

  pub batch_or_idle : ℕ → SpscRing A → Option (BatchPop A) → RingCall A → Threads A × RingReply A
  unfolding idle_step batch_step
  batch_or_idle k r none c = idle_step k r c
  batch_or_idle k r (some b) c = batch_step k r b c

  pub step : ℕ → Threads A → RingCall A → Threads A × RingReply A
  unfolding batch_or_idle
  step k s c = batch_or_idle k s.ring s.batch c

  pub new_threads : ℕ → A → Threads A
  unfolding new_ring
  new_threads k a = record { ring = new_ring k a; batch = none }

  unfoldable pub run : ℕ → Threads A → List (RingCall A) → List (RingReply A)
  unfolding step
  run k s [] = []
  run k s (c ∷ cs) = let (s', reply) = step k s c in reply ∷ run k s' cs
