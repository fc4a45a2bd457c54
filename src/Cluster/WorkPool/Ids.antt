-- ===== src/Cluster/WorkPool/Ids.antt =====
-- work_pool: chunk identifiers.
use cuda_mpqs.Prelude.{
  ℕ, suc, ◌+◌, ◌^◌, ◌≤◌, ◌<◌, ◌≡◌, refl, Option, none, some, List, [], ◌∷◌, ◌++◌, ◌==◌, leb, add32,
  arith, inl, inr, Bool-cases, length,
}
use cuda_mpqs.Cluster.WorkPool.{
  WorkUnit, CheckedOutWork, WorkPool, Call, checks_out, completes, returns, reclaims, reclaims_part,
  init, track, checkout_returned, checkout_work, find_chunk, erase_chunk, complete_chunk,
  return_found, return_chunk, reclaim_loop, reclaim_work, partial_found, reclaim_partial, step, run,
}

-- The ids rise along the list, from `lo` on and below `hi`.
abbrev pub Rising : ℕ → ℕ → List CheckedOutWork → Type 0
Rising lo hi [] = Unit {0}
Rising lo hi (c ∷ cs) = (lo ≤ c.chunk_id) × (c.chunk_id < hi) × Rising (suc c.chunk_id) hi cs

Rising-mono :
    (lo lo' hi hi' : ℕ) (cs : List CheckedOutWork)
    → lo' ≤ lo
    → hi ≤ hi'
    → Rising lo hi cs
    → Rising lo' hi' cs
Rising-mono lo lo' hi hi' [] h k r = tt
Rising-mono lo lo' hi hi' (c ∷ cs) h k r =
    (omega arith, omega arith, Rising-mono _ _ hi hi' cs (omega arith) k r.2)

Rising-snoc :
    (lo n : ℕ) (cs : List CheckedOutWork) (c : CheckedOutWork)
    → lo ≤ n
    → c.chunk_id ≡ n
    → Rising lo n cs
    → Rising lo (suc n) (cs ++ (c ∷ []))
Rising-snoc lo n [] c h e r = (omega arith, omega arith, tt)
Rising-snoc lo n (d ∷ cs) c h e r =
    (r.0, omega arith, Rising-snoc (suc d.chunk_id) n cs c (omega arith) e r.2)

erase_chunk-Rising :
    (lo hi id : ℕ) (cs : List CheckedOutWork) → Rising lo hi cs → Rising lo hi (erase_chunk id cs)
unfolding erase_chunk
erase_chunk-Rising lo hi id [] r = tt
erase_chunk-Rising lo hi id (c ∷ cs) r = elim (Bool-cases (c.chunk_id == id)) [
  | inl hit ↦
      rw (hit, erase_chunk)
        (Rising-mono (suc c.chunk_id) lo hi hi cs (omega arith) (omega arith) r.2)
  | inr miss ↦ rw (miss, erase_chunk) (r.0, r.1, erase_chunk-Rising (suc c.chunk_id) hi id cs r.2)
]

reclaim_loop-Rising :
    (lo hi w : ℕ) (cs : List CheckedOutWork) (us : List WorkUnit) (k : ℕ)
    → Rising lo hi cs
    → Rising lo hi (reclaim_loop w cs us k).0
unfolding reclaim_loop
reclaim_loop-Rising lo hi w [] us k r = tt
reclaim_loop-Rising lo hi w (c ∷ cs) us k r = elim (Bool-cases (c.worker_id == w)) [
  | inl hit ↦
      rw (hit, reclaim_loop)
        (Rising-mono (suc c.chunk_id) lo hi hi _ (omega arith) (omega arith)
          (reclaim_loop-Rising (suc c.chunk_id) hi w cs _ _ r.2))
  | inr miss ↦
      rw (miss, reclaim_loop) (r.0, r.1, reclaim_loop-Rising (suc c.chunk_id) hi w cs us k r.2)
]

-- `n` bounds the number of chunks handed out so far.
pub record IsNumbered (n : ℕ) (p : WorkPool) : Type 0 where
  pub counted : p.next_chunk_id ≤ n
  pub rising : Rising 0 p.next_chunk_id p.in_flight

track-IsNumbered :
    (n : ℕ) (p : WorkPool) (u : WorkUnit) (worker now : ℕ)
    → n + 1 < 2 ^ 32
    → IsNumbered n p
    → IsNumbered (n + 1) (track p u worker now).0
unfolding track
track-IsNumbered n p u worker now h v =
    let next' : add32 p.next_chunk_id 1 ≡ suc p.next_chunk_id = omega (arith, v.counted) in
    record {
      counted = omega (arith, next', v.counted);
      rising = rw next' (Rising-snoc 0 p.next_chunk_id p.in_flight _ (omega arith) refl v.rising);
    }

checkout-IsNumbered :
    (n : ℕ) (p : WorkPool) (us : List WorkUnit) (count worker now : ℕ)
    → n + 1 < 2 ^ 32
    → IsNumbered n p
    → IsNumbered (n + 1) (checkout_returned p us count worker now).0
unfolding checkout_returned
checkout-IsNumbered n p [] count worker now h v = elim (Bool-cases (leb p.limit p.next)) [
  | inl full ↦ rw full (record { counted = omega (arith, v.counted); rising = v.rising })
  | inr more ↦
      rw more
        (track-IsNumbered n _ _ worker now h (record { counted = v.counted; rising = v.rising }))
]
checkout-IsNumbered n p (u ∷ us) count worker now h v =
    track-IsNumbered n _ _ worker now h (record { counted = v.counted; rising = v.rising })

return_found-IsNumbered :
    (n : ℕ) (p : WorkPool) (id : ℕ) (o : Option CheckedOutWork)
    → IsNumbered n p
    → IsNumbered n (return_found p id o).0
unfolding return_found
return_found-IsNumbered n p id none v = v
return_found-IsNumbered n p id (some c) v = record {
  counted = v.counted;
  rising = erase_chunk-Rising 0 _ id p.in_flight v.rising;
}

partial_found-IsNumbered :
    (n : ℕ) (p : WorkPool) (id consumed : ℕ) (o : Option CheckedOutWork)
    → IsNumbered n p
    → IsNumbered n (partial_found p id consumed o)
unfolding partial_found
partial_found-IsNumbered n p id consumed none v = v
partial_found-IsNumbered n p id consumed (some c) v = record {
  counted = v.counted;
  rising = erase_chunk-Rising 0 _ id p.in_flight v.rising;
}

IsNumbered-mono : (n m : ℕ) (p : WorkPool) → n ≤ m → IsNumbered n p → IsNumbered m p
IsNumbered-mono n m p h v = record { counted = omega (arith, v.counted); rising = v.rising }

step-IsNumbered :
    (n : ℕ) (p : WorkPool) (c : Call)
    → n + 1 < 2 ^ 32
    → IsNumbered n p
    → IsNumbered (n + 1) (step p c)
unfolding step checkout_work complete_chunk return_chunk reclaim_work reclaim_partial
step-IsNumbered n p (checks_out count worker now) h v =
    checkout-IsNumbered n p p.returned count worker now h v
step-IsNumbered n p (completes id) h v = record {
  counted = omega (arith, v.counted);
  rising = erase_chunk-Rising 0 _ id p.in_flight v.rising;
}
step-IsNumbered n p (returns id) h v =
    IsNumbered-mono n _ _ (omega arith) (return_found-IsNumbered n p id _ v)
step-IsNumbered n p (reclaims worker) h v = record {
  counted = omega (arith, v.counted);
  rising = reclaim_loop-Rising 0 _ worker p.in_flight _ _ v.rising;
}
step-IsNumbered n p (reclaims_part id consumed) h v =
    IsNumbered-mono n _ _ (omega arith) (partial_found-IsNumbered n p id consumed _ v)

run-IsNumbered :
    (n : ℕ) (p : WorkPool) (cs : List Call)
    → n + length cs < 2 ^ 32
    → IsNumbered n p
    → IsNumbered (n + length cs) (run p cs)
unfolding run
run-IsNumbered n p [] h v = IsNumbered-mono n _ p (omega arith) v
run-IsNumbered n p (c ∷ cs) h v =
    IsNumbered-mono (n + 1 + length cs) _ _ (omega arith)
      (run-IsNumbered (n + 1) (step p c) cs (omega arith) (step-IsNumbered n p c (omega arith) v))

find_chunk-snoc :
    (lo n : ℕ) (cs : List CheckedOutWork) (c : CheckedOutWork)
    → c.chunk_id ≡ n
    → Rising lo n cs
    → (find_chunk n (cs ++ (c ∷ [])) ≡ some c) × (erase_chunk n (cs ++ (c ∷ [])) ≡ cs)
unfolding find_chunk erase_chunk
find_chunk-snoc lo n [] c e r = ground arith
find_chunk-snoc lo n (d ∷ cs) c e r =
    let ih = find_chunk-snoc (suc d.chunk_id) n cs c e r.2 in ground (arith, ih.0, ih.1)

init-IsNumbered : (a_start total_a unit_size : ℕ) → IsNumbered 0 (init a_start total_a unit_size)
unfolding init
init-IsNumbered a_start total_a unit_size = record { counted = omega arith; rising = tt }

checkout_snoc :
    (p : WorkPool) (us : List WorkUnit) (count worker now : ℕ) (cw : CheckedOutWork)
    → (checkout_returned p us count worker now).1 ≡ some cw
    → (cw.chunk_id ≡ p.next_chunk_id)
      × ((checkout_returned p us count worker now).0.in_flight ≡ p.in_flight ++ (cw ∷ []))
unfolding checkout_returned track
checkout_snoc p [] count worker now cw e = ground arith
checkout_snoc p (u ∷ us) count worker now cw e = ground arith

Rising-id :
    (p : WorkPool) (c : CheckedOutWork)
    → Rising 0 p.next_chunk_id p.in_flight
    → c.chunk_id ≡ p.next_chunk_id
    → Rising 0 c.chunk_id p.in_flight
Rising-id p c r e = rw e r

give_back :
    (q : WorkPool) (cs : List CheckedOutWork) (cw : CheckedOutWork)
    → Rising 0 cw.chunk_id cs
    → q.in_flight ≡ cs ++ (cw ∷ [])
    → ((return_chunk q cw.chunk_id).1 ≡ cw.unit.count)
      × ((return_chunk q cw.chunk_id).0.in_flight ≡ cs)
      × ((return_chunk q cw.chunk_id).0.returned ≡ cw.unit ∷ q.returned)
unfolding return_chunk return_found
give_back q cs cw r e =
    let (found, erased) = find_chunk-snoc 0 cw.chunk_id cs cw refl r in
    ground (arith, found, erased, e)

-- After fewer than 2^32 calls on a fresh pool, a chunk that is checked out can be given back by its id: `returnChunk` reports the chunk's size, leaves in flight just what was there before the checkout, and puts the chunk's unit at the front of the returned units.
pub return_chunk-checkout_work :
    (a_start total_a unit_size : ℕ) (cs : List Call) (count worker now : ℕ) (cw : CheckedOutWork)
    → length cs < 2 ^ 32
    → let p = run (init a_start total_a unit_size) cs in
      let q = (checkout_work p count worker now).0 in
      (checkout_work p count worker now).1 ≡ some cw
      → ((return_chunk q cw.chunk_id).1 ≡ cw.unit.count)
        × ((return_chunk q cw.chunk_id).0.in_flight ≡ p.in_flight)
        × ((return_chunk q cw.chunk_id).0.returned ≡ cw.unit ∷ q.returned)
unfolding checkout_work
return_chunk-checkout_work a_start total_a unit_size cs count worker now cw h e =
    let p = run (init a_start total_a unit_size) cs in
    let v = run-IsNumbered 0 _ cs (omega arith) (init-IsNumbered a_start total_a unit_size) in
    let (id, flight) = checkout_snoc p p.returned count worker now cw e in
    give_back _ p.in_flight cw (Rising-id p cw v.rising id) flight
