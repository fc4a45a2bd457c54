-- ===== src/Cluster/Ring/Queue.antt =====
-- spsc_ring: the ring and the queue that it stands for.
use native.Mathlib.Nat.{mod-eq_of_lt, mod_self, add-mul-mod_self_left}
use cuda_mpqs.Prelude.{
  ℕ, zero, suc, ◌+◌, ◌-◌, ◌*◌, ◌%◌, ◌^◌, bit_and-mask, power_pos, power_split, ◌<◌, ◌≤◌, ◌≡◌, ◌≢◌,
  refl, sym, ap, ◌∙◌, List, [], ◌∷◌, ◌++◌, Option, none, some, true, false, ltb, ◌==◌,
  if◌then◌else◌, ltb→lt, get_elem?, set, take, drop, length, length-append, sub64, arith,
  Bool-cases, inl, inr,
}
use mathlib.Core.List.{append_assoc, append-nil}
use cuda_mpqs.Cluster.Ring.{SpscRing, next_slot, try_push, try_pop, pop_loop, approx_size}

-- Index `i < 2 * n` on a ring of `n` slots.
abbrev pub wrap : ℕ → ℕ → ℕ
wrap n i = if ltb i n then i else i - n

pub next_slot-wrap : (k i : ℕ) → i < 2 ^ k → next_slot k i ≡ wrap (2 ^ k) (i + 1)
unfolding next_slot
next_slot-wrap k i h = bit_and-mask k (i + 1) ∙ elim (Bool-cases (ltb (i + 1) (2 ^ k))) [
  | inl below ↦ rw below (mod-eq_of_lt (ground arith))
  | inr end ↦ let e : i + 1 ≡ 2 ^ k = ground arith in rw (end, e) (mod_self (2 ^ k) ∙ omega arith)
]

one_less : (n z : ℕ) → 0 < z → n * z ≡ n + n * (z - 1)
one_less n zero h = absurd (omega arith)
one_less n (suc z) h = let e : suc z - 1 ≡ z = omega arith in rw e (grind arith)

module _ {ℓ} {A : Type ℓ} where
  -- The queue `q` stands in the slots from `h` on.
  abbrev pub Held : ℕ → List A → ℕ → List A → Type ℓ
  Held n slots h [] = Unit {ℓ}
  Held n slots h (x ∷ q) = (get_elem? slots h ≡ some x) × Held n slots (wrap n (h + 1)) q

  pub record IsRing (k : ℕ) (q : List A) (r : SpscRing A) : Type ℓ where
    pub size : length r.slots ≡ 2 ^ k
    pub inside : r.head < 2 ^ k
    pub few : length q < 2 ^ k
    pub tail : r.tail ≡ wrap (2 ^ k) (r.head + length q)
    pub held : Held (2 ^ k) r.slots r.head q

  get_elem?-set : (xs : List A) (i : ℕ) (x : A) → i < length xs → get_elem? (set xs i x) i ≡ some x
  get_elem?-set [] i x h = absurd (omega arith)
  get_elem?-set (y ∷ xs) zero x h = refl
  get_elem?-set (y ∷ xs) (suc i) x h = get_elem?-set xs i x (omega arith)

  get_elem?-set_ne :
      (xs : List A) (i j : ℕ) (x : A) → i ≢ j → get_elem? (set xs i x) j ≡ get_elem? xs j
  get_elem?-set_ne [] i j x ne = refl
  get_elem?-set_ne (y ∷ xs) zero zero x ne = absurd (ne refl)
  get_elem?-set_ne (y ∷ xs) zero (suc j) x ne = refl
  get_elem?-set_ne (y ∷ xs) (suc i) zero x ne = refl
  get_elem?-set_ne (y ∷ xs) (suc i) (suc j) x ne = get_elem?-set_ne xs i j x (λ e. ne (ap suc e))

  length-set : (xs : List A) (i : ℕ) (x : A) → length (set xs i x) ≡ length xs
  length-set [] i x = refl
  length-set (y ∷ xs) zero x = refl
  length-set (y ∷ xs) (suc i) x = ap suc (length-set xs i x)

  -- The slot behind the queue is free, and takes the next element.
  Held-push :
      (n : ℕ) (slots : List A) (h t : ℕ) (q : List A) (x : A)
      → length slots ≡ n
      → h < n
      → length q < n
      → t ≡ wrap n (h + length q)
      → Held n slots h q
      → Held n (set slots t x) h (q ++ (x ∷ []))
  Held-push n slots h t [] x e i f w v =
      let same : t ≡ h = ground arith in (rw same (get_elem?-set slots h x (omega (arith, e))), tt)
  Held-push n slots h t (y ∷ q) x e i f w v =
      let ne : t ≢ h = ground arith in
      (
        get_elem?-set_ne slots t h x ne ∙ v.0,
        Held-push n slots (wrap n (h + 1)) t q x e (ground arith) (omega arith) (ground arith) v.1,
      )

  pub pushed-IsRing :
      (k : ℕ) (x : A) (q : List A) (r : SpscRing A)
      → IsRing k q r
      → length q + 1 < 2 ^ k
      → IsRing k
          (q ++ (x ∷ []))
          (record r { tail = next_slot k r.tail; slots = set r.slots r.tail x })
  pushed-IsRing k x q r v room =
      let n = 2 ^ k in
      let t_in : r.tail < n = ground (arith, v.tail, v.inside, v.few) in
      let next = next_slot-wrap k r.tail t_in in
      record {
        size = length-set r.slots r.tail x ∙ v.size;
        inside = v.inside;
        few = omega (arith, length-append q (x ∷ []), room);
        tail = next ∙ ground (arith, v.tail, v.inside, length-append q (x ∷ []), room);
        held = Held-push n r.slots r.head r.tail q x v.size v.inside v.few v.tail v.held;
      }

  -- A push takes effect just when there is room.
  pub try_push-room :
      (k : ℕ) (x : A) (q : List A) (r : SpscRing A)
      → IsRing k q r
      → length q + 1 < 2 ^ k
      → try_push k x r
        ≡ (record r { tail = next_slot k r.tail; slots = set r.slots r.tail x }, true)
  unfolding try_push
  try_push-room k x q r v room =
      let next = next_slot-wrap k r.tail (ground (arith, v.tail, v.inside, v.few)) in
      let other : (next_slot k r.tail == r.head) ≡ false =
        ground (arith, next, v.tail, v.inside, room) in
      rw other refl

  pub try_push-full :
      (k : ℕ) (x : A) (q : List A) (r : SpscRing A)
      → IsRing k q r
      → ltb (length q + 1) (2 ^ k) ≡ false
      → try_push k x r ≡ (r, false)
  unfolding try_push
  try_push-full k x q r v full =
      let next = next_slot-wrap k r.tail (ground (arith, v.tail, v.inside, v.few)) in
      let same : (next_slot k r.tail == r.head) ≡ true =
        ground (arith, next, v.tail, v.inside, v.few, full) in
      rw same refl

  queue_pop : List A → List A × Option A
  queue_pop [] = ([], none)
  queue_pop (x ∷ q) = (q, some x)

  pub popped-IsRing :
      (k : ℕ) (x : A) (q : List A) (r : SpscRing A)
      → IsRing k (x ∷ q) r
      → IsRing k q (record r { head = next_slot k r.head })
  popped-IsRing k x q r v =
      let next = next_slot-wrap k r.head v.inside in
      record {
        size = v.size;
        inside = rw next (ground (arith, v.inside));
        few = omega (arith, v.few);
        tail = rw next (ground (arith, v.tail, v.inside, v.few));
        held = rw next v.held.1;
      }

  pub try_pop-empty : (k : ℕ) (r : SpscRing A) → IsRing k [] r → try_pop k r ≡ (r, none)
  unfolding try_pop
  try_pop-empty k r v =
      let empty : (r.head == r.tail) ≡ true = ground (arith, v.tail, v.inside) in rw empty refl

  pub try_pop-next :
      (k : ℕ) (x : A) (q : List A) (r : SpscRing A)
      → IsRing k (x ∷ q) r
      → try_pop k r ≡ (record r { head = next_slot k r.head }, some x)
  unfolding try_pop
  try_pop-next k x q r v =
      let some' : (r.head == r.tail) ≡ false = ground (arith, v.tail, v.inside, v.few) in
      rw (some', v.held.0) refl

  -- The loop of popBatch takes what was there when `tail_` was loaded; `new` has come since.
  pub pop_loop_lem :
      (k n t : ℕ) (todo new : List A) (r : SpscRing A) (out : List A)
      → IsRing k (todo ++ new) r
      → t ≡ wrap (2 ^ k) (r.head + length todo)
      → (h : ℕ) × (pop_loop k n r.slots t r.head out ≡ (h, out ++ take n todo))
        × IsRing k (drop n todo ++ new) (record r { head = h })
  unfolding pop_loop
  pop_loop_lem k zero t todo new r out v e =
      (r.head, ap (λ l. (r.head, l)) (sym (append-nil out)), v)
  pop_loop_lem k (suc n) t [] new r out v e =
      let empty : (r.head == t) ≡ true = ground (arith, e, v.inside) in
      (r.head, rw empty (ap (λ l. (r.head, l)) (sym (append-nil out))), v)
  pop_loop_lem k (suc n) t (x ∷ q) new r out v e =
      let few : length q + 1 < 2 ^ k = omega (arith, v.few, length-append q new) in
      let some' : (r.head == t) ≡ false = ground (arith, e, v.inside, few) in
      let r' : SpscRing A = record r { head = next_slot k r.head } in
      let next : t ≡ wrap (2 ^ k) (r'.head + length q) =
        rw (next_slot-wrap k r.head v.inside) (ground (arith, e, v.inside, few)) in
      let (h, e', v') =
        pop_loop_lem k n t q new r' (out ++ (x ∷ [])) (popped-IsRing k x (q ++ new) r v) next in
      (h, rw (some', v.held.0) (e' ∙ ap (λ l. (h, l)) (append_assoc out (x ∷ []) (take n q))), v')

  -- The number of elements, computed with the wrap-around of `size_t`.
  pub approx_size-length :
      (k : ℕ) (q : List A) (r : SpscRing A) → k ≤ 64 → IsRing k q r → approx_size k r ≡ length q
  unfolding approx_size
  approx_size-length k q r small v =
      let n = 2 ^ k in
      let z = 2 ^ (64 - k) in
      let sum : 64 ≡ k + (64 - k) = omega arith in
      let whole : 2 ^ 64 ≡ n * z = ap (λ j. 2 ^ j) sum ∙ power_split k (64 - k) in
      let z_pos = power_pos (64 - k) in
      bit_and-mask k (sub64 r.tail r.head) ∙ elim (Bool-cases (ltb r.tail r.head)) [
        | inl below ↦
            let len : n + r.tail ≡ length q + r.head =
              ground (arith, v.tail, v.inside, v.few, below) in
            let e : sub64 r.tail r.head ≡ length q + n * (z - 1) =
              omega (arith, len, whole, one_less n z z_pos, v.inside, ltb→lt r.tail r.head below) in
            ap (λ x. x % n) e ∙ add-mul-mod_self_left (length q) n (z - 1) ∙ mod-eq_of_lt v.few
        | inr above ↦
            let big : n ≤ 2 ^ 64 = omega (arith, whole, one_less n z z_pos) in
            let e : sub64 r.tail r.head ≡ length q = ground (arith, v.tail, v.inside, v.few, big) in
            ap (λ x. x % n) e ∙ mod-eq_of_lt v.few
      ]
