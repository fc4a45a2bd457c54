-- ===== src/Cluster/Wire/Writing.antt =====
-- serialization: what a writer has written.
use mathlib.Core.List.{append_assoc}
use cuda_mpqs.Prelude.{
  ℕ, ◌+◌, ◌*◌, ◌≤◌, ◌≡◌, refl, sym, ap, ◌∙◌, subst, List, [], ◌++◌, take, drop, length,
  length-append, take-append, length-take, length-drop, length-replicate, arith,
}
use cuda_mpqs.Cluster.Wire.Bytes.{length-le_bytes, length-array_bytes}
use cuda_mpqs.Cluster.Wire.{
  le_bytes, array_bytes, Writer, new_writer, write_bytes, write_value, write_array,
}

-- `out` is written, in a buffer of `total` bytes.
pub record IsWritten (total : ℕ) (out : List ℕ) (w : Writer) : Type 0 where
  pub done : take w.offset w.buf ≡ out
  pub at_end : w.offset ≡ length out
  pub size : length w.buf ≡ total

pub new_writer-IsWritten : (total : ℕ) → IsWritten total [] (new_writer total)
unfolding new_writer
new_writer-IsWritten total = record { done = refl; at_end = refl; size = length-replicate total 0 }

-- What fits into the buffer is appended.
pub write_bytes-IsWritten :
    (total : ℕ) (out src : List ℕ) (w : Writer)
    → length out + length src ≤ total
    → IsWritten total out w
    → IsWritten total (out ++ src) (write_bytes w src)
unfolding write_bytes
write_bytes-IsWritten total out src w h v =
    let behind = drop (w.offset + length src) w.buf in
    let joined = length-append out src in
    record {
      done =
          rw (v.done, sym (append_assoc out src behind))
            (ap (λ k. take k ((out ++ src) ++ behind)) (omega (arith, v.at_end, joined))
              ∙ take-append (out ++ src) behind);
      at_end = omega (arith, v.at_end, joined);
      size = rw v.done (
          omega (
            arith,
            length-append out (src ++ behind),
            length-append src behind,
            length-drop (w.offset + length src) w.buf,
            v.size,
            v.at_end,
            h,
          ));
    }

-- The same with the number of bytes written.
pub record IsSent (total n : ℕ) (out : List ℕ) (w : Writer) : Type 0 where
  pub written : IsWritten total out w
  pub count : length out ≡ n

pub new_writer-IsSent : (total : ℕ) → IsSent total 0 [] (new_writer total)
new_writer-IsSent total = record { written = new_writer-IsWritten total; count = refl }

pub write_bytes-IsSent :
    (total n k : ℕ) (out src : List ℕ) (w : Writer)
    → length src ≡ k
    → n + k ≤ total
    → IsSent total n out w
    → IsSent total (n + k) (out ++ src) (write_bytes w src)
write_bytes-IsSent total n k out src w e h v = record {
  written = write_bytes-IsWritten total out src w (omega (arith, v.count, e, h)) v.written;
  count = omega (arith, length-append out src, v.count, e);
}

pub write_value-IsSent :
    (total n width v : ℕ) (out : List ℕ) (w : Writer)
    → n + width ≤ total
    → IsSent total n out w
    → IsSent total (n + width) (out ++ le_bytes width v) (write_value width v w)
unfolding write_value
write_value-IsSent total n width v out w h s =
    write_bytes-IsSent total n width out (le_bytes width v) w (length-le_bytes width v) h s

pub write_array-IsSent :
    (total n width k : ℕ) (vs out : List ℕ) (w : Writer)
    → k ≤ length vs
    → n + k * width ≤ total
    → IsSent total n out w
    → IsSent total (n + k * width) (out ++ array_bytes width (take k vs)) (write_array width k vs w)
unfolding write_array
write_array-IsSent total n width k vs out w l h s =
    write_bytes-IsSent total n (k * width) out (array_bytes width (take k vs)) w
      (length-array_bytes width (take k vs) ∙ ap (λ j. j * width) (length-take k vs l)) h s

pub IsSent-cast :
    (total : ℕ) {n m : ℕ} {out out' : List ℕ} (w : Writer)
    → n ≡ m
    → out ≡ out'
    → IsSent total n out w
    → IsSent total m out' w
IsSent-cast total {m = m} {out = out} w e e' s =
    subst (λ l. IsSent total m l w) e' (subst (λ k. IsSent total k out w) e s)
