-- ===== src/Cluster/Wire/Reading.antt =====
-- serialization: reading what stands at the position of a reader.
use cuda_mpqs.Prelude.{
  ℕ, ◌+◌, ◌*◌, ◌^◌, ◌<◌, ◌≡◌, refl, sym, ap, ◌∙◌, subst, List, ◌++◌, true, false, ltb, drop, length,
  length-append, drop-append, drop-drop, arith,
}
use cuda_mpqs.Cluster.Wire.{
  le_bytes, array_bytes, array_values, SafeReader, new_reader, read_value, read_array,
}
use cuda_mpqs.Cluster.Wire.Bytes.{
  length-le_bytes, le_value-le_bytes, length-array_bytes, Fits, take-le_bytes,
  array_values-array_bytes,
}

-- The reader has met no error, and `rest` is what it has not read yet.
pub record IsAt (rest : List ℕ) (r : SafeReader) : Type 0 where
  pub fine : r.ok ≡ true
  pub ahead : drop r.pos r.data' ≡ rest
  pub room : r.total ≡ r.pos + length rest

pub new_reader-IsAt : (bytes : List ℕ) → IsAt bytes (new_reader bytes)
unfolding new_reader
new_reader-IsAt bytes = record { fine = refl; ahead = refl; room = omega arith }

-- Past `n` bytes.
unfoldable pub skip : ℕ → SafeReader → SafeReader
skip n r = record r { pos = r.pos + n }

pub skip-IsAt :
    (n : ℕ) (bytes rest : List ℕ) (r : SafeReader)
    → length bytes ≡ n
    → IsAt (bytes ++ rest) r
    → IsAt rest (skip n r)
unfolding skip
skip-IsAt n bytes rest r e v = record {
  fine = v.fine;
  ahead =
      drop-drop r.pos n r.data'
      ∙ rw v.ahead (ap (λ k. drop k (bytes ++ rest)) (sym e) ∙ drop-append bytes rest);
  room = omega (arith, v.room, length-append bytes rest, e);
}

-- A value that stands next is read.
pub read_value-IsAt :
    (w v : ℕ) (rest : List ℕ) (r : SafeReader) (dst : ℕ)
    → v < 256 ^ w
    → IsAt (le_bytes w v ++ rest) r
    → read_value w r dst ≡ (skip w r, v)
unfolding read_value skip
read_value-IsAt w v rest r dst f at =
    let enough : ltb r.total (r.pos + w) ≡ false =
      ground (arith, at.room, length-append (le_bytes w v) rest, length-le_bytes w v) in
    rw (enough, at.ahead, take-le_bytes w v rest, le_value-le_bytes w v f)

-- An array that stands next is read over the start of the destination.
pub read_array-IsAt :
    (w n : ℕ) (vs rest : List ℕ) (r : SafeReader) (dst : List ℕ)
    → length vs ≡ n
    → Fits w vs
    → IsAt (array_bytes w vs ++ rest) r
    → read_array w n r dst ≡ (skip (n * w) r, vs ++ drop n dst)
unfolding read_array skip
read_array-IsAt w n vs rest r dst e f at =
    let size : length (array_bytes w vs) ≡ n * w = length-array_bytes w vs ∙ ap (λ k. k * w) e in
    let enough : ltb r.total (r.pos + n * w) ≡ false =
      ground (arith, at.room, length-append (array_bytes w vs) rest, size) in
    let values =
      subst (λ k. array_values w k (array_bytes w vs ++ rest) ≡ vs) e
        (array_values-array_bytes w vs rest f) in
    rw (enough, at.ahead, values)

-- What follows an array.
pub array-IsAt :
    (w n : ℕ) (vs rest : List ℕ) (r : SafeReader)
    → length vs ≡ n
    → IsAt (array_bytes w vs ++ rest) r
    → IsAt rest (skip (n * w) r)
array-IsAt w n vs rest r e at =
    skip-IsAt (n * w) (array_bytes w vs) rest r (length-array_bytes w vs ∙ ap (λ k. k * w) e) at
