-- ===== src/Cluster/Wire.antt =====
-- src/cluster/serialization.cpp: the helpers `writeBytes` and `SafeReader`. A byte is a number below
-- 256, and a value is stored with its low byte first, as the static assert on the byte order says.
pub mod Bytes
pub mod Reading
pub mod Writing
use cuda_mpqs.Prelude.{
  ℕ, zero, suc, ◌+◌, ◌*◌, ◌/◌, ◌%◌, List, [], ◌∷◌, ◌++◌, Bool, true, false, ltb, if◌then◌else◌,
  take, drop, length, replicate,
}

-- The memory of a value of `w` bytes, and of an array of such values.
unfoldable pub le_bytes : ℕ → ℕ → List ℕ
le_bytes zero v = []
le_bytes (suc w) v = (v % 256) ∷ le_bytes w (v / 256)

unfoldable pub array_bytes : ℕ → List ℕ → List ℕ
unfolding le_bytes
array_bytes w [] = []
array_bytes w (v ∷ vs) = le_bytes w v ++ array_bytes w vs

unfoldable pub le_value : List ℕ → ℕ
le_value [] = 0
le_value (b ∷ bs) = b + 256 * le_value bs

unfoldable pub array_values : ℕ → ℕ → List ℕ → List ℕ
unfolding le_value
array_values w zero bs = []
array_values w (suc n) bs = le_value (take w bs) ∷ array_values w n (drop w bs)

pub record Writer : Type 0 where
  pub buf : List ℕ
  pub offset : ℕ

unfoldable pub new_writer : ℕ → Writer
new_writer total = record { buf = replicate total 0; offset = 0 }

unfoldable pub write_bytes : Writer → List ℕ → Writer
write_bytes w src = record {
  buf = take w.offset w.buf ++ (src ++ drop (w.offset + length src) w.buf);
  offset = w.offset + length src;
}

unfoldable pub write_value : ℕ → ℕ → Writer → Writer
unfolding write_bytes
write_value width v w = write_bytes w (le_bytes width v)

-- The first `n` values of an array.
unfoldable pub write_array : ℕ → ℕ → List ℕ → Writer → Writer
unfolding write_bytes
write_array width n vs w = write_bytes w (array_bytes width (take n vs))

pub record SafeReader : Type 0 where
  pub data' : List ℕ
  pub total : ℕ
  pub pos : ℕ
  pub ok : Bool

unfoldable pub new_reader : List ℕ → SafeReader
new_reader bytes = record { data' = bytes; total = length bytes; pos = 0; ok = true }

-- `readBytes` into a value, and into the first `n` values of an array. What is too long leaves the
-- destination as it was.
unfoldable pub read_value : ℕ → SafeReader → ℕ → SafeReader × ℕ
read_value width r dst =
    if ltb r.total (r.pos + width)
    then (record r { ok = false }, dst)
    else (record r { pos = r.pos + width }, le_value (take width (drop r.pos r.data')))

unfoldable pub read_array : ℕ → ℕ → SafeReader → List ℕ → SafeReader × List ℕ
read_array width n r dst =
    if ltb r.total (r.pos + n * width) then (record r { ok = false }, dst) else (
      record r { pos = r.pos + n * width },
      array_values width n (drop r.pos r.data') ++ drop n dst,
    )
