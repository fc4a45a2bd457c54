-- ===== src/Lib.antt =====
-- A model of the host logic of cuda-mpqs, a quadratic sieve for several GPUs and nodes, with the
-- theorems that make it correct.
--
-- The program. A coordinator hands out ranges of polynomial coefficients (a-values) to workers,
-- which sieve them and send back relations. The relations become a sparse matrix over GF(2), whose
-- rows are relations and whose columns are primes. The matrix is filtered, a solver finds vectors in
-- its left kernel, and each vector is expanded to a set of relations whose product is a square.
--
-- The parts, and where they are modelled. Paths are from the root of the repository.
--   Cluster/WorkPool.antt: src/cluster/work_pool.cpp and .h, the ranges of a-values that are free,
--     in flight, returned or done. The fields of WorkPool are a record, each method is a function on
--     it, and Call, step and run are sequences of calls. The mutex makes each method one step.
--     Below it: Range (bounds of the state), Coverage (where each a-value stands),
--     Cursor (restart from the completed prefix), Totals (counts of units), Ids (chunk numbers).
--   Cluster/Wire.antt: src/cluster/serialization.cpp, writeBytes and SafeReader. Memory is a list of
--     bytes and a value is stored with its low byte first. Below it: Bytes (values and their bytes),
--     Writing, Reading.
--   Cluster/Batch.antt: serializeRelationBatch and deserializeRelationBatch of the same file, with
--     HostRelationBatch, resize and clear of src/common/mpqs_soa. Below it: Send (the bytes written),
--     Receive (what is made of them), RoundTrip.
--   Cluster/Incremental.antt: serializeIncrementalBatch and deserializeIncrementalBatch, which frame
--     two batches.
--   Cluster/WorkAssign.antt: computeFactorBaseHash, serializeWorkAssign and deserializeWorkAssign.
--   Cluster/Ring.antt: src/cluster/spsc_ring.h, the ring between the sieve thread and the network
--     thread. popBatch is several steps, between which the producer runs. Below it: Queue (what each
--     operation does), Interleaved (the steps of both threads, and the queue they act on).
--   Matrix/Csr.antt: HostMatrixCSR (src/matrix/matrix_constructor.h), read as rows and rebuilt.
--   Matrix/Singletons.antt: removeSingletons of src/matrix/merge_filter.cpp. Below it: Weights,
--     Lossless, Fixpoint, Removed, Renumber, Monotone (the columns that are left keep their order).
--   Matrix/XorRows.antt: xor_rows of the same file.
--   Matrix/Weight2.antt: mergeWeight2 of the same file. Below it: Rows (operations on the rows and on
--     the inverted index), Sound (rows and leaves), Index, Pair (the two rows of a column),
--     Columns (weights), Queue (the set of weight-2 columns), First and Start (the state before the
--     loop), Loop (its rounds), Reduced (the reduced matrix), Kernel (kernel vectors).
--   Matrix/Higher.antt: mergeHigherWeight of the same file. Below it: Index (the rows of a column),
--     Plan (the sums of a column, or none), Commit (they take effect), Loop (the passes), Rebuild (the
--     CSR matrix with offsets of 32 bits), Kernel (kernel vectors), Chain (after mergeWeight2), Fill
--     (the limit on the entries of a row), Eliminated (one column).
--   Matrix/Preprocess.antt: src/matrix/preprocess.cpp, resolveBackend, preprocessMatrix and
--     selectKernelVectorRows. Below it: Input (between the stages), Kernel (from the matrix to original
--     relations).
--   Matrix/MergeTree.antt: src/matrix/merge_tree.cpp, expand and expandKernelVector. Below it:
--     Leaves, Push (a node is added), Frequency, Kernel.
--   Common/Uint512.antt: src/common/uint512.cuh, the arithmetic on sixteen 32-bit limbs, as recursions
--     over the limbs, the lowest first. Below it: Value (the number that limbs stand for), Sums, Order
--     (comparisons), Modular (sums and differences modulo N), Products and its Rows and Words, Shifts
--     and its Left, Words and Right, Division (the bitwise division) and its Bit and Remainder,
--     WordDivision (divisors of one or two words).
--   Common/Montgomery.antt: src/common/montgomery.cuh, multiplication and powers in Montgomery form.
--     Below it: Row and Rounds (one round and all rounds of the reduction), Multiply, Setup (the
--     constants of a modulus), Power.
--   Cluster/Relations.antt: the relations of a HostRelationBatch, one by one. Below it: Slices, View
--     (the batch that stands for a list of relations).
--   Cluster/Accumulator.antt: src/cluster/accumulator.h and src/common/relation_hash.h, the relations
--     that the coordinator keeps, each once. Below it: Refine (batches as lists), Distinct (hashes).
--   Cluster/Merge.antt: mergeRelationBatches of src/cluster/serialization.cpp. Below it: Copies (copies
--     into a vector of zeros), Filling (the merged batch half done), Concat (batches as lists).
--   Cluster/LargePrime.antt: src/cluster/cpu_lp.cu and .h, the table that pairs partial relations by
--     their large prime and combines them. Below it: Factors (exponents of the factor base), Refine
--     (batches as lists), Table (find and erase), Process (what the table keeps), Valid (the
--     combined relation is one modulo N).
--   Cluster/Tcp.antt: src/cluster/tcp_transport.cpp with the frame of src/cluster/cluster_common.h: the
--     checksum, sendMsg, sendExact and recvMsg. Below it: Header (the header in a buffer), Receive
--     (a look at the buffer), Stream (bytes that arrive in pieces), Send.
--   Prelude.antt: shared names, tests on numbers, lists over native numbers, machine words.
--   Files called Examples.antt hold tests on small inputs and the theorems at such inputs.
--
-- How the parts meet. The work pool's ranges are the start and count of a work assignment. The
-- batches come back in incremental messages. preprocessMatrix runs removeSingletons, mergeWeight2 and
-- mergeHigherWeight in turn: mergeWeight2 takes the row map of removeSingletons and starts the merge
-- tree, mergeHigherWeight adds to it, and expandKernelVector reads it; the solver before that is a
-- parameter, the packed bits of a vector. The number of devices, the singleton removal on a
-- device and the product of doubles 2.0 * avg_initial are parameters too. The large-prime table
-- multiplies the roots of two partials in Montgomery form and hands the combined relations to the
-- accumulator as one batch. The payload of a frame is a message of the other parts.
--
-- Numbers. A uint32_t or uint64_t is a natural number, with its wrap-around written out where the
-- code adds or subtracts; a signed or wide value on the wire is the number its bytes stand for.
-- size_t sums are taken not to wrap: they count bytes or entries in memory. A uint512 in a batch is the
-- number that its limbs stand for, and is split into limbs where the code calculates with it. The
-- bitwise or of numbers without a common bit is written as their sum. The row offsets that
-- mergeHigherWeight rebuilds are cast to 32 bits as in the code; removeSingletons and mergeWeight2 add
-- no entries, so that offsets of 32 bits stay such and their casts are left out.
--
-- Fuel. merge_loop and expand_loop recurse on fuel and return none if it runs out. For the merge
-- (rows + 1) * (columns + 1) rounds are enough, since each merge uses up a row and the set of columns
-- never has more than all columns. For the expansion one round more than the nodes visited is
-- enough. preprocess_matrix gives mergeWeight2 that number, merge_rounds. The passes of
-- mergeHigherWeight are the k_max - 2 weights from 3 on. singleton_loop has the code's own limit of 100
-- passes. The loop of pow runs over 513 bits, more than an exponent has. recv_msg and send_exact recurse on the results of the system
-- calls, and the loops of the multiprecision code on the limbs or on a number of bits.
--
-- What is not modelled: device code (CUDA kernels, device memory), the solver (src/linalg), sockets
-- and their options, threads and their queues, files, floating-point cost models, logging; and of the
-- host code the chunk scheduler, checkpoints and relation files, the packed pipeline on the device, and
-- of uint512 the conversions from and to strings, the square root and
-- mul_add_mod_signed. The effective target of the accumulator, a product of doubles, is an argument.
-- A memcpy beyond the end of a vector has no meaning in C++; the theorems on the messages assume that
-- the vectors are long enough. An assert that fails in the tree's expansion gives none.
pub mod Prelude
pub mod Common
pub mod Cluster
pub mod Matrix
