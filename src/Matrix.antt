-- ===== src/Matrix.antt =====
-- src/matrix: the sparse matrix over GF(2) and its reduction before the linear algebra.
pub mod Csr
pub mod Singletons
pub mod XorRows
pub mod MergeTree
pub mod Weight2
pub mod Higher
pub mod Preprocess
