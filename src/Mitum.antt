-- ===== src/Mitum.antt =====
-- The parts of mitum, mitum-currency and Go's hashing that the document package calls. None of that
-- code is in the repository: its types are parameters and its functions are the fields of records,
-- which the definitions take as instance arguments. The laws that a theorem needs of them are
-- records of their own, named hypotheses of that theorem.
mod Values
pub use Values.*
