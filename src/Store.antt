-- ===== src/Store.antt =====
-- internal/store: the Store interface and its in-memory implementation. `Types` has the errors and
-- the query, `Rows` what an operation does to the one document that it addresses, `Memory` the
-- operations over the map.
pub mod Types
pub mod Rows
pub mod Memory
pub mod Listing
pub mod Laws
pub mod Ops
pub mod Invariant
pub mod Stable
pub mod Claims
