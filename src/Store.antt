-- ===== src/Store.antt =====
-- store: the storage backends. The one in memory is modelled.
pub mod Memory
