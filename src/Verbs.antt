-- ===== src/Verbs.antt =====
-- The data path of src/backends/Verbs/Verbs.hpp.
pub mod Tx
pub mod Rx
mod Tests
