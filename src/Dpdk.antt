-- ===== src/Dpdk.antt =====
-- The data path of src/backends/DPDK/DPDK.hpp.
pub mod Eal
pub mod Setup
pub mod Rx
pub mod Tx
mod Tests
