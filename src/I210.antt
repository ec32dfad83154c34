-- ===== src/I210.antt =====
-- The polled I210 driver of src/backends/IGBCustomPMD/Intel_I210.hpp: the two descriptor rings, and the
-- register accesses of its configuration.
pub mod Tx
pub mod Rx
pub mod Regs
mod Tests
