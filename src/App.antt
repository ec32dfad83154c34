-- ===== src/App.antt =====
-- The programs of src/app that stand beside the recorder: the round-trip client and server, the traffic
-- generator and the sink.
pub mod Client
pub mod Server
pub mod Traffic
pub mod Echo
pub mod Rounds
pub mod Accounting
pub mod Replies
pub mod Delivery
mod Tests
