-- ===== src/Recorder.antt =====
-- The single-host recorder of src/app/SingleRecorder.hpp and src/app/HistThread.hpp: the receiver
-- thread, the queue to the histogram thread, the sender's pacing and the histogram thread.
pub mod Queue
pub mod Bounded
pub mod Pacing
pub mod Tx
pub mod Rx
pub mod Hist
mod Tests
