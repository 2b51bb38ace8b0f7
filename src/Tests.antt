-- ===== src/Tests.antt =====
-- Runs of the model at concrete inputs, and its theorems at concrete inputs.
pub mod Numbers
pub mod Packets
pub mod Receiving
pub mod Sending
pub mod Streams
pub mod Feedback
pub mod Routing
pub mod Reports
pub mod Protecting
pub mod Decoding
pub mod Control
