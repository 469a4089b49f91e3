-- ===== src/Service.antt =====
-- The service state machine.
pub mod Types
pub mod Graph
pub mod Action
pub mod Stop
pub mod Monitor
pub mod Step
pub mod Control
pub mod Samples
mod Examples
