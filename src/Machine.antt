-- ===== src/Machine.antt =====
-- sm.c: the state machine of the whole system.
pub mod Step
pub mod Requests
pub mod Diagram
pub mod Ends
pub mod Change
mod Examples
