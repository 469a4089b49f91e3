-- ===== src/Cond.antt =====
-- The condition engine.
pub mod Files
pub mod Engine
pub mod Update
pub mod Refinement
mod Examples
