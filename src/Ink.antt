-- ===== src/Ink.antt =====
-- libink: messages, their dispatch, match rules, paths and the handshake.
pub mod Writer
pub mod Reader
pub mod Path
pub mod Proto
pub mod Dispatch
pub mod Match
pub mod Auth
pub mod Ops
pub mod Bounds
pub mod Within
pub mod Fields
pub mod Values
pub mod Written
pub mod RoundTrip
mod Examples
