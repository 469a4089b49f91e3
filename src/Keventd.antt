-- ===== src/Keventd.antt =====
-- keventd/rules.c: udev rules, from their keys to what they apply to.
pub mod Keys
pub mod Match
pub mod Tags
pub mod Apply
mod Examples
