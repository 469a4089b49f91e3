-- ===== src/Conf.antt =====
-- conf.c: what .conf files say.
pub mod Runlevels
pub mod Template
pub mod Env
pub mod Escape
pub mod Changes
pub mod Cmdline
mod Examples
