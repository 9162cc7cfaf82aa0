-- ===== src/User.antt =====
-- The user-space library of user/ulib.c.
pub mod Ulib
pub mod Flags
pub mod Grep
pub mod Printf
