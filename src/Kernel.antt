-- ===== src/Kernel.antt =====
-- The kernel: one module for each of the files under kernel/ that are modelled.
pub mod Log
pub mod Cstring
pub mod Proc
pub mod Pipe
pub mod Datetime
pub mod Kalloc
pub mod Spinlock
pub mod Console
pub mod Bio
pub mod Fs
pub mod File
