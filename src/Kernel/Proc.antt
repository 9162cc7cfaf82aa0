-- ===== src/Kernel/Proc.antt =====
-- kernel/proc.h and kernel/proc.c: the process table. The functions of `Table`, `Life`, `Wake` and
-- `Sched` act on the whole table at once; how these interleave on several CPUs is not modelled.
pub mod Examples
pub mod Table
pub mod Life
pub mod Wake
pub mod Sched
pub mod Syscalls
