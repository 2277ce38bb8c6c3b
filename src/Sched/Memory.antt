-- ===== src/Sched/Memory.antt =====
-- sched/kern/pmap.c: the page allocator, the page tables and the checks on user memory.
pub mod Pages
pub mod Tables
pub mod FreeList
pub mod Mapping
pub mod NewTable
pub mod Insert
pub mod Reinsert
pub mod UserCheck
pub mod CheckEnds
pub mod Boot
