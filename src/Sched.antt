-- ===== src/Sched.antt =====
-- sched: the JOS kernel's environments, its two schedulers and the system calls on them
-- (sched/kern).
pub mod Kernel
pub mod History
pub mod Env
pub mod Scheduler
pub mod Syscall
pub mod Selection
pub mod Turns
pub mod Priorities
pub mod Ids
pub mod EnvTable
pub mod EnvMemory
pub mod Calls
pub mod Overflow
pub mod Progress
pub mod Fork
pub mod Memory
pub mod PageCalls
pub mod System
pub mod Dispatch
pub mod Trap
pub mod UserFork
pub mod UserString
pub mod UserNumber
mod Tests
mod PageTests
mod TrapTests
