-- ===== src/Lib.antt =====
-- Verification library of the operating-systems repository: the FUSE file system of fisopfs/, the
-- environments, schedulers, memory, system calls and traps of the JOS kernel of sched/kern with
-- part of its user library sched/lib, the parser of shell/ and the process exercises of fork/.
--
-- The parts.
-- Common: Boolean tests on the native numbers, lists, and C strings as lists of bytes without the
-- NUL (str_eq is strcmp() == 0).
-- Fisopfs.Paths is fisopfs/utilidades.c; a path is a text, and the result of each function is the
-- text it leaves in its buffer.
-- Fisopfs.Tree and Fisopfs.Directory are fisopfs/entrada.c, fisopfs/entrada_archivo.c,
-- fisopfs/entrada_directorio.c and their headers. The global `fs` is the record Fs: the root and
-- the space counter. A slot of a directory is a value of Entrada, by its `tipo`; `invalida` stands
-- for a pointer that must not be followed (NULL, never set or freed).
-- Fisopfs.Lookup is encontrar_entrada and encontrar_entrada_rec of fisopfs/fisopfs.c. The pointer
-- they return is `hallada e volver`: the entry, and what the file system becomes when another
-- entry stands in its place; the access times that the search sets are in it. A path starts with
-- '/', as those of FUSE do.
-- Fisopfs.Handlers holds one function for each FUSE handler of fisopfs/fisopfs.c: Create (mkdir,
-- create, the root), Remove (unlink, rmdir), Content (read, write, truncate) and Attributes
-- (getattr, readdir, utimens). A handler returns a code and the new state, or `colapsa` for
-- undefined behaviour.
-- Fisopfs.Disk holds init, flush and destroy, with the recursive writer and reader: the
-- persistence file is the list of the blocks that fwrite wrote.
-- Fisopfs.Validity says when a state is well formed and holds the theorems about handlers; it also
-- says what a state uses, against the space counter.
-- Sched.Kernel is struct Env, struct Trapframe and the globals; Sched.History is
-- sched/kern/history.c; Sched.Scheduler is sched/kern/sched.c and env_run; Sched.Env is the table
-- of environments of sched/kern/env.c; Sched.Syscall is part of sched/kern/syscall.c. A pointer to
-- an environment is its index in `envs`. Selection, Turns, Progress, Priorities, Ids, Calls, Fork
-- and Overflow hold proofs. EnvTable says when the table and its free list are well formed, with
-- the proofs in its children: FreeList and Generations for env_init, env_alloc and env_free,
-- Invariant, Scheduling, Lifetimes and Calls for the scheduler and the system calls.
-- Sched.Memory is the page allocator, the page tables and user_mem_check of sched/kern/pmap.c:
-- Pages and Tables hold the operations, UserCheck the check with its proofs, Boot the allocator
-- and the mappings of the boot, and FreeList, Mapping, NewTable, Insert and Reinsert proofs. A
-- pointer into `pages` is its index, a page table or directory the number of its page, an entry a
-- page and an index there, and a panic is `none`. Sched.PageCalls is the rest of
-- sched/kern/syscall.c that is modelled, the calls that map pages and sys_ipc_try_send; its
-- children hold proofs. The page directory of each environment is a parameter there, `env_pgdir`.
-- Sched.EnvMemory is the rest of sched/kern/env.c: env_setup_vm, region_alloc, load_icode and the
-- pages that env_free gives back; Directory holds proofs. Sched.System is the kernel, its memory
-- and the directories together, with env_destroy and user_mem_assert over them; Sched.Dispatch is
-- the dispatcher of sched/kern/syscall.c and sys_cputs, sys_getenvid, sys_env_destroy
-- (destroy_by_id), sys_env_set_pgfault_upcall and sys_exofork over them; Sched.Trap is
-- sched/kern/trap.c, with the proofs in its children. A call there comes back with a value, leaves
-- the kernel or stops it, an Outcome. What the processor does for a trap is the record Hardware.
-- Sched.UserFork is duppage, pgfault and the parent's side of fork of sched/lib/fork.c, over those
-- system calls; the entries that the program reads at UVPT are read in the tables, and such a read
-- faults without a table. Sched.UserString and Sched.UserNumber are memmove, memcpy, memset (those
-- with string instructions, as ASM is 1), memcmp, strnlen, strncpy, strlcpy, strncmp and strtol of
-- sched/lib/string.c and printnum of sched/lib/printfmt.c.
-- Shell is the parser of shell/: Buffer is shell/utils.c and get_token, a pointer being the list
-- of the bytes from it to the end of the array; Parser is shell/parsing.c and createcmd.c; Exec is
-- shell/exec.c and the part of run_cmd of shell/runcmd.c that its child executes, a process being
-- the event of its execvp with the arguments, the variables it set and its descriptors; Builtin is
-- shell/builtin.c with the order in which run_cmd tries it; Ends, Pipeline, Words and Run hold
-- proofs. getenv and the text of `status` are the record Environ.
-- Fork is fork/primes.c (Primes, and its proofs in Sieve) and fork/xargs.c (Xargs, and Groups): a
-- pipe is the list of the numbers written to it, and whether each pipe and fork succeeds is a
-- parameter, and on INT_MAX, where its loop overflows, main has no result.
--
-- How the parts interact: the handlers of fisopfs search with Lookup, change a directory with
-- Directory and store it back; Disk writes and reads the same tree. trap sends the timer to
-- update_priority and sched_yield, a page fault to page_fault_handler and T_SYSCALL to syscall,
-- and ends by running curenv again or by sched_yield; the system calls find their target with
-- envid2env, and env_destroy and sys_ipc_recv call sched_yield. The page calls find an environment
-- with envid2env, take pages from the allocator and map them with page_insert. parse_line splits
-- the line at each '|' and gives the parts to parse_cmd, which gives parse_exec the tokens, and
-- exec_cmd executes what comes out.
--
-- Bounds and assumptions.
-- size_t and the space counter are patterns of 64 bits (add64, sub64), int results and the fields
-- of struct Env patterns of 32 bits (add32, sub32, slt reads the sign).
-- One call of a handler sees one second of the clock (`ahora`). The k-th allocation of a call
-- succeeds as `asigna k` says, and the k-th fwrite of a flush as `escribe k` says. Fresh memory
-- holds `basura`. The sizes of the structs and MAX_ESPACIO_FS are a record of parameters;
-- EsPlataforma says that the sizes are not 0 and that they and the maximum are below 2^63. The
-- buffer that FUSE passes to write has exactly `size` bytes, and the one it passes to read has
-- room for them.
-- The loops over the table of environments count down from NENV. The reader of the persistence
-- file has the number of the blocks plus one as fuel, as each entry takes a block or more.
-- parse_line and parse_exec take a number of steps, one more than the bytes that are left, and
-- proceso_filtro the number of processes; each step takes a byte or more off the array and each
-- process a number off the pipe, so that they are enough. check_pages takes one round more than
-- there are pages below the end of the range, and boot_map_region two more than there are whole
-- pages in the region, as each round goes on by one page.
-- region_alloc and the loops of env_free count their rounds, and printnum divides by the base,
-- which is 2 or more, at each call, so that as many calls as the number and one are enough.
-- A line of the shell stays below BUFLEN bytes, and calloc and strdup succeed; reading outside the
-- array of the line, a twentieth argument and bytes that were never set are `breaks`. The terminal
-- of primes.c is line-buffered, so that no text waits in a buffer at a fork.
-- The kernel is seen from one CPU, which holds the big kernel lock: curenv and the CPU's id are
-- its own, and an environment of another CPU is seen by its status.
--
-- Not modelled: the command line of fisopfs and its debug output; mem_init and the checks at boot
-- of sched/kern/pmap.c; what the kernel prints and reads at the console, and the monitor, which no
-- command ends, so that a breakpoint leaves the kernel for it; lcr3, the lock, the set-up of the
-- processor and of its devices, and boot code; the rest of the user library (dup_or_share and
-- fork_v0, ipc.c, pgfault.c, vprintfmt and the string functions without a size) and the programs
-- of sched; the prompt, the terminal, the status messages, the memory and the signals of shell/.
pub mod Common
pub mod Fisopfs
pub mod Sched
pub mod Shell
pub mod Fork
