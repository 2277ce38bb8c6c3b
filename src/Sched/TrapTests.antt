-- ===== src/Sched/TrapTests.antt =====
-- The theorems on the table of environments and on traps at concrete data.
use sistemas_operativos_fiub.Common.{
  ℕ, ◌+◌, ◌*◌, ◌%◌, ◌++◌, ◌≡◌, refl, true, false, none, some, [], ◌∷◌, ◌==◌, if◌then◌else◌, arith,
  inl, ◌&&◌, ◌≢◌,
}
use sistemas_operativos_fiub.Sched.Kernel.{
  Env, EnvStatus.env_runnable, EnvStatus.env_running, Kernel, Trapframe, con_env, envx, es_free,
  nenv,
}
use sistemas_operativos_fiub.Sched.Scheduler.{corre, env_run, sched_pr_defined, sched_rr_defined}
use sistemas_operativos_fiub.Sched.Env.{
  asignado, bad_env, dado, env_alloc, env_free, env_init, envid2env, iniciar_envs, tf_nuevo,
  verificar_permiso,
}
use sistemas_operativos_fiub.Sched.EnvTable.{FreeEnvs, Linked}
use sistemas_operativos_fiub.Sched.EnvTable.FreeList.{
  Allocates, env_alloc-Allocates, env_free-FreeEnvs, env_init-FreeEnvs, slots_from,
}
use sistemas_operativos_fiub.Sched.EnvTable.Generations.{IsFresh, env_alloc-IsFresh}
use sistemas_operativos_fiub.Sched.EnvTable.Invariant.{IsTable}
use sistemas_operativos_fiub.Sched.Memory.Pages.{Memory}
use sistemas_operativos_fiub.Sched.Memory.Tables.{load, ptx, pgdir_walk, ensure_table, table_entry}
use sistemas_operativos_fiub.Sched.Memory.UserCheck.{
  allowed, user_mem_check, check_pages, check_entry,
}
use sistemas_operativos_fiub.Sched.System.{System, Hardware, leaves}
use sistemas_operativos_fiub.Sched.Trap.{trap, page_fault_handler, push_frame, scratch_word, exstk}
use sistemas_operativos_fiub.Sched.Trap.Safety.{Finishes, trap-Finishes}
use sistemas_operativos_fiub.Sched.Trap.Exception.{FramePlace, page_fault_handler-FramePlace}
use sistemas_operativos_fiub.Sched.UserFork.{copy_private, duppage, goes_on, pgfault}
use sistemas_operativos_fiub.Sched.UserFork.Pgfault.{pgfault_unchecked}
use sistemas_operativos_fiub.Sched.UserFork.Duppage.{CowEntry, Shareable, duppage-CowEntry}
use sistemas_operativos_fiub.Sched.UserString.{
  memmove, move_down, move_up, movsb, movsl, rep_down, rep_up, strlcpy,
}
use sistemas_operativos_fiub.Sched.UserString.Strlcpy.{Terminated, strlcpy-Terminated}
use sistemas_operativos_fiub.Sched.UserString.Memmove.{memmove-Copied}
use sistemas_operativos_fiub.Sched.UserString.Repeat.{Copied}
use sistemas_operativos_fiub.Sched.UserNumber.{digit_of, printnum, strtol}
use sistemas_operativos_fiub.Sched.UserNumber.RoundTrip.{printnum-strtol}
use sistemas_operativos_fiub.Sched.Tests.{kernel0, un_env}

-- After env_init.
abbrev fresh : Kernel
fresh = env_init kernel0

env_init-FreeEnvs_example : FreeEnvs (env_init kernel0) (slots_from 0 nenv)
env_init-FreeEnvs_example = env_init-FreeEnvs kernel0

env_alloc-Allocates_example : Allocates fresh true (slots_from 0 nenv) (env_alloc true 0 fresh)
env_alloc-Allocates_example =
    env_alloc-Allocates fresh true 0 (slots_from 0 nenv) (env_init-FreeEnvs kernel0)

fresh-FreeEnvs : FreeEnvs fresh (0 ∷ slots_from 1 1023)
unfolding slots_from
fresh-FreeEnvs = env_init-FreeEnvs kernel0

env_alloc-IsFresh_example :
    (k' : Kernel) × (env_alloc true 0 fresh ≡ asignado 0 k')
    × IsFresh (fresh.envs 0).env_id 0 (k'.envs 0).env_id
    × ((envid : ℕ)
        → envid ≢ 0
        → envx envid ≡ 0
        → envid2env k' envid false
          ≡ (if (k'.envs 0).env_id == envid then dado (some 0) else bad_env))
unfolding env_init iniciar_envs
env_alloc-IsFresh_example =
    env_alloc-IsFresh fresh 0 0 (slots_from 1 1023) fresh-FreeEnvs (omega arith)

-- Every slot is in use, the first one by the environment that runs.
abbrev crowd : ℕ → Env
crowd i = record (un_env (4096 + i) 0 (if i == 0 then env_running else env_runnable) 1) {
  env_pgfault_upcall = 0x800020;
}

abbrev full : Kernel
full = record kernel0 { envs = crowd; env_free_list = none; curenv = some 0 }

crowd_used : (j : ℕ) → es_free (crowd j).env_status ≡ false
crowd_used j = ground arith

full-FreeEnvs : FreeEnvs full []
unfolding Linked
full-FreeEnvs = record { linked = refl; complete = λ j lt h. cc (crowd_used j, h) }

full-IsTable : IsTable full
full-IsTable = record { slots = []; free_envs = full-FreeEnvs; current = (omega arith, refl) }

env_free-FreeEnvs_example : FreeEnvs (env_free 7 full) (7 ∷ [])
env_free-FreeEnvs_example = env_free-FreeEnvs full 7 [] full-FreeEnvs (omega arith) refl

-- Page 1 is a directory, page 2 the table of the exception stack, which is page 3.
abbrev pages : Memory
pages = record {
  npages = 16;
  pp_ref = λ q. 1;
  pp_link = λ q. none;
  page_free_list = none;
  words = λ n j.
      if n == 1 && j == 954 then 2 * 4096 + 7 else if n == 2 && j == 1023 then 3 * 4096 + 7 else 0;
  cur_pgdir = none;
  flushed = [];
}

abbrev hardware : Hardware
hardware = record {
  store_word = λ va w m. some m;
  store_frame = λ va utf m. some m;
  cr2 = 0x1000;
  typed = 0;
  kern_pgdir = 1;
}

abbrev system : System
system = record { kern = full; mem = pages; env_pgdir = λ e. 1 }

-- sys_yield, and a fault of the environment itself.
abbrev yields : Trapframe
yields = record tf_nuevo { tf_trapno = 48; tf_regs = record tf_nuevo.tf_regs { reg_eax = 10 } }

abbrev faults : Trapframe
faults = record tf_nuevo { tf_trapno = 14 }

trap-Finishes_example : Finishes (trap hardware sched_pr_defined 0 yields system)
trap-Finishes_example =
    trap-Finishes hardware sched_pr_defined 0 0 yields system refl full-IsTable refl

may_write : user_mem_check system.mem (system.env_pgdir 0) exstk 4096 6 ≡ allowed
unfolding user_mem_check check_pages check_entry pgdir_walk ensure_table table_entry
may_write = refl

page_fault_handler-FramePlace_example :
    (at : ℕ) × FramePlace faults.tf_esp at
    × (page_fault_handler hardware sched_rr_defined 0 faults system
        ≡ leaves
            (corre (
              env_run 0 0 (
                con_env full 0 (record (crowd 0) {
                  env_tf = record faults { tf_esp = at; tf_eip = 0x800020 };
                }))))
            pages
            (λ e. 1))
unfolding push_frame scratch_word
page_fault_handler-FramePlace_example =
    page_fault_handler-FramePlace hardware sched_rr_defined 0 0 faults system pages refl
      (omega arith) (omega arith) may_write (inl refl) refl

-- A handler that has used up its stack.
abbrev deep : Trapframe
deep = record faults { tf_esp = 0xeebff00a }

-- Environment 0 forks into 1: page 1 is its directory and page 2 its table, which maps page 3 for
-- writing; page 6 is the child's directory and page 7 its table.
abbrev two_spaces : Memory
two_spaces = record pages {
  words = λ n j.
      if n == 1 && j == 0
      then 2 * 4096 + 7
      else if n == 2 && j == 0
      then 3 * 4096 + 7
      else if n == 6 && j == 0
      then 7 * 4096 + 7
      else 0;
}

abbrev forking : System
forking = record { kern = kernel0; mem = two_spaces; env_pgdir = λ e. if e == 0 then 1 else 6 }

forking-Shareable : Shareable forking 0 1 4097 0 2 7 (3 * 4096 + 7)
unfolding envid2env verificar_permiso
forking-Shareable = record {
  caller = refl;
  child = refl;
  low = omega arith;
  table = record { present = refl; table = refl; in_range = refl; apart = refl };
  table_user = refl;
  child_table = record { present = refl; table = refl; in_range = refl; apart = refl };
  entry = refl;
  counted = record {
    in_range = refl;
    referred = omega arith;
    bounded = omega arith;
    unlinked = refl;
  };
  user = refl;
  shared = refl;
  no_entry = refl;
  apart = refl;
  apart_dir = refl;
  room = omega arith;
}

duppage-CowEntry_example :
    (s' : System) × (duppage 1 4097 0 forking ≡ goes_on s')
    × CowEntry (load s'.mem (2, ptx 0)) 3
    × (load s'.mem (7, ptx 0) ≡ load s'.mem (2, ptx 0))
    × (s'.mem.pp_ref 3 ≡ forking.mem.pp_ref 3 + 1)
duppage-CowEntry_example = duppage-CowEntry forking 0 1 4097 0 2 7 (3 * 4096 + 7) forking-Shareable

pgfault_unchecked_example :
    pgfault (λ a b s. s) 1 0x1000 7 forking ≡ copy_private (λ a b s. s) 0x1000 forking
pgfault_unchecked_example = pgfault_unchecked (λ a b s. s) 1 0x1000 7 forking refl refl

-- In words and downwards, and in bytes and upwards.
memmove_run : memmove (λ a. a) 8 4 8 15 ≡ 11
unfolding memmove move_down movsl rep_down
memmove_run = refl

memmove_bytes_run : memmove (λ a. a) 3 5 4 6 ≡ 8
unfolding memmove move_up movsb rep_up
memmove_bytes_run = refl

memmove-Copied_example : Copied (λ a. a % 256) (memmove (λ a. a % 256) 100 98 6) 100 98 6
memmove-Copied_example = memmove-Copied (λ a. a % 256) 100 98 6 (omega arith) (omega arith)

printnum-strtol_example :
    strtol (printnum 1024 10 0 32 ++ (44 ∷ 49 ∷ [])) 10 ≡ some (1024, 44 ∷ 49 ∷ [])
unfolding digit_of
printnum-strtol_example = printnum-strtol 1024 0 32 (44 ∷ 49 ∷ []) (omega arith) (omega arith) refl

strlcpy-Terminated_example : Terminated (λ a. 65) (strlcpy (λ a. 65) 100 200 4) 100 4
strlcpy-Terminated_example = strlcpy-Terminated (λ a. 65) 100 200 4 (omega arith) (omega arith)
