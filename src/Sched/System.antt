-- ===== src/Sched/System.antt =====
-- The kernel with its memory, for sched/kern/trap.c and sched/kern/syscall.c: env_destroy with the
-- pages of the environment, and user_mem_assert of sched/kern/pmap.c.
use Prim.Native.Nat.{bit_or}
use sistemas_operativos_fiub.Common.{ℕ, not, ◌&&◌, Option, none, some, if◌then◌else◌}
use sistemas_operativos_fiub.Sched.Kernel.{Kernel, PushRegs, es_running, negado, poner}
use sistemas_operativos_fiub.Sched.Scheduler.{Destino, Politica}
use sistemas_operativos_fiub.Sched.Env.{
  Efecto, Efecto.vuelve, Efecto.no_vuelve, Resuelto, bad_env, dado, null_curenv, e_bad_env,
  env_destroy, es_curenv,
}
use sistemas_operativos_fiub.Sched.Syscall.{
  Respuesta, Respuesta.devuelve, Respuesta.sin_retorno, Respuesta.colapsa,
}
use sistemas_operativos_fiub.Sched.Memory.Pages.{Memory}
use sistemas_operativos_fiub.Sched.Memory.Tables.{pte_u}
use sistemas_operativos_fiub.Sched.Memory.UserCheck.{
  allowed, fault, panics, out_of_steps, user_mem_check,
}
use sistemas_operativos_fiub.Sched.EnvMemory.{free_pages}
use sistemas_operativos_fiub.Sched.PageCalls.{PageReply, returns, breaks}

-- The kernel with its memory; `env_pgdir e` is the page directory of the environment e.
pub record System : Type 0 where
  pub kern : Kernel
  pub mem : Memory
  pub env_pgdir : ℕ → ℕ

pub record UTrapframe : Type 0 where
  pub utf_fault_va : ℕ
  pub utf_err : ℕ
  pub utf_regs : PushRegs
  pub utf_eip : ℕ
  pub utf_eflags : ℕ
  pub utf_esp : ℕ

-- What the processor gives a trap: the stores of a word and of a frame at a user address, which may
-- fault, CR2 and a character from the console, and the kernel's page directory.
pub record Hardware : Type 0 where
  pub store_word : ℕ → ℕ → Memory → Option Memory
  pub store_frame : ℕ → UTrapframe → Memory → Option Memory
  pub cr2 : ℕ
  pub typed : ℕ
  pub kern_pgdir : ℕ

-- Why the kernel stops. `memory_panic` is a panic of the functions on pages, or a page call that
-- follows a pointer that is null or was not set.
pub data Stop : Type 0 where
  null_pointer no_curenv memory_panic kernel_fault stack_overflow unhandled_trap : Stop
  too_few_steps : Stop

-- A call comes back with a value, leaves the kernel or stops it.
pub data Outcome : Type 0 where
  comes_back : ℕ → System → Outcome
  leaves : Destino → Memory → (ℕ → ℕ) → Outcome
  stops : Stop → Outcome

-- The memory for a function that looks at the directory of curenv.
unfoldable pub current_pgdir : (ℕ → ℕ) → Option ℕ → Option ℕ
current_pgdir env_pgdir none = none
current_pgdir env_pgdir (some c) = some (env_pgdir c)

abbrev pub memory : System → Memory
memory s = record s.mem { cur_pgdir = current_pgdir s.env_pgdir s.kern.curenv }

unfoldable pub of_respuesta : Memory → (ℕ → ℕ) → Respuesta → Outcome
of_respuesta m pg (devuelve r k) = comes_back r (record { kern = k; mem = m; env_pgdir = pg })
of_respuesta m pg (sin_retorno d) = leaves d m pg
of_respuesta m pg colapsa = stops null_pointer

unfoldable pub of_reply : (ℕ → ℕ) → PageReply → Outcome
of_reply pg (returns r k m) = comes_back r (record { kern = k; mem = m; env_pgdir = pg })
of_reply pg breaks = stops memory_panic

unfoldable pub of_efecto : Memory → (ℕ → ℕ) → (System → Outcome) → Efecto → Outcome
of_efecto m pg next (vuelve k) = next (record { kern = k; mem = m; env_pgdir = pg })
of_efecto m pg next (no_vuelve d) = leaves d m pg

-- env_destroy with the pages: a running environment that is not curenv keeps them.
unfoldable pub destroy : Politica → ℕ → ℕ → System → (System → Outcome) → Outcome
destroy politica cpu e s next =
    let effect = env_destroy politica cpu e s.kern in
    if es_running (s.kern.envs e).env_status && not (es_curenv s.kern e)
    then of_efecto s.mem s.env_pgdir next effect
    else elim (free_pages (s.env_pgdir e) (memory s)) [
      | none ↦ stops memory_panic
      | some m ↦ of_efecto m (poner s.env_pgdir e 0) next effect
    ]

unfoldable pub user_mem_assert :
    Politica → ℕ → ℕ → ℕ → ℕ → ℕ → System → (System → Outcome) → Outcome
user_mem_assert politica cpu env va len perm s next =
    elim (user_mem_check s.mem (s.env_pgdir env) va len (bit_or perm pte_u)) [
      | allowed ↦ next s
      | fault a ↦ destroy politica cpu env s next
      | panics ↦ stops memory_panic
      | out_of_steps ↦ stops too_few_steps
    ]

-- The environment of an id, for what follows in a call.
unfoldable pub resolved : System → (ℕ → Outcome) → Resuelto → Outcome
resolved s next (dado (some e)) = next e
resolved s next (dado none) = stops null_pointer
resolved s next bad_env = comes_back (negado e_bad_env) s
resolved s next null_curenv = stops null_pointer

unfoldable pub with_curenv : (ℕ → Outcome) → Option ℕ → Outcome
with_curenv next none = stops null_pointer
with_curenv next (some c) = next c
