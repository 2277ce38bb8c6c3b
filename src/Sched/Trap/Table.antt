-- ===== src/Sched/Trap/Table.antt =====
-- Traps (sched/kern/trap.c) and the table of environments.
use Prim.Native.Nat.{bit_or}
use sistemas_operativos_fiub.Common.{ℕ, not, ◌&&◌, Option, none, some, if_both}
use sistemas_operativos_fiub.Sched.Kernel.{es_running, poner}
use sistemas_operativos_fiub.Sched.Scheduler.{Politica}
use sistemas_operativos_fiub.Sched.Env.{
  Efecto, Efecto.vuelve, Efecto.no_vuelve, Resuelto, bad_env, dado, null_curenv, env_destroy,
  es_curenv,
}
use sistemas_operativos_fiub.Sched.Syscall.{
  Respuesta, Respuesta.devuelve, Respuesta.sin_retorno, Respuesta.colapsa,
}
use sistemas_operativos_fiub.Sched.Memory.Pages.{Memory}
use sistemas_operativos_fiub.Sched.Memory.Tables.{pte_u}
use sistemas_operativos_fiub.Sched.Memory.CheckEnds.{Answered, user_mem_check-Answered}
use sistemas_operativos_fiub.Sched.Memory.UserCheck.{
  UserCheck, allowed, fault, panics, out_of_steps, user_mem_check,
}
use sistemas_operativos_fiub.Sched.EnvMemory.{free_pages}
use sistemas_operativos_fiub.Sched.PageCalls.{PageReply, returns, breaks}
use sistemas_operativos_fiub.Sched.PageCalls.Table.{ReturnsTable}
use sistemas_operativos_fiub.Sched.EnvTable.Invariant.{InUse, IsTable}
use sistemas_operativos_fiub.Sched.EnvTable.Scheduling.{Placed}
use sistemas_operativos_fiub.Sched.EnvTable.Lifetimes.{Leaves, Resolved, env_destroy-Leaves}
use sistemas_operativos_fiub.Sched.EnvTable.Calls.{Replies}
use sistemas_operativos_fiub.Sched.System.{
  System, Stop, null_pointer, no_curenv, memory_panic, kernel_fault, stack_overflow, unhandled_trap,
  too_few_steps, Outcome, comes_back, leaves, stops, memory, of_respuesta, of_reply, of_efecto,
  destroy, user_mem_assert, resolved,
}

-- The kernel stops in the functions on pages, on an exception stack or for a fault of its own, and
-- not for a null curenv or a bound that was too small.
abbrev pub Accepted : Stop → Type 0
Accepted null_pointer = ⊥
Accepted no_curenv = ⊥
Accepted memory_panic = Unit
Accepted kernel_fault = Unit
Accepted stack_overflow = Unit
Accepted unhandled_trap = ⊥
Accepted too_few_steps = ⊥

-- Wherever a call goes, the table of environments is as IsTable says.
abbrev pub KeepsTable : Outcome → Type 0
KeepsTable (comes_back r s) = IsTable s.kern
KeepsTable (leaves d m pg) = Placed d
KeepsTable (stops why) = Accepted why

pub of_respuesta-KeepsTable :
    (m : Memory) (pg : ℕ → ℕ) (r : Respuesta) → Replies r → KeepsTable (of_respuesta m pg r)
unfolding of_respuesta
of_respuesta-KeepsTable m pg (devuelve r k) h = h
of_respuesta-KeepsTable m pg (sin_retorno d) h = h
of_respuesta-KeepsTable m pg colapsa h = h

-- Whatever follows a destruction that comes back.
pub destroy-KeepsTable :
    (politica : Politica) (cpu e : ℕ) (s : System) (next : System → Outcome)
    → InUse s.kern.envs (some e)
    → IsTable s.kern
    → ((s' : System) → IsTable s'.kern → KeepsTable (next s'))
    → KeepsTable (destroy politica cpu e s next)
unfolding destroy of_efecto
destroy-KeepsTable politica cpu e s next u t h =
    let l : Leaves (env_destroy politica cpu e s.kern) =
      env_destroy-Leaves politica cpu e s.kern u t in
    if_both KeepsTable (es_running (s.kern.envs e).env_status && not (es_curenv s.kern e)) _ _
      (effect s.mem s.env_pgdir (env_destroy politica cpu e s.kern) l)
      (pages (free_pages (s.env_pgdir e) (memory s)) (poner s.env_pgdir e 0)
        (env_destroy politica cpu e s.kern) l)
  where
    effect : (m : Memory) (pg : ℕ → ℕ) (x : Efecto) → Leaves x → KeepsTable (of_efecto m pg next x)
    effect m pg (vuelve k) l = h (record { kern = k; mem = m; env_pgdir = pg }) l
    effect m pg (no_vuelve d) l = l

    pages :
        (o : Option Memory) (pg : ℕ → ℕ) (x : Efecto)
        → Leaves x
        → KeepsTable (elim o [ none ↦ stops memory_panic | some m ↦ of_efecto m pg next x ])
    pages none pg x l = tt
    pages (some m) pg x l = effect m pg x l

pub user_mem_assert-KeepsTable :
    (politica : Politica) (cpu e va len perm : ℕ) (s : System) (next : System → Outcome)
    → InUse s.kern.envs (some e)
    → IsTable s.kern
    → ((s' : System) → IsTable s'.kern → KeepsTable (next s'))
    → KeepsTable (user_mem_assert politica cpu e va len perm s next)
unfolding user_mem_assert
user_mem_assert-KeepsTable politica cpu e va len perm s next u t h =
    by_answer (user_mem_check s.mem (s.env_pgdir e) va len (bit_or perm pte_u))
      (user_mem_check-Answered s.mem (s.env_pgdir e) va len (bit_or perm pte_u))
  where
    by_answer :
        (x : UserCheck)
        → Answered x
        → KeepsTable (elim x [
          | allowed ↦ next s
          | fault a ↦ destroy politica cpu e s next
          | panics ↦ stops memory_panic
          | out_of_steps ↦ stops too_few_steps
        ])
    by_answer allowed a = h s t
    by_answer (fault x) a = destroy-KeepsTable politica cpu e s next u t h
    by_answer panics a = tt
    by_answer out_of_steps a = a

pub resolved-KeepsTable :
    (s : System) (next : ℕ → Outcome) (r : Resuelto)
    → IsTable s.kern
    → Resolved s.kern r
    → ((e : ℕ) → InUse s.kern.envs (some e) → KeepsTable (next e))
    → KeepsTable (resolved s next r)
unfolding resolved
resolved-KeepsTable s next (dado (some e)) t u h = h e u
resolved-KeepsTable s next (dado none) t u h = u
resolved-KeepsTable s next bad_env t u h = t
resolved-KeepsTable s next null_curenv t u h = u

pub of_reply-KeepsTable : (pg : ℕ → ℕ) (r : PageReply) → ReturnsTable r → KeepsTable (of_reply pg r)
unfolding of_reply
of_reply-KeepsTable pg (returns r k m) h = h
of_reply-KeepsTable pg breaks h = tt
