-- ===== src/Sched/Trap/Safety.antt =====
-- trap (sched/kern/trap.c) leaves the kernel, with the table of environments as it should be.
use Prim.Native.Nat.{bit_or}
use sistemas_operativos_fiub.Common.{
  ℕ, ◌%◌, ◌≡◌, refl, sym, true, false, Option, none, some, ◌==◌, if_both, arith,
}
use mathlib.Core.Path.{subst}
use sistemas_operativos_fiub.Sched.Kernel.{
  Env, Kernel, Trapframe, con_env, es_dying, es_running, poner,
}
use sistemas_operativos_fiub.Sched.Scheduler.{
  corre, monitor, Politica, env_run, sched_yield, update_priority,
}
use sistemas_operativos_fiub.Sched.Env.{env_free}
use sistemas_operativos_fiub.Sched.Memory.Pages.{Memory, pgsize}
use sistemas_operativos_fiub.Sched.Memory.Tables.{pte_u, pte_w}
use sistemas_operativos_fiub.Sched.EnvMemory.{free_pages}
use sistemas_operativos_fiub.Sched.EnvTable.Invariant.{
  InUse, IsTable, con_env-IsTable, con_env-Keeps, InUse-Keeps,
}
use sistemas_operativos_fiub.Sched.EnvTable.Scheduling.{
  Placed, sched_yield-Placed, update_priority-IsTable, env_run-Placed,
}
use sistemas_operativos_fiub.Sched.EnvTable.Lifetimes.{current_used, freed}
use sistemas_operativos_fiub.Sched.System.{
  System, Hardware, no_curenv, memory_panic, kernel_fault, stack_overflow, Outcome, comes_back,
  leaves, stops, memory, destroy,
}
use sistemas_operativos_fiub.Sched.Trap.Table.{Accepted, KeepsTable, destroy-KeepsTable}
use sistemas_operativos_fiub.Sched.Trap.Calls.{syscall-KeepsTable, with_curenv-KeepsTable}
use sistemas_operativos_fiub.Sched.Trap.{
  end_of_trap, page_fault_handler, push_frame, resume, run_upcall, set_eax, trap, trap_dispatch,
  trap_from_user, exstk, off_exstk, frame_at,
}
use sistemas_operativos_fiub.Sched.Trap.Current.{assert_current-KeepsTable}

-- The trap does not come back; where it goes, the table is as it should be.
abbrev pub Finishes : Outcome → Type 0
Finishes (comes_back r s) = ⊥
Finishes (leaves d m pg) = Placed d
Finishes (stops why) = Accepted why

resume-Placed :
    (politica : Politica) (cpu : ℕ) (k : Kernel) (o : Option ℕ)
    → InUse k.envs o
    → IsTable k
    → Placed (resume politica cpu k o)
unfolding resume
resume-Placed politica cpu k none u t = sched_yield-Placed politica cpu k t
resume-Placed politica cpu k (some c) u t =
    if_both Placed (es_running (k.envs c).env_status) _ _ (env_run-Placed cpu c k u t)
      (sched_yield-Placed politica cpu k t)

end_of_trap-Finishes :
    (politica : Politica) (cpu : ℕ) (o : Outcome)
    → KeepsTable o
    → Finishes (end_of_trap politica cpu o)
unfolding end_of_trap
end_of_trap-Finishes politica cpu (comes_back r s) t =
    resume-Placed politica cpu s.kern s.kern.curenv t.current t
end_of_trap-Finishes politica cpu (leaves d m pg) h = h
end_of_trap-Finishes politica cpu (stops why) h = h

set_eax-KeepsTable : (c : ℕ) (o : Outcome) → KeepsTable o → KeepsTable (set_eax (some c) o)
unfolding set_eax
set_eax-KeepsTable c (comes_back r s) t = con_env-IsTable s.kern c _ refl refl t
set_eax-KeepsTable c (leaves d m pg) h = h
set_eax-KeepsTable c (stops why) h = h

upcall-KeepsTable :
    (cpu c : ℕ) (tf : Trapframe) (s : System) (o : Option Memory)
    → InUse s.kern.envs (some c)
    → IsTable s.kern
    → KeepsTable (run_upcall cpu c tf s o)
unfolding run_upcall
upcall-KeepsTable cpu c tf s none u t = tt
upcall-KeepsTable cpu c tf s (some m) u t =
    let e : Env = record (s.kern.envs c) {
      env_tf = record tf {
        tf_esp = frame_at tf.tf_esp;
        tf_eip = (s.kern.envs c).env_pgfault_upcall;
      };
    } in
    if_both KeepsTable (off_exstk (frame_at tf.tf_esp)) (stops stack_overflow)
      (leaves (corre (env_run cpu c (con_env s.kern c e))) m s.env_pgdir) tt
      (env_run-Placed cpu c (con_env s.kern c e)
        (InUse-Keeps s.kern (con_env s.kern c e) (some c) (con_env-Keeps s.kern c e refl refl) u)
        (con_env-IsTable s.kern c e refl refl t))

module _ (hw : Hardware) (politica : Politica) (cpu : ℕ) (c : ℕ) (tf : Trapframe) (s : System)
    (eq : s.kern.curenv ≡ some c) (t : IsTable s.kern) (user : tf.tf_cs % 4 ≡ 3) where
  fault-KeepsTable : KeepsTable (page_fault_handler hw politica cpu tf s)
  unfolding page_fault_handler
  fault-KeepsTable =
      let u : InUse s.kern.envs (some c) = current_used s.kern c eq t in
      if_both KeepsTable (tf.tf_cs % 4 == 0) (stops kernel_fault) _ tt (
        with_curenv-KeepsTable politica cpu s c eq t _ (
          if_both KeepsTable ((s.kern.envs c).env_pgfault_upcall == 0) _ _
            (destroy-KeepsTable politica cpu c s (comes_back 0) u t (λ s' t'. t'))
            (assert_current-KeepsTable politica cpu c exstk pgsize (bit_or pte_u pte_w) s
              (λ s'. run_upcall cpu c tf s' (push_frame hw tf s'.mem)) eq t
              (upcall-KeepsTable cpu c tf s (push_frame hw tf s.mem) u t))))

  dispatch-KeepsTable : KeepsTable (trap_dispatch hw politica cpu (some c) tf s)
  unfolding trap_dispatch
  dispatch-KeepsTable =
      let not_kernel : (tf.tf_cs == 8) ≡ false = ground arith in
      let k : Kernel = s.kern in
      if_both KeepsTable (tf.tf_trapno == 3) (leaves (monitor k) s.mem s.env_pgdir) _ (t, tt)
        (if_both KeepsTable (tf.tf_trapno == 14) _ _ fault-KeepsTable (
          if_both KeepsTable (tf.tf_trapno == 48) _ _
            (set_eax-KeepsTable c _ (syscall-KeepsTable politica cpu s c eq t hw _ _ _ _ _ _))
            (if_both KeepsTable (tf.tf_trapno == 39) (comes_back 0 s) _ t (
              if_both KeepsTable (tf.tf_trapno == 32)
                (leaves (sched_yield politica cpu (update_priority k)) s.mem s.env_pgdir) _
                (sched_yield-Placed politica cpu (update_priority k) (update_priority-IsTable k t))
                (rw not_kernel (
                  with_curenv-KeepsTable politica cpu s c eq t
                    (λ c. destroy politica cpu c s (comes_back 0))
                    (destroy-KeepsTable politica cpu c s (comes_back 0) (current_used k c eq t) t
                      (λ s' t'. t'))))))))

-- On a trap from user mode with a current environment, when the slots of ENV_FREE are the free
-- list, each once, and curenv is in use, trap, under either policy and for any trap number, system
-- call and arguments, does not come back and follows no null curenv: either the kernel stops, in a
-- function or call on pages or at an exception stack, or the CPU goes to an environment that is
-- curenv, in use and running, or halts without one, or is in the monitor; and in these cases the
-- table is still so.
pub trap-Finishes :
    (hw : Hardware) (politica : Politica) (cpu c : ℕ) (tf : Trapframe) (s : System)
    → s.kern.curenv ≡ some c
    → IsTable s.kern
    → tf.tf_cs % 4 ≡ 3
    → Finishes (trap hw politica cpu tf s)
unfolding trap trap_from_user
trap-Finishes hw politica cpu c tf s eq t user =
    let from_user : (tf.tf_cs % 4 == 3) ≡ true = ground arith in
    rw from_user (
      subst
        (λ o.
          Finishes
            (elim o [ none ↦ stops no_curenv | some c ↦ trap_from_user hw politica cpu c tf s ]))
        (sym eq) entered)
  where
    dying :
        (o : Option Memory)
        → Finishes (elim o [
          | none ↦ stops memory_panic
          | some m ↦
              leaves
                (sched_yield politica cpu (record (env_free c s.kern) { curenv = none }))
                m
                (poner s.env_pgdir c 0)
        ])
    dying none = tt
    dying (some m) =
        sched_yield-Placed politica cpu _ (freed s.kern c none t (current_used s.kern c eq t) tt)

    entered : Finishes (trap_from_user hw politica cpu c tf s)
    entered =
        let s' : System = record s {
          kern = con_env s.kern c (record (s.kern.envs c) { env_tf = tf });
        } in
        if_both Finishes (es_dying (s.kern.envs c).env_status) _ _
          (dying (free_pages (s.env_pgdir c) (memory s)))
          (end_of_trap-Finishes politica cpu _ (
            dispatch-KeepsTable hw politica cpu c tf s' eq
              (con_env-IsTable s.kern c (record (s.kern.envs c) { env_tf = tf }) refl refl t) user))
