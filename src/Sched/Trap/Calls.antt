-- ===== src/Sched/Trap/Calls.antt =====
-- The system calls of sched/kern/syscall.c, by their dispatcher, and the table of environments.
use Prim.Native.Nat.{bit_or}
use sistemas_operativos_fiub.Common.{
  ℕ, ◌≡◌, refl, sym, Bool, true, false, Option, none, some, ◌==◌, if_both,
}
use mathlib.Core.Path.{subst}
use sistemas_operativos_fiub.Sched.Kernel.{Kernel, poner}
use sistemas_operativos_fiub.Sched.Scheduler.{Politica, sched_yield}
use sistemas_operativos_fiub.Sched.Env.{envid2env}
use sistemas_operativos_fiub.Sched.Syscall.{Respuesta, sys_exofork, sys_get_priority}
use sistemas_operativos_fiub.Sched.Memory.Pages.{Memory, pgsize}
use sistemas_operativos_fiub.Sched.Memory.Tables.{pte_p, pte_u, pte_w}
use sistemas_operativos_fiub.Sched.EnvMemory.{env_setup_vm}
use sistemas_operativos_fiub.Sched.PageCalls.{PageReply}
use sistemas_operativos_fiub.Sched.PageCalls.Table.{
  ReturnsTable, sys_page_alloc-ReturnsTable, sys_page_map-ReturnsTable, sys_page_unmap-ReturnsTable,
  sys_ipc_try_send-ReturnsTable,
}
use sistemas_operativos_fiub.Sched.EnvTable.Invariant.{IsTable, con_env-IsTable}
use sistemas_operativos_fiub.Sched.EnvTable.Scheduling.{sched_yield-Placed}
use sistemas_operativos_fiub.Sched.EnvTable.Lifetimes.{Resolved, current_used, envid2env-Resolved}
use sistemas_operativos_fiub.Sched.EnvTable.Calls.{
  Replies, sys_exofork-Replies, sys_env_set_status-Replies, sys_ipc_recv-Replies,
  sys_inc_priority-Replies, sys_red_priority-Replies, get_priority_known,
}
use sistemas_operativos_fiub.Sched.System.{
  System, Hardware, memory_panic, Outcome, comes_back, leaves, stops, memory, of_respuesta,
  of_reply, user_mem_assert, with_curenv,
}
use sistemas_operativos_fiub.Sched.Dispatch.{
  exofork, setup_and_fork, sys_env_set_pgfault_upcall, syscall, sys_cputs, sys_getenvid,
  priority_reply, destroy_by_id,
}
use sistemas_operativos_fiub.Sched.Trap.Table.{
  KeepsTable, of_reply-KeepsTable, of_respuesta-KeepsTable, destroy-KeepsTable, resolved-KeepsTable,
  user_mem_assert-KeepsTable,
}

-- The system calls and traps of a current environment.
module _ (politica : Politica) (cpu : ℕ) (s : System) (c : ℕ) (eq : s.kern.curenv ≡ some c)
    (t : IsTable s.kern) where
  pub found : (envid : ℕ) (checkperm : Bool) → Resolved s.kern (envid2env s.kern envid checkperm)
  found envid checkperm =
      envid2env-Resolved s.kern c envid checkperm eq (current_used s.kern c eq t)

  pub with_curenv-KeepsTable :
      (next : ℕ → Outcome) → KeepsTable (next c) → KeepsTable (with_curenv next s.kern.curenv)
  unfolding with_curenv
  with_curenv-KeepsTable next h = subst (λ o. KeepsTable (with_curenv next o)) (sym eq) h

  exofork-KeepsTable : (kern_pgdir : ℕ) → KeepsTable (exofork kern_pgdir s)
  unfolding exofork setup_and_fork
  exofork-KeepsTable kern_pgdir =
      with_curenv-KeepsTable (λ c. setup_and_fork kern_pgdir s s.kern.env_free_list)
        (by_list s.kern.env_free_list)
    where
      forked :
          (m : Memory) (pg : ℕ → ℕ) (b : Bool)
          → KeepsTable (of_respuesta m pg (sys_exofork b s.kern))
      forked m pg b =
          of_respuesta-KeepsTable m pg _ (sys_exofork-Replies politica cpu s.kern c eq t b)

      by_page :
          (i : ℕ) (o : Option (Option ℕ × Memory))
          → KeepsTable (elim o [
            | none ↦ stops memory_panic
            | some (none, m) ↦ of_respuesta m s.env_pgdir (sys_exofork false s.kern)
            | some (some p, m) ↦ of_respuesta m (poner s.env_pgdir i p) (sys_exofork true s.kern)
          ])
      by_page i none = tt
      by_page i (some (none, m)) = forked m s.env_pgdir false
      by_page i (some (some p, m)) = forked m (poner s.env_pgdir i p) true

      by_list : (o : Option ℕ) → KeepsTable (setup_and_fork kern_pgdir s o)
      by_list none = forked s.mem s.env_pgdir false
      by_list (some i) = by_page i (env_setup_vm kern_pgdir s.mem)

  upcall-KeepsTable :
      (envid func : ℕ) → KeepsTable (sys_env_set_pgfault_upcall politica cpu s envid func)
  unfolding sys_env_set_pgfault_upcall
  upcall-KeepsTable envid func = resolved-KeepsTable s _ _ t (found envid true) (λ e u.
      user_mem_assert-KeepsTable politica cpu e func pgsize (bit_or pte_p pte_u) s _ u t (λ s' t'.
        con_env-IsTable s'.kern e (record (s'.kern.envs e) { env_pgfault_upcall = func }) refl refl
          t'))

  cputs-KeepsTable : (str len : ℕ) → KeepsTable (sys_cputs politica cpu s str len)
  unfolding sys_cputs
  cputs-KeepsTable str len =
      with_curenv-KeepsTable
        (λ c.
          user_mem_assert politica cpu c str len (bit_or (bit_or pte_p pte_w) pte_u) s
            (comes_back 0))
        (user_mem_assert-KeepsTable politica cpu c str len _ s (comes_back 0)
          (current_used s.kern c eq t) t (λ s' t'. t'))

  getenvid-KeepsTable : KeepsTable (sys_getenvid s)
  unfolding sys_getenvid
  getenvid-KeepsTable = with_curenv-KeepsTable (λ c. comes_back (s.kern.envs c).env_id s) t

  destroy_call-KeepsTable : (envid : ℕ) → KeepsTable (destroy_by_id politica cpu s envid)
  unfolding destroy_by_id
  destroy_call-KeepsTable envid =
      resolved-KeepsTable s _ _ t (found envid true)
        (λ e u. destroy-KeepsTable politica cpu e s (comes_back 0) u t (λ s' t'. t'))

  get_priority-KeepsTable :
      (envid : ℕ) → KeepsTable (priority_reply s (sys_get_priority s.kern envid))
  unfolding priority_reply
  get_priority-KeepsTable envid =
      let (p, known) = get_priority_known politica cpu s.kern c eq t envid in
      subst (λ o. KeepsTable (priority_reply s o)) (sym known) t

  -- Every system call of a current environment.
  pub syscall-KeepsTable :
      (hw : Hardware) (n a1 a2 a3 a4 a5 : ℕ)
      → KeepsTable (syscall hw politica cpu s n a1 a2 a3 a4 a5)
  unfolding syscall
  syscall-KeepsTable hw n a1 a2 a3 a4 a5 =
      let answer : (r : Respuesta) → Replies r → KeepsTable (of_respuesta s.mem s.env_pgdir r) =
        of_respuesta-KeepsTable s.mem s.env_pgdir in
      let page : (r : PageReply) → ReturnsTable r → KeepsTable (of_reply s.env_pgdir r) =
        of_reply-KeepsTable s.env_pgdir in
      let k : Kernel = s.kern in
      let pg : ℕ → ℕ = s.env_pgdir in
      if_both KeepsTable (n == 0) _ _ (cputs-KeepsTable a1 a2) (
        if_both KeepsTable (n == 2) _ _ getenvid-KeepsTable (
          if_both KeepsTable (n == 3) _ _ (destroy_call-KeepsTable a1) (
            if_both KeepsTable (n == 1) (comes_back hw.typed s) _ t (
              if_both KeepsTable (n == 7) _ _ (exofork-KeepsTable hw.kern_pgdir) (
                if_both KeepsTable (n == 8) _ _
                  (answer _ (sys_env_set_status-Replies politica cpu k c eq t a1 a2))
                  (if_both KeepsTable (n == 4) _ _
                    (page _ (sys_page_alloc-ReturnsTable pg k c eq t (memory s) a1 a2 a3))
                    (if_both KeepsTable (n == 5) _ _
                      (page _ (sys_page_map-ReturnsTable pg k c eq t (memory s) a1 a2 a3 a4 a5))
                      (if_both KeepsTable (n == 6) _ _
                        (page _ (sys_page_unmap-ReturnsTable pg k c eq t (memory s) a1 a2))
                        (if_both KeepsTable (n == 12) _ _
                          (answer _ (sys_ipc_recv-Replies politica cpu k c eq t a1))
                          (if_both KeepsTable (n == 11) _ _
                            (page _
                              (sys_ipc_try_send-ReturnsTable pg k c eq t (memory s) a1 a2 a3 a4))
                            (if_both KeepsTable (n == 9) _ _ (upcall-KeepsTable a1 a2) (
                              if_both KeepsTable (n == 10)
                                (leaves (sched_yield politica cpu k) s.mem pg) _
                                (sched_yield-Placed politica cpu k t)
                                (if_both KeepsTable (n == 13) _ _
                                  (answer _ (sys_inc_priority-Replies politica cpu k c eq t a1))
                                  (if_both KeepsTable (n == 14) _ _
                                    (answer _ (sys_red_priority-Replies politica cpu k c eq t a1))
                                    (if_both KeepsTable (n == 15) _ _ (get_priority-KeepsTable a1)
                                      t)))))))))))))))
