-- ===== src/Sched/Dispatch.antt =====
-- The dispatcher of sched/kern/syscall.c, and the calls that the other modules leave. What is
-- printed is left out.
use Prim.Native.Nat.{bit_or}
use sistemas_operativos_fiub.Common.{ℕ, true, false, Option, none, some, ◌==◌, if◌then◌else◌}
use sistemas_operativos_fiub.Sched.Kernel.{con_env, negado, poner}
use sistemas_operativos_fiub.Sched.Scheduler.{Politica, sched_yield}
use sistemas_operativos_fiub.Sched.Env.{e_inval, envid2env}
use sistemas_operativos_fiub.Sched.Syscall.{
  sys_env_set_status, sys_exofork, sys_get_priority, sys_inc_priority, sys_ipc_recv,
  sys_red_priority,
}
use sistemas_operativos_fiub.Sched.Memory.Pages.{pgsize}
use sistemas_operativos_fiub.Sched.Memory.Tables.{pte_p, pte_u, pte_w}
use sistemas_operativos_fiub.Sched.EnvMemory.{env_setup_vm}
use sistemas_operativos_fiub.Sched.PageCalls.{
  sys_ipc_try_send, sys_page_alloc, sys_page_map, sys_page_unmap,
}
use sistemas_operativos_fiub.Sched.System.{
  System, Hardware, null_pointer, memory_panic, Outcome, comes_back, leaves, stops, memory,
  of_respuesta, of_reply, destroy, user_mem_assert, resolved, with_curenv,
}

unfoldable pub sys_cputs : Politica → ℕ → System → ℕ → ℕ → Outcome
sys_cputs politica cpu s str len =
    with_curenv
      (λ c.
        user_mem_assert politica cpu c str len (bit_or (bit_or pte_p pte_w) pte_u) s (comes_back 0))
      s.kern.curenv

unfoldable pub sys_getenvid : System → Outcome
sys_getenvid s = with_curenv (λ c. comes_back (s.kern.envs c).env_id s) s.kern.curenv

unfoldable pub destroy_by_id : Politica → ℕ → System → ℕ → Outcome
destroy_by_id politica cpu s envid =
    resolved s (λ e. destroy politica cpu e s (comes_back 0)) (envid2env s.kern envid true)

unfoldable pub sys_env_set_pgfault_upcall : Politica → ℕ → System → ℕ → ℕ → Outcome
sys_env_set_pgfault_upcall politica cpu s envid func =
    resolved s
      (λ e. user_mem_assert politica cpu e func pgsize (bit_or pte_p pte_u) s (λ s'.
        comes_back 0 (record s' {
          kern = con_env s'.kern e (record (s'.kern.envs e) { env_pgfault_upcall = func });
        })))
      (envid2env s.kern envid true)

-- env_alloc looks for a page only when the free list has an environment.
unfoldable pub setup_and_fork : ℕ → System → Option ℕ → Outcome
setup_and_fork kern_pgdir s none = of_respuesta s.mem s.env_pgdir (sys_exofork false s.kern)
setup_and_fork kern_pgdir s (some i) = elim (env_setup_vm kern_pgdir s.mem) [
  | none ↦ stops memory_panic
  | some (none, m) ↦ of_respuesta m s.env_pgdir (sys_exofork false s.kern)
  | some (some p, m) ↦ of_respuesta m (poner s.env_pgdir i p) (sys_exofork true s.kern)
]

unfoldable pub exofork : ℕ → System → Outcome
exofork kern_pgdir s =
    with_curenv (λ c. setup_and_fork kern_pgdir s s.kern.env_free_list) s.kern.curenv

unfoldable pub priority_reply : System → Option ℕ → Outcome
priority_reply s none = stops null_pointer
priority_reply s (some p) = comes_back p s

-- The numbers of sched/inc/syscall.h.
unfoldable pub syscall : Hardware → Politica → ℕ → System → ℕ → ℕ → ℕ → ℕ → ℕ → ℕ → Outcome
syscall hw politica cpu s syscallno a1 a2 a3 a4 a5 =
    let k = s.kern in
    let reply = of_respuesta s.mem s.env_pgdir in
    let page_reply = of_reply s.env_pgdir in
    if syscallno == 0
    then sys_cputs politica cpu s a1 a2
    else if syscallno == 2
    then sys_getenvid s
    else if syscallno == 3
    then destroy_by_id politica cpu s a1
    else if syscallno == 1
    then comes_back hw.typed s
    else if syscallno == 7
    then exofork hw.kern_pgdir s
    else if syscallno == 8
    then reply (sys_env_set_status k a1 a2)
    else if syscallno == 4
    then page_reply (sys_page_alloc s.env_pgdir k (memory s) a1 a2 a3)
    else if syscallno == 5
    then page_reply (sys_page_map s.env_pgdir k (memory s) a1 a2 a3 a4 a5)
    else if syscallno == 6
    then page_reply (sys_page_unmap s.env_pgdir k (memory s) a1 a2)
    else if syscallno == 12
    then reply (sys_ipc_recv politica cpu k a1)
    else if syscallno == 11
    then page_reply (sys_ipc_try_send s.env_pgdir k (memory s) a1 a2 a3 a4)
    else if syscallno == 9
    then sys_env_set_pgfault_upcall politica cpu s a1 a2
    else if syscallno == 10
    then leaves (sched_yield politica cpu k) s.mem s.env_pgdir
    else if syscallno == 13
    then reply (sys_inc_priority k a1)
    else if syscallno == 14
    then reply (sys_red_priority k a1)
    else if syscallno == 15
    then priority_reply s (sys_get_priority k a1)
    else comes_back (negado e_inval) s
