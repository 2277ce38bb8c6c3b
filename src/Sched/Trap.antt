-- ===== src/Sched/Trap.antt =====
-- sched/kern/trap.c. The console output, the big kernel lock, the acknowledgement of the timer and
-- `panicstr` are left out.
pub mod Table
pub mod Calls
mod Current
pub mod Safety
pub mod Exception
use Prim.Native.Nat.{bit_or}
use sistemas_operativos_fiub.Common.{
  ℕ, ◌+◌, ◌-◌, ◌%◌, Bool, true, false, not, ◌&&◌, ◌||◌, Option, none, some, ltb, ◌==◌,
  if◌then◌else◌,
}
use sistemas_operativos_fiub.Sched.Kernel.{
  Env, Kernel, PushRegs, Trapframe, con_env, es_dying, es_running, negado, poner, sub32,
}
use sistemas_operativos_fiub.Sched.Scheduler.{
  Destino, corre, monitor, Politica, env_run, sched_yield, update_priority,
}
use sistemas_operativos_fiub.Sched.Env.{
  Efecto, Efecto.vuelve, Efecto.no_vuelve, Resuelto, bad_env, dado, null_curenv, e_bad_env, e_inval,
  env_destroy, env_free, envid2env, es_curenv,
}
use sistemas_operativos_fiub.Sched.Syscall.{
  Respuesta, Respuesta.devuelve, Respuesta.sin_retorno, Respuesta.colapsa, sys_env_set_status,
  sys_exofork, sys_get_priority, sys_inc_priority, sys_ipc_recv, sys_red_priority,
}
use sistemas_operativos_fiub.Sched.Memory.Pages.{Memory, pgsize}
use sistemas_operativos_fiub.Sched.Memory.Tables.{pte_p, pte_u, pte_w}
use sistemas_operativos_fiub.Sched.Memory.UserCheck.{
  UserCheck, allowed, fault, panics, out_of_steps, user_mem_check, utop,
}
use sistemas_operativos_fiub.Sched.EnvMemory.{env_setup_vm, free_pages}
use sistemas_operativos_fiub.Sched.PageCalls.{
  PageReply, returns, breaks, sys_ipc_try_send, sys_page_alloc, sys_page_map, sys_page_unmap,
}
use sistemas_operativos_fiub.Sched.System.{
  System, UTrapframe, Hardware, Stop, null_pointer, no_curenv, memory_panic, kernel_fault,
  stack_overflow, unhandled_trap, too_few_steps, Outcome, comes_back, leaves, stops, memory,
  of_respuesta, of_reply, of_efecto, destroy, user_mem_assert, resolved, with_curenv,
}
use sistemas_operativos_fiub.Sched.Dispatch.{syscall}

abbrev pub uxstacktop : ℕ
uxstacktop = utop

abbrev pub exstk : ℕ
exstk = uxstacktop - pgsize

abbrev pub exstk_top : ℕ
exstk_top = uxstacktop - 1

-- sizeof(struct UTrapframe)
abbrev pub utf_size : ℕ
utf_size = 52

abbrev pub off_exstk : ℕ → Bool
off_exstk a = ltb a exstk || ltb exstk_top a

-- Where the frame goes, for the stack pointer of the trap.
unfoldable pub frame_at : ℕ → ℕ
frame_at esp = if off_exstk esp then exstk_top - utf_size else sub32 (sub32 esp 4) utf_size

unfoldable pub scratch_word : Hardware → ℕ → Memory → Option Memory
scratch_word hw esp m = if off_exstk esp then some m else hw.store_word (sub32 esp 4) 0 m

unfoldable pub utf_of : Hardware → Trapframe → UTrapframe
utf_of hw tf = record {
  utf_fault_va = hw.cr2;
  utf_err = tf.tf_err;
  utf_regs = tf.tf_regs;
  utf_eip = tf.tf_eip;
  utf_eflags = tf.tf_eflags;
  utf_esp = tf.tf_esp;
}

-- The frame stored, and the environment c run at its upcall.
unfoldable pub run_upcall : ℕ → ℕ → Trapframe → System → Option Memory → Outcome
run_upcall cpu c tf s none = stops kernel_fault
run_upcall cpu c tf s (some m) =
    if off_exstk (frame_at tf.tf_esp)
    then stops stack_overflow
    else leaves
        (corre (
          env_run cpu c (
            con_env s.kern c (record (s.kern.envs c) {
              env_tf = record tf {
                tf_esp = frame_at tf.tf_esp;
                tf_eip = (s.kern.envs c).env_pgfault_upcall;
              };
            }))))
        m s.env_pgdir

unfoldable pub push_frame : Hardware → Trapframe → Memory → Option Memory
push_frame hw tf m = elim (scratch_word hw tf.tf_esp m) [
  | none ↦ none
  | some m' ↦ hw.store_frame (frame_at tf.tf_esp) (utf_of hw tf) m'
]

-- `tf` is the frame of curenv.
unfoldable pub page_fault_handler : Hardware → Politica → ℕ → Trapframe → System → Outcome
page_fault_handler hw politica cpu tf s =
    if tf.tf_cs % 4 == 0
    then stops kernel_fault
    else with_curenv
        (λ c.
          if (s.kern.envs c).env_pgfault_upcall == 0
          then destroy politica cpu c s (comes_back 0)
          else user_mem_assert politica cpu c exstk pgsize (bit_or pte_u pte_w) s
              (λ s'. run_upcall cpu c tf s' (push_frame hw tf s'.mem)))
        s.kern.curenv

-- `tf->tf_regs.reg_eax = r`, where `tf` is the frame of an environment or is on the kernel's stack.
unfoldable pub set_eax : Option ℕ → Outcome → Outcome
set_eax (some c) (comes_back r s) = comes_back r (record s {
  kern = con_env s.kern c (record (s.kern.envs c) {
    env_tf = record (s.kern.envs c).env_tf {
      tf_regs = record (s.kern.envs c).env_tf.tf_regs { reg_eax = r };
    };
  });
})
set_eax who o = o

-- The monitor does not come back: no command ends it. GD_KT is 8.
unfoldable pub trap_dispatch : Hardware → Politica → ℕ → Option ℕ → Trapframe → System → Outcome
trap_dispatch hw politica cpu who tf s =
    if tf.tf_trapno == 3
    then leaves (monitor s.kern) s.mem s.env_pgdir
    else if tf.tf_trapno == 14
    then page_fault_handler hw politica cpu tf s
    else if tf.tf_trapno == 48
    then set_eax who (
        syscall hw politica cpu s tf.tf_regs.reg_eax tf.tf_regs.reg_edx tf.tf_regs.reg_ecx
          tf.tf_regs.reg_ebx tf.tf_regs.reg_edi tf.tf_regs.reg_esi)
    else if tf.tf_trapno == 39
    then comes_back 0 s
    else if tf.tf_trapno == 32
    then leaves (sched_yield politica cpu (update_priority s.kern)) s.mem s.env_pgdir
    else if tf.tf_cs == 8
    then stops unhandled_trap
    else with_curenv (λ c. destroy politica cpu c s (comes_back 0)) s.kern.curenv

-- The end of trap, for the current environment.
unfoldable pub resume : Politica → ℕ → Kernel → Option ℕ → Destino
resume politica cpu k none = sched_yield politica cpu k
resume politica cpu k (some c) =
    if es_running (k.envs c).env_status then corre (env_run cpu c k) else sched_yield politica cpu k

unfoldable pub end_of_trap : Politica → ℕ → Outcome → Outcome
end_of_trap politica cpu (comes_back r s) =
    leaves (resume politica cpu s.kern s.kern.curenv) s.mem s.env_pgdir
end_of_trap politica cpu (leaves d m pg) = leaves d m pg
end_of_trap politica cpu (stops why) = stops why

-- A trap from user mode, with a current environment: one that is dying is freed.
unfoldable pub trap_from_user : Hardware → Politica → ℕ → ℕ → Trapframe → System → Outcome
trap_from_user hw politica cpu c tf s =
    if es_dying (s.kern.envs c).env_status
    then elim (free_pages (s.env_pgdir c) (memory s)) [
      | none ↦ stops memory_panic
      | some m ↦
          leaves (sched_yield politica cpu (record (env_free c s.kern) { curenv = none })) m
            (poner s.env_pgdir c 0)
    ]
    else end_of_trap politica cpu (
        trap_dispatch hw politica cpu (some c) tf
          (record s { kern = con_env s.kern c (record (s.kern.envs c) { env_tf = tf }) }))

unfoldable pub trap : Hardware → Politica → ℕ → Trapframe → System → Outcome
trap hw politica cpu tf s =
    if tf.tf_cs % 4 == 3
    then elim s.kern.curenv [
      | none ↦ stops no_curenv
      | some c ↦ trap_from_user hw politica cpu c tf s
    ]
    else end_of_trap politica cpu (trap_dispatch hw politica cpu none tf s)
