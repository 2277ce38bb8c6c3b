-- ===== src/Sched/Trap/Exception.antt =====
-- page_fault_handler (sched/kern/trap.c): where the frame of a fault goes on the exception stack.
use Prim.Native.Nat.{bit_or}
use sistemas_operativos_fiub.Common.{
  ℕ, ◌+◌, ◌%◌, ◌≤◌, ◌≡◌, ◌≢◌, ◌⊎◌, refl, ap, ◌∙◌, true, false, some, ◌==◌, if◌then◌else◌, inl, inr,
  arith,
}
use sistemas_operativos_fiub.Sched.Kernel.{Trapframe, con_env}
use sistemas_operativos_fiub.Sched.Scheduler.{corre, Politica, env_run}
use sistemas_operativos_fiub.Sched.Memory.Pages.{Memory, pgsize}
use sistemas_operativos_fiub.Sched.Memory.Tables.{pte_u, pte_w}
use sistemas_operativos_fiub.Sched.Memory.UserCheck.{allowed, user_mem_check}
use sistemas_operativos_fiub.Sched.System.{
  System, Hardware, Outcome, comes_back, destroy, leaves, user_mem_assert, with_curenv,
}
use sistemas_operativos_fiub.Sched.Trap.{
  exstk, frame_at, off_exstk, page_fault_handler, push_frame, run_upcall, utf_size, uxstacktop,
}

-- The frame is in the page of the exception stack; after a fault in a handler, one word is left
-- between it and what the handler had there.
pub record FramePlace (esp at : ℕ) : Type 0 where
  pub above : exstk ≤ at
  pub below : at + utf_size ≤ uxstacktop
  pub recursive : off_exstk esp ≡ false → at + utf_size + 4 ≡ esp

-- There is room for it.
abbrev pub HasRoom : ℕ → Type 0
HasRoom esp = (off_exstk esp ≡ true) ⊎ (exstk + utf_size + 4 ≤ esp)

frame_at-FramePlace : (esp : ℕ) → HasRoom esp → FramePlace esp (frame_at esp)
unfolding frame_at
frame_at-FramePlace esp (inl off) =
    rw off
      (record { above = omega arith; below = omega arith; recursive = λ on. absurd (clash off on) })
  where
    clash : off_exstk esp ≡ true → off_exstk esp ≡ false → ⊥
    clash p q = ground arith
frame_at-FramePlace esp (inr room) = record {
  above = ground arith;
  below = ground arith;
  recursive = λ on. ground arith;
}

-- A place in the page passes the check after the store.
in_page : (esp at : ℕ) → FramePlace esp at → off_exstk at ≡ false
in_page esp at f = ground (arith, f.above, f.below)

-- The handler of a user environment with an upcall that may write its exception stack.
reach_push :
    (hw : Hardware) (politica : Politica) (cpu c : ℕ) (tf : Trapframe) (s : System)
    → s.kern.curenv ≡ some c
    → tf.tf_cs % 4 ≢ 0
    → (s.kern.envs c).env_pgfault_upcall ≢ 0
    → user_mem_check s.mem (s.env_pgdir c) exstk pgsize 6 ≡ allowed
    → page_fault_handler hw politica cpu tf s ≡ run_upcall cpu c tf s (push_frame hw tf s.mem)
unfolding page_fault_handler with_curenv user_mem_assert
reach_push hw politica cpu c tf s eq cs upcall ok =
    let user : (tf.tf_cs % 4 == 0) ≡ false = ground arith in
    let set : ((s.kern.envs c).env_pgfault_upcall == 0) ≡ false = ground arith in
    let next : ℕ → Outcome = λ d.
      if (s.kern.envs d).env_pgfault_upcall == 0
      then destroy politica cpu d s (comes_back 0)
      else user_mem_assert politica cpu d exstk pgsize (bit_or pte_u pte_w) s
          (λ s'. run_upcall cpu d tf s' (push_frame hw tf s'.mem)) in
    rw user (ap (with_curenv next) eq ∙ rw (set, user_mem_assert, ok) refl)

-- On a page fault from user mode, when curenv has an upcall and may write its exception stack, the
-- stack has room for the frame and the store of the frame does not fault, the environment is run at
-- its upcall with its stack pointer at the frame, which lies in the page of the exception stack
-- and, if the fault came from that page, ends one word below the interrupted stack pointer.
pub page_fault_handler-FramePlace :
    (hw : Hardware) (politica : Politica) (cpu c : ℕ) (tf : Trapframe) (s : System) (m : Memory)
    → s.kern.curenv ≡ some c
    → tf.tf_cs % 4 ≢ 0
    → (s.kern.envs c).env_pgfault_upcall ≢ 0
    → user_mem_check s.mem (s.env_pgdir c) exstk pgsize 6 ≡ allowed
    → HasRoom tf.tf_esp
    → push_frame hw tf s.mem ≡ some m
    → (at : ℕ) × FramePlace tf.tf_esp at
      × (page_fault_handler hw politica cpu tf s
          ≡ leaves
              (corre (
                env_run cpu c (
                  con_env s.kern c (record (s.kern.envs c) {
                    env_tf = record tf { tf_esp = at; tf_eip = (s.kern.envs c).env_pgfault_upcall };
                  }))))
              m
              s.env_pgdir)
unfolding run_upcall
page_fault_handler-FramePlace hw politica cpu c tf s m eq cs upcall ok room stored =
    let f : FramePlace tf.tf_esp (frame_at tf.tf_esp) = frame_at-FramePlace tf.tf_esp room in
    let inside : off_exstk (frame_at tf.tf_esp) ≡ false = in_page tf.tf_esp _ f in
    (
      frame_at tf.tf_esp,
      f,
      reach_push hw politica cpu c tf s eq cs upcall ok
          ∙ ap (run_upcall cpu c tf s) stored
          ∙ rw inside refl,
    )
