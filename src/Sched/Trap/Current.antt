-- ===== src/Sched/Trap/Current.antt =====
-- env_destroy and user_mem_assert of the current environment (sched/kern/env.c, pmap.c).
use Prim.Native.Nat.{bit_or}
use sistemas_operativos_fiub.Common.{
  ℕ, ◌≡◌, refl, sym, ap, ◌∙◌, Bool, true, false, not, ◌&&◌, Option, none, some, ◌==◌, if◌then◌else◌,
  arith,
}
use mathlib.Core.Path.{subst}
use sistemas_operativos_fiub.Sched.Kernel.{Kernel, es_running, poner}
use sistemas_operativos_fiub.Sched.Scheduler.{Politica, sched_yield}
use sistemas_operativos_fiub.Sched.Env.{Efecto, Efecto.no_vuelve, env_destroy, env_free, es_curenv}
use sistemas_operativos_fiub.Sched.Memory.Pages.{Memory}
use sistemas_operativos_fiub.Sched.Memory.Tables.{pte_u}
use sistemas_operativos_fiub.Sched.Memory.CheckEnds.{Answered, user_mem_check-Answered}
use sistemas_operativos_fiub.Sched.Memory.UserCheck.{
  UserCheck, allowed, fault, panics, out_of_steps, user_mem_check,
}
use sistemas_operativos_fiub.Sched.EnvMemory.{free_pages}
use sistemas_operativos_fiub.Sched.EnvTable.Invariant.{IsTable}
use sistemas_operativos_fiub.Sched.EnvTable.Scheduling.{sched_yield-Placed}
use sistemas_operativos_fiub.Sched.EnvTable.Lifetimes.{current_used, freed}
use sistemas_operativos_fiub.Sched.System.{
  System, memory_panic, too_few_steps, Outcome, stops, memory, of_efecto, destroy, user_mem_assert,
}
use sistemas_operativos_fiub.Sched.Trap.Table.{KeepsTable}

-- env_destroy of curenv does not come back, so whatever would follow does not matter.
skip : {A : Type 0} (a b : Bool) (x y : A) → b ≡ true → (if a && not b then x else y) ≡ y
skip true true x y h = refl
skip true false x y h = cc
skip false b x y h = refl

own_env : (k : Kernel) (c : ℕ) → k.curenv ≡ some c → es_curenv k c ≡ true
own_env k c eq = ap (λ (o : Option ℕ). elim o [ none ↦ false | some d ↦ c == d ]) eq ∙ itself c
  where
    itself : (n : ℕ) → (n == n) ≡ true
    itself n = ground arith

env_destroy_current :
    (politica : Politica) (cpu c : ℕ) (k : Kernel)
    → es_curenv k c ≡ true
    → env_destroy politica cpu c k
      ≡ no_vuelve (sched_yield politica cpu (record (env_free c k) { curenv = none }))
unfolding env_destroy
env_destroy_current politica cpu c k own =
    skip (es_running (k.envs c).env_status) (es_curenv k c) _ _ own ∙ taken (es_curenv k c) _ _ own
  where
    taken : (b : Bool) (x y : Efecto) → b ≡ true → (if b then x else y) ≡ x
    taken true x y h = refl
    taken false x y h = cc

destroy_current-KeepsTable :
    (politica : Politica) (cpu c : ℕ) (s : System) (next : System → Outcome)
    → s.kern.curenv ≡ some c
    → IsTable s.kern
    → KeepsTable (destroy politica cpu c s next)
unfolding destroy of_efecto
destroy_current-KeepsTable politica cpu c s next eq t =
    let own : es_curenv s.kern c ≡ true = own_env s.kern c eq in
    subst KeepsTable
      (sym (skip (es_running (s.kern.envs c).env_status) (es_curenv s.kern c) _ _ own))
      (pages own (free_pages (s.env_pgdir c) (memory s)))
  where
    pages :
        es_curenv s.kern c ≡ true
        → (o : Option Memory)
        → KeepsTable (elim o [
          | none ↦ stops memory_panic
          | some m ↦ of_efecto m (poner s.env_pgdir c 0) next (env_destroy politica cpu c s.kern)
        ])
    pages own none = tt
    pages own (some m) =
        subst (λ x. KeepsTable (of_efecto m (poner s.env_pgdir c 0) next x))
          (sym (env_destroy_current politica cpu c s.kern own))
          (sched_yield-Placed politica cpu _
            (freed s.kern c none t (current_used s.kern c eq t) tt))

pub assert_current-KeepsTable :
    (politica : Politica) (cpu c va len perm : ℕ) (s : System) (next : System → Outcome)
    → s.kern.curenv ≡ some c
    → IsTable s.kern
    → KeepsTable (next s)
    → KeepsTable (user_mem_assert politica cpu c va len perm s next)
unfolding user_mem_assert
assert_current-KeepsTable politica cpu c va len perm s next eq t h =
    by_answer (user_mem_check s.mem (s.env_pgdir c) va len (bit_or perm pte_u))
      (user_mem_check-Answered s.mem (s.env_pgdir c) va len (bit_or perm pte_u))
  where
    by_answer :
        (x : UserCheck)
        → Answered x
        → KeepsTable (elim x [
          | allowed ↦ next s
          | fault a ↦ destroy politica cpu c s next
          | panics ↦ stops memory_panic
          | out_of_steps ↦ stops too_few_steps
        ])
    by_answer allowed a = h
    by_answer (fault x) a = destroy_current-KeepsTable politica cpu c s next eq t
    by_answer panics a = tt
    by_answer out_of_steps a = a
