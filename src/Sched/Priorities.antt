-- ===== src/Sched/Priorities.antt =====
-- Priorities stay between 1 and MAX_PRIORITY: boost and update_priority (sched/kern/sched.c),
-- sys_inc_priority and sys_red_priority (sched/kern/syscall.c).
use sistemas_operativos_fiub.Common.{
  ℕ, ◌≤◌, ◌<◌, ◌≡◌, Bool, true, ◌&&◌, Option, none, some, ltb, ◌==◌, if_both, if_split, arith,
}
use sistemas_operativos_fiub.Sched.Kernel.{Env, Kernel, add32, con_env, nenv, poner, slt}
use sistemas_operativos_fiub.Sched.Scheduler.{
  boost, es_multiplo, gastar, gastar_curenv, max_priority, reiniciar_prioridades, update_priority,
}
use sistemas_operativos_fiub.Sched.Selection.{PrioridadValida, Prioridades}

pub poner-Prioridades :
    (envs : ℕ → Env) (i : ℕ) (e : Env)
    → Prioridades envs
    → (i < nenv → PrioridadValida e)
    → Prioridades (poner envs i e)
poner-Prioridades envs i e v h x lt =
    if_split PrioridadValida (i == x) e (envs x) (λ eq. h (ground arith)) (λ otro. v x lt)

reiniciar-Prioridades :
    (envs : ℕ → Env) → Prioridades envs → Prioridades (reiniciar_prioridades envs nenv)
unfolding reiniciar_prioridades
reiniciar-Prioridades envs v x lt =
    if_both PrioridadValida (ltb x nenv) _ _ (omega arith, omega arith) (v x lt)

boost-Prioridades : (k : Kernel) → Prioridades k.envs → Prioridades (boost k).envs
unfolding boost
boost-Prioridades k v =
    if_both (λ (k' : Kernel). Prioridades k'.envs) _ _ _ (reiniciar-Prioridades k.envs v) v

sube :
    (p : ℕ) (m : Bool)
    → 1 ≤ p
    → p ≤ max_priority
    → (m && slt p max_priority) ≡ true
    → (1 ≤ add32 p 1) × (add32 p 1 ≤ max_priority)
sube p m uno diez h = (ground arith, ground arith)

gastar-PrioridadValida : (e : Env) → PrioridadValida e → PrioridadValida (gastar e)
unfolding gastar
gastar-PrioridadValida e (a, b) =
    if_split PrioridadValida (es_multiplo (add32 e.time_slices 1) && slt e.priority max_priority)
      (record e { time_slices = add32 e.time_slices 1; priority = add32 e.priority 1 })
      (record e { time_slices = add32 e.time_slices 1 })
      (sube e.priority (es_multiplo (add32 e.time_slices 1)) a b) (λ falta. (a, b))

gastar_curenv-Prioridades :
    (k : Kernel) (c : Option ℕ) → Prioridades k.envs → Prioridades (gastar_curenv c k).envs
unfolding gastar_curenv
gastar_curenv-Prioridades k none v = v
gastar_curenv-Prioridades k (some c) v = boost-Prioridades (con_env k c (gastar (k.envs c))) (
    poner-Prioridades k.envs c (gastar (k.envs c)) v
      (λ lt. gastar-PrioridadValida (k.envs c) (v c lt)))

-- If the priorities of all environments are between 1 and MAX_PRIORITY, so are they after
-- update_priority, whether it lowers the current environment, boosts all of them or does neither.
pub update_priority-Prioridades :
    (k : Kernel) → Prioridades k.envs → Prioridades (update_priority k).envs
unfolding update_priority
update_priority-Prioridades k v = gastar_curenv-Prioridades k k.curenv v
