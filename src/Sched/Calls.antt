-- ===== src/Sched/Calls.antt =====
-- The system calls of sched/kern/syscall.c that change a priority.
use mathlib.Core.Path.{subst}
use sistemas_operativos_fiub.Common.{
  ℕ, ◌≤◌, ◌≡◌, ◌≢◌, refl, sym, ap, ◌∙◌, Bool, true, false, ◌||◌, none, some, ◌==◌, if_both,
  if_split, arith, ◌⊎◌, inl, inr,
}
use sistemas_operativos_fiub.Sched.Kernel.{Env, Kernel, add32, con_env, envx, negado, slt, sub32}
use sistemas_operativos_fiub.Sched.Env.{Resuelto, bad_env, dado, null_curenv, envid2env}
use sistemas_operativos_fiub.Sched.Scheduler.{max_priority}
use sistemas_operativos_fiub.Sched.Selection.{PrioridadValida, Prioridades}
use sistemas_operativos_fiub.Sched.Priorities.{poner-Prioridades}
use sistemas_operativos_fiub.Sched.Ids.{Contrato, Nombra, envid2env-Contrato}
use sistemas_operativos_fiub.Sched.Syscall.{
  Respuesta, Respuesta.devuelve, Respuesta.sin_retorno, Respuesta.colapsa, empeorar,
  inc_priority_en, max_prio, mejorar, red_priority_en, es_hijo_de_curenv, sys_inc_priority,
  sys_red_priority,
}

-- The call comes back with 0 or -1 and priorities in range.
abbrev pub Conserva : Respuesta → Type 0
Conserva (devuelve r k) = ((r ≡ 0) ⊎ (r ≡ negado 1)) × Prioridades k.envs
Conserva (sin_retorno d) = ⊥
Conserva colapsa = ⊥

baja :
    (p : ℕ)
    → 1 ≤ p
    → p ≤ max_priority
    → (p == 1) ≡ false
    → (1 ≤ sub32 p 1) × (sub32 p 1 ≤ max_priority)
baja p uno diez h = (ground arith, ground arith)

sube :
    (p : ℕ)
    → 1 ≤ p
    → p ≤ max_priority
    → slt p max_prio ≡ true
    → (1 ≤ add32 p 1) × (add32 p 1 ≤ max_priority)
sube p uno diez h = (ground arith, ground arith)

mejorar-PrioridadValida : (e : Env) → PrioridadValida e → PrioridadValida (mejorar e)
unfolding mejorar
mejorar-PrioridadValida e (a, b) =
    if_split PrioridadValida (e.priority == 1) e (record e { priority = sub32 e.priority 1 })
      (λ si. (a, b)) (baja e.priority a b)

empeorar-PrioridadValida : (e : Env) → PrioridadValida e → PrioridadValida (empeorar e)
unfolding empeorar
empeorar-PrioridadValida e (a, b) =
    if_split PrioridadValida (slt e.priority max_prio) (record e { priority = add32 e.priority 1 })
      e (sube e.priority a b) (λ falta. (a, b))

red_en :
    (k : Kernel) (c envid : ℕ) (b : Bool) (r : Resuelto)
    → Prioridades k.envs
    → Contrato k c envid b r
    → Conserva (red_priority_en k r)
unfolding red_priority_en
red_en k c envid b (dado (some e)) v h = (
  inl refl,
  poner-Prioridades k.envs e (empeorar (k.envs e)) v
      (λ lt. empeorar-PrioridadValida (k.envs e) (v e lt)),
)
red_en k c envid b (dado none) v h = h
red_en k c envid b bad_env v h = (inr refl, v)
red_en k c envid b null_curenv v h = h

-- With a current environment and every priority between 1 and MAX_PRIORITY, sys_red_priority
-- comes back, with 0 or -1, and leaves every priority between 1 and MAX_PRIORITY.
pub sys_red_priority-Conserva :
    (k : Kernel) (c envid : ℕ)
    → k.curenv ≡ some c
    → Prioridades k.envs
    → Conserva (sys_red_priority k envid)
unfolding sys_red_priority
sys_red_priority-Conserva k c envid eq v =
    red_en k c envid false _ v (envid2env-Contrato k c envid false eq)

inc_en :
    (k : Kernel) (c envid : ℕ) (b : Bool) (r : Resuelto)
    → Prioridades k.envs
    → Contrato k c envid b r
    → Conserva (inc_priority_en k r (some c))
unfolding inc_priority_en
inc_en k c envid b (dado (some e)) v h =
    if_both Conserva (e == c || es_hijo_de_curenv k e (some c)) (devuelve (negado 1) k)
      (devuelve 0 (con_env k e (mejorar (k.envs e)))) (inr refl, v)
      (
        inl refl,
        poner-Prioridades k.envs e (mejorar (k.envs e)) v
            (λ lt. mejorar-PrioridadValida (k.envs e) (v e lt)),
      )
inc_en k c envid b (dado none) v h = h
inc_en k c envid b bad_env v h = (inr refl, v)
inc_en k c envid b null_curenv v h = h

-- With a current environment and every priority between 1 and MAX_PRIORITY, sys_inc_priority
-- comes back, with 0 or -1, and leaves every priority between 1 and MAX_PRIORITY.
pub sys_inc_priority-Conserva :
    (k : Kernel) (c envid : ℕ)
    → k.curenv ≡ some c
    → Prioridades k.envs
    → Conserva (sys_inc_priority k envid)
unfolding sys_inc_priority
sys_inc_priority-Conserva k c envid eq v =
    subst (λ o. Conserva (inc_priority_en k (envid2env k envid false) o)) (sym eq)
      (inc_en k c envid false _ v (envid2env-Contrato k c envid false eq))

hijo_en :
    (k : Kernel) (c envid : ℕ) (r : Resuelto)
    → envid ≢ 0
    → Nombra k envid (envx envid)
    → (k.envs (envx envid)).env_parent_id ≡ (k.envs c).env_id
    → Contrato k c envid false r
    → inc_priority_en k r (some c) ≡ devuelve (negado 1) k
unfolding inc_priority_en
hijo_en k c envid (dado (some e)) pos nom padre (inl (cero, eq)) = absurd (pos cero)
hijo_en k c envid (dado (some e)) pos nom padre (inr (pos', (en, uso, id), h)) =
    if_split (λ x. x ≡ devuelve (negado 1) k) (e == c || es_hijo_de_curenv k e (some c))
      (devuelve (negado 1) k) (devuelve 0 (con_env k e (mejorar (k.envs e)))) (λ si. refl)
      (λ falta. absurd (
        no_hijo (e == c) (k.envs e).env_parent_id (k.envs c).env_id falta
          (ap (λ x. (k.envs x).env_parent_id) en ∙ padre)))
  where
    no_hijo : (b : Bool) (p q : ℕ) → (b || p == q) ≡ false → p ≡ q → ⊥
    no_hijo b p q h eq = ground arith
hijo_en k c envid (dado none) pos nom padre h = absurd h
hijo_en k c envid bad_env pos nom padre (pos', h) = absurd (contra (h nom).0)
  where
    contra : false ≡ true → ⊥
    contra e = ground arith
hijo_en k c envid null_curenv pos nom padre h = absurd h

-- With a current environment c, sys_inc_priority returns -1 and changes nothing when the id, which
-- is not 0, names an immediate child of c.
pub inc_priority_of_child :
    (k : Kernel) (c envid : ℕ)
    → k.curenv ≡ some c
    → envid ≢ 0
    → Nombra k envid (envx envid)
    → (k.envs (envx envid)).env_parent_id ≡ (k.envs c).env_id
    → sys_inc_priority k envid ≡ devuelve (negado 1) k
unfolding sys_inc_priority
inc_priority_of_child k c envid eq pos nom padre =
    ap (λ o. inc_priority_en k (envid2env k envid false) o) eq
    ∙ hijo_en k c envid _ pos nom padre (envid2env-Contrato k c envid false eq)
