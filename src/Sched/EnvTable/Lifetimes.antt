-- ===== src/Sched/EnvTable/Lifetimes.antt =====
-- env_alloc, env_free and env_destroy (sched/kern/env.c) keep the table of environments, and the
-- system calls on environments (sched/kern/syscall.c) do.
use sistemas_operativos_fiub.Common.{
  ℕ, ◌<◌, ◌≡◌, refl, sym, ◌∙◌, Bool, true, false, not, ◌&&◌, ◌||◌, Option, none, some, ◌∷◌, ◌==◌,
  if◌then◌else◌, if_both, if_split, arith,
}
use mathlib.Core.Path.{subst}
use sistemas_operativos_fiub.Sched.Kernel.{
  EnvStatus.env_dying, Kernel, envx, es_free, es_running, nenv,
}
use sistemas_operativos_fiub.Sched.History.{add_end_of_env_to_history}
use sistemas_operativos_fiub.Sched.Scheduler.{Politica}
use sistemas_operativos_fiub.Sched.Env.{
  Efecto, Efecto.vuelve, Efecto.no_vuelve, Resuelto, bad_env, dado, null_curenv, env_destroy,
  env_free, envid2env, devolver, es_curenv, verificar_permiso,
}
use sistemas_operativos_fiub.Sched.EnvTable.FreeList.{env_free-FreeEnvs}
use sistemas_operativos_fiub.Sched.EnvTable.Invariant.{
  InUse, IsTable, agregar-Keeps, con_env-IsTable,
}
use sistemas_operativos_fiub.Sched.EnvTable.Scheduling.{Placed, sched_yield-Placed}

-- env_free, and curenv after it.
pub freed :
    (k : Kernel) (e : ℕ) (o : Option ℕ)
    → IsTable k
    → InUse k.envs (some e)
    → InUse (env_free e k).envs o
    → IsTable (record (env_free e k) { curenv = o })
freed k e o t u c =
    let f = env_free-FreeEnvs k e t.slots t.free_envs (u.0) u.1 in
    record {
      slots = e ∷ t.slots;
      free_envs = record { linked = f.linked; complete = f.complete };
      current = c;
    }

freed_curenv : (k : Kernel) (e : ℕ) → (env_free e k).curenv ≡ k.curenv
unfolding env_free devolver add_end_of_env_to_history
freed_curenv k e = (agregar-Keeps _ k).1

-- Other environments are as they were.
env_free_other :
    (k : Kernel) (e : ℕ) (o : Option ℕ)
    → InUse k.envs o
    → (elim o [ none ↦ false | some c ↦ e == c ]) ≡ false
    → InUse (env_free e k).envs o
unfolding env_free devolver add_end_of_env_to_history
env_free_other k e none u h = tt
env_free_other k e (some c) u h =
    let (s, cur) = agregar-Keeps _ k in rw h (u.0, s.same_free c ∙ u.1)

-- What a call that may not come back leaves has such a table.
abbrev pub Leaves : Efecto → Type 0
Leaves (vuelve k) = IsTable k
Leaves (no_vuelve d) = Placed d

first : (a b : Bool) → (a && b) ≡ true → a ≡ true
first a b h = ground arith

-- env_destroy of an environment in use keeps the table.
pub env_destroy-Leaves :
    (politica : Politica) (cpu e : ℕ) (k : Kernel)
    → InUse k.envs (some e)
    → IsTable k
    → Leaves (env_destroy politica cpu e k)
unfolding env_destroy
env_destroy-Leaves politica cpu e k u t =
    if_split Leaves (es_running (k.envs e).env_status && not (es_curenv k e)) _ _
      (λ h. con_env-IsTable k e (record (k.envs e) { env_status = env_dying }) refl (sym (u.1)) t)
      (λ h.
        if_split Leaves (es_curenv k e) _ _
          (λ own. sched_yield-Placed politica cpu _ (freed k e none t u tt))
          (λ foreign. freed k e (env_free e k).curenv t u (
            subst (InUse (env_free e k).envs) (sym (freed_curenv k e))
              (env_free_other k e k.curenv t.current foreign))))

-- An id that envid2env resolves is that of an environment in use; no null pointer is followed.
abbrev pub Resolved : Kernel → Resuelto → Type 0
Resolved k (dado (some e)) = InUse k.envs (some e)
Resolved k (dado none) = ⊥
Resolved k bad_env = Unit
Resolved k null_curenv = ⊥

pub envid2env-Resolved :
    (k : Kernel) (c envid : ℕ) (checkperm : Bool)
    → k.curenv ≡ some c
    → InUse k.envs (some c)
    → Resolved k (envid2env k envid checkperm)
unfolding envid2env verificar_permiso
envid2env-Resolved k c envid checkperm eq u =
    if_split (Resolved k) (envid == 0) _ _ (λ self. subst (λ o. Resolved k (dado o)) (sym eq) u)
      (λ other.
        if_split (Resolved k)
          (es_free (k.envs (envx envid)).env_status || not ((k.envs (envx envid)).env_id == envid))
          _ _ (λ stale. tt) (λ good. by_permission checkperm (found _ _ good)))
  where
    found : (a b : Bool) → (a || b) ≡ false → (envx envid < nenv) × (a ≡ false)
    found a b h = (omega arith, ground arith)

    by_permission :
        (b : Bool)
        → InUse k.envs (some (envx envid))
        → Resolved k
            (if b then verificar_permiso k (envx envid) k.curenv else dado (some (envx envid)))
    by_permission false v = v
    by_permission true v =
        subst (λ o. Resolved k (verificar_permiso k (envx envid) o)) (sym eq)
          (if_both (Resolved k) _ bad_env (dado (some (envx envid))) tt v)

-- curenv is in use when it is not null.
pub current_used : (k : Kernel) (c : ℕ) → k.curenv ≡ some c → IsTable k → InUse k.envs (some c)
current_used k c eq t = subst (InUse k.envs) eq t.current
