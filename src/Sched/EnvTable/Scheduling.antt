-- ===== src/Sched/EnvTable/Scheduling.antt =====
-- The scheduler of sched/kern/sched.c, env_destroy and env_alloc of sched/kern/env.c keep the table
-- of environments.
use sistemas_operativos_fiub.Common.{
  ℕ, zero, suc, ◌+◌, ◌%◌, ◌<◌, ◌≡◌, refl, sym, Bool, true, false, ◌&&◌, Option, none, some, ◌==◌,
  ltb, if_both, if_split, arith,
}
use sistemas_operativos_fiub.Sched.Kernel.{
  Env, EnvStatus, EnvStatus.env_free as free, EnvStatus.env_dying, EnvStatus.env_runnable,
  EnvStatus.env_running, EnvStatus.env_not_runnable, Kernel, add32, con_env, es_free, es_runnable,
  es_running, nenv,
}
use sistemas_operativos_fiub.Sched.History.{add_run_env_to_history}
use sistemas_operativos_fiub.Sched.Scheduler.{
  Destino, corre, halt, monitor, Politica, sched_rr_defined, sched_pr_defined, boost, buscar_pr,
  buscar_rr, dejar_curenv, ejecutar, elegir_pr, elegir_rr, entrar, env_run, gastar, gastar_curenv,
  llamar, o_detener, reiniciar_prioridades, sched_halt, sched_pr, sched_rr, sched_yield,
  sigue_corriendo, update_priority, ninguna_activa, max_priority, next_curenv_ind, o_bien,
}
use sistemas_operativos_fiub.Sched.EnvTable.Invariant.{
  InUse, IsTable, InUse-Keeps, Keeps, Keeps-IsTable, Keeps-refl, agregar-IsTable, agregar-Keeps,
  con_env-IsTable, con_env-Keeps, switch-IsTable,
}

runnable_used : (s : EnvStatus) → es_runnable s ≡ true → es_free s ≡ false
runnable_used free h = cc
runnable_used env_dying h = refl
runnable_used env_runnable h = refl
runnable_used env_running h = refl
runnable_used env_not_runnable h = refl

pub running_used : (s : EnvStatus) → es_running s ≡ true → es_free s ≡ false
running_used free h = cc
running_used env_dying h = refl
running_used env_runnable h = refl
running_used env_running h = refl
running_used env_not_runnable h = refl

both : (a b : Bool) → (a && b) ≡ true → a ≡ true
both a b h = ground arith

in_table : (n : ℕ) → n % nenv < nenv
in_table n = omega arith

buscar_rr-InUse : (envs : ℕ → Env) (inicio i n : ℕ) → InUse envs (buscar_rr envs inicio i n)
unfolding buscar_rr
buscar_rr-InUse envs inicio i zero = tt
buscar_rr-InUse envs inicio i (suc n) =
    let e : ℕ = (i + inicio) % nenv in
    if_split (InUse envs) (es_runnable (envs e).env_status) (some e) _
      (λ h. (in_table (i + inicio), runnable_used (envs e).env_status h))
      (λ h. buscar_rr-InUse envs inicio (suc i) n)

buscar_pr-InUse :
    (envs : ℕ → Env) (inicio best : ℕ) (o : Option ℕ) (i n : ℕ)
    → InUse envs o
    → InUse envs (buscar_pr envs inicio best o i n)
unfolding buscar_pr
buscar_pr-InUse envs inicio best o i zero u = u
buscar_pr-InUse envs inicio best o i (suc n) u =
    let e : ℕ = (i + inicio) % nenv in
    let found : (b : Bool) → (es_runnable (envs e).env_status && b) ≡ true → InUse envs (some e) =
      λ b h. (in_table (i + inicio), runnable_used (envs e).env_status (both _ b h)) in
    if_split (InUse envs) _ (some e) _ (found _) (λ h.
      if_split (InUse envs) _ _ _
        (λ better.
          buscar_pr-InUse envs inicio (envs e).priority (some e) (suc i) n (found _ better))
        (λ worse. buscar_pr-InUse envs inicio best o (suc i) n u))

sigue-InUse :
    (cpu : ℕ) (k : Kernel) (o : Option ℕ) → InUse k.envs o → InUse k.envs (sigue_corriendo cpu k o)
unfolding sigue_corriendo
sigue-InUse cpu k none u = tt
sigue-InUse cpu k (some c) u = if_both (InUse k.envs) _ (some c) none u tt

o_bien-InUse :
    (envs : ℕ → Env) (a b : Option ℕ) → InUse envs a → InUse envs b → InUse envs (o_bien a b)
o_bien-InUse envs none b u v = v
o_bien-InUse envs (some e) b u v = u

-- env_run of an environment in use.
dejar-Keeps : (o : Option ℕ) (k : Kernel) → Keeps k (dejar_curenv o k)
unfolding dejar_curenv
dejar-Keeps none k = Keeps-refl k
dejar-Keeps (some c) k =
    if_split (Keeps k) (es_running (k.envs c).env_status) _ _
      (λ h. con_env-Keeps k c _ refl (sym (running_used (k.envs c).env_status h)))
      (λ h. Keeps-refl k)

entrar-IsTable :
    (cpu e : ℕ) (k : Kernel) → InUse k.envs (some e) → IsTable k → IsTable (entrar cpu e k)
unfolding entrar
entrar-IsTable cpu e k u t =
    let e' : Env = record (k.envs e) {
      env_status = env_running;
      env_runs = add32 (k.envs e).env_runs 1;
      env_cpunum = cpu;
    } in
    let s : Keeps k (con_env k e e') = con_env-Keeps k e e' refl (sym (u.1)) in
    switch-IsTable k (record (con_env k e e') { curenv = some e }) (some e)
      (record { same_list = s.same_list; same_links = s.same_links; same_free = s.same_free }) refl
      u t

-- env_run keeps the table when its environment is in use.
pub env_run-IsTable :
    (cpu e : ℕ) (k : Kernel) → InUse k.envs (some e) → IsTable k → IsTable (env_run cpu e k)
unfolding env_run dejar_curenv
env_run-IsTable cpu e k u t =
    let s : Keeps k (dejar_curenv k.curenv k) = dejar-Keeps k.curenv k in
    entrar-IsTable cpu e (dejar_curenv k.curenv k) (InUse-Keeps k _ (some e) s u)
      (Keeps-IsTable k _ s (same_curenv k.curenv k) t)
  where
    same_curenv : (o : Option ℕ) (k : Kernel) → (dejar_curenv o k).curenv ≡ k.curenv
    same_curenv none k = refl
    same_curenv (some c) k = if_both (λ (k' : Kernel). k'.curenv ≡ k.curenv) _ _ _ refl refl

-- The kernel of what a call that does not return leaves.
abbrev pub left : Destino → Kernel
left (corre k) = k
left (halt k) = k
left (monitor k) = k

-- An environment that runs is curenv, with that status; a halted CPU has none.
abbrev pub OnCpu : Destino → Type 0
OnCpu (corre k) = (e : ℕ) × (k.curenv ≡ some e) × (es_running (k.envs e).env_status ≡ true)
OnCpu (halt k) = k.curenv ≡ none
OnCpu (monitor k) = Unit

-- Where the CPU goes, and the table that it finds there.
abbrev pub Placed : Destino → Type 0
Placed d = IsTable (left d) × OnCpu d

itself : (e : ℕ) → (e == e) ≡ true
itself e = ground arith

-- env_run of an environment in use places it on the CPU.
pub env_run-Placed :
    (cpu e : ℕ) (k : Kernel) → InUse k.envs (some e) → IsTable k → Placed (corre (env_run cpu e k))
unfolding env_run entrar
env_run-Placed cpu e k u t = (env_run-IsTable cpu e k u t, (e, refl, rw (itself e) refl))

halt-Placed : (k : Kernel) → IsTable k → Placed (sched_halt k)
unfolding sched_halt
halt-Placed k t =
    let halted : IsTable (record k { curenv = none }) = record {
      slots = t.slots;
      free_envs = record { linked = t.free_envs.linked; complete = t.free_envs.complete };
      current = tt;
    } in
    if_both Placed (ninguna_activa k.envs nenv) _ _ (t, tt) (halted, refl)

ejecutar-Placed :
    (cpu : ℕ) (o : Option ℕ) (k : Kernel)
    → InUse k.envs o
    → IsTable k
    → Placed (o_detener k (ejecutar cpu o k))
unfolding ejecutar o_detener add_run_env_to_history
ejecutar-Placed cpu none k u t = halt-Placed k t
ejecutar-Placed cpu (some e) k u t =
    let line : Kernel = add_run_env_to_history (k.envs e) k in
    env_run-Placed cpu e line (InUse-Keeps k line (some e) (agregar-Keeps _ k).0 u)
      (agregar-IsTable _ k t)

llamar-Placed :
    (politica : Politica) (cpu : ℕ) (k : Kernel)
    → IsTable k
    → Placed (o_detener k (llamar politica cpu k))
unfolding llamar sched_rr sched_pr elegir_rr elegir_pr
llamar-Placed sched_rr_defined cpu k t =
    ejecutar-Placed cpu _ k
      (o_bien-InUse k.envs _ _ (buscar_rr-InUse k.envs (next_curenv_ind k k.curenv) 0 nenv)
        (sigue-InUse cpu k k.curenv t.current))
      t
llamar-Placed sched_pr_defined cpu k t =
    ejecutar-Placed cpu _ k
      (o_bien-InUse k.envs _ _
        (buscar_pr-InUse k.envs (next_curenv_ind k k.curenv) (max_priority + 1) none 0 nenv tt)
        (sigue-InUse cpu k k.curenv t.current))
      t

-- sched_yield keeps the table, and what it runs is running.
pub sched_yield-Placed :
    (politica : Politica) (cpu : ℕ) (k : Kernel) → IsTable k → Placed (sched_yield politica cpu k)
unfolding sched_yield
sched_yield-Placed politica cpu k t = llamar-Placed politica cpu _ (record {
  slots = t.slots;
  free_envs = record { linked = t.free_envs.linked; complete = t.free_envs.complete };
  current = t.current;
})

boost-Keeps : (k : Kernel) → Keeps k (boost k) × ((boost k).curenv ≡ k.curenv)
unfolding boost reiniciar_prioridades
boost-Keeps k =
    if_both (λ (k' : Kernel). Keeps k k' × (k'.curenv ≡ k.curenv)) _ _ _
      (
        record {
          same_list = refl;
          same_links = λ j.
              if_both (λ (e : Env). e.env_link ≡ (k.envs j).env_link) (ltb j nenv) _ _ refl refl;
          same_free = λ j.
              if_both (λ (e : Env). es_free e.env_status ≡ es_free (k.envs j).env_status)
                (ltb j nenv) _ _ refl refl;
        },
        refl,
      )
      (record { same_list = refl; same_links = λ j. refl; same_free = λ j. refl }, refl)

gastar-IsTable : (o : Option ℕ) (k : Kernel) → IsTable k → IsTable (gastar_curenv o k)
unfolding gastar_curenv gastar
gastar-IsTable none k t = t
gastar-IsTable (some c) k t =
    let spent : Kernel = con_env k c (gastar (k.envs c)) in
    let (s, e) = boost-Keeps spent in
    Keeps-IsTable spent (boost spent) s e (
      con_env-IsTable k c (gastar (k.envs c))
        (if_both (λ (x : Env). x.env_link ≡ (k.envs c).env_link) _ _ _ refl refl)
        (if_both (λ (x : Env). es_free x.env_status ≡ es_free (k.envs c).env_status) _ _ _ refl
          refl)
        t)

-- update_priority keeps the table.
pub update_priority-IsTable : (k : Kernel) → IsTable k → IsTable (update_priority k)
unfolding update_priority
update_priority-IsTable k t = gastar-IsTable k.curenv k t
