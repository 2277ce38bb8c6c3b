-- ===== src/Sched/EnvTable/Calls.antt =====
-- The system calls on environments (sched/kern/syscall.c) keep the table of environments.
use sistemas_operativos_fiub.Common.{
  ℕ, ◌%◌, ◌≡◌, refl, sym, ap, ◌∙◌, Bool, true, false, not, ◌||◌, Option, none, some, List, [], ◌∷◌,
  ◌==◌, leb, ==_iff, Bool-cases, if_both, inl, inr,
}
use mathlib.Core.Path.{subst}
use sistemas_operativos_fiub.Sched.Kernel.{
  Env, EnvStatus, EnvStatus.env_not_runnable, Kernel, con_env, es_free, negado,
}
use sistemas_operativos_fiub.Sched.History.{add_new_env_to_history}
use sistemas_operativos_fiub.Sched.Scheduler.{Politica, sched_yield}
use sistemas_operativos_fiub.Sched.Env.{
  Asignado, asignado, rechazado, Efecto, Efecto.vuelve, Efecto.no_vuelve, Resuelto, bad_env, dado,
  null_curenv, env_alloc, env_destroy, envid2env, e_inval,
}
use sistemas_operativos_fiub.Sched.Syscall.{
  Respuesta, Respuesta.devuelve, Respuesta.sin_retorno, Respuesta.colapsa, bifurcar, con_prioridad,
  destruir, empeorar, env_destroy_en, exofork_en, heredar, inc_priority_en, mejorar, poner_status,
  prioridad_de, recibir, red_priority_en, sys_env_destroy, sys_env_set_status, sys_exofork,
  sys_get_priority, sys_inc_priority, sys_ipc_recv, sys_red_priority, es_hijo_de_curenv,
}
use sistemas_operativos_fiub.Sched.Memory.Pages.{pgsize}
use sistemas_operativos_fiub.Sched.Memory.UserCheck.{utop}
use sistemas_operativos_fiub.Sched.EnvTable.{FreeEnvs, Linked}
use sistemas_operativos_fiub.Sched.EnvTable.FreeList.{Allocates, env_alloc-Allocates}
use sistemas_operativos_fiub.Sched.EnvTable.Invariant.{
  InUse, IsTable, agregar-IsTable, con_env-IsTable,
}
use sistemas_operativos_fiub.Sched.EnvTable.Scheduling.{Placed, sched_yield-Placed}
use sistemas_operativos_fiub.Sched.EnvTable.Lifetimes.{
  Leaves, Resolved, current_used, env_destroy-Leaves, envid2env-Resolved,
}

-- The call comes back or leaves, with such a table, and follows no null pointer.
abbrev pub Replies : Respuesta → Type 0
Replies (devuelve r k) = IsTable k
Replies (sin_retorno d) = Placed d
Replies colapsa = ⊥

destroy-Replies :
    (politica : Politica) (cpu : ℕ) (k : Kernel) (r : Resuelto)
    → Resolved k r
    → IsTable k
    → Replies (env_destroy_en politica cpu k r)
unfolding env_destroy_en destruir
destroy-Replies politica cpu k (dado (some e)) u t =
    ended (env_destroy politica cpu e k) (env_destroy-Leaves politica cpu e k u t)
  where
    ended : (x : Efecto) → Leaves x → Replies (destruir x)
    ended (vuelve k') l = l
    ended (no_vuelve d) l = l
destroy-Replies politica cpu k (dado none) u t = u
destroy-Replies politica cpu k bad_env u t = t
destroy-Replies politica cpu k null_curenv u t = u

-- A store at an environment that envid2env gave.
status-Replies :
    (k : Kernel) (s : EnvStatus) (r : Resuelto)
    → es_free s ≡ false
    → Resolved k r
    → IsTable k
    → Replies (poner_status k s r)
unfolding poner_status
status-Replies k s (dado (some e)) h u t =
    con_env-IsTable k e (record (k.envs e) { env_status = s }) refl (h ∙ sym (u.1)) t
status-Replies k s (dado none) h u t = u
status-Replies k s bad_env h u t = t
status-Replies k s null_curenv h u t = u

inc-Replies :
    (k : Kernel) (c : ℕ) (r : Resuelto)
    → Resolved k r
    → IsTable k
    → Replies (inc_priority_en k r (some c))
unfolding inc_priority_en mejorar
inc-Replies k c (dado (some e)) u t =
    if_both Replies (e == c || es_hijo_de_curenv k e (some c)) _ _ t (
      con_env-IsTable k e (mejorar (k.envs e))
        (if_both (λ (x : Env). x.env_link ≡ (k.envs e).env_link) _ _ _ refl refl)
        (if_both (λ (x : Env). es_free x.env_status ≡ es_free (k.envs e).env_status) _ _ _ refl
          refl)
        t)
inc-Replies k c (dado none) u t = u
inc-Replies k c bad_env u t = t
inc-Replies k c null_curenv u t = u

red-Replies : (k : Kernel) (r : Resuelto) → Resolved k r → IsTable k → Replies (red_priority_en k r)
unfolding red_priority_en empeorar
red-Replies k (dado (some e)) u t =
    con_env-IsTable k e (empeorar (k.envs e))
      (if_both (λ (x : Env). x.env_link ≡ (k.envs e).env_link) _ _ _ refl refl)
      (if_both (λ (x : Env). es_free x.env_status ≡ es_free (k.envs e).env_status) _ _ _ refl refl)
      t
red-Replies k (dado none) u t = u
red-Replies k bad_env u t = t
red-Replies k null_curenv u t = u

-- env_alloc keeps the table; the environment it gives is in use.
abbrev Allotted : Kernel → Asignado → Type 0
Allotted k (asignado i k') = IsTable k' × (k'.curenv ≡ k.curenv) × InUse k'.envs (some i)
Allotted k (rechazado r k') = k' ≡ k

allocated :
    (k : Kernel) (setup_vm : Bool) (is : List ℕ) (r : Asignado)
    → FreeEnvs k is
    → InUse k.envs k.curenv
    → Allocates k setup_vm is r
    → Allotted k r
unfolding Linked
allocated k setup_vm [] r f u a = subst (Allotted k) (sym (a.0)) refl
allocated k false (i ∷ is) r f u a = subst (Allotted k) (sym a) refl
allocated k true (i ∷ is) r f u (k', eq, f', was_free, now_used, same_cur, others) =
    subst (Allotted k) (sym eq) (
      record {
        slots = is;
        free_envs = f';
        current = subst (InUse k'.envs) (sym same_cur) (still k.curenv u);
      },
      same_cur,
      (f.linked.2, now_used),
    )
  where
    differ : true ≡ false → ⊥
    differ h = cc

    still : (o : Option ℕ) → InUse k.envs o → InUse k'.envs o
    still none v = tt
    still (some c) v = (
      v.0,
      elim (Bool-cases (i == c)) [
        | inl same ↦ absurd (
            differ
              (sym was_free ∙ ap (λ x. es_free (k.envs x).env_status) ((==_iff i c).0 same) ∙ v.1))
        | inr apart ↦ ap (λ (x : Env). es_free x.env_status) (others c apart) ∙ v.1
      ],
    )

env_alloc-Allotted :
    (k : Kernel) (setup_vm : Bool) (parent_id : ℕ)
    → IsTable k
    → Allotted k (env_alloc setup_vm parent_id k)
env_alloc-Allotted k setup_vm parent_id t =
    allocated k setup_vm t.slots _ t.free_envs t.current
      (env_alloc-Allocates k setup_vm parent_id t.slots t.free_envs)

-- The child that sys_exofork makes, and its priority.
priority_known : (k : Kernel) (r : Resuelto) → Resolved k r → (p : ℕ) × (prioridad_de k r ≡ some p)
unfolding prioridad_de
priority_known k (dado (some e)) u = (_, refl)
priority_known k (dado none) u = absurd u
priority_known k bad_env u = (_, refl)
priority_known k null_curenv u = absurd u

born-Replies :
    (i : ℕ) (o : Option ℕ) (k : Kernel)
    → ((p : ℕ) × (o ≡ some p))
    → IsTable k
    → Replies (con_prioridad i o k)
unfolding con_prioridad add_new_env_to_history
born-Replies i none k (p, eq) t = absurd (differ eq)
  where
    differ : none ≡ some p → ⊥
    differ h = cc
born-Replies i (some p) k h t =
    agregar-IsTable _ _
      (con_env-IsTable k i (record (k.envs i) { priority = p; time_slices = 0 }) refl refl t)

exofork-Replies :
    (k : Kernel) (c : ℕ) (r : Asignado)
    → k.curenv ≡ some c
    → IsTable k
    → Allotted k r
    → Replies (bifurcar c r)
unfolding bifurcar heredar sys_get_priority
exofork-Replies k c (rechazado r k') eq t same = subst IsTable (sym same) t
exofork-Replies k c (asignado i k') eq t (t', cur, u) =
    let child : Kernel = con_env k' i (heredar (k'.envs c) (k'.envs i)) in
    let grown : IsTable child = con_env-IsTable k' i _ refl (sym (u.1)) t' in
    let own : child.curenv ≡ some c = cur ∙ eq in
    born-Replies i _ child
      (priority_known child _ (
        envid2env-Resolved child c (child.envs i).env_parent_id false own
          (current_used child c own grown)))
      grown

-- Each call by its current environment keeps the table, and follows no null pointer.
module _ (politica : Politica) (cpu : ℕ) (k : Kernel) (c : ℕ) (eq : k.curenv ≡ some c)
    (t : IsTable k) where
  by_id : (envid : ℕ) (checkperm : Bool) → Resolved k (envid2env k envid checkperm)
  by_id envid checkperm = envid2env-Resolved k c envid checkperm eq (current_used k c eq t)

  pub sys_env_destroy-Replies : (envid : ℕ) → Replies (sys_env_destroy politica cpu k envid)
  unfolding sys_env_destroy
  sys_env_destroy-Replies envid = destroy-Replies politica cpu k _ (by_id envid true) t

  pub sys_exofork-Replies : (setup_vm : Bool) → Replies (sys_exofork setup_vm k)
  unfolding sys_exofork exofork_en
  sys_exofork-Replies setup_vm =
      subst (λ o. Replies (exofork_en setup_vm k o)) (sym eq)
        (exofork-Replies k c _ eq t (env_alloc-Allotted k setup_vm (k.envs c).env_id t))

  pub sys_env_set_status-Replies : (envid status : ℕ) → Replies (sys_env_set_status k envid status)
  unfolding sys_env_set_status
  sys_env_set_status-Replies envid status =
      if_both Replies (status == 2) _ _ (status-Replies k _ _ refl (by_id envid true) t)
        (if_both Replies (status == 4) _ _ (status-Replies k _ _ refl (by_id envid true) t) t)

  pub sys_ipc_recv-Replies : (dstva : ℕ) → Replies (sys_ipc_recv politica cpu k dstva)
  unfolding sys_ipc_recv recibir
  sys_ipc_recv-Replies dstva =
      let (lt, used) = current_used k c eq t in
      let waiting : Env = record (k.envs c) {
        env_ipc_recving = true;
        env_ipc_dstva = dstva;
        env_status = env_not_runnable;
      } in
      let refused : Env = record (k.envs c) { env_ipc_recving = true } in
      subst (λ o. Replies (recibir politica cpu k dstva o)) (sym eq)
        (if_both Replies (leb utop dstva || not (dstva % pgsize == 0))
          (devuelve (negado e_inval) (con_env k c refused))
          (sin_retorno (sched_yield politica cpu (con_env k c waiting)))
          (con_env-IsTable k c refused refl refl t)
          (sched_yield-Placed politica cpu _ (con_env-IsTable k c waiting refl (sym used) t)))

  pub sys_inc_priority-Replies : (envid : ℕ) → Replies (sys_inc_priority k envid)
  unfolding sys_inc_priority
  sys_inc_priority-Replies envid =
      subst (λ o. Replies (inc_priority_en k (envid2env k envid false) o)) (sym eq)
        (inc-Replies k c _ (by_id envid false) t)

  pub sys_red_priority-Replies : (envid : ℕ) → Replies (sys_red_priority k envid)
  unfolding sys_red_priority
  sys_red_priority-Replies envid = red-Replies k _ (by_id envid false) t

  pub get_priority_known : (envid : ℕ) → (p : ℕ) × (sys_get_priority k envid ≡ some p)
  unfolding sys_get_priority
  get_priority_known envid = priority_known k _ (by_id envid false)
