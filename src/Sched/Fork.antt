-- ===== src/Sched/Fork.antt =====
-- sys_exofork (sched/kern/syscall.c): what the child takes from its parent.
use mathlib.Core.Path.{subst}
use sistemas_operativos_fiub.Common.{
  ℕ, ◌≡◌, ◌≢◌, refl, sym, ap, ◌∙◌, ltb, true, false, none, some, inl, inr, ◌==◌, if_both, arith,
}
use sistemas_operativos_fiub.Sched.Kernel.{
  Env, EnvStatus, Kernel, Linea, Linea.creado, con_env, envx, es_free, poner,
}
use sistemas_operativos_fiub.Sched.History.{
  add_new_env_to_history, agregar_linea, escribir_linea, history_len, update_history_ind,
}
use sistemas_operativos_fiub.Sched.Env.{
  Resuelto, bad_env, dado, null_curenv, env_alloc, env_nuevo, tomar,
}
use sistemas_operativos_fiub.Sched.Syscall.{
  Respuesta, Respuesta.devuelve, Respuesta.sin_retorno, Respuesta.colapsa, bifurcar, con_prioridad,
  exofork_en, heredar, prioridad_de, sys_exofork, sys_get_priority,
}
use sistemas_operativos_fiub.Sched.Ids.{Contrato, Nombra, envid2env-Contrato}

-- sys_get_priority gives the priority of the environment that the id names.
prioridad_de-Nombra :
    (k : Kernel) (c envid : ℕ) (r : Resuelto)
    → envid ≢ 0
    → Nombra k envid (envx envid)
    → Contrato k c envid false r
    → prioridad_de k r ≡ some (k.envs (envx envid)).priority
unfolding prioridad_de
prioridad_de-Nombra k c envid (dado (some e)) pos nom (inl (cero, eq)) = absurd (pos cero)
prioridad_de-Nombra k c envid (dado (some e)) pos nom (inr (pos', (en, uso, id), h)) =
    ap (λ x. some (k.envs x).priority) en
prioridad_de-Nombra k c envid (dado none) pos nom h = absurd h
prioridad_de-Nombra k c envid bad_env pos nom (pos', h) = absurd (contra (h nom).0)
  where
    contra : false ≡ true → ⊥
    contra e = ground arith
prioridad_de-Nombra k c envid null_curenv pos nom h = absurd h

-- With a current environment, sys_get_priority of an id, which is not 0, that names an
-- environment is the priority of that environment.
pub get_priority_named :
    (k : Kernel) (c envid : ℕ)
    → k.curenv ≡ some c
    → envid ≢ 0
    → Nombra k envid (envx envid)
    → sys_get_priority k envid ≡ some (k.envs (envx envid)).priority
unfolding sys_get_priority
get_priority_named k c envid eq pos nom =
    prioridad_de-Nombra k c envid _ pos nom (envid2env-Contrato k c envid false eq)

-- The result of the system call, the child at i and the parent at c.
abbrev pub Hijo : Kernel → ℕ → ℕ → Respuesta → Type 0
Hijo k c i (devuelve r k') =
    (r ≡ (k'.envs i).env_id)
    × ((k'.envs i).env_status ≡ EnvStatus.env_not_runnable)
    × ((k'.envs i).priority ≡ (k.envs c).priority)
    × ((k'.envs i).time_slices ≡ 0)
    × ((k'.envs i).env_parent_id ≡ (k.envs c).env_id)
    × ((k'.envs i).env_tf
        ≡ record (k.envs c).env_tf { tf_regs = record (k.envs c).env_tf.tf_regs { reg_eax = 0 } })
    × (k'.env_free_list ≡ (k.envs i).env_link)
Hijo k c i (sin_retorno d) = ⊥
Hijo k c i colapsa = ⊥

mismo : (e : ℕ) → (e == e) ≡ true
mismo e = ground arith

-- The kernel h has the child at i, before its priority is set.
abbrev Naciente : Kernel → Kernel → ℕ → ℕ → Type 0
Naciente k h c i =
    ((h.envs i).env_status ≡ EnvStatus.env_not_runnable)
    × ((h.envs i).env_parent_id ≡ (k.envs c).env_id)
    × ((h.envs i).env_tf
        ≡ record (k.envs c).env_tf { tf_regs = record (k.envs c).env_tf.tf_regs { reg_eax = 0 } })
    × (h.env_free_list ≡ (k.envs i).env_link)

agregar-Hijo :
    (k : Kernel) (c i r : ℕ) (l : Linea) (h : Kernel)
    → Hijo k c i (devuelve r h)
    → Hijo k c i (devuelve r (agregar_linea l h))
unfolding agregar_linea escribir_linea
agregar-Hijo k c i r l h x =
    if_both (λ (k' : Kernel). Hijo k c i (devuelve r k'))
      (ltb (update_history_ind h.history_ind) history_len)
      (record h {
        history_ind = update_history_ind h.history_ind;
        history = poner h.history (update_history_ind h.history_ind) l;
      })
      (record h { history_ind = update_history_ind h.history_ind; history_desborda = true }) x x

con_prioridad-Hijo :
    (k h : Kernel) (c i p : ℕ)
    → p ≡ (k.envs c).priority
    → Naciente k h c i
    → Hijo k c i (con_prioridad i (some p) h)
unfolding con_prioridad add_new_env_to_history
con_prioridad-Hijo k h c i p eq (st, padre, tf, libres) =
    let h' : Kernel = con_env h i (record (h.envs i) { priority = p; time_slices = 0 }) in
    let x : Hijo k c i (devuelve (h.envs i).env_id h') =
      rw (mismo i) (refl, st, eq, refl, padre, tf, libres) in
    agregar-Hijo k c i (h.envs i).env_id (creado (h.envs i).env_id) h' x

-- The kernel after env_alloc in the slot i and the copy of the parent's registers.
abbrev hijo_de : Kernel → ℕ → ℕ → Kernel
hijo_de k c i =
    let k1 : Kernel = record (con_env k i (env_nuevo (k.envs i) i (k.envs c).env_id)) {
      env_free_list = (k.envs i).env_link;
    } in
    con_env k1 i (heredar (k1.envs c) (k1.envs i))

hijo-Naciente : (k : Kernel) (c i : ℕ) → (i == c) ≡ false → Naciente k (hijo_de k c i) c i
unfolding heredar env_nuevo
hijo-Naciente k c i otro = rw (mismo i, otro) (refl, refl, refl, refl)

hijo-padre : (k : Kernel) (c i : ℕ) → (i == c) ≡ false → (hijo_de k c i).envs c ≡ k.envs c
unfolding heredar env_nuevo
hijo-padre k c i otro = rw otro refl

-- In the kernel with the child, the priority that its parent's id gives.
heredada :
    (k : Kernel) (c i : ℕ)
    → k.curenv ≡ some c
    → (i == c) ≡ false
    → (k.envs c).env_id ≢ 0
    → Nombra k (k.envs c).env_id c
    → sys_get_priority (hijo_de k c i) ((hijo_de k c i).envs i).env_parent_id
      ≡ some (k.envs c).priority
heredada k c i actual otro pos (en, uso, id) =
    let h : Kernel = hijo_de k c i in
    let hc : h.envs c ≡ k.envs c = hijo-padre k c i otro in
    let nom : Nombra h (k.envs c).env_id (envx (k.envs c).env_id) =
      subst (Nombra h (k.envs c).env_id) en
        (en, ap (λ (e : Env). es_free e.env_status) hc ∙ uso, ap (λ (e : Env). e.env_id) hc) in
    ap (sys_get_priority h) (hijo-Naciente k c i otro).1
    ∙ get_priority_named h c (k.envs c).env_id actual pos nom
    ∙ ap (λ x. some (h.envs x).priority) (sym en)
    ∙ ap (λ (e : Env). some e.priority) hc

-- When the current environment c is in use under its own id, which is not 0, the first free slot i
-- is another one and a page is found for its directory, sys_exofork returns the id of the child in
-- that slot: it is not runnable, has the priority of its parent and no slices, c as its parent and
-- c's registers, in which the call returns 0. The slot has left the free list.
pub sys_exofork-Hijo :
    (k : Kernel) (c i : ℕ)
    → k.curenv ≡ some c
    → k.env_free_list ≡ some i
    → i ≢ c
    → (k.envs c).env_id ≢ 0
    → Nombra k (k.envs c).env_id c
    → Hijo k c i (sys_exofork true k)
unfolding sys_exofork exofork_en env_alloc tomar bifurcar
sys_exofork-Hijo k c i actual libre otro pos nom =
    let distinto : (i == c) ≡ false = difieren i c otro in
    let h : Kernel = hijo_de k c i in
    let paso : sys_exofork true k ≡ con_prioridad i (some (k.envs c).priority) h =
      ap (exofork_en true k) actual
      ∙ ap (λ o. bifurcar c (tomar true (k.envs c).env_id o k)) libre
      ∙ ap (λ o. con_prioridad i o h) (heredada k c i actual distinto pos nom) in
    subst (Hijo k c i) (sym paso)
      (con_prioridad-Hijo k h c i (k.envs c).priority refl (hijo-Naciente k c i distinto))
  where
    difieren : (i c : ℕ) → i ≢ c → (i == c) ≡ false
    difieren i c otro = ground arith
