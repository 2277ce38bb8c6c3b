-- ===== src/Sched/Ids.antt =====
-- The ids of environments: envid2env, and what env_alloc does to the id of a slot
-- (sched/kern/env.c).
use sistemas_operativos_fiub.Common.{
  ℕ, ◌≡◌, ◌≢◌, refl, sym, Bool, true, false, not, ◌&&◌, ◌||◌, none, some, ◌==◌, ==_iff,
  if◌then◌else◌, if_split, arith, ◌⊎◌, inl, inr,
}
use mathlib.Core.Path.{subst}
use sistemas_operativos_fiub.Sched.Kernel.{Kernel, envx, es_free}
use sistemas_operativos_fiub.Sched.Env.{
  Resuelto, bad_env, dado, null_curenv, devolver, env_free, envid2env, verificar_permiso,
}

-- The id names the environment at e: it is in use and has that very id.
abbrev pub Nombra : Kernel → ℕ → ℕ → Type 0
Nombra k envid e =
    (e ≡ envx envid) × (es_free (k.envs e).env_status ≡ false) × ((k.envs e).env_id ≡ envid)

-- e is the environment at c or an immediate child of it.
abbrev pub Permitido : Kernel → ℕ → ℕ → Type 0
Permitido k c e = (e ≡ c) ⊎ ((k.envs e).env_parent_id ≡ (k.envs c).env_id)

-- The contract of envid2env for the caller at c.
abbrev pub Contrato : Kernel → ℕ → ℕ → Bool → Resuelto → Type 0
Contrato k c envid checkperm (dado (some e)) =
    ((envid ≡ 0) × (e ≡ c))
    ⊎ ((envid ≢ 0) × Nombra k envid e × (checkperm ≡ true → Permitido k c e))
Contrato k c envid checkperm (dado none) = ⊥
Contrato k c envid checkperm bad_env =
    (envid ≢ 0)
    × (Nombra k envid (envx envid) → (checkperm ≡ true) × (Permitido k c (envx envid) → ⊥))
Contrato k c envid checkperm null_curenv = ⊥

permiso-Contrato :
    (k : Kernel) (c envid : ℕ)
    → envid ≢ 0
    → Nombra k envid (envx envid)
    → Contrato k c envid true (verificar_permiso k (envx envid) (some c))
unfolding verificar_permiso
permiso-Contrato k c envid pos nom =
    if_split (Contrato k c envid true)
      (not (envx envid == c) && not ((k.envs (envx envid)).env_parent_id == (k.envs c).env_id))
      bad_env (dado (some (envx envid)))
      (λ negada. (pos, λ n. (refl, λ p. sin_permiso (envx envid) c _ _ negada p)))
      (λ dada. inr (pos, nom, λ h. con_permiso (envx envid) c _ _ dada))
  where
    sin_permiso : (e c p q : ℕ) → (not (e == c) && not (p == q)) ≡ true → ((e ≡ c) ⊎ (p ≡ q)) → ⊥
    sin_permiso e c p q h (inl eq) = ground arith
    sin_permiso e c p q h (inr eq) = ground arith

    con_permiso : (e c p q : ℕ) → (not (e == c) && not (p == q)) ≡ false → (e ≡ c) ⊎ (p ≡ q)
    con_permiso e c p q h = ground arith

-- With a current environment c, envid2env gives it for the id 0; for another id it gives an
-- environment exactly when the slot of the id is in use with that id and, if checkperm is set,
-- the slot is the current environment or an immediate child of it; it fails otherwise.
pub envid2env-Contrato :
    (k : Kernel) (c envid : ℕ) (checkperm : Bool)
    → k.curenv ≡ some c
    → Contrato k c envid checkperm (envid2env k envid checkperm)
unfolding envid2env
envid2env-Contrato k c envid checkperm eq =
    if_split (Contrato k c envid checkperm) (envid == 0) _ _
      (λ cero.
        subst (λ o. Contrato k c envid checkperm (dado o)) (sym eq)
          (inl ((==_iff envid 0).0 cero, refl)))
      (λ otro.
        if_split (Contrato k c envid checkperm)
          (es_free (k.envs (envx envid)).env_status || not ((k.envs (envx envid)).env_id == envid))
          _ _ (λ mal. (distinto envid otro, λ (a, b, d). absurd (libre _ _ envid mal b d)))
          (λ bien. por_permiso checkperm (distinto envid otro) (de_uso (usado _ _ envid bien))))
  where
    distinto : (n : ℕ) → (n == 0) ≡ false → n ≢ 0
    distinto n h e = ground arith

    contra : false ≡ true → ⊥
    contra h = ground arith

    libre : (f : Bool) (i n : ℕ) → (f || not (i == n)) ≡ true → f ≡ false → i ≡ n → ⊥
    libre f i n h a b = ground arith

    usado : (f : Bool) (i n : ℕ) → (f || not (i == n)) ≡ false → (f ≡ false) × (i ≡ n)
    usado f i n h = (ground arith, ground arith)

    de_uso :
        ((es_free (k.envs (envx envid)).env_status ≡ false)
          × ((k.envs (envx envid)).env_id ≡ envid))
        → Nombra k envid (envx envid)
    de_uso (a, b) = (refl, a, b)

    por_permiso :
        (b : Bool)
        → envid ≢ 0
        → Nombra k envid (envx envid)
        → Contrato k c envid b
            (if b then verificar_permiso k (envx envid) k.curenv else dado (some (envx envid)))
    por_permiso true pos nom =
        subst (λ o. Contrato k c envid true (verificar_permiso k (envx envid) o)) (sym eq)
          (permiso-Contrato k c envid pos nom)
    por_permiso false pos nom = inr (pos, nom, λ h. absurd (contra h))

-- Once env_free has freed an environment, envid2env fails for every id of its slot but 0.
pub env_free-envid2env :
    (k : Kernel) (e envid : ℕ) (checkperm : Bool)
    → envid ≢ 0
    → e ≡ envx envid
    → envid2env (env_free e k) envid checkperm ≡ bad_env
unfolding envid2env env_free devolver
env_free-envid2env k e envid checkperm pos eq =
    rw (distinto envid pos, igual e (envx envid) eq) refl
  where
    distinto : (n : ℕ) → n ≢ 0 → (n == 0) ≡ false
    distinto n h = ground arith

    igual : (a b : ℕ) → a ≡ b → (a == b) ≡ true
    igual a b h = ground arith
