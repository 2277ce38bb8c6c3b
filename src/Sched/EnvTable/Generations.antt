-- ===== src/Sched/EnvTable/Generations.antt =====
-- The ids that env_alloc makes (sched/kern/env.c): a generation and the index of the slot.
use sistemas_operativos_fiub.Common.{
  ℕ, ◌+◌, ◌-◌, ◌*◌, ◌/◌, ◌%◌, ◌^◌, ◌≤◌, ◌<◌, ◌≡◌, ◌≢◌, refl, true, false, ◌==◌, if◌then◌else◌,
  arith, List, ◌∷◌, sym, ap, ◌∙◌, some, Bool-cases, inl, inr,
}
use Prim.Native.Nat.{bit_or}
use sistemas_operativos_fiub.Common.Bits.{bit_or_slot}
use sistemas_operativos_fiub.Sched.Kernel.{Env, Kernel, envx, nenv, poner, es_free}
use sistemas_operativos_fiub.Sched.Env.{
  env_nuevo, siguiente_generacion, env_alloc, tomar, asignado, envid2env, dado, bad_env,
}
use sistemas_operativos_fiub.Sched.EnvTable.{FreeEnvs, Linked}

-- A generation is positive, below 2^31, and has no bits for the index.
generation :
    (id : ℕ)
    → (1 ≤ siguiente_generacion id)
      × (siguiente_generacion id < 2 ^ 31)
      × (siguiente_generacion id % 1024 ≡ 0)
unfolding siguiente_generacion
generation id = (ground arith, ground arith, ground arith)

-- It is not the last one.
generation_new : (id : ℕ) → id < 2 ^ 31 → siguiente_generacion id ≢ id - id % 1024
unfolding siguiente_generacion
generation_new id lt e = ground arith

-- The id is positive as an int, names the slot, and is not the one before.
pub record IsFresh (old i new : ℕ) : Type 0 where
  pub positive : 1 ≤ new
  pub small : new < 2 ^ 31
  pub index : envx new ≡ i
  pub other : new ≢ old

-- The arithmetic of `generation | (e - envs)`.
joined : (g i : ℕ) → g % 1024 ≡ 0 → i < 1024 → bit_or g i ≡ g + i
joined g i al lt =
    let whole : g / 1024 * 1024 ≡ g = omega (arith, al) in
    ap (λ x. bit_or x i) (sym whole) ∙ bit_or_slot (g / 1024) i lt ∙ ap (λ x. x + i) whole

join_small : (g i : ℕ) → g % 1024 ≡ 0 → i < 1024 → g < 2 ^ 31 → g + i < 2 ^ 31
join_small g i al lt small = omega arith

-- The id that a new environment has in slot i, for a slot whose last id is below 2^31.
pub env_nuevo-IsFresh :
    (e : Env) (i parent_id : ℕ)
    → i < nenv
    → e.env_id < 2 ^ 31
    → IsFresh e.env_id i (env_nuevo e i parent_id).env_id
unfolding env_nuevo
env_nuevo-IsFresh e i parent_id lt small =
    let (least, below, aligned) = generation e.env_id in
    let g : ℕ = siguiente_generacion e.env_id in
    rw (joined g i aligned lt) (record {
      positive = omega arith;
      small = join_small g i aligned lt below;
      index = omega arith;
      other = λ same. generation_new e.env_id small (omega arith);
    })

env_nuevo-used : (e : Env) (i parent_id : ℕ) → es_free (env_nuevo e i parent_id).env_status ≡ false
unfolding env_nuevo
env_nuevo-used e i parent_id = refl

-- A fresh id is found, and no other of the slot.
envid2env_slot :
    (k : Kernel) (i id : ℕ)
    → es_free (k.envs i).env_status ≡ false
    → (k.envs i).env_id ≡ id
    → (envid : ℕ) → envid ≢ 0
    → envx envid ≡ i
    → envid2env k envid false ≡ (if id == envid then dado (some i) else bad_env)
unfolding envid2env
envid2env_slot k i id used same envid pos at =
    let zero_id : (envid == 0) ≡ false = ground arith in
    rw (zero_id, at, used, same)
      (elim (Bool-cases (id == envid)) [ inl own ↦ rw own refl | inr foreign ↦ rw foreign refl ])

-- When the free list is the slots i, is, and no other slot is free, the last id of slot i is below
-- 2^31 and env_setup_vm finds a page, env_alloc gives slot i an id that is positive and below 2^31,
-- whose index is i and that is not the last one; envid2env finds the environment under it, and
-- fails for every other id of the slot but 0, so for the last one if it was not 0.
pub env_alloc-IsFresh :
    (k : Kernel) (i parent_id : ℕ) (is : List ℕ)
    → FreeEnvs k (i ∷ is)
    → (k.envs i).env_id < 2 ^ 31
    → (k' : Kernel) × (env_alloc true parent_id k ≡ asignado i k')
      × IsFresh (k.envs i).env_id i (k'.envs i).env_id
      × ((envid : ℕ)
          → envid ≢ 0
          → envx envid ≡ i
          → envid2env k' envid false
            ≡ (if (k'.envs i).env_id == envid then dado (some i) else bad_env))
unfolding env_alloc tomar Linked
env_alloc-IsFresh k i parent_id is f small =
    let e' : Env = env_nuevo (k.envs i) i parent_id in
    let k' : Kernel = record k { envs = poner k.envs i e'; env_free_list = (k.envs i).env_link } in
    (
      k',
      ap (λ o. tomar true parent_id o k) (f.linked.0),
      rw (self i) (env_nuevo-IsFresh (k.envs i) i parent_id (f.linked.2) small),
      envid2env_slot k' i (k'.envs i).env_id (rw (self i) (env_nuevo-used (k.envs i) i parent_id))
          refl,
    )
  where
    self : (j : ℕ) → (j == j) ≡ true
    self j = ground arith
