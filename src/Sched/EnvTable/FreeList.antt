-- ===== src/Sched/EnvTable/FreeList.antt =====
-- env_init, env_alloc and env_free (sched/kern/env.c) on the list of free slots.
use sistemas_operativos_fiub.Common.{
  ℕ, zero, suc, ◌+◌, ◌≤◌, ◌<◌, ◌≡◌, refl, sym, ap, ◌∙◌, Bool, true, false, none, some, List, [],
  ◌∷◌, ◌==◌, if◌then◌else◌, has_char, Bool-cases, if_split, inl, inr, arith, ltb,
}
use sistemas_operativos_fiub.Sched.Kernel.{Env, Kernel, es_free, nenv, poner, negado}
use sistemas_operativos_fiub.Sched.History.{
  add_end_of_env_to_history, agregar_linea, escribir_linea, history_len,
}
use sistemas_operativos_fiub.Sched.Env.{
  Asignado, asignado, rechazado, devolver, env_alloc, env_free, env_init, env_nuevo, e_no_free_env,
  e_no_mem, iniciar_envs, tomar,
}
use sistemas_operativos_fiub.Sched.EnvTable.{FreeEnvs, Linked, Linked-poner, Linked-free}

-- n slots from i on.
unfoldable pub slots_from : ℕ → ℕ → List ℕ
slots_from i zero = []
slots_from i (suc n) = i ∷ slots_from (suc i) n

slots_from_below : (i n q : ℕ) → q < i → has_char (slots_from i n) q ≡ false
unfolding slots_from has_char
slots_from_below i zero q h = refl
slots_from_below i (suc n) q h = ground (arith, slots_from_below (suc i) n q (omega arith))

slots_from_within : (i n q : ℕ) → i ≤ q → q < i + n → has_char (slots_from i n) q ≡ true
unfolding slots_from has_char
slots_from_within i zero q h l = absurd (omega arith)
slots_from_within i (suc n) q h l = elim (Bool-cases (i == q)) [
  | inl here ↦ rw here refl
  | inr there ↦ rw there (slots_from_within (suc i) n q (ground arith) (omega arith))
]

init-Linked :
    (envs : ℕ → Env) (i n : ℕ)
    → i + n ≡ nenv
    → Linked (iniciar_envs envs nenv) (if i == nenv then none else some i) (slots_from i n)
unfolding Linked slots_from iniciar_envs
init-Linked envs i zero e = let last : (i == nenv) ≡ true = ground arith in rw last refl
init-Linked envs i (suc n) e =
    let more : (i == nenv) ≡ false = ground arith in
    let inside : ltb i nenv ≡ true = ground arith in
    let next : i + 1 ≡ suc i = omega arith in
    rw (more, inside, next)
      (
        refl,
        slots_from_below (suc i) n i (omega arith),
        omega arith,
        refl,
        init-Linked envs (suc i) n (omega arith),
      )

-- After env_init, whatever the table held, the free list is every slot, in ascending order.
pub env_init-FreeEnvs : (k : Kernel) → FreeEnvs (env_init k) (slots_from 0 nenv)
unfolding env_init
env_init-FreeEnvs k = record {
  linked = init-Linked k.envs 0 nenv refl;
  complete = λ j lt h. slots_from_within 0 nenv j (omega arith) lt;
}

-- What env_alloc is to do for a free list of these slots, when env_setup_vm finds a page or not.
abbrev pub Allocates : Kernel → Bool → List ℕ → Asignado → Type 0
Allocates k setup_vm [] r =
    (r ≡ rechazado (negado e_no_free_env) k)
    × ((j : ℕ) → j < nenv → es_free (k.envs j).env_status ≡ false)
Allocates k false (i ∷ is) r = r ≡ rechazado (negado e_no_mem) k
Allocates k true (i ∷ is) r =
    (k' : Kernel) × (r ≡ asignado i k')
    × FreeEnvs k' is
    × (es_free (k.envs i).env_status ≡ true)
    × (es_free (k'.envs i).env_status ≡ false)
    × (k'.curenv ≡ k.curenv)
    × ((j : ℕ) → (i == j) ≡ false → k'.envs j ≡ k.envs j)

self : (i : ℕ) → (i == i) ≡ true
self i = ground arith

-- What the table says of a slot after a store, from what it says after it.
other_free :
    (envs : ℕ → Env) (i j : ℕ) (e : Env)
    → (i == j) ≡ false
    → es_free (poner envs i e j).env_status ≡ true
    → es_free (envs j).env_status ≡ true
other_free envs i j e h p = ap (λ b. es_free (if b then e else envs j).env_status) (sym h) ∙ p

own_free :
    (envs : ℕ → Env) (i j : ℕ) (e : Env)
    → (i == j) ≡ true
    → es_free (poner envs i e j).env_status ≡ true
    → es_free e.env_status ≡ true
own_free envs i j e h p = ap (λ b. es_free (if b then e else envs j).env_status) (sym h) ∙ p

differ : false ≡ true → ⊥
differ h = cc

taken-FreeEnvs :
    (k : Kernel) (i parent_id : ℕ) (is : List ℕ)
    → FreeEnvs k (i ∷ is)
    → FreeEnvs
        (record k {
          envs = poner k.envs i (env_nuevo (k.envs i) i parent_id);
          env_free_list = (k.envs i).env_link;
        })
        is
unfolding Linked has_char env_nuevo
taken-FreeEnvs k i parent_id is f = record {
  linked = Linked-poner k.envs (k.envs i).env_link i _ is f.linked.1 f.linked.4;
  complete = λ j lt h. elim (Bool-cases (i == j)) [
    | inl here ↦ absurd (differ (own_free k.envs i j (env_nuevo (k.envs i) i parent_id) here h))
    | inr there ↦
        on_rest j there
          (f.complete j lt (other_free k.envs i j (env_nuevo (k.envs i) i parent_id) there h))
  ];
}
  where
    on_rest : (j : ℕ) → (i == j) ≡ false → has_char (i ∷ is) j ≡ true → has_char is j ≡ true
    on_rest j there on = ground arith

-- When the free list is these slots, and no other slot is free, env_alloc gives -E_NO_FREE_ENV and
-- changes nothing if there is none of them, and then no environment is free; it gives -E_NO_MEM and
-- changes nothing if env_setup_vm finds no page; else it gives the first of them, which was free and
-- is no longer, leaves the others as the free list, and changes no other environment
-- and not curenv.
pub env_alloc-Allocates :
    (k : Kernel) (setup_vm : Bool) (parent_id : ℕ) (is : List ℕ)
    → FreeEnvs k is
    → Allocates k setup_vm is (env_alloc setup_vm parent_id k)
unfolding env_alloc tomar Linked has_char env_nuevo
env_alloc-Allocates k setup_vm parent_id [] f = (
  ap (λ o. tomar setup_vm parent_id o k) f.linked,
  λ j lt. elim (Bool-cases (es_free (k.envs j).env_status)) [
    | inl is_free ↦ absurd (differ (f.complete j lt is_free))
    | inr used ↦ used
  ],
)
env_alloc-Allocates k false parent_id (i ∷ is) f = ap (λ o. tomar false parent_id o k) (f.linked.0)
env_alloc-Allocates k true parent_id (i ∷ is) f = (
  _,
  ap (λ o. tomar true parent_id o k) (f.linked.0),
  taken-FreeEnvs k i parent_id is f,
  ap es_free (f.linked.3),
  rw (self i) refl,
  refl,
  λ j h. rw h refl,
)

-- A line of the history leaves the table and the list alone.
end-FreeEnvs :
    (k : Kernel) (env : Env) (is : List ℕ)
    → FreeEnvs k is
    → FreeEnvs (add_end_of_env_to_history env k) is
unfolding add_end_of_env_to_history agregar_linea escribir_linea
end-FreeEnvs k env is f =
    if_split (λ k'. FreeEnvs k' is) (ltb _ history_len) _ _
      (λ h. record { linked = f.linked; complete = f.complete })
      (λ h. record { linked = f.linked; complete = f.complete })

devolver-FreeEnvs :
    (k : Kernel) (e : ℕ) (is : List ℕ)
    → FreeEnvs k is
    → e < nenv
    → has_char is e ≡ false
    → FreeEnvs (devolver e k) (e ∷ is)
unfolding devolver Linked has_char
devolver-FreeEnvs k e is f lt away = record {
  linked = (
    refl,
    away,
    lt,
    rw (self e) refl,
    rw (self e) (Linked-poner k.envs k.env_free_list e _ is away f.linked),
  );
  complete = λ j below h. elim (Bool-cases (e == j)) [
    | inl here ↦ rw here refl
    | inr there ↦ rw there (f.complete j below (other_free k.envs e j _ there h))
  ];
}

-- When the free list is these slots, and no other slot is free, env_free of an environment in use,
-- below NENV, puts its slot in front of them.
pub env_free-FreeEnvs :
    (k : Kernel) (e : ℕ) (is : List ℕ)
    → FreeEnvs k is
    → e < nenv
    → es_free (k.envs e).env_status ≡ false
    → FreeEnvs (env_free e k) (e ∷ is)
unfolding env_free
env_free-FreeEnvs k e is f lt used =
    devolver-FreeEnvs (add_end_of_env_to_history (k.envs e) k) e is (end-FreeEnvs k (k.envs e) is f)
      lt away
  where
    away : has_char is e ≡ false
    away = elim (Bool-cases (has_char is e)) [
      | inl on ↦
          absurd
            (differ (sym used ∙ ap es_free (Linked-free k.envs k.env_free_list e is on f.linked)))
      | inr off ↦ off
    ]
