-- ===== src/Sched/EnvTable/Invariant.antt =====
-- What every state of the table of environments satisfies, and that the scheduler (sched/kern/
-- sched.c) and the stores of sched/kern/env.c keep it.
use sistemas_operativos_fiub.Common.{
  ℕ, ◌<◌, ◌≡◌, refl, sym, ap, ◌∙◌, true, false, Option, none, some, List, [], ◌∷◌, ◌==◌, ltb,
  if_both, if_split, ==_iff,
}
use mathlib.Core.Path.{subst}
use sistemas_operativos_fiub.Sched.Kernel.{
  Env, EnvStatus, EnvStatus.env_free as free, EnvStatus.env_dying, EnvStatus.env_runnable,
  EnvStatus.env_running, EnvStatus.env_not_runnable, Kernel, Linea, con_env, es_free, nenv,
}
use sistemas_operativos_fiub.Sched.History.{agregar_linea, escribir_linea, history_len}
use sistemas_operativos_fiub.Sched.EnvTable.{FreeEnvs, Linked}

-- A pointer to an environment is null or the slot of one that is in use.
abbrev pub InUse : (ℕ → Env) → Option ℕ → Type 0
InUse envs none = Unit
InUse envs (some e) = (e < nenv) × (es_free (envs e).env_status ≡ false)

-- The slots of ENV_FREE are the free list, each once, and curenv is in use.
pub record IsTable (k : Kernel) : Type 0 where
  pub slots : List ℕ
  pub free_envs : FreeEnvs k slots
  pub current : InUse k.envs k.curenv

-- The free list, its links and which slots are free are the same.
pub record Keeps (k k' : Kernel) : Type 0 where
  pub same_list : k'.env_free_list ≡ k.env_free_list
  pub same_links : (j : ℕ) → (k'.envs j).env_link ≡ (k.envs j).env_link
  pub same_free : (j : ℕ) → es_free (k'.envs j).env_status ≡ es_free (k.envs j).env_status

pub Keeps-refl : (k : Kernel) → Keeps k k
Keeps-refl k = record { same_list = refl; same_links = λ j. refl; same_free = λ j. refl }

pub Keeps-trans : (a b c : Kernel) → Keeps a b → Keeps b c → Keeps a c
Keeps-trans a b c f g = record {
  same_list = g.same_list ∙ f.same_list;
  same_links = λ j. g.same_links j ∙ f.same_links j;
  same_free = λ j. g.same_free j ∙ f.same_free j;
}

is_free : (s : EnvStatus) → es_free s ≡ true → s ≡ free
is_free free h = refl
is_free env_dying h = cc
is_free env_runnable h = cc
is_free env_running h = cc
is_free env_not_runnable h = cc

Linked-Keeps :
    (k k' : Kernel) (from from' : Option ℕ) (is : List ℕ)
    → Keeps k k'
    → from' ≡ from
    → Linked k.envs from is
    → Linked k'.envs from' is
unfolding Linked
Linked-Keeps k k' from from' [] s e l = e ∙ l
Linked-Keeps k k' from from' (i ∷ is) s e l = (
  e ∙ l.0,
  l.1,
  l.2,
  is_free (k'.envs i).env_status (s.same_free i ∙ ap es_free (l.3)),
  Linked-Keeps k k' (k.envs i).env_link (k'.envs i).env_link is s (s.same_links i) l.4,
)

pub FreeEnvs-Keeps : (k k' : Kernel) (is : List ℕ) → Keeps k k' → FreeEnvs k is → FreeEnvs k' is
FreeEnvs-Keeps k k' is s f = record {
  linked = Linked-Keeps k k' k.env_free_list k'.env_free_list is s s.same_list f.linked;
  complete = λ j lt h. f.complete j lt (sym (s.same_free j) ∙ h);
}

pub InUse-Keeps : (k k' : Kernel) (o : Option ℕ) → Keeps k k' → InUse k.envs o → InUse k'.envs o
InUse-Keeps k k' none s u = tt
InUse-Keeps k k' (some e) s u = (u.0, s.same_free e ∙ u.1)

-- A change that keeps the list and puts an environment in use, or none, on the CPU.
pub switch-IsTable :
    (k k' : Kernel) (o : Option ℕ)
    → Keeps k k'
    → k'.curenv ≡ o
    → InUse k.envs o
    → IsTable k
    → IsTable k'
switch-IsTable k k' o s e u t = record {
  slots = t.slots;
  free_envs = FreeEnvs-Keeps k k' t.slots s t.free_envs;
  current = subst (λ p. InUse k'.envs p) (sym e) (InUse-Keeps k k' o s u);
}

pub Keeps-IsTable : (k k' : Kernel) → Keeps k k' → k'.curenv ≡ k.curenv → IsTable k → IsTable k'
Keeps-IsTable k k' s e t = switch-IsTable k k' k.curenv s e t.current t

-- A store at one environment that leaves its link and whether it is free.
pub con_env-Keeps :
    (k : Kernel) (i : ℕ) (e : Env)
    → e.env_link ≡ (k.envs i).env_link
    → es_free e.env_status ≡ es_free (k.envs i).env_status
    → Keeps k (con_env k i e)
con_env-Keeps k i e l s = record {
  same_list = refl;
  same_links = λ j.
      if_split (λ x. x.env_link ≡ (k.envs j).env_link) (i == j) e (k.envs j)
        (λ at. subst (λ x. e.env_link ≡ (k.envs x).env_link) ((==_iff i j).0 at) l) (λ off. refl);
  same_free = λ j.
      if_split (λ x. es_free x.env_status ≡ es_free (k.envs j).env_status) (i == j) e (k.envs j)
        (λ at.
          subst (λ x. es_free e.env_status ≡ es_free (k.envs x).env_status) ((==_iff i j).0 at) s)
        (λ off. refl);
}

pub con_env-IsTable :
    (k : Kernel) (i : ℕ) (e : Env)
    → e.env_link ≡ (k.envs i).env_link
    → es_free e.env_status ≡ es_free (k.envs i).env_status
    → IsTable k
    → IsTable (con_env k i e)
con_env-IsTable k i e l s t = Keeps-IsTable k (con_env k i e) (con_env-Keeps k i e l s) refl t

pub agregar-Keeps :
    (l : Linea) (k : Kernel) → Keeps k (agregar_linea l k) × ((agregar_linea l k).curenv ≡ k.curenv)
unfolding agregar_linea escribir_linea
agregar-Keeps l k =
    if_both (λ k'. Keeps k k' × (k'.curenv ≡ k.curenv)) (ltb _ history_len) _ _
      (record { same_list = refl; same_links = λ j. refl; same_free = λ j. refl }, refl)
      (record { same_list = refl; same_links = λ j. refl; same_free = λ j. refl }, refl)

pub agregar-IsTable : (l : Linea) (k : Kernel) → IsTable k → IsTable (agregar_linea l k)
agregar-IsTable l k t = let (s, e) = agregar-Keeps l k in Keeps-IsTable k (agregar_linea l k) s e t
