-- ===== src/Sched/EnvTable.antt =====
-- The table of environments of sched/kern/env.c and its free list, against an abstract list of
-- slots.
pub mod FreeList
pub mod Generations
pub mod Invariant
pub mod Scheduling
pub mod Lifetimes
pub mod Calls
use sistemas_operativos_fiub.Common.{
  ℕ, zero, suc, ◌+◌, ◌≤◌, ◌<◌, ◌≡◌, refl, Bool, true, false, Option, none, some, List, [], ◌∷◌,
  ◌==◌, has_char, arith, ==_iff, Bool-cases, inl, inr,
}
use sistemas_operativos_fiub.Sched.Kernel.{
  EnvStatus.env_free as free, Env, Kernel, es_free, nenv, poner,
}

-- The links from a pointer on give the slots, each of them free, and none twice.
unfoldable pub Linked : (ℕ → Env) → Option ℕ → List ℕ → Type 0
Linked envs from [] = from ≡ none
Linked envs from (i ∷ is) =
    (from ≡ some i)
    × (has_char is i ≡ false)
    × (i < nenv)
    × ((envs i).env_status ≡ free)
    × Linked envs (envs i).env_link is

-- The free list is the list of slots, and no other slot is free.
pub record FreeEnvs (k : Kernel) (is : List ℕ) : Type 0 where
  pub linked : Linked k.envs k.env_free_list is
  pub complete : (j : ℕ) → j < nenv → es_free (k.envs j).env_status ≡ true → has_char is j ≡ true

-- A slot that is not on the list does not matter.
pub Linked-poner :
    (envs : ℕ → Env) (from : Option ℕ) (q : ℕ) (e : Env) (is : List ℕ)
    → has_char is q ≡ false
    → Linked envs from is
    → Linked (poner envs q e) from is
unfolding Linked has_char
Linked-poner envs from q e [] h l = l
Linked-poner envs from q e (i ∷ is) h l =
    let other : (q == i) ≡ false = ground arith in
    let rest : has_char is q ≡ false = ground arith in
    (l.0, l.1, l.2, rw other (l.3), rw other (Linked-poner envs (envs i).env_link q e is rest l.4))

-- Every slot on the list is free.
pub Linked-free :
    (envs : ℕ → Env) (from : Option ℕ) (q : ℕ) (is : List ℕ)
    → has_char is q ≡ true
    → Linked envs from is
    → (envs q).env_status ≡ free
unfolding Linked has_char
Linked-free envs from q [] h l = cc
Linked-free envs from q (i ∷ is) h l = elim (Bool-cases (q == i)) [
  | inl same ↦ rw ((==_iff q i).0 same) (l.3)
  | inr other ↦ Linked-free envs (envs i).env_link q is (ground arith) l.4
]
