-- ===== src/Sched/Turns.antt =====
-- What one call of sched_rr and of sched_pr (sched/kern/sched.c) does.
use mathlib.Core.Path.{subst}
use sistemas_operativos_fiub.Common.{
  ℕ, suc, ◌+◌, ◌%◌, ◌≤◌, ◌<◌, ◌≡◌, refl, ap, ◌∙◌, Option, none, some, ◌⊎◌, inl, inr, arith,
}
use sistemas_operativos_fiub.Sched.Kernel.{Kernel, nenv}
use sistemas_operativos_fiub.Sched.Scheduler.{
  ejecutar, elegir_pr, elegir_rr, max_priority, next_curenv_ind, o_bien, sched_pr, sched_rr,
  sigue_corriendo,
}
use sistemas_operativos_fiub.Sched.Selection.{
  Corrible, NoCorrible, Prioridades, Minima, Primera, buscar_pr-Minima, buscar_rr-Primera, alcanza,
  sin_corribles,
}

inicio_acotado : (k : Kernel) (c : Option ℕ) → next_curenv_ind k c ≤ nenv
unfolding next_curenv_ind
inicio_acotado k none = omega arith
inicio_acotado k (some c) = omega arith

abbrev pub Ninguna : Kernel → Type 0
Ninguna k = (x : ℕ) → x < nenv → NoCorrible k.envs x

-- The slot after the one that the id of the current environment has, and the first slot when there
-- is no current one.
abbrev pub tras : Kernel → Option ℕ → ℕ
tras k none = 0
tras k (some c) = (k.envs c).env_id % 1024 + 1

next_curenv_ind-tras : (k : Kernel) (c : Option ℕ) → next_curenv_ind k c ≡ tras k c
unfolding next_curenv_ind
next_curenv_ind-tras k none = refl
next_curenv_ind-tras k (some c) = refl

-- Runnable, and the first in circular order from the slot after the current environment's on:
-- `pasos` steps from it, with no runnable environment in fewer steps.
abbrev pub PrimeraCircular : Kernel → ℕ → Type 0
PrimeraCircular k e =
    (pasos : ℕ) × (pasos < nenv)
    × (e ≡ (pasos + tras k k.curenv) % nenv)
    × Corrible k.envs e
    × ((m : ℕ) → m < pasos → NoCorrible k.envs ((m + tras k k.curenv) % nenv))

-- Runnable, with a priority that is the best of the runnable environments.
abbrev pub MejorPrioridad : Kernel → ℕ → Type 0
MejorPrioridad k e =
    (e < nenv)
    × Corrible k.envs e
    × ((x : ℕ) → x < nenv → Corrible k.envs x → (k.envs e).priority ≤ (k.envs x).priority)

-- The environment that a scheduler chooses: one as Q says, or, with no runnable environment, what
-- is still running on this CPU.
abbrev pub Elige : (Kernel → ℕ → Type 0) → ℕ → Kernel → Option ℕ → Type 0
Elige Q cpu k r =
    ((e : ℕ) × (r ≡ some e) × Q k e) ⊎ (Ninguna k × (r ≡ sigue_corriendo cpu k k.curenv))

de_Primera :
    (cpu : ℕ) (k : Kernel) (r : Option ℕ)
    → Primera k.envs (next_curenv_ind k k.curenv) 0 nenv r
    → Elige PrimeraCircular cpu k (o_bien r (sigue_corriendo cpu k k.curenv))
de_Primera cpu k none h =
    inr (sin_corribles k.envs (next_curenv_ind k k.curenv) (inicio_acotado k k.curenv) h, refl)
de_Primera cpu k (some e) (j, le, lt, eq, si, antes) =
    let first = next_curenv_ind-tras k k.curenv in
    inl (
      e,
      refl,
      (
        j,
        omega arith,
        eq ∙ ap (λ i. (j + i) % nenv) first,
        si,
        λ m ltm. subst (λ i. NoCorrible k.envs ((m + i) % nenv)) first (antes m (omega arith) ltm),
      ),
    )

pub sched_rr-Elige :
    (cpu : ℕ) (k : Kernel)
    → (r : Option ℕ) × (sched_rr cpu k ≡ ejecutar cpu r k) × Elige PrimeraCircular cpu k r
unfolding sched_rr elegir_rr
sched_rr-Elige cpu k = (
  elegir_rr cpu k,
  refl,
  de_Primera cpu k _ (buscar_rr-Primera k.envs (next_curenv_ind k k.curenv) 0 nenv),
)

de_Minima :
    (cpu : ℕ) (k : Kernel) (r : Option ℕ)
    → Minima k.envs (next_curenv_ind k k.curenv) 0 nenv none (suc max_priority) r
    → Elige MejorPrioridad cpu k (o_bien r (sigue_corriendo cpu k k.curenv))
de_Minima cpu k none (eq, h) =
    inr (sin_corribles k.envs (next_curenv_ind k k.curenv) (inicio_acotado k k.curenv) h, refl)
de_Minima cpu k (some e) (lt, si, le, h) = inl (
  e,
  refl,
  (
    lt,
    si,
    λ x ltx corr.
        let (j, ltj, eq) = alcanza (next_curenv_ind k k.curenv) x (inicio_acotado k k.curenv) ltx in
        subst (λ y. Corrible k.envs y → (k.envs e).priority ≤ (k.envs y).priority) eq
          (h j (omega arith) (omega arith)) corr,
  ),
)

pub sched_pr-Elige :
    (cpu : ℕ) (k : Kernel)
    → Prioridades k.envs
    → (r : Option ℕ) × (sched_pr cpu k ≡ ejecutar cpu r k) × Elige MejorPrioridad cpu k r
unfolding sched_pr elegir_pr
sched_pr-Elige cpu k v = (
  elegir_pr cpu k,
  refl,
  de_Minima cpu k _
      (buscar_pr-Minima k.envs v (next_curenv_ind k k.curenv) 0 nenv (suc max_priority) none refl),
)
