-- ===== src/Sched/Selection.antt =====
-- What the loops of sched_rr and sched_pr (sched/kern/sched.c) choose.
use mathlib.Core.Path.{subst}
use sistemas_operativos_fiub.Common.{
  ℕ, zero, suc, ◌+◌, ◌-◌, ◌%◌, ◌≤◌, ◌<◌, ◌≡◌, refl, Bool, true, false, ◌&&◌, Option, none, some,
  ◌⊎◌, inl, inr, ◌==◌, if_split, Bool-cases, arith,
}
use sistemas_operativos_fiub.Sched.Kernel.{Env, es_runnable, nenv, slt}
use sistemas_operativos_fiub.Sched.Scheduler.{buscar_pr, buscar_rr, max_priority}

abbrev pub Corrible : (ℕ → Env) → ℕ → Type 0
Corrible envs e = es_runnable (envs e).env_status ≡ true

abbrev pub NoCorrible : (ℕ → Env) → ℕ → Type 0
NoCorrible envs e = es_runnable (envs e).env_status ≡ false

-- The first runnable environment of the n indices from inicio + i on, or none of them is.
abbrev pub Primera : (ℕ → Env) → ℕ → ℕ → ℕ → Option ℕ → Type 0
Primera envs inicio i n none = (j : ℕ) → i ≤ j → j < i + n → NoCorrible envs ((j + inicio) % nenv)
Primera envs inicio i n (some e) =
    (j : ℕ) × (i ≤ j)
    × (j < i + n)
    × (e ≡ (j + inicio) % nenv)
    × Corrible envs e
    × ((m : ℕ) → i ≤ m → m < j → NoCorrible envs ((m + inicio) % nenv))

igual_o_mayor : (i j : ℕ) → i ≤ j → (i ≡ j) ⊎ (suc i ≤ j)
igual_o_mayor i j h = ground arith

le_total : (a b : ℕ) → (a ≤ b) ⊎ (b < a)
le_total a b = ground arith

-- What holds at i and from suc i on holds from i on.
extender : (P : ℕ → Type 0) (i : ℕ) (j : ℕ) → P i → (suc i ≤ j → P j) → i ≤ j → P j
extender P i j hi hs le = elim (igual_o_mayor i j le) [ inl eq ↦ subst P eq hi | inr lt ↦ hs lt ]

nada : (i m : ℕ) → i ≤ m → m < i → ⊥
nada i m le lt = omega arith

adelantar :
    (envs : ℕ → Env) (inicio i n : ℕ) (r : Option ℕ)
    → NoCorrible envs ((i + inicio) % nenv)
    → Primera envs inicio (suc i) n r
    → Primera envs inicio i (suc n) r
adelantar envs inicio i n none falta h = λ j le lt.
    extender (λ m. NoCorrible envs ((m + inicio) % nenv)) i j falta (λ s. h j s (omega arith)) le
adelantar envs inicio i n (some e) falta (j, le, lt, eq, si, antes) = (
  j,
  omega arith,
  omega arith,
  eq,
  si,
  λ m lem ltm.
      extender (λ x. NoCorrible envs ((x + inicio) % nenv)) i m falta (λ s. antes m s ltm) lem,
)

pub buscar_rr-Primera :
    (envs : ℕ → Env) (inicio i restan : ℕ)
    → Primera envs inicio i restan (buscar_rr envs inicio i restan)
unfolding buscar_rr
buscar_rr-Primera envs inicio i zero = λ j le lt. absurd (nada i j le (omega arith))
buscar_rr-Primera envs inicio i (suc n) =
    if_split (Primera envs inicio i (suc n)) (es_runnable (envs ((i + inicio) % nenv)).env_status) _
      _ (λ si. (i, omega arith, omega arith, refl, si, λ m le lt. absurd (nada i m le lt)))
      (λ falta. adelantar envs inicio i n _ falta (buscar_rr-Primera envs inicio (suc i) n))

-- The circular search of nenv rounds reaches every index.
pub alcanza :
    (inicio x : ℕ) → inicio ≤ nenv → x < nenv → (j : ℕ) × (j < nenv) × ((j + inicio) % nenv ≡ x)
alcanza inicio x le lt = elim (le_total inicio x) [
  | inl s ↦ (x - inicio, omega arith, omega arith)
  | inr s ↦ (x + nenv - inicio, omega arith, omega arith)
]

pub sin_corribles :
    (envs : ℕ → Env) (inicio : ℕ)
    → inicio ≤ nenv
    → ((j : ℕ) → 0 ≤ j → j < 0 + nenv → NoCorrible envs ((j + inicio) % nenv))
    → (x : ℕ) → x < nenv
    → NoCorrible envs x
sin_corribles envs inicio le h x lt =
    let (j, ltj, eq) = alcanza inicio x le lt in
    subst (NoCorrible envs) eq (h j (omega arith) (omega arith))

-- Priorities between 1 and MAX_PRIORITY.
abbrev pub PrioridadValida : Env → Type 0
PrioridadValida e = (1 ≤ e.priority) × (e.priority ≤ max_priority)

abbrev pub Prioridades : (ℕ → Env) → Type 0
Prioridades envs = (x : ℕ) → x < nenv → PrioridadValida (envs x)

-- The result of the loop of sched_pr over n indices: a runnable environment, at least as good as
-- `best` and as every runnable one of them, or what had been chosen before.
abbrev pub Minima : (ℕ → Env) → ℕ → ℕ → ℕ → Option ℕ → ℕ → Option ℕ → Type 0
Minima envs inicio i n elegido best none =
    (elegido ≡ none) × ((j : ℕ) → i ≤ j → j < i + n → NoCorrible envs ((j + inicio) % nenv))
Minima envs inicio i n elegido best (some e) =
    (e < nenv)
    × Corrible envs e
    × ((envs e).priority ≤ best)
    × ((j : ℕ)
        → i ≤ j
        → j < i + n
        → Corrible envs ((j + inicio) % nenv)
        → (envs e).priority ≤ (envs ((j + inicio) % nenv)).priority)

-- What the loop has chosen before a round.
abbrev pub Elegido : (ℕ → Env) → ℕ → Option ℕ → Type 0
Elegido envs best none = best ≡ suc max_priority
Elegido envs best (some e) = (e < nenv) × Corrible envs e × ((envs e).priority ≡ best)

some≢none : (x : ℕ) → some x ≡ none → ⊥
some≢none x eq = ground arith

and_true : (a b : Bool) → (a && b) ≡ true → (a ≡ true) × (b ≡ true)
and_true a b h = (ground arith, ground arith)

and_false : (a b : Bool) → (a && b) ≡ false → a ≡ true → b ≡ false
and_false a b h ha = ground arith

slt-true : (a b : ℕ) → a ≤ 10 → b ≤ 11 → slt a b ≡ true → a < b
slt-true a b ha hb h = ground arith

slt-false : (a b : ℕ) → a ≤ 10 → b ≤ 11 → slt a b ≡ false → b ≤ a
slt-false a b ha hb h = ground arith

best_acotado :
    (envs : ℕ → Env) (best : ℕ) (elegido : Option ℕ)
    → Prioridades envs
    → Elegido envs best elegido
    → (1 ≤ best) × (best ≤ suc max_priority)
best_acotado envs best none v h = (omega arith, omega arith)
best_acotado envs best (some e) v (lt, si, eq) = let (a, b) = v e lt in (omega arith, omega arith)

module _ (envs : ℕ → Env) (v : Prioridades envs) (inicio : ℕ) where
  pri : ℕ → ℕ
  pri i = (envs ((i + inicio) % nenv)).priority

  mejora-Minima :
      (i n best : ℕ) (elegido r : Option ℕ)
      → pri i < best
      → Minima envs inicio (suc i) n (some ((i + inicio) % nenv)) (pri i) r
      → Minima envs inicio i (suc n) elegido best r
  unfolding pri
  mejora-Minima i n best elegido none lt (eq, h) = absurd (some≢none _ eq)
  mejora-Minima i n best elegido (some e) lt (len, si, le, h) = (
    len,
    si,
    omega arith,
    λ j lej ltj corr.
        extender (λ x. Corrible envs ((x + inicio) % nenv) → (envs e).priority ≤ pri x) i j
          (λ c. le) (λ s c. h j s (omega arith) c) lej corr,
  )

  sigue-Minima :
      (i n best : ℕ) (elegido r : Option ℕ)
      → Elegido envs best elegido
      → (Corrible envs ((i + inicio) % nenv) → best ≤ pri i)
      → Minima envs inicio (suc i) n elegido best r
      → Minima envs inicio i (suc n) elegido best r
  unfolding pri
  sigue-Minima i n best elegido none el peor (eq, h) = (
    eq,
    λ j lej ltj.
        extender (λ x. NoCorrible envs ((x + inicio) % nenv)) i j (aca (Bool-cases _))
          (λ s. h j s (omega arith)) lej,
  )
    where
      once : best ≡ suc max_priority
      once = subst (Elegido envs best) eq el

      cota : pri i ≤ max_priority
      cota = (v ((i + inicio) % nenv) (omega arith)).1

      aca :
          (Corrible envs ((i + inicio) % nenv) ⊎ NoCorrible envs ((i + inicio) % nenv))
          → NoCorrible envs ((i + inicio) % nenv)
      aca (inl si) = absurd (nada best (pri i) (peor si) (omega (arith, once, cota)))
      aca (inr falta) = falta
  sigue-Minima i n best elegido (some e) el peor (len, si, le, h) = (
    len,
    si,
    le,
    λ j lej ltj corr.
        extender (λ x. Corrible envs ((x + inicio) % nenv) → (envs e).priority ≤ pri x) i j
          (λ c. let mal : best ≤ pri i = peor c in omega arith) (λ s c. h j s (omega arith) c) lej
          corr,
  )

  ya-Minima :
      (i best : ℕ) (elegido : Option ℕ)
      → Elegido envs best elegido
      → Minima envs inicio i 0 elegido best elegido
  ya-Minima i best none el = (refl, λ j le lt. absurd (nada i j le (omega arith)))
  ya-Minima i best (some e) (lt, si, eq) =
      (lt, si, omega arith, λ j lej ltj. absurd (nada i j lej (omega arith)))

  primera-Minima :
      (i n best : ℕ) (elegido : Option ℕ)
      → 1 ≤ best
      → Corrible envs ((i + inicio) % nenv)
      → (pri i == 1) ≡ true
      → Minima envs inicio i n elegido best (some ((i + inicio) % nenv))
  unfolding pri
  primera-Minima i n best elegido pos si uno = (
    omega arith,
    si,
    ground arith,
    λ j lej ltj corr. let (a, b) = v ((j + inicio) % nenv) (omega arith) in ground arith,
  )

  pub buscar_pr-Minima :
      (i n best : ℕ) (elegido : Option ℕ)
      → Elegido envs best elegido
      → Minima envs inicio i n elegido best (buscar_pr envs inicio best elegido i n)
  unfolding buscar_pr pri
  buscar_pr-Minima i zero best elegido el = ya-Minima i best elegido el
  buscar_pr-Minima i (suc n) best elegido el =
      let e = (i + inicio) % nenv in
      let (uno, diez) = v e (omega arith) in
      let (pos, tope) = best_acotado envs best elegido v el in
      if_split (Minima envs inicio i (suc n) elegido best)
        (es_runnable (envs e).env_status && (envs e).priority == 1) _ _
        (λ si.
          let (corr, eq) = and_true _ _ si in primera-Minima i (suc n) best elegido pos corr eq)
        (λ otra.
          if_split (Minima envs inicio i (suc n) elegido best)
            (es_runnable (envs e).env_status && slt (envs e).priority best) _ _
            (λ si.
              let (corr, menor) = and_true _ _ si in
              mejora-Minima i n best elegido _ (slt-true _ _ diez tope menor)
                (buscar_pr-Minima (suc i) n (envs e).priority (some e) (omega arith, corr, refl)))
            (λ mal.
              sigue-Minima i n best elegido _ el
                (λ corr. slt-false _ _ diez tope (and_false _ _ mal corr))
                (buscar_pr-Minima (suc i) n best elegido el)))
