-- ===== src/Sched/Progress.antt =====
-- sched_yield (sched/kern/sched.c) runs an environment whenever one is runnable.
use sistemas_operativos_fiub.Common.{
  ℕ, ◌<◌, ◌≡◌, refl, ap, ◌∙◌, Bool, true, false, Option, some, inl, inr, ◌==◌, arith,
}
use sistemas_operativos_fiub.Sched.Kernel.{Kernel, add32, es_running, nenv}
use sistemas_operativos_fiub.Sched.Scheduler.{
  corre, Politica, sched_rr_defined, sched_pr_defined, ejecutar, entrar, env_run, llamar, o_detener,
  sched_yield,
}
use sistemas_operativos_fiub.Sched.Selection.{Corrible, NoCorrible, Prioridades}
use sistemas_operativos_fiub.Sched.Turns.{
  Elige, MejorPrioridad, PrimeraCircular, sched_pr-Elige, sched_rr-Elige,
}

-- What the policy promises of the environment it picks.
abbrev pub Promesa : Politica → Kernel → ℕ → Type 0
Promesa sched_rr_defined = PrimeraCircular
Promesa sched_pr_defined = MejorPrioridad

-- The environment e is the current one of this CPU, and it is running.
abbrev pub EnCpu : ℕ → Kernel → ℕ → Type 0
EnCpu cpu k e =
    (k.curenv ≡ some e) × (es_running (k.envs e).env_status ≡ true) × ((k.envs e).env_cpunum ≡ cpu)

mismo : (e : ℕ) → (e == e) ≡ true
mismo e = ground arith

entrar-EnCpu : (cpu e : ℕ) (k : Kernel) → EnCpu cpu (entrar cpu e k) e
unfolding entrar
entrar-EnCpu cpu e k = rw (mismo e) (refl, refl, refl)

no_ninguna : (k : Kernel) (x : ℕ) → Corrible k.envs x → NoCorrible k.envs x → ⊥
no_ninguna k x si falta = contra _ si falta
  where
    contra : (b : Bool) → b ≡ true → b ≡ false → ⊥
    contra b h h' = ground arith

elegido :
    (Q : Kernel → ℕ → Type 0) (cpu : ℕ) (k : Kernel) (x : ℕ) (r : Option ℕ)
    → x < nenv
    → Corrible k.envs x
    → Elige Q cpu k r
    → (e : ℕ) × (r ≡ some e) × Q k e
elegido Q cpu k x r lt si (inl h) = h
elegido Q cpu k x r lt si (inr (nada, eq)) = absurd (no_ninguna k x si (nada x lt))

-- A call of the scheduler that the build chose.
llamar-EnCpu :
    (politica : Politica) (cpu : ℕ) (k : Kernel) (x : ℕ)
    → Prioridades k.envs
    → x < nenv
    → Corrible k.envs x
    → (e : ℕ) × (k' : Kernel) × (llamar politica cpu k ≡ some k')
      × EnCpu cpu k' e
      × Promesa politica k e
unfolding llamar ejecutar env_run
llamar-EnCpu sched_rr_defined cpu k x v lt si =
    let (r, llama, el) = sched_rr-Elige cpu k in
    let (e, eq, q) = elegido PrimeraCircular cpu k x r lt si el in
    (e, _, llama ∙ ap (λ o. ejecutar cpu o k) eq, entrar-EnCpu cpu e _, q)
llamar-EnCpu sched_pr_defined cpu k x v lt si =
    let (r, llama, el) = sched_pr-Elige cpu k v in
    let (e, eq, q) = elegido MejorPrioridad cpu k x r lt si el in
    (e, _, llama ∙ ap (λ o. ejecutar cpu o k) eq, entrar-EnCpu cpu e _, q)

-- When every priority is between 1 and MAX_PRIORITY and some environment is runnable, sched_yield,
-- under either policy, does not halt the CPU: it leaves an environment running on this CPU, its
-- current one, that was the policy's choice: the first runnable one in circular order, or a
-- runnable one of least priority number.
pub sched_yield-Corre :
    (politica : Politica) (cpu : ℕ) (k : Kernel) (x : ℕ)
    → Prioridades k.envs
    → x < nenv
    → Corrible k.envs x
    → (e : ℕ) × (k' : Kernel) × (sched_yield politica cpu k ≡ corre k')
      × EnCpu cpu k' e
      × Promesa politica (record k { total_sched_calls = add32 k.total_sched_calls 1 }) e
unfolding sched_yield o_detener
sched_yield-Corre politica cpu k x v lt si =
    let contado : Kernel = record k { total_sched_calls = add32 k.total_sched_calls 1 } in
    let (e, k', llama, en, q) = llamar-EnCpu politica cpu contado x v lt si in
    (e, k', ap (o_detener contado) llama, en, q)
