-- ===== src/Sched/Scheduler.antt =====
-- sched/kern/sched.c and env_run of sched/kern/env.c. `cpu` is this CPU's id.
use sistemas_operativos_fiub.Common.{
  ℕ, zero, suc, ◌+◌, ◌-◌, ◌%◌, Bool, true, false, ◌&&◌, ◌||◌, Option, none, some, ltb, ◌==◌,
  if◌then◌else◌,
}
use sistemas_operativos_fiub.Sched.Kernel.{
  EnvStatus, EnvStatus.env_runnable, EnvStatus.env_running, es_runnable, es_running, es_dying, Env,
  Kernel, add32, con_env, envx, mod32, nenv, slt,
}
use sistemas_operativos_fiub.Sched.History.{add_run_env_to_history}

abbrev pub max_priority : ℕ
max_priority = 10

abbrev pub max_timeslices_boost : ℕ
max_timeslices_boost = 1000

abbrev pub max_env_time_slices : ℕ
max_env_time_slices = 3

-- `if (curenv && curenv->env_status == ENV_RUNNING) curenv->env_status = ENV_RUNNABLE;`
unfoldable pub dejar_curenv : Option ℕ → Kernel → Kernel
dejar_curenv none k = k
dejar_curenv (some c) k =
    if es_running (k.envs c).env_status
    then con_env k c (record (k.envs c) { env_status = env_runnable })
    else k

-- Up to context_switch, which does not return.
unfoldable pub entrar : ℕ → ℕ → Kernel → Kernel
entrar cpu e k =
    record (con_env k e (record (k.envs e) {
      env_status = env_running;
      env_runs = add32 (k.envs e).env_runs 1;
      env_cpunum = cpu;
    })) { curenv = some e }

unfoldable pub env_run : ℕ → ℕ → Kernel → Kernel
env_run cpu e k = entrar cpu e (dejar_curenv k.curenv k)

-- The index where the circular search starts.
unfoldable pub next_curenv_ind : Kernel → Option ℕ → ℕ
next_curenv_ind k none = 0
next_curenv_ind k (some c) = envx (k.envs c).env_id + 1

-- The loop of sched_rr from i on, with `restan` rounds left.
unfoldable pub buscar_rr : (ℕ → Env) → ℕ → ℕ → ℕ → Option ℕ
buscar_rr envs inicio i zero = none
buscar_rr envs inicio i (suc restan) =
    let rest = buscar_rr envs inicio (suc i) restan in
    if es_runnable (envs ((i + inicio) % nenv)).env_status then some ((i + inicio) % nenv) else rest

-- `curenv && curenv->env_status == ENV_RUNNING && curenv->env_cpunum == thiscpu->cpu_id`
unfoldable pub sigue_corriendo : ℕ → Kernel → Option ℕ → Option ℕ
sigue_corriendo cpu k none = none
sigue_corriendo cpu k (some c) =
    if es_running (k.envs c).env_status && (k.envs c).env_cpunum == cpu then some c else none

abbrev pub o_bien : Option ℕ → Option ℕ → Option ℕ
o_bien (some e) otra = some e
o_bien none otra = otra

-- `if (env_to_run)`: the switch does not return; without one the function does.
unfoldable pub ejecutar : ℕ → Option ℕ → Kernel → Option Kernel
ejecutar cpu none k = none
ejecutar cpu (some e) k = some (env_run cpu e (add_run_env_to_history (k.envs e) k))

unfoldable pub elegir_rr : ℕ → Kernel → Option ℕ
elegir_rr cpu k =
    o_bien (buscar_rr k.envs (next_curenv_ind k k.curenv) 0 nenv) (sigue_corriendo cpu k k.curenv)

-- `some k`: an environment is running in k; `none`: the function returned.
unfoldable pub sched_rr : ℕ → Kernel → Option Kernel
sched_rr cpu k = ejecutar cpu (elegir_rr cpu k) k

-- The loop over the environments that boost runs, for the first n of them.
unfoldable pub reiniciar_prioridades : (ℕ → Env) → ℕ → ℕ → Env
reiniciar_prioridades envs n j = if ltb j n then record (envs j) { priority = 1 } else envs j

unfoldable pub boost : Kernel → Kernel
boost k =
    if add32 k.boost_time_slices 1 == max_timeslices_boost
    then record k { envs = reiniciar_prioridades k.envs nenv; boost_time_slices = 1 }
    else record k { boost_time_slices = add32 k.boost_time_slices 1 }

-- `n % MAX_ENV_TIME_SLICES == 0` for an int.
unfoldable pub es_multiplo : ℕ → Bool
es_multiplo n =
    if ltb n 2147483648
    then n % max_env_time_slices == 0
    else (mod32 - n) % max_env_time_slices == 0

-- The environment after one more slice.
unfoldable pub gastar : Env → Env
gastar e =
    if es_multiplo (add32 e.time_slices 1) && slt e.priority max_priority
    then record e { time_slices = add32 e.time_slices 1; priority = add32 e.priority 1 }
    else record e { time_slices = add32 e.time_slices 1 }

unfoldable pub gastar_curenv : Option ℕ → Kernel → Kernel
gastar_curenv none k = k
gastar_curenv (some c) k = boost (con_env k c (gastar (k.envs c)))

unfoldable pub update_priority : Kernel → Kernel
update_priority k = gastar_curenv k.curenv k

-- The loop of sched_pr from i on, with the best environment so far and its priority.
unfoldable pub buscar_pr : (ℕ → Env) → ℕ → ℕ → Option ℕ → ℕ → ℕ → Option ℕ
buscar_pr envs inicio best elegido i zero = elegido
buscar_pr envs inicio best elegido i (suc restan) =
    let e = (i + inicio) % nenv in
    let mejora = buscar_pr envs inicio (envs e).priority (some e) (suc i) restan in
    let rest = buscar_pr envs inicio best elegido (suc i) restan in
    if es_runnable (envs e).env_status && (envs e).priority == 1
    then some e
    else if es_runnable (envs e).env_status && slt (envs e).priority best
    then mejora
    else rest

unfoldable pub elegir_pr : ℕ → Kernel → Option ℕ
elegir_pr cpu k =
    o_bien (buscar_pr k.envs (next_curenv_ind k k.curenv) (max_priority + 1) none 0 nenv)
      (sigue_corriendo cpu k k.curenv)

unfoldable pub sched_pr : ℕ → Kernel → Option Kernel
sched_pr cpu k = ejecutar cpu (elegir_pr cpu k) k

-- What a call that does not return leaves: an environment on the CPU, the CPU halted or the
-- kernel monitor.
pub data Destino : Type 0 where
  corre halt monitor : Kernel → Destino

abbrev esta_activa : EnvStatus → Bool
esta_activa s = es_runnable s || es_running s || es_dying s

-- The loop of sched_halt over the first n environments: none of them is active.
unfoldable pub ninguna_activa : (ℕ → Env) → ℕ → Bool
ninguna_activa envs zero = true
ninguna_activa envs (suc n) =
    let rest = ninguna_activa envs n in if esta_activa (envs n).env_status then false else rest

unfoldable pub sched_halt : Kernel → Destino
sched_halt k = if ninguna_activa k.envs nenv then monitor k else halt (record k { curenv = none })

-- The scheduler that the build chose.
pub data Politica : Type 0 where
  sched_rr_defined sched_pr_defined : Politica

unfoldable pub llamar : Politica → ℕ → Kernel → Option Kernel
llamar sched_rr_defined = sched_rr
llamar sched_pr_defined = sched_pr

unfoldable pub o_detener : Kernel → Option Kernel → Destino
o_detener k none = sched_halt k
o_detener k (some k') = corre k'

unfoldable pub sched_yield : Politica → ℕ → Kernel → Destino
sched_yield politica cpu k =
    let contado = record k { total_sched_calls = add32 k.total_sched_calls 1 } in
    o_detener contado (llamar politica cpu contado)
