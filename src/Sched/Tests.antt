-- ===== src/Sched/Tests.antt =====
-- The kernel with three environments: the theorems at concrete data.
use sistemas_operativos_fiub.Common.{
  ℕ, ◌≡◌, refl, true, false, none, some, ◌==◌, if◌then◌else◌, if_both, arith,
}
use sistemas_operativos_fiub.Sched.Kernel.{
  Env, EnvStatus, EnvStatus.env_free as free, EnvStatus.env_runnable, EnvStatus.env_running, Kernel,
  Linea.vacia, add32,
}
use sistemas_operativos_fiub.Sched.Env.{envid2env, tf_nuevo}
use sistemas_operativos_fiub.Sched.Scheduler.{corre, sched_pr_defined, sched_yield, update_priority}
use sistemas_operativos_fiub.Sched.Scheduler.{
  buscar_pr, buscar_rr, elegir_pr, elegir_rr, next_curenv_ind,
}
use sistemas_operativos_fiub.Sched.Selection.{PrioridadValida, Prioridades}
use sistemas_operativos_fiub.Sched.Progress.{EnCpu, Promesa, sched_yield-Corre}
use sistemas_operativos_fiub.Sched.Priorities.{update_priority-Prioridades}
use sistemas_operativos_fiub.Sched.Ids.{Contrato, envid2env-Contrato}
use sistemas_operativos_fiub.Sched.Fork.{Hijo, sys_exofork-Hijo}
use sistemas_operativos_fiub.Sched.Syscall.{sys_exofork}

abbrev pub un_env : ℕ → ℕ → EnvStatus → ℕ → Env
un_env id padre s p = record {
  env_tf = tf_nuevo;
  env_link = none;
  env_id = id;
  env_parent_id = padre;
  env_status = s;
  env_runs = 0;
  env_cpunum = 0;
  priority = p;
  time_slices = 2;
  env_pgfault_upcall = 0;
  env_ipc_recving = false;
  env_ipc_dstva = 0;
  env_ipc_value = 0;
  env_ipc_from = 0;
  env_ipc_perm = 0;
}

-- Environment 0 runs, 1 and 2 are its children and can run; 2 has the better priority.
abbrev envs0 : ℕ → Env
envs0 i =
    if i == 0
    then un_env 4096 0 env_running 4
    else if i == 1
    then un_env 4097 4096 env_runnable 7
    else if i == 2
    then un_env 4098 4096 env_runnable 3
    else un_env 0 0 free 1

abbrev pub kernel0 : Kernel
kernel0 = record {
  envs = envs0;
  env_free_list = some 3;
  curenv = some 0;
  boost_time_slices = 999;
  total_sched_calls = 0;
  history_ind = 999;
  history = λ i. vacia;
  history_desborda = false;
}

prioridades0 : Prioridades envs0
prioridades0 x lt =
    if_both PrioridadValida (x == 0) _ _ (omega arith, omega arith)
      (if_both PrioridadValida (x == 1) _ _ (omega arith, omega arith)
        (if_both PrioridadValida (x == 2) _ _ (omega arith, omega arith)
          (omega arith, omega arith)))

update_priority-Prioridades_example : Prioridades (update_priority kernel0).envs
update_priority-Prioridades_example = update_priority-Prioridades kernel0 prioridades0

envid2env-Contrato_example : Contrato kernel0 0 4098 true (envid2env kernel0 4098 true)
envid2env-Contrato_example = envid2env-Contrato kernel0 0 4098 true refl

sched_yield-Corre_example :
    (e : ℕ) × (k' : Kernel) × (sched_yield sched_pr_defined 0 kernel0 ≡ corre k')
    × EnCpu 0 k' e
    × Promesa sched_pr_defined (record kernel0 { total_sched_calls = add32 0 1 }) e
sched_yield-Corre_example =
    sched_yield-Corre sched_pr_defined 0 kernel0 1 prioridades0 (omega arith) refl

sys_exofork-Hijo_example : Hijo kernel0 0 3 (sys_exofork true kernel0)
sys_exofork-Hijo_example =
    sys_exofork-Hijo kernel0 0 3 refl refl (λ e. omega arith) (λ e. omega arith) (refl, refl, refl)

-- Environment 1 is the next in circular order, 2 the one of the best priority.
elegir_rr_run : elegir_rr 0 kernel0 ≡ some 1
unfolding elegir_rr buscar_rr next_curenv_ind
elegir_rr_run = refl

elegir_pr_run : elegir_pr 0 kernel0 ≡ some 2
unfolding elegir_pr buscar_pr next_curenv_ind
elegir_pr_run = refl
