-- ===== src/Sched/Syscall.antt =====
-- sched/kern/syscall.c: the system calls on environments that do not map pages.
use sistemas_operativos_fiub.Common.{
  ℕ, ◌%◌, Bool, true, false, not, ◌||◌, Option, none, some, leb, ◌==◌, if◌then◌else◌,
}
use sistemas_operativos_fiub.Sched.Kernel.{
  EnvStatus, EnvStatus.env_runnable, EnvStatus.env_not_runnable, Env, Kernel, add32, con_env,
  negado, slt, sub32,
}
use sistemas_operativos_fiub.Sched.Memory.Pages.{pgsize}
use sistemas_operativos_fiub.Sched.Memory.UserCheck.{utop}
use sistemas_operativos_fiub.Sched.History.{add_new_env_to_history}
use sistemas_operativos_fiub.Sched.Scheduler.{Destino, Politica, sched_yield}
use sistemas_operativos_fiub.Sched.Env.{
  Asignado, asignado, rechazado, Efecto, Resuelto, bad_env, dado, null_curenv, e_bad_env, e_inval,
  env_alloc, env_destroy, envid2env,
}

abbrev pub max_prio : ℕ
max_prio = 10

-- A system call returns a pattern of 32 bits, does not return, or follows a null pointer.
pub data Respuesta : Type 0 where
  devuelve : ℕ → Kernel → Respuesta
  sin_retorno : Destino → Respuesta
  colapsa : Respuesta

unfoldable pub destruir : Efecto → Respuesta
destruir (Efecto.vuelve k) = devuelve 0 k
destruir (Efecto.no_vuelve d) = sin_retorno d

unfoldable pub env_destroy_en : Politica → ℕ → Kernel → Resuelto → Respuesta
env_destroy_en politica cpu k (dado (some e)) = destruir (env_destroy politica cpu e k)
env_destroy_en politica cpu k (dado none) = colapsa
env_destroy_en politica cpu k bad_env = devuelve (negado e_bad_env) k
env_destroy_en politica cpu k null_curenv = colapsa

unfoldable pub sys_env_destroy : Politica → ℕ → Kernel → ℕ → Respuesta
sys_env_destroy politica cpu k envid = env_destroy_en politica cpu k (envid2env k envid true)

unfoldable pub prioridad_de : Kernel → Resuelto → Option ℕ
prioridad_de k (dado (some e)) = some (k.envs e).priority
prioridad_de k (dado none) = none
prioridad_de k bad_env = some (negado 1)
prioridad_de k null_curenv = none

-- `none`: the null pointer of envid2env is followed.
unfoldable pub sys_get_priority : Kernel → ℕ → Option ℕ
sys_get_priority k envid = prioridad_de k (envid2env k envid false)

-- The register set of the parent, in which the call returns 0.
unfoldable pub heredar : Env → Env → Env
heredar padre e = record e {
  env_status = env_not_runnable;
  env_tf = record padre.env_tf { tf_regs = record padre.env_tf.tf_regs { reg_eax = 0 } };
}

unfoldable pub con_prioridad : ℕ → Option ℕ → Kernel → Respuesta
con_prioridad i none k = colapsa
con_prioridad i (some p) k = devuelve (k.envs i).env_id (
    add_new_env_to_history (k.envs i)
      (con_env k i (record (k.envs i) { priority = p; time_slices = 0 })))

unfoldable pub bifurcar : ℕ → Asignado → Respuesta
bifurcar c (rechazado r k) = devuelve r k
bifurcar c (asignado i k) =
    let hijo = con_env k i (heredar (k.envs c) (k.envs i)) in
    con_prioridad i (sys_get_priority hijo (hijo.envs i).env_parent_id) hijo

unfoldable pub exofork_en : Bool → Kernel → Option ℕ → Respuesta
exofork_en setup_vm k none = colapsa
exofork_en setup_vm k (some c) = bifurcar c (env_alloc setup_vm (k.envs c).env_id k)

unfoldable pub sys_exofork : Bool → Kernel → Respuesta
sys_exofork setup_vm k = exofork_en setup_vm k k.curenv

unfoldable pub poner_status : Kernel → EnvStatus → Resuelto → Respuesta
poner_status k s (dado (some e)) = devuelve 0 (con_env k e (record (k.envs e) { env_status = s }))
poner_status k s (dado none) = colapsa
poner_status k s bad_env = devuelve (negado e_bad_env) k
poner_status k s null_curenv = colapsa

-- `status` is the int of the caller: ENV_RUNNABLE is 2, ENV_NOT_RUNNABLE is 4.
unfoldable pub sys_env_set_status : Kernel → ℕ → ℕ → Respuesta
sys_env_set_status k envid status =
    if status == 2
    then poner_status k env_runnable (envid2env k envid true)
    else if status == 4
    then poner_status k env_not_runnable (envid2env k envid true)
    else devuelve (negado e_inval) k

unfoldable pub recibir : Politica → ℕ → Kernel → ℕ → Option ℕ → Respuesta
recibir politica cpu k dstva none = colapsa
recibir politica cpu k dstva (some c) =
    if leb utop dstva || not (dstva % pgsize == 0)
    then devuelve (negado e_inval) (con_env k c (record (k.envs c) { env_ipc_recving = true }))
    else sin_retorno (
        sched_yield politica cpu (
          con_env k c (record (k.envs c) {
            env_ipc_recving = true;
            env_ipc_dstva = dstva;
            env_status = env_not_runnable;
          })))

unfoldable pub sys_ipc_recv : Politica → ℕ → Kernel → ℕ → Respuesta
sys_ipc_recv politica cpu k dstva = recibir politica cpu k dstva k.curenv

-- `thisenv->env_parent_id == curenv->env_id`, with a curenv.
abbrev pub es_hijo_de_curenv : Kernel → ℕ → Option ℕ → Bool
es_hijo_de_curenv k e none = false
es_hijo_de_curenv k e (some c) = (k.envs e).env_parent_id == (k.envs c).env_id

unfoldable pub mejorar : Env → Env
mejorar e = if e.priority == 1 then e else record e { priority = sub32 e.priority 1 }

unfoldable pub inc_priority_en : Kernel → Resuelto → Option ℕ → Respuesta
inc_priority_en k bad_env curenv = devuelve (negado 1) k
inc_priority_en k null_curenv curenv = colapsa
inc_priority_en k (dado none) curenv = colapsa
inc_priority_en k (dado (some e)) none = colapsa
inc_priority_en k (dado (some e)) (some c) =
    if e == c || es_hijo_de_curenv k e (some c)
    then devuelve (negado 1) k
    else devuelve 0 (con_env k e (mejorar (k.envs e)))

unfoldable pub sys_inc_priority : Kernel → ℕ → Respuesta
sys_inc_priority k envid = inc_priority_en k (envid2env k envid false) k.curenv

unfoldable pub empeorar : Env → Env
empeorar e = if slt e.priority max_prio then record e { priority = add32 e.priority 1 } else e

unfoldable pub red_priority_en : Kernel → Resuelto → Respuesta
red_priority_en k bad_env = devuelve (negado 1) k
red_priority_en k null_curenv = colapsa
red_priority_en k (dado none) = colapsa
red_priority_en k (dado (some e)) = devuelve 0 (con_env k e (empeorar (k.envs e)))

unfoldable pub sys_red_priority : Kernel → ℕ → Respuesta
sys_red_priority k envid = red_priority_en k (envid2env k envid false)
