-- ===== src/Sched/Env.antt =====
-- sched/kern/env.c: the table of environments and its free list. The pages of an environment are
-- not here: env_alloc is told whether env_setup_vm found a page, and env_free is the line of the
-- history and the return to the free list.
use Prim.Native.Nat.{bit_or}
use sistemas_operativos_fiub.Common.{
  ℕ, ◌+◌, ◌-◌, ◌%◌, Bool, false, not, ◌&&◌, ◌||◌, Option, none, some, ltb, leb, ◌==◌, if◌then◌else◌,
}
use sistemas_operativos_fiub.Sched.Kernel.{
  EnvStatus.env_free as free, EnvStatus.env_dying, EnvStatus.env_runnable, es_free, es_running, Env,
  Kernel, Trapframe, PushRegs, add32, con_env, envx, nenv, negado,
}
use sistemas_operativos_fiub.Sched.History.{add_new_env_to_history, add_end_of_env_to_history}
use sistemas_operativos_fiub.Sched.Scheduler.{Destino, Politica, sched_yield}

-- Error numbers of sched/inc/error.h.
abbrev pub e_bad_env : ℕ
e_bad_env = 2

abbrev pub e_inval : ℕ
e_inval = 3

abbrev pub e_no_mem : ℕ
e_no_mem = 4

abbrev pub e_no_free_env : ℕ
e_no_free_env = 5

-- envid2env: 0 with what it stores (curenv may be NULL), -E_BAD_ENV, or a null curenv followed.
pub data Resuelto : Type 0 where
  dado : Option ℕ → Resuelto
  bad_env null_curenv : Resuelto

-- `e != curenv && e->env_parent_id != curenv->env_id`, for an e that is not NULL.
unfoldable pub verificar_permiso : Kernel → ℕ → Option ℕ → Resuelto
verificar_permiso k e none = null_curenv
verificar_permiso k e (some c) =
    if not (e == c) && not ((k.envs e).env_parent_id == (k.envs c).env_id)
    then bad_env
    else dado (some e)

unfoldable pub envid2env : Kernel → ℕ → Bool → Resuelto
envid2env k envid checkperm =
    if envid == 0
    then dado k.curenv
    else if es_free (k.envs (envx envid)).env_status || not ((k.envs (envx envid)).env_id == envid)
    then bad_env
    else if checkperm
    then verificar_permiso k (envx envid) k.curenv
    else dado (some (envx envid))

-- The loop of env_init over the first n environments, and the last link.
unfoldable pub iniciar_envs : (ℕ → Env) → ℕ → ℕ → Env
iniciar_envs envs n j =
    if ltb j n
    then record (envs j) {
      env_id = 0;
      env_status = free;
      env_link = if j + 1 == n then none else some (j + 1);
    }
    else envs j

unfoldable pub env_init : Kernel → Kernel
env_init k = record k { envs = iniciar_envs k.envs nenv; env_free_list = some 0 }

-- The generation of the next id in a slot whose last id is this one.
unfoldable pub siguiente_generacion : ℕ → ℕ
siguiente_generacion env_id =
    let generation = add32 env_id 4096 - add32 env_id 4096 % nenv in
    if generation == 0 || leb 2147483648 generation then 4096 else generation

-- memset, the segment selectors GD_UD | 3 and GD_UT | 3, USTACKTOP and FL_IF.
abbrev pub regs_cero : PushRegs
regs_cero = record {
  reg_edi = 0;
  reg_esi = 0;
  reg_ebp = 0;
  reg_oesp = 0;
  reg_ebx = 0;
  reg_edx = 0;
  reg_ecx = 0;
  reg_eax = 0;
}

abbrev pub tf_nuevo : Trapframe
tf_nuevo = record {
  tf_regs = regs_cero;
  tf_es = 35;
  tf_ds = 35;
  tf_trapno = 0;
  tf_err = 0;
  tf_eip = 0;
  tf_cs = 27;
  tf_eflags = 512;
  tf_esp = 4005552128;
  tf_ss = 35;
}

-- What env_alloc gives: the environment, or a negated error number.
pub data Asignado : Type 0 where
  asignado : ℕ → Kernel → Asignado
  rechazado : ℕ → Kernel → Asignado

unfoldable pub env_nuevo : Env → ℕ → ℕ → Env
env_nuevo e i parent_id = record e {
  env_tf = tf_nuevo;
  env_id = bit_or (siguiente_generacion e.env_id) i;
  env_parent_id = parent_id;
  env_status = env_runnable;
  env_runs = 0;
  env_pgfault_upcall = 0;
  env_ipc_recving = false;
}

-- `setup_vm`: the allocation of the page directory succeeds.
unfoldable pub tomar : Bool → ℕ → Option ℕ → Kernel → Asignado
tomar setup_vm parent_id none k = rechazado (negado e_no_free_env) k
tomar setup_vm parent_id (some i) k =
    if setup_vm
    then asignado i (record (con_env k i (env_nuevo (k.envs i) i parent_id)) {
      env_free_list = (k.envs i).env_link;
    })
    else rechazado (negado e_no_mem) k

unfoldable pub env_alloc : Bool → ℕ → Kernel → Asignado
env_alloc setup_vm parent_id k = tomar setup_vm parent_id k.env_free_list k

-- env_create without the image that load_icode copies; `none` is its panic.
unfoldable pub estrenar : Asignado → Option Kernel
estrenar (rechazado r k) = none
estrenar (asignado i k) =
    some (add_new_env_to_history (k.envs i) (con_env k i (record (k.envs i) { priority = 1 })))

unfoldable pub env_create : Bool → Kernel → Option Kernel
env_create setup_vm k = estrenar (env_alloc setup_vm 0 k)

unfoldable pub devolver : ℕ → Kernel → Kernel
devolver e k =
    record (con_env k e (record (k.envs e) { env_status = free; env_link = k.env_free_list })) {
      env_free_list = some e;
    }

unfoldable pub env_free : ℕ → Kernel → Kernel
env_free e k = devolver e (add_end_of_env_to_history (k.envs e) k)

-- A call that comes back to its caller, or that leaves the kernel.
pub data Efecto : Type 0 where
  vuelve : Kernel → Efecto
  no_vuelve : Destino → Efecto

abbrev pub es_curenv : Kernel → ℕ → Bool
es_curenv k e = elim k.curenv [ none ↦ false | some c ↦ e == c ]

unfoldable pub env_destroy : Politica → ℕ → ℕ → Kernel → Efecto
env_destroy politica cpu e k =
    if es_running (k.envs e).env_status && not (es_curenv k e)
    then vuelve (con_env k e (record (k.envs e) { env_status = env_dying }))
    else if es_curenv k e
    then no_vuelve (sched_yield politica cpu (record (env_free e k) { curenv = none }))
    else vuelve (env_free e k)
