-- ===== src/Sched/Kernel.antt =====
-- The data of the kernel: struct Env and its status (sched/inc/env.h), struct Trapframe
-- (sched/inc/trap.h) and the globals of sched/kern/env.c, sched.c and history.c.
use sistemas_operativos_fiub.Common.{
  ℕ, ◌+◌, ◌-◌, ◌%◌, ◌^◌, Bool, true, false, Option, ltb, ◌==◌, if◌then◌else◌,
}

-- 32-bit arithmetic on patterns, and the order of two patterns read with their sign.
abbrev pub mod32 : ℕ
mod32 = 2 ^ 32

abbrev pub add32 : ℕ → ℕ → ℕ
add32 a b = (a + b) % mod32

abbrev pub sub32 : ℕ → ℕ → ℕ
sub32 a b = (a + (mod32 - b)) % mod32

abbrev pub con_signo : ℕ → ℕ
con_signo a = (a + 2 ^ 31) % mod32

abbrev pub slt : ℕ → ℕ → Bool
slt a b = ltb (con_signo a) (con_signo b)

-- Pattern of a negated error number.
abbrev pub negado : ℕ → ℕ
negado e = mod32 - e

-- The number of environments, and the index of an id among them.
abbrev pub nenv : ℕ
nenv = 1024

abbrev pub envx : ℕ → ℕ
envx envid = envid % nenv

pub data EnvStatus : Type 0 where
  env_free env_dying env_runnable env_running env_not_runnable : EnvStatus

abbrev pub es_free : EnvStatus → Bool
es_free env_free = true
es_free _ = false

abbrev pub es_dying : EnvStatus → Bool
es_dying env_dying = true
es_dying _ = false

abbrev pub es_runnable : EnvStatus → Bool
es_runnable env_runnable = true
es_runnable _ = false

abbrev pub es_running : EnvStatus → Bool
es_running env_running = true
es_running _ = false

pub record PushRegs : Type 0 where
  pub reg_edi : ℕ
  pub reg_esi : ℕ
  pub reg_ebp : ℕ
  pub reg_oesp : ℕ
  pub reg_ebx : ℕ
  pub reg_edx : ℕ
  pub reg_ecx : ℕ
  pub reg_eax : ℕ

pub record Trapframe : Type 0 where
  pub tf_regs : PushRegs
  pub tf_es : ℕ
  pub tf_ds : ℕ
  pub tf_trapno : ℕ
  pub tf_err : ℕ
  pub tf_eip : ℕ
  pub tf_cs : ℕ
  pub tf_eflags : ℕ
  pub tf_esp : ℕ
  pub tf_ss : ℕ

-- struct Env without its page directory. A pointer to an environment is its index in `envs`.
pub record Env : Type 0 where
  pub env_tf : Trapframe
  pub env_link : Option ℕ
  pub env_id : ℕ
  pub env_parent_id : ℕ
  pub env_status : EnvStatus
  pub env_runs : ℕ
  pub env_cpunum : ℕ
  pub priority : ℕ
  pub time_slices : ℕ
  pub env_pgfault_upcall : ℕ
  pub env_ipc_recving : Bool
  pub env_ipc_dstva : ℕ
  pub env_ipc_value : ℕ
  pub env_ipc_from : ℕ
  pub env_ipc_perm : ℕ

-- A line of the history: nothing yet, or the arguments of the snprintf that wrote it.
pub data Linea : Type 0 where
  vacia : Linea
  ejecuta creado : ℕ → Linea
  terminado : ℕ → ℕ → ℕ → Linea

-- The kernel as one CPU sees it. `history_desborda` tells that a line was written past the end
-- of `history`.
pub record Kernel : Type 0 where
  pub envs : ℕ → Env
  pub env_free_list : Option ℕ
  pub curenv : Option ℕ
  pub boost_time_slices : ℕ
  pub total_sched_calls : ℕ
  pub history_ind : ℕ
  pub history : ℕ → Linea
  pub history_desborda : Bool

-- Storing at an index of an array.
abbrev pub poner {ℓ} : {A : Type ℓ} → (ℕ → A) → ℕ → A → ℕ → A
poner f i x j = if i == j then x else f j

abbrev pub con_env : Kernel → ℕ → Env → Kernel
con_env k i e = record k { envs = poner k.envs i e }
