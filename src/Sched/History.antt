-- ===== src/Sched/History.antt =====
-- sched/kern/history.c: the lines that the scheduler leaves in `history`.
use sistemas_operativos_fiub.Common.{ℕ, ◌+◌, ltb, if◌then◌else◌, true}
use sistemas_operativos_fiub.Sched.Kernel.{
  Env, Linea, Linea.ejecuta, Linea.creado, Linea.terminado, Kernel, poner,
}

abbrev pub history_len : ℕ
history_len = 1000

unfoldable pub update_history_ind : ℕ → ℕ
update_history_ind history_ind = if ltb history_ind history_len then history_ind + 1 else 0

-- snprintf(history[history_ind], 100, ...): the array has HISTORY_LEN lines.
unfoldable pub escribir_linea : Linea → Kernel → Kernel
escribir_linea l k =
    if ltb k.history_ind history_len
    then record k { history = poner k.history k.history_ind l }
    else record k { history_desborda = true }

unfoldable pub agregar_linea : Linea → Kernel → Kernel
agregar_linea l k = escribir_linea l (record k { history_ind = update_history_ind k.history_ind })

unfoldable pub add_run_env_to_history : Env → Kernel → Kernel
add_run_env_to_history env k = agregar_linea (ejecuta env.env_id) k

unfoldable pub add_new_env_to_history : Env → Kernel → Kernel
add_new_env_to_history env k = agregar_linea (creado env.env_id) k

unfoldable pub add_end_of_env_to_history : Env → Kernel → Kernel
add_end_of_env_to_history env k =
    agregar_linea (terminado env.env_id env.env_runs env.time_slices) k
