-- ===== src/Sched/PageCalls.antt =====
-- sched/kern/syscall.c: the system calls that map pages, over the environments and the memory.
-- `env_pgdir e` is the page directory of the environment e.
pub mod ReadOnly
pub mod NewPage
pub mod Table
use Prim.Native.Nat.{bit_and, bit_or}
use sistemas_operativos_fiub.Common.{
  ℕ, ◌+◌, ◌-◌, ◌%◌, Bool, true, false, not, ◌&&◌, ◌||◌, Option, none, some, ltb, leb, ◌==◌,
  if◌then◌else◌,
}
use sistemas_operativos_fiub.Sched.Kernel.{
  EnvStatus.env_runnable, Env, Kernel, con_env, mod32, negado, slt,
}
use sistemas_operativos_fiub.Sched.Env.{
  Resuelto, bad_env, dado, null_curenv, e_bad_env, e_inval, envid2env,
}
use sistemas_operativos_fiub.Sched.Memory.Pages.{Memory, page_alloc, pgsize}
use sistemas_operativos_fiub.Sched.Memory.Tables.{
  Pte, e_no_mem, load, page_insert, page_lookup, page_remove, pte_p, pte_u, pte_w,
}
use sistemas_operativos_fiub.Sched.Memory.UserCheck.{utop}

-- A call returns a pattern of 32 bits, or panics or follows a pointer that is null or was not set.
pub data PageReply : Type 0 where
  returns : ℕ → Kernel → Memory → PageReply
  breaks : PageReply

abbrev pub e_ipc_not_recv : ℕ
e_ipc_not_recv = 7

abbrev pub pte_syscall : ℕ
pte_syscall = 0xE07

-- `~x`
abbrev pub not32 : ℕ → ℕ
not32 x = mod32 - 1 - x

abbrev pub has_bits : ℕ → ℕ → Bool
has_bits w bits = not (bit_and w bits == 0)

-- check_perm with the word that `pte` points to, if it is not NULL.
unfoldable pub check_entry_perm : ℕ → Option ℕ → ℕ
check_entry_perm perm none = 0
check_entry_perm perm (some w) =
    if not (w == 0) && not (has_bits w pte_p)
    then negado e_inval
    else if has_bits perm pte_w && not (has_bits w pte_w)
    then negado e_inval
    else 0

unfoldable pub check_perm : ℕ → Option ℕ → ℕ
check_perm perm pte =
    if has_bits perm (not32 pte_syscall)
    then negado e_inval
    else if not (has_bits perm pte_p) || not (has_bits perm pte_u)
    then negado e_inval
    else check_entry_perm perm pte

unfoldable pub insert_new : ℕ → ℕ → ℕ → Option (Option ℕ × Memory) → Option (ℕ × Memory)
insert_new pgdir va perm none = none
insert_new pgdir va perm (some (none, m)) = some (negado e_no_mem, m)
insert_new pgdir va perm (some (some p, m)) = page_insert pgdir p va perm m

unfoldable pub env_page_alloc : ℕ → ℕ → ℕ → Memory → Option (ℕ × Memory)
env_page_alloc pgdir va perm m =
    if not (check_perm perm none == 0)
    then some (check_perm perm none, m)
    else insert_new pgdir va perm (page_alloc true m)

unfoldable pub map_found : ℕ → ℕ → ℕ → Memory → Option (Option (ℕ × Pte)) → Option (ℕ × Memory)
map_found pgdir va perm m none = none
map_found pgdir va perm m (some none) = some (negado e_inval, m)
map_found pgdir va perm m (some (some (p, pte))) =
    if has_bits (bit_and perm pte_w) (not32 (bit_and pte_w (load m pte)))
    then some (negado e_inval, m)
    else page_insert pgdir p va perm m

unfoldable pub env_page_map : ℕ → ℕ → ℕ → ℕ → ℕ → Memory → Option (ℕ × Memory)
env_page_map srcpgdir srcva dstpgdir dstva perm m =
    map_found dstpgdir dstva perm m (page_lookup srcpgdir srcva m)

abbrev pub bad_address : ℕ → Bool
bad_address va = leb utop va || not (va % pgsize == 0)

unfoldable pub reply : Kernel → Option (ℕ × Memory) → PageReply
reply k none = breaks
reply k (some (r, m)) = returns r k m

-- The environment of an id, for what follows in a call.
unfoldable pub with_env : Kernel → Memory → (ℕ → PageReply) → Resuelto → PageReply
with_env k m next (dado (some e)) = next e
with_env k m next (dado none) = breaks
with_env k m next bad_env = returns (negado e_bad_env) k m
with_env k m next null_curenv = breaks

unfoldable pub sys_page_alloc : (ℕ → ℕ) → Kernel → Memory → ℕ → ℕ → ℕ → PageReply
sys_page_alloc env_pgdir k m envid va perm =
    if bad_address va
    then returns (negado e_inval) k m
    else with_env k m
        (λ e. reply k (env_page_alloc (env_pgdir e) va (bit_or (bit_or perm pte_u) pte_p) m))
        (envid2env k envid true)

unfoldable pub sys_page_map : (ℕ → ℕ) → Kernel → Memory → ℕ → ℕ → ℕ → ℕ → ℕ → PageReply
sys_page_map env_pgdir k m srcenvid srcva dstenvid dstva perm =
    if bad_address srcva
    then returns (negado e_inval) k m
    else if bad_address dstva
    then returns (negado e_inval) k m
    else with_env k m
        (λ src.
          with_env k m
            (λ dst. reply k (
              env_page_map (env_pgdir src) srcva (env_pgdir dst) dstva
                (bit_or (bit_or pte_p pte_u) perm) m))
            (envid2env k dstenvid true))
        (envid2env k srcenvid true)

unfoldable pub unmapped : Kernel → Option Memory → PageReply
unmapped k none = breaks
unmapped k (some m) = returns 0 k m

unfoldable pub sys_page_unmap : (ℕ → ℕ) → Kernel → Memory → ℕ → ℕ → PageReply
sys_page_unmap env_pgdir k m envid va =
    if bad_address va
    then returns (negado e_inval) k m
    else with_env k m (λ e. unmapped k (page_remove (env_pgdir e) va m)) (envid2env k envid true)

-- What a send leaves in the receiver's environment.
unfoldable pub deliver : Kernel → Memory → ℕ → ℕ → Env → Option ℕ → PageReply
deliver k m value d env none = breaks
deliver k m value d env (some c) =
    returns 0
      (con_env k d (record env {
        env_ipc_from = (k.envs c).env_id;
        env_ipc_recving = false;
        env_ipc_value = value;
        env_tf = record env.env_tf { tf_regs = record env.env_tf.tf_regs { reg_eax = 0 } };
        env_status = env_runnable;
      }))
      m

unfoldable pub after_map : Kernel → ℕ → ℕ → ℕ → Option (ℕ × Memory) → PageReply
after_map k value d perm none = breaks
after_map k value d perm (some (r, m)) =
    if slt r 0
    then returns r k m
    else deliver k m value d (record (k.envs d) { env_ipc_perm = perm }) k.curenv

unfoldable pub after_alloc : (ℕ → ℕ) → Kernel → ℕ → ℕ → ℕ → ℕ → ℕ → Option (ℕ × Memory) → PageReply
after_alloc env_pgdir k c srcva value d perm none = breaks
after_alloc env_pgdir k c srcva value d perm (some (r, m)) =
    if slt r 0
    then returns r k m
    else after_map k value d perm
        (env_page_map (env_pgdir c) srcva (env_pgdir d) (k.envs d).env_ipc_dstva perm m)

-- Without a page at srcva, srcpte was never set.
unfoldable pub send_page :
    (ℕ → ℕ) → Kernel → Memory → ℕ → ℕ → ℕ → ℕ → ℕ → Option (Option (ℕ × Pte)) → PageReply
send_page env_pgdir k m c srcva value d perm none = breaks
send_page env_pgdir k m c srcva value d perm (some none) = breaks
send_page env_pgdir k m c srcva value d perm (some (some (p, pte))) =
    if not (load m pte == 0) && not (has_bits (load m pte) pte_p)
    then returns (negado e_inval) k m
    else if has_bits perm pte_w && not (has_bits (load m pte) pte_w)
    then returns (negado e_inval) k m
    else if (k.envs d).env_ipc_dstva == 0
    then deliver k m value d (k.envs d) (some c)
    else after_alloc env_pgdir k c srcva value d (bit_or perm (bit_or pte_u pte_p))
        (env_page_alloc (env_pgdir d) (k.envs d).env_ipc_dstva (bit_or perm (bit_or pte_u pte_p)) m)

unfoldable pub send_from : (ℕ → ℕ) → Kernel → Memory → ℕ → ℕ → ℕ → ℕ → Option ℕ → PageReply
send_from env_pgdir k m srcva value d perm none = breaks
send_from env_pgdir k m srcva value d perm (some c) =
    send_page env_pgdir k m c srcva value d perm (page_lookup (env_pgdir c) srcva m)

unfoldable pub sys_ipc_try_send : (ℕ → ℕ) → Kernel → Memory → ℕ → ℕ → ℕ → ℕ → PageReply
sys_ipc_try_send env_pgdir k m envid value srcva perm =
    with_env k m
      (λ d.
        if not (k.envs d).env_ipc_recving
        then returns (negado e_ipc_not_recv) k m
        else if leb utop srcva
        then deliver k m value d (record (k.envs d) { env_ipc_perm = 0 }) k.curenv
        else if not (srcva % pgsize == 0)
        then returns (negado e_inval) k m
        else send_from env_pgdir k m srcva value d perm k.curenv)
      (envid2env k envid false)
