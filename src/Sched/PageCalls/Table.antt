-- ===== src/Sched/PageCalls/Table.antt =====
-- The system calls that map pages (sched/kern/syscall.c) and the table of environments.
use Prim.Native.Nat.{bit_or}
use sistemas_operativos_fiub.Common.{
  ℕ, ◌≡◌, refl, sym, ◌%◌, Bool, true, false, not, ◌&&◌, Option, none, some, leb, ◌==◌, if_both,
}
use sistemas_operativos_fiub.Sched.Kernel.{Env, Kernel, slt, negado}
use sistemas_operativos_fiub.Sched.Env.{Resuelto, bad_env, dado, null_curenv, envid2env, e_inval}
use sistemas_operativos_fiub.Sched.Memory.Pages.{Memory, pgsize}
use sistemas_operativos_fiub.Sched.Memory.UserCheck.{utop}
use sistemas_operativos_fiub.Sched.Memory.Tables.{Pte, load, pte_p, pte_u, pte_w}
use sistemas_operativos_fiub.Sched.PageCalls.{
  PageReply, bad_address, has_bits, returns, breaks, after_alloc, after_map, deliver, reply,
  send_from, send_page, sys_ipc_try_send, sys_page_alloc, sys_page_map, sys_page_unmap, unmapped,
  with_env, env_page_alloc, env_page_map,
}
use sistemas_operativos_fiub.Sched.EnvTable.Invariant.{InUse, IsTable, con_env-IsTable}
use sistemas_operativos_fiub.Sched.EnvTable.Lifetimes.{Resolved, current_used, envid2env-Resolved}

-- When the call returns, the table is as IsTable says.
abbrev pub ReturnsTable : PageReply → Type 0
ReturnsTable (returns r k m) = IsTable k
ReturnsTable breaks = Unit

reply-ReturnsTable : (k : Kernel) (o : Option (ℕ × Memory)) → IsTable k → ReturnsTable (reply k o)
unfolding reply
reply-ReturnsTable k none t = tt
reply-ReturnsTable k (some (r, m)) t = t

unmapped-ReturnsTable : (k : Kernel) (o : Option Memory) → IsTable k → ReturnsTable (unmapped k o)
unfolding unmapped
unmapped-ReturnsTable k none t = tt
unmapped-ReturnsTable k (some m) t = t

with_env-ReturnsTable :
    (k : Kernel) (m : Memory) (next : ℕ → PageReply) (r : Resuelto)
    → IsTable k
    → Resolved k r
    → ((e : ℕ) → InUse k.envs (some e) → ReturnsTable (next e))
    → ReturnsTable (with_env k m next r)
unfolding with_env
with_env-ReturnsTable k m next (dado (some e)) t u h = h e u
with_env-ReturnsTable k m next (dado none) t u h = tt
with_env-ReturnsTable k m next bad_env t u h = t
with_env-ReturnsTable k m next null_curenv t u h = tt

-- What a send leaves in an environment in use, whose link is kept.
deliver-ReturnsTable :
    (k : Kernel) (m : Memory) (value d : ℕ) (env : Env) (o : Option ℕ)
    → env.env_link ≡ (k.envs d).env_link
    → InUse k.envs (some d)
    → IsTable k
    → ReturnsTable (deliver k m value d env o)
unfolding deliver
deliver-ReturnsTable k m value d env none l u t = tt
deliver-ReturnsTable k m value d env (some c) l u t = con_env-IsTable k d _ l (sym (u.1)) t

module _ (k : Kernel) (value d : ℕ) (u : InUse k.envs (some d)) (t : IsTable k) where
  after_map-ReturnsTable :
      (perm : ℕ) (o : Option (ℕ × Memory)) → ReturnsTable (after_map k value d perm o)
  unfolding after_map
  after_map-ReturnsTable perm none = tt
  after_map-ReturnsTable perm (some (r, m)) = if_both ReturnsTable (slt r 0) _ _ t (
      deliver-ReturnsTable k m value d (record (k.envs d) { env_ipc_perm = perm }) k.curenv refl u
        t)

  after_alloc-ReturnsTable :
      (env_pgdir : ℕ → ℕ) (c srcva perm : ℕ) (o : Option (ℕ × Memory))
      → ReturnsTable (after_alloc env_pgdir k c srcva value d perm o)
  unfolding after_alloc
  after_alloc-ReturnsTable env_pgdir c srcva perm none = tt
  after_alloc-ReturnsTable env_pgdir c srcva perm (some (r, m)) =
      if_both ReturnsTable (slt r 0) _ _ t (after_map-ReturnsTable perm _)

  send_page-ReturnsTable :
      (env_pgdir : ℕ → ℕ) (m : Memory) (c srcva perm : ℕ) (o : Option (Option (ℕ × Pte)))
      → ReturnsTable (send_page env_pgdir k m c srcva value d perm o)
  unfolding send_page
  send_page-ReturnsTable env_pgdir m c srcva perm none = tt
  send_page-ReturnsTable env_pgdir m c srcva perm (some none) = tt
  send_page-ReturnsTable env_pgdir m c srcva perm (some (some (p, pte))) =
      let given : ℕ = bit_or perm (bit_or pte_u pte_p) in
      let no_entry : Bool = not (load m pte == 0) && not (has_bits (load m pte) pte_p) in
      let not_writable : Bool = has_bits perm pte_w && not (has_bits (load m pte) pte_w) in
      if_both ReturnsTable no_entry (returns (negado e_inval) k m) _ t (
        if_both ReturnsTable not_writable (returns (negado e_inval) k m) _ t (
          if_both ReturnsTable ((k.envs d).env_ipc_dstva == 0)
            (deliver k m value d (k.envs d) (some c)) _
            (deliver-ReturnsTable k m value d (k.envs d) (some c) refl u t)
            (after_alloc-ReturnsTable env_pgdir c srcva given
              (env_page_alloc (env_pgdir d) (k.envs d).env_ipc_dstva given m))))

  send_from-ReturnsTable :
      (env_pgdir : ℕ → ℕ) (m : Memory) (srcva perm : ℕ) (o : Option ℕ)
      → ReturnsTable (send_from env_pgdir k m srcva value d perm o)
  unfolding send_from
  send_from-ReturnsTable env_pgdir m srcva perm none = tt
  send_from-ReturnsTable env_pgdir m srcva perm (some c) =
      send_page-ReturnsTable env_pgdir m c srcva perm _

-- The calls of a current environment.
module _ (env_pgdir : ℕ → ℕ) (k : Kernel) (c : ℕ) (eq : k.curenv ≡ some c) (t : IsTable k)
    (m : Memory) where
  found : (envid : ℕ) (checkperm : Bool) → Resolved k (envid2env k envid checkperm)
  found envid checkperm = envid2env-Resolved k c envid checkperm eq (current_used k c eq t)

  pub sys_page_alloc-ReturnsTable :
      (envid va perm : ℕ) → ReturnsTable (sys_page_alloc env_pgdir k m envid va perm)
  unfolding sys_page_alloc
  sys_page_alloc-ReturnsTable envid va perm =
      if_both ReturnsTable _ (returns _ k m) _ t
        (with_env-ReturnsTable k m _ _ t (found envid true) (λ e u. reply-ReturnsTable k _ t))

  pub sys_page_map-ReturnsTable :
      (srcenvid srcva dstenvid dstva perm : ℕ)
      → ReturnsTable (sys_page_map env_pgdir k m srcenvid srcva dstenvid dstva perm)
  unfolding sys_page_map
  sys_page_map-ReturnsTable srcenvid srcva dstenvid dstva perm =
      let onto : ℕ → PageReply = λ src.
        with_env k m
          (λ dst. reply k (
            env_page_map (env_pgdir src) srcva (env_pgdir dst) dstva
              (bit_or (bit_or pte_p pte_u) perm) m))
          (envid2env k dstenvid true) in
      if_both ReturnsTable (bad_address srcva) (returns (negado e_inval) k m) _ t (
        if_both ReturnsTable (bad_address dstva) (returns (negado e_inval) k m) _ t (
          with_env-ReturnsTable k m onto _ t (found srcenvid true) (λ src u.
            with_env-ReturnsTable k m _ _ t (found dstenvid true)
              (λ dst v. reply-ReturnsTable k _ t))))

  pub sys_page_unmap-ReturnsTable :
      (envid va : ℕ) → ReturnsTable (sys_page_unmap env_pgdir k m envid va)
  unfolding sys_page_unmap
  sys_page_unmap-ReturnsTable envid va =
      if_both ReturnsTable _ (returns _ k m) _ t
        (with_env-ReturnsTable k m _ _ t (found envid true) (λ e u. unmapped-ReturnsTable k _ t))

  pub sys_ipc_try_send-ReturnsTable :
      (envid value srcva perm : ℕ)
      → ReturnsTable (sys_ipc_try_send env_pgdir k m envid value srcva perm)
  unfolding sys_ipc_try_send
  sys_ipc_try_send-ReturnsTable envid value srcva perm =
      with_env-ReturnsTable k m _ _ t (found envid false) (λ d u.
        if_both ReturnsTable (not (k.envs d).env_ipc_recving) (returns _ k m) _ t (
          if_both ReturnsTable (leb utop srcva)
            (deliver k m value d (record (k.envs d) { env_ipc_perm = 0 }) k.curenv) _
            (deliver-ReturnsTable k m value d (record (k.envs d) { env_ipc_perm = 0 }) k.curenv refl
              u t)
            (if_both ReturnsTable (not (srcva % pgsize == 0)) (returns _ k m) _ t
              (send_from-ReturnsTable k value d u t env_pgdir m srcva perm k.curenv))))
