-- ===== src/Sched/UserFork.antt =====
-- sched/lib/fork.c and sched/lib/pgfault.c: the user's side of fork, by its system calls. A store or
-- a copy through user addresses is a parameter, `memmove`, and does not fault.
pub mod Pgfault
pub mod TwoMappings
pub mod Duppage
use Prim.Native.Nat.{bit_and, bit_or}
use sistemas_operativos_fiub.Common.{
  ℕ, zero, suc, ◌+◌, ◌-◌, ◌*◌, ◌/◌, ◌%◌, Bool, true, false, Option, none, some, not, ◌&&◌, ◌||◌,
  ◌==◌, if◌then◌else◌,
}
use sistemas_operativos_fiub.Sched.Kernel.{mod32, slt}
use sistemas_operativos_fiub.Sched.Scheduler.{Politica}
use sistemas_operativos_fiub.Sched.Syscall.{sys_env_set_status}
use sistemas_operativos_fiub.Sched.Memory.Pages.{Memory, pgnum, pgsize}
use sistemas_operativos_fiub.Sched.Memory.Tables.{load, pte_p, pte_u, pte_w}
use sistemas_operativos_fiub.Sched.Memory.UserCheck.{rounddown, utop}
use sistemas_operativos_fiub.Sched.PageCalls.{
  has_bits, sys_page_alloc, sys_page_map, sys_page_unmap,
}
use sistemas_operativos_fiub.Sched.System.{
  System, Outcome, comes_back, leaves, stops, memory, of_reply, of_respuesta,
}
use sistemas_operativos_fiub.Sched.Dispatch.{sys_env_set_pgfault_upcall}
use sistemas_operativos_fiub.Sched.Trap.{exstk, uxstacktop}

-- The program goes on, panics, is not run any further by a call, or faults at a read of the map at
-- UVPT.
pub data UserRun : Type 0 where
  goes_on : System → UserRun
  user_panics no_return faults : UserRun

abbrev pub pte_cow : ℕ
pte_cow = 0x800

-- PTE_PCD | PTE_PWT
abbrev pub pte_io : ℕ
pte_io = 0x18

abbrev pub fec_wr : ℕ
fec_wr = 2

abbrev pub pftemp : ℕ
pftemp = 0x400000 + 0x400000 - 4096

-- `if ((r = call) < 0) panic(...)`
unfoldable pub must : Outcome → (System → UserRun) → UserRun
must (comes_back r s) next = if slt r 0 then user_panics else next s
must (leaves d m pg) next = no_return
must (stops why) next = no_return

unfoldable pub and_then : UserRun → (System → UserRun) → UserRun
and_then (goes_on s) next = next s
and_then user_panics next = user_panics
and_then no_return next = no_return
and_then faults next = faults

-- The system calls, as the program makes them.
abbrev pub page_map : ℕ → ℕ → ℕ → ℕ → ℕ → System → Outcome
page_map srcenv srcva dstenv dstva perm s =
    of_reply s.env_pgdir (sys_page_map s.env_pgdir s.kern (memory s) srcenv srcva dstenv dstva perm)

abbrev pub page_alloc_call : ℕ → ℕ → ℕ → System → Outcome
page_alloc_call envid va perm s =
    of_reply s.env_pgdir (sys_page_alloc s.env_pgdir s.kern (memory s) envid va perm)

abbrev pub page_unmap : ℕ → ℕ → System → Outcome
page_unmap envid va s = of_reply s.env_pgdir (sys_page_unmap s.env_pgdir s.kern (memory s) envid va)

-- The entries of the directory, as the map at UVPT shows them to the environment with that
-- directory.
abbrev pub uvpd : ℕ → Memory → ℕ → ℕ
uvpd pgdir m i = load m (pgdir, i)

-- !(pte & PTE_P) || !(pte & PTE_U)
abbrev pub not_user : ℕ → Bool
not_user pte = not (has_bits pte pte_p) || not (has_bits pte pte_u)

-- The entries of the tables in the same way: where the directory has no table that the user may read,
-- there is nothing at that address.
unfoldable pub uvpt_at : ℕ → Memory → ℕ → Option ℕ
uvpt_at pgdir m pn =
    let pde = uvpd pgdir m (pn / 1024) in
    if not_user pde then none else some (load m (pgnum pde, pn % 1024))

-- What the program does with an entry that it reads.
unfoldable pub with_entry : Option ℕ → (ℕ → UserRun) → UserRun
with_entry none next = faults
with_entry (some pte) next = next pte

-- The permissions of the new mapping, without PTE_COW.
unfoldable pub base_perm : ℕ → ℕ
base_perm pte =
    if has_bits pte pte_io then bit_or (bit_or pte_u pte_p) pte_io else bit_or pte_u pte_p

unfoldable pub duppage_with : ℕ → ℕ → ℕ → System → UserRun
duppage_with envid addr pte s =
    if has_bits pte pte_w || has_bits pte pte_cow
    then must (page_map 0 addr envid addr (bit_or (base_perm pte) pte_cow) s)
        (λ s'. must (page_map 0 addr 0 addr (bit_or (base_perm pte) pte_cow) s') goes_on)
    else must (page_map 0 addr envid addr (base_perm pte) s) goes_on

-- `pgdir` is the directory of the caller.
unfoldable pub duppage : ℕ → ℕ → ℕ → System → UserRun
duppage pgdir envid pn s =
    with_entry (uvpt_at pgdir s.mem pn)
      (λ pte. if not_user pte then user_panics else duppage_with envid (pn * pgsize % mod32) pte s)

-- One round of the loop of fork.
unfoldable pub copy_page : ℕ → ℕ → ℕ → System → UserRun
copy_page pgdir envid pnum s =
    if pnum == uxstacktop / pgsize - 1
    then goes_on s
    else if not_user (uvpd pgdir s.mem (pnum / 1024))
    then goes_on s
    else with_entry (uvpt_at pgdir s.mem pnum)
        (λ pte. if not_user pte then goes_on s else duppage pgdir envid pnum s)

-- The rounds from pnum on, n of them.
unfoldable pub copy_pages : ℕ → ℕ → ℕ → ℕ → System → UserRun
copy_pages pgdir envid pnum zero s = goes_on s
copy_pages pgdir envid pnum (suc n) s =
    and_then (copy_page pgdir envid pnum s) (copy_pages pgdir envid (suc pnum) n)

-- fork in the parent, c, once sys_exofork has given the child's id.
unfoldable pub fork_parent : Politica → ℕ → ℕ → ℕ → System → UserRun
fork_parent politica cpu c envid s =
    and_then (copy_pages (s.env_pgdir c) envid 0 (utop / pgsize) s) (λ s1.
      must (page_alloc_call envid exstk (bit_or (bit_or pte_u pte_p) pte_w) s1) (λ s2.
        must (sys_env_set_pgfault_upcall politica cpu s2 envid (s2.kern.envs c).env_pgfault_upcall)
          (λ s3.
            must (of_respuesta s3.mem s3.env_pgdir (sys_env_set_status s3.kern envid 2)) goes_on)))

-- `(err & FEC_WR) & !(fault_pte & PTE_COW)`
unfoldable pub not_cow_write : ℕ → ℕ → Bool
not_cow_write err pte =
    not (bit_and (bit_and err fec_wr) (if has_bits pte pte_cow then 0 else 1) == 0)

-- The private copy of the page at addr.
unfoldable pub copy_private : (ℕ → ℕ → System → System) → ℕ → System → UserRun
copy_private memmove addr s =
    let perm = bit_or (bit_or pte_p pte_u) pte_w in
    must (page_alloc_call 0 pftemp perm s) (λ s1.
      must (page_map 0 pftemp 0 (rounddown addr) perm (memmove pftemp (rounddown addr) s1))
        (λ s2. must (page_unmap 0 pftemp s2) goes_on))

unfoldable pub pgfault : (ℕ → ℕ → System → System) → ℕ → ℕ → ℕ → System → UserRun
pgfault memmove pgdir addr err s =
    with_entry (uvpt_at pgdir s.mem (addr / pgsize))
      (λ pte. if not_cow_write err pte then user_panics else copy_private memmove addr s)
