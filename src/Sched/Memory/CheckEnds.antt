-- ===== src/Sched/Memory/CheckEnds.antt =====
-- The loop of user_mem_check (sched/kern/pmap.c) ends.
use sistemas_operativos_fiub.Common.{
  ℕ, zero, suc, ◌+◌, ◌*◌, ◌/◌, ◌≤◌, ◌≡◌, Option, none, some, ltb, ◌==◌, if_both, if_split, arith,
  false,
}
use Prim.Native.Nat.{bit_and, bit_or}
use sistemas_operativos_fiub.Sched.Kernel.{add32}
use sistemas_operativos_fiub.Sched.Memory.Pages.{Memory, pgsize}
use sistemas_operativos_fiub.Sched.Memory.Tables.{Pte, load, pgdir_walk}
use sistemas_operativos_fiub.Sched.Memory.UserCheck.{
  UserCheck, allowed, fault, panics, out_of_steps, check_entry, check_pages, rounddown, roundup,
  user_mem_check, utop,
}

-- An answer, not the end of a bound on the rounds.
abbrev pub Answered : UserCheck → Type 0
Answered allowed = Unit
Answered (fault a) = Unit
Answered panics = Unit
Answered out_of_steps = ⊥

check_entry-Answered :
    (need lo act : ℕ) (rest : UserCheck) (w : Option (Option Pte × Memory))
    → Answered rest
    → Answered (check_entry need lo act rest w)
unfolding check_entry
check_entry-Answered need lo act rest none h = tt
check_entry-Answered need lo act rest (some (none, m)) h = tt
check_entry-Answered need lo act rest (some (some pte, m)) h =
    if_both Answered (bit_and (load m pte) need == need) rest _ h tt

check_pages-Answered :
    (m : Memory) (pgdir need lo hi steps act : ℕ)
    → hi ≤ utop
    → hi ≤ act + 4096 * steps
    → Answered (check_pages m pgdir need lo hi (suc steps) act)
unfolding check_pages
check_pages-Answered m pgdir need lo hi zero act low fuel =
    let over : ltb act hi ≡ false = ground arith in rw over tt
check_pages-Answered m pgdir need lo hi (suc steps) act low fuel =
    if_split Answered (ltb act hi) _ _
      (λ more.
        check_entry-Answered need lo act _ (pgdir_walk pgdir act false m)
          (check_pages-Answered m pgdir need lo hi steps (add32 act pgsize) low (ground arith)))
      (λ over. tt)

-- user_mem_check answers, whatever the range is.
pub user_mem_check-Answered :
    (m : Memory) (pgdir va len perm : ℕ) → Answered (user_mem_check m pgdir va len perm)
unfolding user_mem_check
user_mem_check-Answered m pgdir va len perm =
    if_split Answered (ltb utop (roundup (add32 va len))) _ _ (λ over. tt)
      (λ under.
        check_pages-Answered m pgdir (bit_or perm 1) va (roundup (add32 va len))
          (roundup (add32 va len) / 4096) (rounddown va) (ground arith) (omega arith))
