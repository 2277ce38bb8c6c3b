-- ===== src/Sched/UserFork/Pgfault.antt =====
-- The test of pgfault (sched/lib/fork.c).
use Prim.Native.Nat.{bit_and}
use sistemas_operativos_fiub.Common.{
  ℕ, zero, suc, ◌*◌, ◌/◌, ◌%◌, ◌<◌, ◌≡◌, refl, Bool, true, false, not, ◌==◌, if◌then◌else◌, arith,
}
use sistemas_operativos_fiub.Common.Bits.{bit_and-two}
use sistemas_operativos_fiub.Sched.Memory.Pages.{pgsize}
use sistemas_operativos_fiub.Sched.PageCalls.{has_bits}
use sistemas_operativos_fiub.Sched.System.{System}
use sistemas_operativos_fiub.Sched.Memory.Tables.{load, pte_p, pte_u}
use sistemas_operativos_fiub.Sched.UserFork.{
  faults, copy_private, not_cow_write, not_user, pgfault, pte_cow, uvpd, uvpt_at, with_entry,
}

-- pgfault itself faults at an address without a table that the user may read.
pgfault-faults :
    (memmove : ℕ → ℕ → System → System) (pgdir addr err : ℕ) (s : System)
    → not_user (uvpd pgdir s.mem (addr / pgsize / 1024)) ≡ true
    → pgfault memmove pgdir addr err s ≡ faults
unfolding pgfault uvpt_at with_entry
pgfault-faults memmove pgdir addr err s no_table = rw no_table refl

-- When the directory has a present table for the address that the user may read, then whatever the
-- error code and the entry are, the test of pgfault for a write to a page that is not copy-on-write
-- is false, so that pgfault goes on to the private copy.
pub pgfault_unchecked :
    (memmove : ℕ → ℕ → System → System) (pgdir addr err : ℕ) (s : System)
    → has_bits (uvpd pgdir s.mem (addr / pgsize / 1024)) pte_p ≡ true
    → has_bits (uvpd pgdir s.mem (addr / pgsize / 1024)) pte_u ≡ true
    → pgfault memmove pgdir addr err s ≡ copy_private memmove addr s
unfolding pgfault not_cow_write uvpt_at with_entry
pgfault_unchecked memmove pgdir addr err s present user =
    rw (present, user, no_test (has_bits (load s.mem (_, addr / pgsize % 1024)) pte_cow)) refl
  where
    halves : (n : ℕ) → n < 2 → (b : Bool) → bit_and (n * 2) (if b then 0 else 1) ≡ 0
    halves zero h true = refl
    halves zero h false = refl
    halves (suc zero) h true = refl
    halves (suc zero) h false = refl
    halves (suc (suc n)) h b = absurd (omega arith)

    no_test : (b : Bool) → not (bit_and (bit_and err 2) (if b then 0 else 1) == 0) ≡ false
    no_test b =
        let bits : bit_and err 2 ≡ err / 2 % 2 * 2 = bit_and-two err in
        rw (bits, halves (err / 2 % 2) (omega arith) b) refl
