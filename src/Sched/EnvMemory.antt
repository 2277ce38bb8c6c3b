-- ===== src/Sched/EnvMemory.antt =====
-- sched/kern/env.c: the pages of an environment. A directory is the number of its page, and a
-- function that panics is `none`.
pub mod Directory
use Prim.Native.Nat.{bit_and, bit_or}
use sistemas_operativos_fiub.Common.{
  ℕ, zero, suc, ◌+◌, ◌-◌, ◌*◌, ◌/◌, ◌%◌, Bool, true, false, not, Option, none, some, List, [], ◌∷◌,
  ltb, leb, ◌==◌, if◌then◌else◌,
}
use sistemas_operativos_fiub.Sched.Kernel.{Env, add32, poner}
use sistemas_operativos_fiub.Sched.Memory.Pages.{Memory, page_alloc, page_decref, pgnum, pgsize}
use sistemas_operativos_fiub.Sched.Memory.Tables.{
  load, page2pa, page_insert, page_remove, pdx, pte_p, pte_u, pte_w, store,
}
use sistemas_operativos_fiub.Sched.Memory.UserCheck.{rounddown, roundup, utop}
use sistemas_operativos_fiub.Sched.PageCalls.{has_bits}

abbrev pub uvpt : ℕ
uvpt = 0xef400000

abbrev pub ustacktop : ℕ
ustacktop = 0xeebfe000

-- The directory at page p, a copy of the kernel's but for UVPT.
unfoldable pub setup_directory : ℕ → ℕ → Memory → Memory
setup_directory kern_pgdir p m =
    store (p, pdx uvpt) (bit_or (bit_or (page2pa p) pte_p) pte_u)
      (record m {
        words = poner m.words p (m.words kern_pgdir);
        pp_ref = poner m.pp_ref p ((m.pp_ref p + 1) % 65536);
      })

-- `some (none, m)` is -E_NO_MEM.
unfoldable pub env_setup_vm : ℕ → Memory → Option (Option ℕ × Memory)
env_setup_vm kern_pgdir m = elim (page_alloc true m) [
  | none ↦ none
  | some (none, m') ↦ some (none, m')
  | some (some p, m') ↦ some (some p, setup_directory kern_pgdir p m')
]

-- The result of page_insert in region_alloc, which panics if it is not 0.
unfoldable pub must_insert : Option (ℕ × Memory) → Option Memory
must_insert none = none
must_insert (some (r, m)) = if r == 0 then some m else none

unfoldable pub region_page : ℕ → ℕ → Option (Option ℕ × Memory) → Option Memory
region_page pgdir va none = none
region_page pgdir va (some (none, m)) = none
region_page pgdir va (some (some p, m)) =
    must_insert (page_insert pgdir p va (bit_or pte_u pte_w) m)

-- The loop of region_alloc: n pages from va on.
unfoldable pub region_pages : ℕ → ℕ → ℕ → Memory → Option Memory
region_pages pgdir va zero m = some m
region_pages pgdir va (suc n) m = elim (region_page pgdir va (page_alloc false m)) [
  | none ↦ none
  | some m' ↦ region_pages pgdir (add32 va pgsize) n m'
]

unfoldable pub region_alloc : ℕ → ℕ → ℕ → Memory → Option Memory
region_alloc pgdir va len m =
    let va_lo = rounddown va in
    let va_hi = roundup (add32 va len) in
    if ltb utop va_hi then none else region_pages pgdir va_lo ((va_hi - va_lo) / pgsize) m

-- The fields that load_icode reads of struct Proghdr and struct Elf (sched/inc/elf.h).
pub record Proghdr : Type 0 where
  pub p_type : ℕ
  pub p_offset : ℕ
  pub p_va : ℕ
  pub p_filesz : ℕ
  pub p_memsz : ℕ

pub record Elf : Type 0 where
  pub e_magic : ℕ
  pub e_entry : ℕ
  pub e_ph : List Proghdr

abbrev pub elf_magic : ℕ
elf_magic = 0x464C457F

abbrev pub elf_prog_load : ℕ
elf_prog_load = 1

-- `copy_in pgdir ph` is the memset and the memcpy through the directory, which may fault.
module _ (copy_in : ℕ → Proghdr → Memory → Option Memory) where
  unfoldable pub load_segment : ℕ → Proghdr → Memory → Option Memory
  load_segment pgdir ph m =
      if not (ph.p_type == elf_prog_load)
      then some m
      else elim (region_alloc pgdir ph.p_va ph.p_memsz m) [
        | none ↦ none
        | some m' ↦ copy_in pgdir ph m'
      ]

  unfoldable pub load_segments : ℕ → List Proghdr → Memory → Option Memory
  load_segments pgdir [] m = some m
  load_segments pgdir (ph ∷ phs) m = elim (load_segment pgdir ph m) [
    | none ↦ none
    | some m' ↦ load_segments pgdir phs m'
  ]

  -- The entry point that the environment starts at.
  unfoldable pub load_icode : ℕ → Elf → Env → Memory → Option (Env × Memory)
  load_icode pgdir elf e m =
      if not (elf.e_magic == elf_magic) then none else elim (load_segments pgdir elf.e_ph m) [
        | none ↦ none
        | some m' ↦ elim (region_alloc pgdir (ustacktop - pgsize) pgsize m') [
          | none ↦ none
          | some m'' ↦ some (record e { env_tf = record e.env_tf { tf_eip = elf.e_entry } }, m'')
        ]
      ]

unfoldable pub unmap_pte : ℕ → ℕ → ℕ → ℕ → Memory → Option Memory
unmap_pte pgdir pdeno pt pteno m =
    if has_bits (m.words pt pteno) pte_p
    then page_remove pgdir (pdeno * 0x400000 + pteno * pgsize) m
    else some m

-- The loop of env_free over the entries of a page table, from pteno on.
unfoldable pub unmap_ptes : ℕ → ℕ → ℕ → ℕ → ℕ → Memory → Option Memory
unmap_ptes pgdir pdeno pt pteno zero m = some m
unmap_ptes pgdir pdeno pt pteno (suc n) m = elim (unmap_pte pgdir pdeno pt pteno m) [
  | none ↦ none
  | some m' ↦ unmap_ptes pgdir pdeno pt (suc pteno) n m'
]

-- The page table itself, whose number is in the directory's entry.
unfoldable pub free_table : ℕ → ℕ → Memory → Option Memory
free_table pgdir pdeno m =
    let pt = pgnum (load m (pgdir, pdeno)) in
    if leb m.npages pt then none else elim (unmap_ptes pgdir pdeno pt 0 1024 m) [
      | none ↦ none
      | some m' ↦ page_decref pt (store (pgdir, pdeno) 0 m')
    ]

unfoldable pub visit_table : ℕ → ℕ → Memory → Option Memory
visit_table pgdir pdeno m =
    if not (has_bits (load m (pgdir, pdeno)) pte_p) then some m else free_table pgdir pdeno m

-- The loop of env_free over the directory, from pdeno on.
unfoldable pub free_tables : ℕ → ℕ → ℕ → Memory → Option Memory
free_tables pgdir pdeno zero m = some m
free_tables pgdir pdeno (suc n) m = elim (visit_table pgdir pdeno m) [
  | none ↦ none
  | some m' ↦ free_tables pgdir (suc pdeno) n m'
]

-- The memory that env_free gives back: the tables below UTOP with their pages, and the directory.
unfoldable pub free_pages : ℕ → Memory → Option Memory
free_pages pgdir m = elim (free_tables pgdir 0 (pdx utop) m) [
  | none ↦ none
  | some m' ↦ page_decref pgdir m'
]
