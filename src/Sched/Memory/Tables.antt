-- ===== src/Sched/Memory/Tables.antt =====
-- sched/kern/pmap.c: the page tables. A pointer to an entry is its page and its index there.
use Prim.Native.Nat.{bit_or}
use sistemas_operativos_fiub.Common.{
  ℕ, ◌+◌, ◌*◌, ◌/◌, ◌%◌, Bool, true, false, ◌&&◌, Option, none, some, ◌∷◌, leb, ◌==◌, if◌then◌else◌,
}
use sistemas_operativos_fiub.Sched.Kernel.{poner, negado}
use sistemas_operativos_fiub.Sched.Memory.Pages.{Memory, page_alloc, page_decref, pgnum, pgsize}

abbrev pub pte_p : ℕ
pte_p = 1

abbrev pub pte_w : ℕ
pte_w = 2

abbrev pub pte_u : ℕ
pte_u = 4

abbrev pub e_no_mem : ℕ
e_no_mem = 4

-- The indices of a linear address.
abbrev pub pdx : ℕ → ℕ
pdx va = (va / 0x400000) % 1024

abbrev pub ptx : ℕ → ℕ
ptx va = (va / pgsize) % 1024

abbrev pub page2pa : ℕ → ℕ
page2pa pp = pp * pgsize

abbrev pub Pte : Type 0
Pte = ℕ × ℕ

abbrev pub load : Memory → Pte → ℕ
load m e = m.words e.0 e.1

abbrev pub store : Pte → ℕ → Memory → Memory
store e w m = record m { words = poner m.words e.0 (poner (m.words e.0) e.1 w) }

-- The entry of the directory for a new page table, which page_alloc gave or not.
unfoldable pub link_table : ℕ → ℕ → Option (Option ℕ × Memory) → Option Memory
link_table pgdir va none = none
link_table pgdir va (some (none, m)) = some m
link_table pgdir va (some (some p, m)) = some (
    store (pgdir, pdx va) (bit_or (bit_or (bit_or (page2pa p) pte_p) pte_w) pte_u)
      (record m { pp_ref = poner m.pp_ref p ((m.pp_ref p + 1) % 65536) }))

unfoldable pub ensure_table : ℕ → ℕ → Bool → Memory → Option Memory
ensure_table pgdir va create m =
    if load m (pgdir, pdx va) == 0 && create
    then link_table pgdir va (page_alloc true m)
    else some m

-- What follows the directory's entry, where KADDR may panic.
unfoldable pub table_entry : ℕ → ℕ → Memory → Option (Option Pte × Memory)
table_entry pgdir va m =
    let e = load m (pgdir, pdx va) in
    if e == 0
    then some (none, m)
    else if leb m.npages (pgnum e)
    then none
    else some (some (pgnum e, ptx va), m)

unfoldable pub pgdir_walk : ℕ → ℕ → Bool → Memory → Option (Option Pte × Memory)
pgdir_walk pgdir va create m = elim (ensure_table pgdir va create m) [
  | none ↦ none
  | some m' ↦ table_entry pgdir va m'
]

-- `*pte && PTE_P` holds of every entry but 0. pa2page may panic.
unfoldable pub page_at : Option (Option Pte × Memory) → Option (Option (ℕ × Pte))
page_at none = none
page_at (some (none, m)) = some none
page_at (some (some pte, m)) =
    let e = load m pte in
    if e == 0
    then some none
    else if leb m.npages (pgnum e)
    then none
    else some (some (pgnum e, pte))

unfoldable pub page_lookup : ℕ → ℕ → Memory → Option (Option (ℕ × Pte))
page_lookup pgdir va m = page_at (pgdir_walk pgdir va false m)

unfoldable pub tlb_invalidate : ℕ → ℕ → Memory → Memory
tlb_invalidate pgdir va m =
    let flush = record m { flushed = va ∷ m.flushed } in
    elim m.cur_pgdir [ none ↦ flush | some cur ↦ if cur == pgdir then flush else m ]

unfoldable pub clear_entry : ℕ → ℕ → Pte → Option Memory → Option Memory
clear_entry pgdir va pte none = none
clear_entry pgdir va pte (some m) = some (tlb_invalidate pgdir va (store pte 0 m))

-- The pte of the first walk is the one that page_lookup stores.
unfoldable pub page_remove : ℕ → ℕ → Memory → Option Memory
page_remove pgdir va m = elim (page_lookup pgdir va m) [
  | none ↦ none
  | some none ↦ some m
  | some (some (p, pte)) ↦ clear_entry pgdir va pte (page_decref p m)
]

unfoldable pub write_entry : ℕ → ℕ → Pte → Option Memory → Option (ℕ × Memory)
write_entry pp perm pte none = none
write_entry pp perm pte (some m) = some (0, store pte (bit_or (bit_or (page2pa pp) perm) pte_p) m)

unfoldable pub insert_at : ℕ → ℕ → ℕ → ℕ → Option (Option Pte × Memory) → Option (ℕ × Memory)
insert_at pgdir pp va perm none = none
insert_at pgdir pp va perm (some (none, m)) = some (negado e_no_mem, m)
insert_at pgdir pp va perm (some (some pte, m)) =
    write_entry pp perm pte
      (page_remove pgdir va (record m { pp_ref = poner m.pp_ref pp ((m.pp_ref pp + 1) % 65536) }))

unfoldable pub page_insert : ℕ → ℕ → ℕ → ℕ → Memory → Option (ℕ × Memory)
page_insert pgdir pp va perm m = insert_at pgdir pp va perm (pgdir_walk pgdir va true m)
