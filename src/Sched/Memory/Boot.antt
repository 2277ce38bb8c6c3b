-- ===== src/Sched/Memory/Boot.antt =====
-- sched/kern/pmap.c: boot_alloc, and the mappings that boot_map_region and mmio_map_region make
-- (without TP1_PSE).
use Prim.Native.Nat.{bit_or}
use sistemas_operativos_fiub.Common.{
  ℕ, zero, suc, ◌+◌, ◌-◌, ◌*◌, ◌/◌, ◌%◌, ◌^◌, ◌≤◌, ◌<◌, ◌≡◌, true, Option, none, some, ltb, leb,
  ◌==◌, if◌then◌else◌, if_split, Option-cases, inl, inr, arith,
}
use sistemas_operativos_fiub.Sched.Kernel.{add32, mod32, sub32}
use sistemas_operativos_fiub.Sched.Memory.Pages.{Memory, pgnum, pgsize}
use sistemas_operativos_fiub.Sched.Memory.Tables.{Pte, page_remove, pgdir_walk, pte_p, store}
use sistemas_operativos_fiub.Sched.Memory.UserCheck.{rounddown, roundup}

abbrev pub kernbase : ℕ
kernbase = 0xF0000000

-- `_paddr` and `_kaddr`
unfoldable pub paddr : ℕ → Option ℕ
paddr kva = if ltb kva kernbase then none else some (kva - kernbase)

unfoldable pub kaddr : ℕ → ℕ → Option ℕ
kaddr npages pa = if leb npages (pgnum pa) then none else some (add32 pa kernbase)

-- The first free byte once it is set; `end_` is the linker's `end`.
unfoldable pub first_free : ℕ → ℕ → ℕ
first_free end_ nextfree = if nextfree == 0 then roundup end_ else nextfree

unfoldable pub boot_alloc_to : ℕ → ℕ → Option ℕ → Option (ℕ × ℕ)
boot_alloc_to npages result none = none
boot_alloc_to npages result (some last) =
    if leb (pgsize * npages % mod32) last
    then none
    else elim (kaddr npages last) [ none ↦ none | some kva ↦ some (result, roundup kva) ]

-- The address that boot_alloc returns, and `nextfree` afterwards.
unfoldable pub boot_alloc : ℕ → ℕ → ℕ → ℕ → Option (ℕ × ℕ)
boot_alloc npages end_ nextfree n =
    boot_alloc_to npages (first_free end_ nextfree) (paddr (add32 (first_free end_ nextfree) n))

-- `null_entry` is a write through the NULL of pgdir_walk, when no page is left for a table.
pub data Mapping : Type 0 where
  mapped : Memory → Mapping
  panics : Mapping
  null_entry : Mapping
  out_of_steps : Mapping

unfoldable pub map_entry : ℕ → ℕ → ℕ → Option (Option Pte × Memory) → Mapping
map_entry pgdir va word none = panics
map_entry pgdir va word (some (none, m)) = elim (page_remove pgdir va m) [
  | none ↦ panics
  | some m' ↦ null_entry
]
map_entry pgdir va word (some (some pte, m)) = elim (page_remove pgdir va m) [
  | none ↦ panics
  | some m' ↦ mapped (store pte word m')
]

unfoldable pub and_then : Mapping → (Memory → Mapping) → Mapping
and_then (mapped m) next = next m
and_then panics next = panics
and_then null_entry next = null_entry
and_then out_of_steps next = out_of_steps

-- The loop of boot_map_region from i on, of `steps` rounds at most.
unfoldable pub map_pages : ℕ → ℕ → ℕ → ℕ → ℕ → ℕ → ℕ → Memory → Mapping
map_pages pgdir va size pa perm zero i m = out_of_steps
map_pages pgdir va size pa perm (suc steps) i m =
    if ltb i size
    then and_then
        (map_entry pgdir (add32 va i) (bit_or (bit_or (add32 pa i) perm) pte_p)
          (pgdir_walk pgdir (add32 va i) true m))
        (map_pages pgdir va size pa perm steps (add32 i pgsize))
    else mapped m

unfoldable pub boot_map_region : ℕ → ℕ → ℕ → ℕ → ℕ → Memory → Mapping
boot_map_region pgdir va size pa perm m = map_pages pgdir va size pa perm (size / pgsize + 2) 0 m

abbrev pub mmiolim : ℕ
mmiolim = 0xEFC00000

-- PTE_W | PTE_P | PTE_PCD | PTE_PWT
abbrev pub mmio_perm : ℕ
mmio_perm = 0x1B

-- The base of the region, the one of the next region, and the mapping.
pub data MmioRegion : Type 0 where
  region : ℕ → ℕ → Mapping → MmioRegion
  limit_overflow : MmioRegion

unfoldable pub mmio_map_region : ℕ → ℕ → ℕ → ℕ → Memory → MmioRegion
mmio_map_region kern_pgdir base pa size m =
    if leb mmiolim (add32 base (roundup size))
    then limit_overflow
    else region (sub32 (add32 base (roundup size)) (roundup size)) (add32 base (roundup size))
        (boot_map_region kern_pgdir base (roundup size) (rounddown pa) mmio_perm m)

-- The loop was not cut short.
unfoldable pub Completes : Mapping → Type 0
Completes (mapped m) = Unit
Completes panics = Unit
Completes null_entry = Unit
Completes out_of_steps = ⊥

map_entry-Completes :
    (pgdir va word : ℕ) (w : Option (Option Pte × Memory)) → Completes (map_entry pgdir va word w)
unfolding map_entry Completes
map_entry-Completes pgdir va word none = tt
map_entry-Completes pgdir va word (some (none, m)) = elim (Option-cases (page_remove pgdir va m)) [
  | inl refused ↦ rw (Completes, map_entry, refused) tt
  | inr (m', done) ↦ rw (Completes, map_entry, done) tt
]
map_entry-Completes pgdir va word (some (some pte, m)) =
    elim (Option-cases (page_remove pgdir va m)) [
      | inl refused ↦ rw (Completes, map_entry, refused) tt
      | inr (m', done) ↦ rw (Completes, map_entry, done) tt
    ]

and_then-Completes :
    (r : Mapping) (next : Memory → Mapping)
    → Completes r
    → ((m : Memory) → Completes (next m))
    → Completes (and_then r next)
unfolding and_then Completes
and_then-Completes (mapped m) next h g = g m
and_then-Completes panics next h g = tt
and_then-Completes null_entry next h g = tt
and_then-Completes out_of_steps next h g = h

map_pages-Completes :
    (pgdir va size pa perm steps i : ℕ) (m : Memory)
    → size ≤ 2 ^ 32 - 4096
    → i < size + 4096
    → size + 4096 ≤ i + 4096 * steps
    → Completes (map_pages pgdir va size pa perm steps i m)
unfolding map_pages Completes
map_pages-Completes pgdir va size pa perm zero i m small near enough = absurd (omega arith)
map_pages-Completes pgdir va size pa perm (suc steps) i m small near enough =
    if_split Completes (ltb i size) _ _
      (λ more.
        let next : add32 i 4096 ≡ i + 4096 = ground arith in
        and_then-Completes
          (map_entry pgdir (add32 va i) (bit_or (bit_or (add32 pa i) perm) pte_p)
            (pgdir_walk pgdir (add32 va i) true m))
          (map_pages pgdir va size pa perm steps (add32 i 4096))
          (map_entry-Completes pgdir (add32 va i) _ (pgdir_walk pgdir (add32 va i) true m))
          (λ m'. rw next (
            map_pages-Completes pgdir va size pa perm steps (i + 4096) m' small (ground arith)
              (omega arith))))
      (λ end_. tt)

-- boot_map_region of at most 2^32 - 4096 bytes does not run out of steps: it maps the region, panics,
-- or finds no page for a table.
pub boot_map_region-Completes :
    (pgdir va size pa perm : ℕ) (m : Memory)
    → size ≤ 2 ^ 32 - 4096
    → Completes (boot_map_region pgdir va size pa perm m)
unfolding boot_map_region
boot_map_region-Completes pgdir va size pa perm m small =
    map_pages-Completes pgdir va size pa perm (size / 4096 + 2) 0 m small (omega arith)
      (omega arith)

boot_alloc_to-bounds :
    (npages free n result next : ℕ)
    → boot_alloc_to npages free (paddr (add32 free n)) ≡ some (result, next)
    → free + n + 4095 < 2 ^ 32
    → (result ≡ free) × (result + n ≤ next) × (next % 4096 ≡ 0)
unfolding boot_alloc_to paddr kaddr
boot_alloc_to-bounds npages free n result next e fits = ground arith

-- What boot_alloc returns is the first free byte, n bytes from it on are below the new first free
-- byte, which is the start of a page, when neither sum passes 2^32.
pub boot_alloc-bounds :
    (npages end_ nextfree n result next : ℕ)
    → boot_alloc npages end_ nextfree n ≡ some (result, next)
    → first_free end_ nextfree + n + 4095 < 2 ^ 32
    → (result ≡ first_free end_ nextfree) × (result + n ≤ next) × (next % 4096 ≡ 0)
unfolding boot_alloc
boot_alloc-bounds npages end_ nextfree n result next e fits =
    boot_alloc_to-bounds npages (first_free end_ nextfree) n result next e fits
