-- ===== src/Sched/Memory/Pages.antt =====
-- sched/kern/pmap.c and pmap.h: the array `pages` and its free list. A pointer into `pages` is its
-- index, a page table or directory the number of its page, and a function that panics is `none`.
use sistemas_operativos_fiub.Common.{
  ℕ, zero, suc, ◌+◌, ◌/◌, ◌%◌, Bool, not, ◌&&◌, ◌||◌, Option, none, some, List, ltb, leb, ◌==◌,
  if◌then◌else◌,
}
use sistemas_operativos_fiub.Sched.Kernel.{poner}

abbrev pub pgsize : ℕ
pgsize = 4096

abbrev pub pgnum : ℕ → ℕ
pgnum la = la / pgsize

-- `words n k` is the k-th 32-bit word of the physical page n, and `flushed` the addresses that were
-- given to invlpg, the last one first. `cur_pgdir` is the page directory of curenv.
pub record Memory : Type 0 where
  pub npages : ℕ
  pub pp_ref : ℕ → ℕ
  pub pp_link : ℕ → Option ℕ
  pub page_free_list : Option ℕ
  pub words : ℕ → ℕ → ℕ
  pub cur_pgdir : Option ℕ
  pub flushed : List ℕ

abbrev pub iophysmem : ℕ
iophysmem = 0x0A0000

abbrev pub extphysmem : ℕ
extphysmem = 0x100000

abbrev pub mpentry_paddr : ℕ
mpentry_paddr = 0x7000

-- The pages that page_init leaves out; `next_free` is PADDR(boot_alloc(0)).
unfoldable pub in_use : ℕ → ℕ → Bool
in_use next_free i =
    i == 0
    || pgnum mpentry_paddr == i
    || (leb (pgnum iophysmem) i && ltb i (pgnum extphysmem))
    || (leb (pgnum extphysmem) i && ltb i (pgnum next_free))

-- One round of the loop of page_init.
unfoldable pub init_page : ℕ → ℕ → Memory → Memory
init_page next_free i m =
    if in_use next_free i then (record m { pp_link = poner m.pp_link i none }) else (record m {
      pp_link = poner (poner m.pp_link i none) i m.page_free_list;
      pp_ref = poner m.pp_ref i 0;
      page_free_list = some i;
    })

-- The rounds for the pages before the n-th.
unfoldable pub init_pages : ℕ → ℕ → Memory → Memory
init_pages next_free zero m = m
init_pages next_free (suc n) m = init_page next_free n (init_pages next_free n m)

unfoldable pub page_init : ℕ → Memory → Memory
page_init next_free m = init_pages next_free m.npages m

-- `pp->pp_link` unlinked, and the page cleared through KADDR when that is asked for.
unfoldable pub take_page : Bool → ℕ → Memory → Option (Option ℕ × Memory)
take_page zeroed p m =
    let rest = record m { page_free_list = m.pp_link p; pp_link = poner m.pp_link p none } in
    let cleared = record rest { words = poner m.words p (λ k. 0) } in
    if zeroed
    then (if leb m.npages p then none else some (some p, cleared))
    else some (some p, rest)

unfoldable pub page_alloc : Bool → Memory → Option (Option ℕ × Memory)
page_alloc zeroed m = elim m.page_free_list [
  | none ↦ some (none, m)
  | some p ↦ take_page zeroed p m
]

unfoldable pub push_page : ℕ → Memory → Option ℕ → Option Memory
push_page p m none =
    some (record m { pp_link = poner m.pp_link p m.page_free_list; page_free_list = some p })
push_page p m (some q) = none

unfoldable pub page_free : ℕ → Memory → Option Memory
page_free p m = if not (m.pp_ref p == 0) then none else push_page p m (m.pp_link p)

-- The count has 16 bits.
unfoldable pub page_decref : ℕ → Memory → Option Memory
page_decref p m =
    let count = (m.pp_ref p + 65535) % 65536 in
    let less = record m { pp_ref = poner m.pp_ref p count } in
    if count == 0 then page_free p less else some less
