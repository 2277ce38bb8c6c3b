-- ===== src/Sched/EnvMemory/Directory.antt =====
-- The directory of a new environment, and its page given back (sched/kern/env.c).
use sistemas_operativos_fiub.Common.{
  ℕ, zero, suc, ◌+◌, ◌≤◌, ◌<◌, ◌≡◌, refl, ap, ◌∙◌, true, false, Option, none, some, List, ◌∷◌, ◌==◌,
  has_char, arith,
}
use sistemas_operativos_fiub.Sched.Kernel.{poner}
use sistemas_operativos_fiub.Sched.Memory.Pages.{Memory, page_decref}
use sistemas_operativos_fiub.Sched.Memory.Tables.{load, pdx, pte_p}
use sistemas_operativos_fiub.Sched.Memory.FreeList.{
  AllFree, AllFree-poner, Chain, FreeList, page_alloc-FreeList, page_free-FreeList,
}
use sistemas_operativos_fiub.Sched.Memory.UserCheck.{utop}
use sistemas_operativos_fiub.Sched.EnvMemory.{
  env_setup_vm, free_pages, free_tables, setup_directory, uvpt, visit_table,
}
use sistemas_operativos_fiub.Sched.PageCalls.{has_bits}

-- No entry from one index on, for n of them, names a page table.
abbrev pub NoTables : Memory → ℕ → ℕ → ℕ → Type 0
NoTables m pgdir from n =
    (d : ℕ) → from ≤ d → d < from + n → has_bits (load m (pgdir, d)) pte_p ≡ false

free_tables-NoTables :
    (pgdir from n : ℕ) (m : Memory) → NoTables m pgdir from n → free_tables pgdir from n m ≡ some m
unfolding free_tables visit_table
free_tables-NoTables pgdir from zero m h = refl
free_tables-NoTables pgdir from (suc n) m h =
    let here : has_bits (load m (pgdir, from)) pte_p ≡ false = h from (omega arith) (omega arith) in
    let passed : visit_table pgdir from m ≡ some m = rw here refl in
    let step : Option Memory → Option Memory =
      λ o. elim o [ none ↦ none | some m' ↦ free_tables pgdir (suc from) n m' ] in
    ap step passed
    ∙ free_tables-NoTables pgdir (suc from) n m (λ d lo hi. h d (omega arith) (omega arith))

-- The last reference of a page that is not linked gives it back.
decref_last :
    (m : Memory) (p : ℕ) (ps : List ℕ)
    → FreeList m ps
    → p < m.npages
    → has_char ps p ≡ false
    → m.pp_ref p ≡ 1
    → m.pp_link p ≡ none
    → (m' : Memory) × (page_decref p m ≡ some m') × FreeList m' (p ∷ ps)
unfolding page_decref
decref_last m p ps f lt away one link =
    let same : (p == p) ≡ true = ground arith in
    let less : Memory = record m { pp_ref = poner m.pp_ref p 0 } in
    let (m', eq, f') =
      page_free-FreeList less p ps
        (record {
          chain = f.chain;
          all_free = AllFree-poner m.npages m.pp_ref p 0 ps away f.all_free;
        })
        lt away (rw same refl) link in
    (m', rw one eq, f')

-- When the free list is the pages p, ps, and the kernel's directory, which is another page, has no
-- table below UTOP, env_setup_vm takes p for the directory, with no table below UTOP, and, when
-- that environment is freed, its pages give the free list p, ps again.
pub env_setup_vm-free_pages :
    (kern_pgdir : ℕ) (m : Memory) (p : ℕ) (ps : List ℕ)
    → FreeList m (p ∷ ps)
    → (p == kern_pgdir) ≡ false
    → NoTables m kern_pgdir 0 (pdx utop)
    → (m' : Memory) × (env_setup_vm kern_pgdir m ≡ some (some p, m'))
      × NoTables m' p 0 (pdx utop)
      × ((m'' : Memory) × (free_pages p m' ≡ some m'') × FreeList m'' (p ∷ ps))
unfolding env_setup_vm free_pages setup_directory Chain AllFree
env_setup_vm-free_pages kern_pgdir m p ps f apart empty =
    let (m1, alloc, taken) = page_alloc-FreeList true m p ps f in
    let m' : Memory = setup_directory kern_pgdir p m1 in
    let same : (p == p) ≡ true = ground arith in
    let no_tables : NoTables m' p 0 (pdx utop) = λ d lo hi.
      let low : (pdx uvpt == d) ≡ false = ground arith in
      rw (same, low, taken.contents, apart) (empty d lo hi) in
    let one : m'.pp_ref p ≡ 1 = rw (same, taken.counts, f.all_free.2) refl in
    let (m'', last, f') =
      decref_last m' p ps
        (record {
          chain = taken.rest.chain;
          all_free = AllFree-poner m1.npages m1.pp_ref p _ ps (f.all_free.0) taken.rest.all_free;
        })
        (rw (taken.same_npages) (f.all_free.1)) (f.all_free.0) one taken.unlinked in
    (
      m',
      ap set_up alloc,
      no_tables,
      (m'', ap release (free_tables-NoTables p 0 (pdx utop) m' no_tables) ∙ last, f'),
    )
  where
    set_up : Option (Option ℕ × Memory) → Option (Option ℕ × Memory)
    set_up o = elim o [
      | none ↦ none
      | some (none, m') ↦ some (none, m')
      | some (some p, m') ↦ some (some p, setup_directory kern_pgdir p m')
    ]

    release : Option Memory → Option Memory
    release o = elim o [ none ↦ none | some m' ↦ page_decref p m' ]
