-- ===== src/Sched/PageTests.antt =====
-- A machine of 16 pages: page 1 is a directory, page 2 its first table, whose first entry maps page
-- 3, and the pages 4 and 5 are free.
use Prim.Native.Nat.{bit_or}
use sistemas_operativos_fiub.Common.{
  ℕ, ◌+◌, ◌*◌, ◌≤◌, ◌<◌, ◌⊎◌, ◌≡◌, refl, true, false, ◌&&◌, Option, none, some, [], ◌∷◌, has_char,
  ltb, leb, ◌==◌, if◌then◌else◌, arith,
}
use sistemas_operativos_fiub.Sched.Kernel.{negado}
use sistemas_operativos_fiub.Sched.Env.{dado, envid2env}
use sistemas_operativos_fiub.Sched.Memory.Pages.{Memory, page_alloc, page_init}
use sistemas_operativos_fiub.Sched.Memory.Tables.{
  load, page_insert, page_lookup, page_remove, pgdir_walk, pdx, ptx, ensure_table, table_entry,
  insert_at, write_entry, page_at,
}
use sistemas_operativos_fiub.Sched.Memory.FreeList.{
  AllFree, Chain, FreeList, Taken, free_below, page_alloc-FreeList, page_init-FreeList,
}
use sistemas_operativos_fiub.Sched.Memory.Mapping.{AtEntry, Counted}
use sistemas_operativos_fiub.Sched.Memory.Insert.{
  NoMemory, Mapped, Ready, page_insert-page_lookup, word_of,
}
use sistemas_operativos_fiub.Sched.Memory.UserCheck.{
  Answers, fault, rounddown, roundup, user_mem_check, user_mem_check-Answers, utop,
}
use sistemas_operativos_fiub.Sched.PageCalls.{
  PageReply, returns, breaks, check_entry_perm, check_perm, env_page_map, map_found, reply,
  with_env, sys_page_alloc, sys_page_map,
}
use sistemas_operativos_fiub.Sched.PageCalls.ReadOnly.{OnSuccess, Writable, sys_page_map-Writable}
use sistemas_operativos_fiub.Sched.PageCalls.NewPage.{
  perm_of, sys_page_alloc-page_lookup, sys_page_alloc_leaks,
}
use sistemas_operativos_fiub.Sched.EnvMemory.{env_setup_vm, free_pages}
use sistemas_operativos_fiub.Sched.EnvMemory.Directory.{NoTables, env_setup_vm-free_pages}
use sistemas_operativos_fiub.Sched.Tests.{kernel0}

abbrev machine : Memory
machine = record {
  npages = 16;
  pp_ref = λ q. if leb 1 q && ltb q 4 then 1 else 0;
  pp_link = λ q. if q == 4 then some 5 else none;
  page_free_list = some 4;
  words = λ n j.
      if n == 1 && j == 0 then 2 * 4096 + 7 else if n == 2 && j == 0 then 3 * 4096 + 5 else 0;
  cur_pgdir = none;
  flushed = [];
}

machine-FreeList : FreeList machine (4 ∷ 5 ∷ [])
unfolding Chain AllFree has_char
machine-FreeList = record {
  chain = (refl, (refl, refl));
  all_free = (refl, omega arith, refl, (refl, omega arith, refl, tt));
}

machine-AtEntry : AtEntry machine 1 0 2
machine-AtEntry = record { present = refl; table = refl; in_range = refl; apart = refl }

machine-Counted : Counted machine (3 * 4096 + 5)
machine-Counted = record {
  in_range = refl;
  referred = omega arith;
  bounded = omega arith;
  unlinked = refl;
}

page_alloc-FreeList_example :
    (m' : Memory) × (page_alloc true machine ≡ some (some 4, m')) × Taken true machine m' 4 (5 ∷ [])
page_alloc-FreeList_example = page_alloc-FreeList true machine 4 (5 ∷ []) machine-FreeList

page_init-FreeList_example :
    FreeList
      (page_init 0x110000 (record machine { npages = 300; page_free_list = none }))
      (free_below 0x110000 300)
page_init-FreeList_example =
    page_init-FreeList 0x110000 (record machine { npages = 300; page_free_list = none }) refl

free_below_run : free_below 0x110000 10 ≡ 9 ∷ 8 ∷ 6 ∷ 5 ∷ 4 ∷ 3 ∷ 2 ∷ 1 ∷ []
unfolding free_below
free_below_run = refl

machine-Ready : Ready machine 1 0
unfolding has_char
machine-Ready = record {
  with_table = λ h. (2, machine-AtEntry, λ full. machine-Counted);
  free_pages = 4 ∷ 5 ∷ [];
  free_list = machine-FreeList;
  not_free = refl;
}

page_insert-page_lookup_example : NoMemory machine 1 6 0 6 ⊎ Mapped machine 1 6 0 6
page_insert-page_lookup_example =
    page_insert-page_lookup machine 1 6 0 6 machine-Ready (omega arith) (omega arith) (omega arith)

user_mem_check-Answers_example :
    (utop < roundup (10 + 100) → user_mem_check machine 1 10 100 4 ≡ fault 10)
    × (roundup (10 + 100) ≤ utop
        → Answers machine 1
            (bit_or 4 1)
            10
            (rounddown 10)
            (roundup (10 + 100))
            (user_mem_check machine 1 10 100 4))
user_mem_check-Answers_example = user_mem_check-Answers machine 1 10 100 4 (omega arith)

sys_page_map-Writable_example :
    OnSuccess
      ((src : ℕ) × (envid2env kernel0 0 true ≡ dado (some src)) × Writable (λ e. 1) machine src 0)
      (sys_page_map (λ e. 1) kernel0 machine 0 0 0 4096 2)
sys_page_map-Writable_example = sys_page_map-Writable (λ e. 1) kernel0 machine 0 0 0 4096 2 refl

sys_page_alloc-page_lookup_example :
    (m' : Memory) × (sys_page_alloc (λ e. 1) kernel0 machine 0 4096 2 ≡ returns 0 kernel0 m')
    × (page_lookup 1 4096 m' ≡ some (some (4, (2, ptx 4096))))
    × (load m' (2, ptx 4096) ≡ word_of 4 (perm_of 2))
    × ((j : ℕ) → m'.words 4 j ≡ 0)
unfolding has_char envid2env check_perm check_entry_perm
sys_page_alloc-page_lookup_example =
    sys_page_alloc-page_lookup (λ e. 1) kernel0 machine 0 4096 2 0 4 2 (5 ∷ []) refl refl refl
      (omega arith) machine-FreeList refl refl
      (record { present = refl; table = refl; in_range = refl; apart = refl })
      (λ full. absurd (no_entry full))
  where
    no_entry : true ≡ false → ⊥
    no_entry e = cc

-- The same machine with one free page.
abbrev scarce : Memory
scarce = record machine { page_free_list = some 5 }

scarce-FreeList : FreeList scarce (5 ∷ [])
unfolding Chain AllFree has_char
scarce-FreeList = record { chain = (refl, refl); all_free = (refl, omega arith, refl, tt) }

sys_page_alloc_leaks_example :
    (m' : Memory) × (sys_page_alloc (λ e. 1) kernel0 scarce 0 0x400000 2
      ≡ returns (negado 4) kernel0 m')
    × FreeList m' []
unfolding envid2env check_perm check_entry_perm
sys_page_alloc_leaks_example =
    sys_page_alloc_leaks (λ e. 1) kernel0 scarce 0 0x400000 2 0 5 refl refl refl scarce-FreeList
      refl refl

-- The word of the second entry of the table after a call.
abbrev second_entry : PageReply → Option ℕ
second_entry (returns r k m) = some (m.words 2 1)
second_entry breaks = none

-- Bits of perm above the twelfth reach the address in the entry: page 3 is mapped as page 11.
sys_page_map_run :
    second_entry (sys_page_map (λ e. 1) kernel0 machine 0 0 0 4096 0x8000) ≡ some (11 * 4096 + 5)
unfolding sys_page_map with_env envid2env env_page_map map_found reply page_insert insert_at
    pgdir_walk ensure_table table_entry write_entry page_remove page_lookup page_at
sys_page_map_run = refl

-- The same machine with empty pages, page 1 the kernel's directory.
abbrev blank : Memory
blank = record machine { words = λ n j. 0 }

env_setup_vm-free_pages_example :
    (m' : Memory) × (env_setup_vm 1 blank ≡ some (some 4, m'))
    × NoTables m' 4 0 (pdx utop)
    × ((m'' : Memory) × (free_pages 4 m' ≡ some m'') × FreeList m'' (4 ∷ 5 ∷ []))
env_setup_vm-free_pages_example =
    env_setup_vm-free_pages 1 blank 4 (5 ∷ [])
      (record { chain = machine-FreeList.chain; all_free = machine-FreeList.all_free }) refl
      (λ d lo hi. refl)
