-- ===== src/Sched/PageCalls/NewPage.antt =====
-- sys_page_alloc maps a new page of zeros, or loses the page that it took.
use Prim.Native.Nat.{bit_or}
use sistemas_operativos_fiub.Common.{
  ℕ, ◌<◌, ◌≡◌, refl, ap, ◌∙◌, true, false, ◌&&◌, none, some, List, [], ◌∷◌, has_char, ◌==◌, arith,
}
use sistemas_operativos_fiub.Sched.Kernel.{Kernel, negado}
use sistemas_operativos_fiub.Sched.Env.{dado, envid2env}
use sistemas_operativos_fiub.Sched.Memory.Pages.{Memory, pgnum}
use sistemas_operativos_fiub.Sched.Memory.Tables.{
  e_no_mem, load, page_lookup, ptx, pdx, pte_p, pte_u,
}
use sistemas_operativos_fiub.Sched.Memory.FreeList.{
  AllFree, Chain, FreeList, Taken, page_alloc-FreeList,
}
use sistemas_operativos_fiub.Sched.Memory.Mapping.{AtEntry, AtEntry-cong, Counted}
use sistemas_operativos_fiub.Sched.Memory.Insert.{page_insert-Inserted, page_insert_no_mem, word_of}
use sistemas_operativos_fiub.Sched.PageCalls.{
  returns, bad_address, check_perm, env_page_alloc, insert_new, reply, sys_page_alloc, with_env,
}

-- The permissions that sys_page_alloc passes on.
abbrev pub perm_of : ℕ → ℕ
perm_of perm = bit_or (bit_or perm pte_u) pte_p

-- Words of a page that was not taken stay.
kept :
    (m m' : Memory) (p : ℕ) (ps : List ℕ) (n j : ℕ)
    → Taken true m m' p ps
    → (p == n) ≡ false
    → m'.words n j ≡ m.words n j
kept m m' p ps n j taken other = ap (λ g. g n j) taken.contents ∙ rw other refl

Counted-Taken :
    (m m' : Memory) (p : ℕ) (ps : List ℕ) (w : ℕ)
    → Taken true m m' p ps
    → Counted m w
    → Counted m' w
Counted-Taken m m' p ps w taken c =
    let refs : m'.pp_ref (pgnum w) ≡ m.pp_ref (pgnum w) = ap (λ g. g (pgnum w)) taken.counts in
    record {
      in_range = let n = taken.same_npages in rw n (c.in_range);
      referred = rw refs (c.referred);
      bounded = rw refs (c.bounded);
      unlinked = taken.links (pgnum w) c.unlinked;
    }

-- For an environment that the caller may change, an address below UTOP that is the start of a
-- page, permissions of 12 bits that check_perm accepts, a well-formed free list that starts with
-- p, and a table for the address that is a page of the machine other than the directory and whose
-- entry for it is 0 or counted, where neither the directory nor the table is a free page:
-- sys_page_alloc returns 0, p is mapped at the address with the permissions, and all its words are
-- 0.
pub sys_page_alloc-page_lookup :
    (env_pgdir : ℕ → ℕ) (k : Kernel) (m : Memory) (envid va perm e p t : ℕ) (ps : List ℕ)
    → bad_address va ≡ false
    → envid2env k envid true ≡ dado (some e)
    → check_perm (perm_of perm) none ≡ 0
    → perm_of perm < 4096
    → FreeList m (p ∷ ps)
    → has_char (p ∷ ps) (env_pgdir e) ≡ false
    → has_char (p ∷ ps) t ≡ false
    → AtEntry m (env_pgdir e) va t
    → ((load m (t, ptx va) == 0) ≡ false → Counted m (load m (t, ptx va)))
    → (m' : Memory) × (sys_page_alloc env_pgdir k m envid va perm ≡ returns 0 k m')
      × (page_lookup (env_pgdir e) va m' ≡ some (some (p, (t, ptx va))))
      × (load m' (t, ptx va) ≡ word_of p (perm_of perm))
      × ((j : ℕ) → m'.words p j ≡ 0)
unfolding sys_page_alloc env_page_alloc insert_new with_env reply has_char AllFree
sys_page_alloc-page_lookup env_pgdir k m envid va perm e p t ps addr is_env ok small f d_used t_used
      a c =
    let (m1, alloc, taken) = page_alloc-FreeList true m p ps f in
    let other_dir : (p == env_pgdir e) ≡ false = ground arith in
    let other_table : (p == t) ≡ false = ground arith in
    let a1 : AtEntry m1 (env_pgdir e) va t =
      AtEntry-cong m m1 (env_pgdir e) va t taken.same_npages
        (kept m m1 p ps (env_pgdir e) (pdx va) taken other_dir) a in
    let word : load m1 (t, ptx va) ≡ load m (t, ptx va) =
      kept m m1 p ps t (ptx va) taken other_table in
    let counted : (load m1 (t, ptx va) == 0) ≡ false → Counted m1 (load m1 (t, ptx va)) =
      λ full. rw word (Counted-Taken m m1 p ps (load m (t, ptx va)) taken (c (rw⁻¹ word full))) in
    let fits : p < m1.npages =
      let n = taken.same_npages in let lt : p < m.npages = f.all_free.1 in omega arith in
    let room : m1.pp_ref p < 65535 =
      let z : m.pp_ref p ≡ 0 = f.all_free.2 in omega (arith, ap (λ g. g p) taken.counts) in
    let (m', e1, r) =
      page_insert-Inserted m1 (env_pgdir e) p va (perm_of perm) t a1 counted small fits room in
    (
      m',
      rw (sys_page_alloc, addr, is_env, with_env, env_page_alloc, ok, insert_new, alloc, e1) refl,
      r.found,
      r.entry,
      λ j.
          let elsewhere : ((t == p) && (ptx va == j)) ≡ false = ground arith in
          let here : (p == p) ≡ true = ground arith in
          r.others p j elsewhere ∙ ap (λ g. g p j) taken.contents ∙ rw here refl,
    )

-- For an environment that the caller may change, an address below UTOP that is the start of a
-- page, permissions that check_perm accepts, no table for the address, and one free page, which is
-- not the directory: sys_page_alloc returns -E_NO_MEM, and the page that was free is lost, as the
-- free list is empty afterwards.
pub sys_page_alloc_leaks :
    (env_pgdir : ℕ → ℕ) (k : Kernel) (m : Memory) (envid va perm e p : ℕ)
    → bad_address va ≡ false
    → envid2env k envid true ≡ dado (some e)
    → check_perm (perm_of perm) none ≡ 0
    → FreeList m (p ∷ [])
    → (p == env_pgdir e) ≡ false
    → (load m (env_pgdir e, pdx va) == 0) ≡ true
    → (m' : Memory) × (sys_page_alloc env_pgdir k m envid va perm ≡ returns (negado e_no_mem) k m')
      × FreeList m' []
unfolding sys_page_alloc env_page_alloc insert_new with_env reply Chain
sys_page_alloc_leaks env_pgdir k m envid va perm e p addr is_env ok f other absent =
    let (m1, alloc, taken) = page_alloc-FreeList true m p [] f in
    let dir : load m1 (env_pgdir e, pdx va) ≡ load m (env_pgdir e, pdx va) =
      kept m m1 p [] (env_pgdir e) (pdx va) taken other in
    let no_table : (load m1 (env_pgdir e, pdx va) == 0) ≡ true = rw dir absent in
    (
      m1,
      rw
          (
            sys_page_alloc,
            addr,
            is_env,
            with_env,
            env_page_alloc,
            ok,
            insert_new,
            alloc,
            page_insert_no_mem m1 (env_pgdir e) p va (perm_of perm) no_table taken.rest.chain,
          )
          refl,
      taken.rest,
    )
