-- ===== src/Sched/Memory/Insert.antt =====
-- page_insert against page_lookup, and a page inserted where it is.
use Prim.Native.Nat.{bit_or}
use sistemas_operativos_fiub.Common.{
  ℕ, ◌+◌, ◌*◌, ◌/◌, ◌%◌, ◌≤◌, ◌<◌, ◌≡◌, refl, ap, ◌∙◌, ◌⊎◌, true, false, ◌&&◌, none, some, List, [],
  ◌∷◌, leb, ◌==◌, has_char, Bool-cases, ==_iff, inl, inr, arith,
}
use sistemas_operativos_fiub.Common.Bits.{bit_or_page, bit_or-one}
use sistemas_operativos_fiub.Sched.Kernel.{poner, negado}
use sistemas_operativos_fiub.Sched.Memory.Pages.{Memory, page_alloc, pgnum}
use sistemas_operativos_fiub.Sched.Memory.Tables.{
  Pte, e_no_mem, ensure_table, insert_at, link_table, load, page2pa, page_insert, page_lookup, pdx,
  pgdir_walk, ptx, store, table_entry, write_entry,
}
use sistemas_operativos_fiub.Sched.Memory.FreeList.{Chain, FreeList}
use sistemas_operativos_fiub.Sched.Memory.Mapping.{
  AtEntry, AtEntry-cong, Counted, load-store, load-store_others, page_lookup-AtEntry, page_of,
  page_remove-Removed, pgdir_walk-AtEntry, released,
}
use sistemas_operativos_fiub.Sched.Memory.NewTable.{page_alloc-empty, pgdir_walk-NewTable}

-- The word of the entry.
abbrev pub word_of : ℕ → ℕ → ℕ
word_of pp perm = pp * 4096 + perm / 2 * 2 + 1

word_eq : (pp perm : ℕ) → perm < 4096 → bit_or (bit_or (page2pa pp) perm) 1 ≡ word_of pp perm
word_eq pp perm h =
    omega (
      arith,
      bit_or-one (bit_or (page2pa pp) perm),
      ap (λ w. w / 2 * 2 + 1) (bit_or_page pp perm h),
    )

pub record Inserted (m m' : Memory) (pgdir pp va perm t : ℕ) : Type 0 where
  pub found : page_lookup pgdir va m' ≡ some (some (pp, (t, ptx va)))
  pub entry : load m' (t, ptx va) ≡ word_of pp perm
  pub counts :
      m'.pp_ref ≡ released (poner m.pp_ref pp ((m.pp_ref pp + 1) % 65536)) (load m (t, ptx va))
  pub others : (n j : ℕ) → ((t == n) && (ptx va == j)) ≡ false → m'.words n j ≡ m.words n j
  pub kept_list :
      pgnum (load m (t, ptx va)) ≡ pp → 1 ≤ m.pp_ref pp → m'.page_free_list ≡ m.page_free_list
  pub same_npages : m'.npages ≡ m.npages
  pub kept_links : (load m (t, ptx va) == 0) ≡ true → m'.pp_link ≡ m.pp_link

Counted-more :
    (m : Memory) (pp w : ℕ)
    → m.pp_ref pp < 65535
    → Counted m w
    → Counted (record m { pp_ref = poner m.pp_ref pp ((m.pp_ref pp + 1) % 65536) }) w
Counted-more m pp w h c = record {
  in_range = c.in_range;
  referred = let lo = c.referred in ground arith;
  bounded = let hi = c.bounded in ground arith;
  unlinked = c.unlinked;
}

insert_at-Inserted :
    (m : Memory) (pgdir pp va perm t : ℕ)
    → AtEntry m pgdir va t
    → ((load m (t, ptx va) == 0) ≡ false → Counted m (load m (t, ptx va)))
    → perm < 4096
    → pp < m.npages
    → m.pp_ref pp < 65535
    → (m' : Memory) × (insert_at pgdir pp va perm (some (some (t, ptx va), m)) ≡ some (0, m'))
      × Inserted m m' pgdir pp va perm t
unfolding insert_at write_entry page_of
insert_at-Inserted m pgdir pp va perm t a c small fits room =
    let more : Memory = record m { pp_ref = poner m.pp_ref pp ((m.pp_ref pp + 1) % 65536) } in
    let (m2, e, r) =
      page_remove-Removed more pgdir va t (AtEntry-cong m more pgdir va t refl refl a)
        (λ full. Counted-more m pp (load m (t, ptx va)) room (c full)) in
    let m' : Memory = store (t, ptx va) (bit_or (bit_or (page2pa pp) perm) 1) m2 in
    let word : load m' (t, ptx va) ≡ word_of pp perm =
      load-store (t, ptx va) (bit_or (bit_or (page2pa pp) perm) 1) m2 ∙ word_eq pp perm small in
    let other_page : ((t == pgdir) && (ptx va == pdx va)) ≡ false = rw (a.apart) refl in
    let dir : load m' (pgdir, pdx va) ≡ load m (pgdir, pdx va) =
      load-store_others (t, ptx va) _ m2 (pgdir, pdx va) other_page
      ∙ r.others pgdir (pdx va) other_page in
    let a' : AtEntry m' pgdir va t = AtEntry-cong m m' pgdir va t r.same_npages dir a in
    let page : pgnum (word_of pp perm) ≡ pp = omega arith in
    let nonzero : (word_of pp perm == 0) ≡ false = ground arith in
    let in_range : leb m.npages pp ≡ false = ground arith in
    (
      m',
      rw (insert_at, e) refl,
      record {
        found =
            page_lookup-AtEntry m' pgdir va t a'
            ∙ rw (page_of, word, nonzero, r.same_npages, page, in_range) refl;
        entry = word;
        counts = r.counts;
        others = λ n j h. load-store_others (t, ptx va) _ m2 (n, j) h ∙ r.others n j h;
        kept_list = λ same lo. r.kept_list (λ one. ground arith);
        same_npages = r.same_npages;
        kept_links = r.kept_links;
      },
    )

-- page_insert where va has a table.
pub page_insert-Inserted :
    (m : Memory) (pgdir pp va perm t : ℕ)
    → AtEntry m pgdir va t
    → ((load m (t, ptx va) == 0) ≡ false → Counted m (load m (t, ptx va)))
    → perm < 4096
    → pp < m.npages
    → m.pp_ref pp < 65535
    → (m' : Memory) × (page_insert pgdir pp va perm m ≡ some (0, m'))
      × Inserted m m' pgdir pp va perm t
unfolding page_insert
page_insert-Inserted m pgdir pp va perm t a c small fits room =
    let (m', e, r) = insert_at-Inserted m pgdir pp va perm t a c small fits room in
    (m', rw (page_insert, pgdir_walk-AtEntry true m pgdir va t a) e, r)

-- page_insert where va has no table and no page is free.
pub page_insert_no_mem :
    (m : Memory) (pgdir pp va perm : ℕ)
    → (load m (pgdir, pdx va) == 0) ≡ true
    → m.page_free_list ≡ none
    → page_insert pgdir pp va perm m ≡ some (negado e_no_mem, m)
unfolding page_insert pgdir_walk ensure_table link_table table_entry insert_at
page_insert_no_mem m pgdir pp va perm absent empty =
    rw
      (
        page_insert,
        pgdir_walk,
        ensure_table,
        absent,
        page_alloc-empty true m empty,
        link_table,
        table_entry,
        absent,
      )
      refl

-- The directory's entry for va: a table whose entry is 0 or counted, or none.
pub record Ready (m : Memory) (pgdir va : ℕ) : Type 0 where
  pub with_table :
      (load m (pgdir, pdx va) == 0) ≡ false
      → (t : ℕ) × AtEntry m pgdir va t
        × ((load m (t, ptx va) == 0) ≡ false → Counted m (load m (t, ptx va)))
  pub free_pages : List ℕ
  pub free_list : FreeList m free_pages
  pub not_free : has_char free_pages pgdir ≡ false

-- No page was free for the table that va needs, and nothing changed.
pub record NoMemory (m : Memory) (pgdir pp va perm : ℕ) : Type 0 where
  pub no_table : load m (pgdir, pdx va) ≡ 0
  pub no_page : m.page_free_list ≡ none
  pub unchanged : page_insert pgdir pp va perm m ≡ some (negado e_no_mem, m)

-- The page is mapped, with the permissions' low bit set.
pub record Mapped (m : Memory) (pgdir pp va perm : ℕ) : Type 0 where
  pub after : Memory
  pub pte : Pte
  pub success : page_insert pgdir pp va perm m ≡ some (0, after)
  pub found : page_lookup pgdir va after ≡ some (some (pp, pte))
  pub entry : load after pte ≡ word_of pp perm

insert_in_new :
    (m : Memory) (pgdir pp va perm : ℕ) (ps : List ℕ)
    → (load m (pgdir, pdx va) == 0) ≡ true
    → FreeList m ps
    → has_char ps pgdir ≡ false
    → perm < 4096
    → pp < m.npages
    → m.pp_ref pp < 65535
    → NoMemory m pgdir pp va perm ⊎ Mapped m pgdir pp va perm
unfolding page_insert pgdir_walk ensure_table page_alloc link_table table_entry insert_at Chain
    has_char
insert_in_new m pgdir pp va perm [] absent f away small fits room = inl (record {
  no_table = (==_iff (load m (pgdir, pdx va)) 0).0 absent;
  no_page = f.chain;
  unchanged = page_insert_no_mem m pgdir pp va perm absent f.chain;
})
insert_in_new m pgdir pp va perm (t ∷ ps) absent f away small fits room =
    let (m1, walk, new) = pgdir_walk-NewTable m pgdir va t ps absent f (ground arith) in
    let (m', e, r) =
      insert_at-Inserted m1 pgdir pp va perm t new.at
        (λ full. absurd (let z = new.empty in ground arith)) small
        (let n = new.same_npages in omega arith) (new.room pp room) in
    inr (record {
      after = m';
      pte = (t, ptx va);
      success = rw (page_insert, walk) e;
      found = r.found;
      entry = r.entry;
    })

-- For a directory that is no free page, with a well-formed free list, where va has no table, or
-- one that is another page of the machine and whose entry for va is 0 or counted (its page is one
-- of the machine's, is not linked and has references): page_insert of a page of the machine whose
-- count is below 65535, with permissions of 12 bits, does not panic. It gives -E_NO_MEM and
-- changes nothing when va has no table and no page is free; else it gives 0, page_lookup then
-- finds the page at va, and the entry has the page's address, the permissions and PTE_P.
pub page_insert-page_lookup :
    (m : Memory) (pgdir pp va perm : ℕ)
    → Ready m pgdir va
    → perm < 4096
    → pp < m.npages
    → m.pp_ref pp < 65535
    → NoMemory m pgdir pp va perm ⊎ Mapped m pgdir pp va perm
unfolding page_insert
page_insert-page_lookup m pgdir pp va perm ready small fits room =
    elim (Bool-cases (load m (pgdir, pdx va) == 0)) [
      | inl absent ↦
          insert_in_new m pgdir pp va perm ready.free_pages absent ready.free_list ready.not_free
            small fits room
      | inr present ↦
          let (t, a, c) = ready.with_table present in
          let (m', e, r) = page_insert-Inserted m pgdir pp va perm t a c small fits room in
          inr (record {
            after = m';
            pte = (t, ptx va);
            success = e;
            found = r.found;
            entry = r.entry;
          })
    ]
