-- ===== src/Sched/Memory/NewTable.antt =====
-- pgdir_walk that creates a page table.
use Prim.Native.Nat.{bit_or}
use sistemas_operativos_fiub.Common.{
  ℕ, ◌+◌, ◌*◌, ◌%◌, ◌<◌, ◌≡◌, refl, ap, ◌∙◌, Bool, true, false, ◌&&◌, Option, none, some, List, ◌∷◌,
  leb, ◌==◌, arith,
}
use sistemas_operativos_fiub.Common.Bits.{bit_or_page, bit_or-two, bit_or-four}
use sistemas_operativos_fiub.Sched.Kernel.{poner}
use sistemas_operativos_fiub.Sched.Memory.Pages.{Memory, page_alloc, pgnum, take_page}
use sistemas_operativos_fiub.Sched.Memory.Tables.{
  ensure_table, link_table, load, page2pa, pdx, pgdir_walk, ptx, store, table_entry,
}
use sistemas_operativos_fiub.Sched.Memory.FreeList.{AllFree, Chain, FreeList, page_alloc-FreeList}
use sistemas_operativos_fiub.Sched.Memory.Mapping.{AtEntry, load-store, load-store_others}

pub page_alloc-empty :
    (zeroed : Bool) (m : Memory) → m.page_free_list ≡ none → page_alloc zeroed m ≡ some (none, m)
unfolding page_alloc
page_alloc-empty zeroed m h =
    ap (λ (o : Option ℕ). elim o [ none ↦ some (none, m) | some p ↦ take_page zeroed p m ]) h

-- A new table: its page comes from the free list, and every entry of it is 0.
pub record NewTable (m m' : Memory) (pgdir va t : ℕ) : Type 0 where
  pub at : AtEntry m' pgdir va t
  pub empty : load m' (t, ptx va) ≡ 0
  pub same_npages : m'.npages ≡ m.npages
  pub room : (pp : ℕ) → m.pp_ref pp < 65535 → m'.pp_ref pp < 65535

table_word : (t : ℕ) → bit_or (bit_or (bit_or (page2pa t) 1) 2) 4 ≡ t * 4096 + 7
table_word t =
    let one : bit_or (page2pa t) 1 ≡ t * 4096 + 1 = bit_or_page t 1 (omega arith) in
    let three : bit_or (t * 4096 + 1) 2 ≡ t * 4096 + 3 =
      omega (arith, bit_or-two (t * 4096 + 1) (omega arith)) in
    let seven : bit_or (t * 4096 + 3) 4 ≡ t * 4096 + 7 =
      omega (arith, bit_or-four (t * 4096 + 3) (omega arith)) in
    ap (λ w. bit_or (bit_or w 2) 4) one ∙ ap (λ w. bit_or w 4) three ∙ seven

pub pgdir_walk-NewTable :
    (m : Memory) (pgdir va t : ℕ) (ps : List ℕ)
    → (load m (pgdir, pdx va) == 0) ≡ true
    → FreeList m (t ∷ ps)
    → (t == pgdir) ≡ false
    → (m' : Memory) × (pgdir_walk pgdir va true m ≡ some (some (t, ptx va), m'))
      × NewTable m m' pgdir va t
unfolding pgdir_walk ensure_table link_table table_entry Chain AllFree
pgdir_walk-NewTable m pgdir va t ps absent f apart =
    let (m1, e, taken) = page_alloc-FreeList true m t ps f in
    let counted : Memory = record m1 { pp_ref = poner m1.pp_ref t ((m1.pp_ref t + 1) % 65536) } in
    let word : ℕ = bit_or (bit_or (bit_or (page2pa t) 1) 2) 4 in
    let m' : Memory = store (pgdir, pdx va) word counted in
    let dir : load m' (pgdir, pdx va) ≡ t * 4096 + 7 =
      load-store (pgdir, pdx va) word counted ∙ table_word t in
    let present : (load m' (pgdir, pdx va) == 0) ≡ false = ground (arith, dir) in
    let table : pgnum (load m' (pgdir, pdx va)) ≡ t = omega (arith, dir) in
    let lt : t < m.npages = f.all_free.1 in
    let in_range : leb m'.npages t ≡ false = let n = taken.same_npages in ground arith in
    let away : ((pgdir == t) && (pdx va == ptx va)) ≡ false = ground arith in
    let here : (t == t) ≡ true = ground arith in
    let zeros : m1.words t (ptx va) ≡ 0 = ap (λ g. g t (ptx va)) taken.contents ∙ rw here refl in
    (
      m',
      rw (pgdir_walk, ensure_table, absent, e, link_table, table_entry, present, table, in_range)
          refl,
      record {
        at = record { present = present; table = table; in_range = in_range; apart = apart };
        empty = load-store_others (pgdir, pdx va) word counted (t, ptx va) away ∙ zeros;
        same_npages = taken.same_npages;
        room = λ pp h.
            let old : m1.pp_ref pp ≡ m.pp_ref pp = ap (λ g. g pp) taken.counts in
            let none_yet : m.pp_ref t ≡ 0 = f.all_free.2 in
            let none_left : m1.pp_ref t ≡ m.pp_ref t = ap (λ g. g t) taken.counts in ground arith;
      },
    )
