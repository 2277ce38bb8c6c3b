-- ===== src/Sched/Memory/Reinsert.antt =====
-- page_insert of a page where it is mapped.
use sistemas_operativos_fiub.Common.{
  ℕ, ◌+◌, ◌%◌, ◌≤◌, ◌<◌, ◌≡◌, ap, ◌∙◌, true, false, ◌&&◌, some, leb, ◌==◌, arith,
}
use sistemas_operativos_fiub.Sched.Kernel.{poner}
use sistemas_operativos_fiub.Sched.Memory.Pages.{Memory, pgnum}
use sistemas_operativos_fiub.Sched.Memory.Tables.{load, page_insert, ptx}
use sistemas_operativos_fiub.Sched.Memory.Mapping.{AtEntry, Counted, released}
use sistemas_operativos_fiub.Sched.Memory.Insert.{page_insert-Inserted, word_of}

-- One reference more, and one less.
released_again :
    (refs : ℕ → ℕ) (pp w : ℕ)
    → (w == 0) ≡ false
    → pgnum w ≡ pp
    → refs pp < 65535
    → released (poner refs pp ((refs pp + 1) % 65536)) w pp ≡ refs pp
unfolding released
released_again refs pp w full same room =
    let here : (pp == pp) ≡ true = ground arith in rw (released, full, same, here) (omega arith)

-- When va has a table that is a page of the machine other than the directory, and its entry for va
-- is not 0, is counted (its page is one of the machine's, is not linked and has references) and
-- maps the page pp, whose count is below 65535: page_insert of pp at va with permissions of 12
-- bits gives 0, the count and the free list stay, no other word of memory changes, and the entry
-- has the new permissions.
pub page_insert_again :
    (m : Memory) (pgdir pp va perm t : ℕ)
    → AtEntry m pgdir va t
    → pgnum (load m (t, ptx va)) ≡ pp
    → Counted m (load m (t, ptx va))
    → (load m (t, ptx va) == 0) ≡ false
    → perm < 4096
    → m.pp_ref pp < 65535
    → (m' : Memory) × (page_insert pgdir pp va perm m ≡ some (0, m'))
      × (m'.pp_ref pp ≡ m.pp_ref pp)
      × (m'.page_free_list ≡ m.page_free_list)
      × (load m' (t, ptx va) ≡ word_of pp perm)
      × ((n j : ℕ) → ((t == n) && (ptx va == j)) ≡ false → m'.words n j ≡ m.words n j)
unfolding page_insert
page_insert_again m pgdir pp va perm t a same c full small room =
    let in_range : leb m.npages pp ≡ false = rw⁻¹ same (c.in_range) in
    let lo : 1 ≤ m.pp_ref pp = rw⁻¹ same (c.referred) in
    let (m', e, r) =
      page_insert-Inserted m pgdir pp va perm t a (λ h. c) small (ground arith) room in
    (
      m',
      e,
      ap (λ g. g pp) r.counts ∙ released_again m.pp_ref pp (load m (t, ptx va)) full same room,
      r.kept_list same lo,
      r.entry,
      r.others,
    )
