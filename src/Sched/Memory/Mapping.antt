-- ===== src/Sched/Memory/Mapping.antt =====
-- One entry of a two-level table: what page_lookup finds and page_remove leaves.
use sistemas_operativos_fiub.Common.{
  ℕ, ◌+◌, ◌%◌, ◌≤◌, ◌<◌, ◌≡◌, ◌≢◌, refl, sym, ap, ◌∙◌, Bool, true, false, ◌&&◌, Option, none, some,
  leb, ◌==◌, if◌then◌else◌, Bool-cases, ==_iff, Option-cases, inl, inr, arith,
}
use sistemas_operativos_fiub.Sched.Kernel.{poner}
use sistemas_operativos_fiub.Sched.Memory.Pages.{Memory, pgnum, page_decref, page_free, push_page}
use sistemas_operativos_fiub.Sched.Memory.Tables.{
  Pte, clear_entry, ensure_table, load, page_at, page_lookup, page_remove, pdx, pgdir_walk, ptx,
  store, table_entry, tlb_invalidate,
}

-- The directory's entry for va names the page t, another page of the machine.
pub record AtEntry (m : Memory) (pgdir va t : ℕ) : Type 0 where
  pub present : (load m (pgdir, pdx va) == 0) ≡ false
  pub table : pgnum (load m (pgdir, pdx va)) ≡ t
  pub in_range : leb m.npages t ≡ false
  pub apart : (t == pgdir) ≡ false

pub AtEntry-cong :
    (m m' : Memory) (pgdir va t : ℕ)
    → m'.npages ≡ m.npages
    → load m' (pgdir, pdx va) ≡ load m (pgdir, pdx va)
    → AtEntry m pgdir va t
    → AtEntry m' pgdir va t
AtEntry-cong m m' pgdir va t n w a = record {
  present = rw w (a.present);
  table = rw w (a.table);
  in_range = rw n (a.in_range);
  apart = a.apart;
}

pub pgdir_walk-AtEntry :
    (create : Bool) (m : Memory) (pgdir va t : ℕ)
    → AtEntry m pgdir va t
    → pgdir_walk pgdir va create m ≡ some (some (t, ptx va), m)
unfolding pgdir_walk ensure_table table_entry
pgdir_walk-AtEntry create m pgdir va t a =
    let fits : leb m.npages (pgnum (load m (pgdir, pdx va))) ≡ false = rw (a.table) (a.in_range) in
    rw (pgdir_walk, ensure_table, a.present, table_entry, a.present, fits, a.table) refl

-- What an entry's word stands for.
unfoldable pub page_of : Memory → Pte → Option (Option (ℕ × Pte))
page_of m pte =
    if load m pte == 0
    then some none
    else if leb m.npages (pgnum (load m pte))
    then none
    else some (some (pgnum (load m pte), pte))

pub page_lookup-AtEntry :
    (m : Memory) (pgdir va t : ℕ)
    → AtEntry m pgdir va t
    → page_lookup pgdir va m ≡ page_of m (t, ptx va)
unfolding page_lookup page_at page_of
page_lookup-AtEntry m pgdir va t a = rw (pgdir_walk-AtEntry false m pgdir va t a) refl

-- An entry whose page is one of the machine's, is not linked and has references that were counted.
pub record Counted (m : Memory) (w : ℕ) : Type 0 where
  pub in_range : leb m.npages (pgnum w) ≡ false
  pub referred : 1 ≤ m.pp_ref (pgnum w)
  pub bounded : m.pp_ref (pgnum w) < 65536
  pub unlinked : m.pp_link (pgnum w) ≡ none

-- The counts when the entry w goes.
unfoldable pub released : (ℕ → ℕ) → ℕ → ℕ → ℕ
released refs w = if w == 0 then refs else poner refs (pgnum w) ((refs (pgnum w) + 65535) % 65536)

pub record Removed (m m' : Memory) (t k : ℕ) : Type 0 where
  pub same_npages : m'.npages ≡ m.npages
  pub cleared : m'.words t k ≡ 0
  pub others : (n j : ℕ) → ((t == n) && (k == j)) ≡ false → m'.words n j ≡ m.words n j
  pub counts : m'.pp_ref ≡ released m.pp_ref (m.words t k)
  pub kept_list : m.pp_ref (pgnum (m.words t k)) ≢ 1 → m'.page_free_list ≡ m.page_free_list
  pub kept_links : (m.words t k == 0) ≡ true → m'.pp_link ≡ m.pp_link

-- page_decref of a counted page does not panic, and changes neither words nor the rest of the counts.
decref-Counted :
    (m : Memory) (w : ℕ)
    → Counted m w
    → (m' : Memory) × (page_decref (pgnum w) m ≡ some m')
      × (m'.npages ≡ m.npages)
      × (m'.words ≡ m.words)
      × (m'.pp_ref ≡ poner m.pp_ref (pgnum w) ((m.pp_ref (pgnum w) + 65535) % 65536))
      × (m.pp_ref (pgnum w) ≢ 1 → m'.page_free_list ≡ m.page_free_list)
unfolding page_decref page_free push_page
decref-Counted m w c =
    let count : ℕ = (m.pp_ref (pgnum w) + 65535) % 65536 in
    let less : Memory = record m { pp_ref = poner m.pp_ref (pgnum w) count } in
    let freed : Memory = record less {
      pp_link = poner m.pp_link (pgnum w) m.page_free_list;
      page_free_list = some (pgnum w);
    } in
    elim (Bool-cases (count == 0)) [
      | inl last ↦
          let here : (pgnum w == pgnum w) ≡ true = ground arith in
          let one : m.pp_ref (pgnum w) ≡ 1 =
            let lo = c.referred in let hi = c.bounded in ground arith in
          (
            freed,
            rw (page_decref, last, page_free, here, last, c.unlinked) refl,
            refl,
            refl,
            refl,
            λ h. absurd (h one),
          )
      | inr more ↦ (less, rw (page_decref, more) refl, refl, refl, refl, λ h. refl)
    ]

page_of-zero : (m : Memory) (pte : Pte) → (load m pte == 0) ≡ true → page_of m pte ≡ some none
unfolding page_of
page_of-zero m pte z = rw (page_of, z) refl

pub page_of-Counted :
    (m : Memory) (pte : Pte)
    → (load m pte == 0) ≡ false
    → Counted m (load m pte)
    → page_of m pte ≡ some (some (pgnum (load m pte), pte))
unfolding page_of
page_of-Counted m pte z c = let fits = c.in_range in rw (page_of, z, fits) refl

-- tlb_invalidate only adds to the log.
tlb_invalidate-words :
    (pgdir va : ℕ) (m : Memory)
    → ((tlb_invalidate pgdir va m).words ≡ m.words)
      × ((tlb_invalidate pgdir va m).npages ≡ m.npages)
      × ((tlb_invalidate pgdir va m).pp_ref ≡ m.pp_ref)
      × ((tlb_invalidate pgdir va m).page_free_list ≡ m.page_free_list)
unfolding tlb_invalidate
tlb_invalidate-words pgdir va m = elim (Option-cases m.cur_pgdir) [
  | inl absent ↦ rw (absent) (refl, refl, refl, refl)
  | inr (cur, here) ↦ elim (Bool-cases (cur == pgdir)) [
    | inl same ↦ rw (here, same) (refl, refl, refl, refl)
    | inr other ↦ rw (here, other) (refl, refl, refl, refl)
  ]
]

pub load-store : (pte : Pte) (w : ℕ) (m : Memory) → load (store pte w m) pte ≡ w
load-store pte w m =
    let e : (pte.0 == pte.0) ≡ true = ground arith in
    let f : (pte.1 == pte.1) ≡ true = ground arith in rw (e, f) refl

pub load-store_others :
    (pte : Pte) (w : ℕ) (m : Memory) (other : Pte)
    → ((pte.0 == other.0) && (pte.1 == other.1)) ≡ false
    → load (store pte w m) other ≡ load m other
load-store_others pte w m other h = elim (Bool-cases (pte.0 == other.0)) [
  | inr apart ↦ rw apart refl
  | inl same ↦
      let k : (pte.1 == other.1) ≡ false = ground arith in
      let e : pte.0 ≡ other.0 = (==_iff pte.0 other.0).0 same in
      rw (same, k) (ap (λ n. m.words n other.1) e)
]

differ : false ≡ true → ⊥
differ h = cc

released_full :
    (refs : ℕ → ℕ) (w : ℕ)
    → (w == 0) ≡ false
    → released refs w ≡ poner refs (pgnum w) ((refs (pgnum w) + 65535) % 65536)
unfolding released
released_full refs w h = rw (released, h) refl

-- Where the directory has a table for va and the entry there is 0 or counted, page_remove clears the
-- entry and gives one reference back, and no other word changes.
pub page_remove-Removed :
    (m : Memory) (pgdir va t : ℕ)
    → AtEntry m pgdir va t
    → ((load m (t, ptx va) == 0) ≡ false → Counted m (load m (t, ptx va)))
    → (m' : Memory) × (page_remove pgdir va m ≡ some m') × Removed m m' t (ptx va)
unfolding page_remove clear_entry released
page_remove-Removed m pgdir va t a c = elim (Bool-cases (load m (t, ptx va) == 0)) [
  | inl empty ↦ (
    m,
    rw (page_remove, page_lookup-AtEntry m pgdir va t a, page_of-zero m (t, ptx va) empty) refl,
    record {
      same_npages = refl;
      cleared = (==_iff (load m (t, ptx va)) 0).0 empty;
      others = λ n j h. refl;
      counts = rw empty refl;
      kept_list = λ h. refl;
      kept_links = λ h. refl;
    },
  )
  | inr full ↦
      let (m1, e, n1, w1, r1, l1) = decref-Counted m (load m (t, ptx va)) (c full) in
      let after : Memory = store (t, ptx va) 0 m1 in
      let (w2, n2, r2, l2) = tlb_invalidate-words pgdir va after in
      (
        tlb_invalidate pgdir va after,
        rw
            (
              page_remove,
              page_lookup-AtEntry m pgdir va t a,
              page_of-Counted m (t, ptx va) full (c full),
              e,
            )
            refl,
        record {
          same_npages = n2 ∙ n1;
          cleared = ap (λ f. f t (ptx va)) w2 ∙ load-store (t, ptx va) 0 m1;
          others = λ n j h.
              ap (λ f. f n j) w2 ∙ load-store_others (t, ptx va) 0 m1 (n, j) h ∙ ap (λ f. f n j) w1;
          counts = r2 ∙ r1 ∙ sym (released_full m.pp_ref (load m (t, ptx va)) full);
          kept_list = λ h. l2 ∙ l1 h;
          kept_links = λ empty. absurd (differ (sym full ∙ empty));
        },
      )
]

-- When va has a table that is a page of the machine other than the directory, and its entry for va
-- is 0 or counted (its page is one of the machine's, is not linked and has references):
-- page_remove does not panic, page_lookup finds nothing at va afterwards, one reference to the
-- page that was there is given back, and no other word of memory changes.
pub page_remove-page_lookup :
    (m : Memory) (pgdir va t : ℕ)
    → AtEntry m pgdir va t
    → ((load m (t, ptx va) == 0) ≡ false → Counted m (load m (t, ptx va)))
    → (m' : Memory) × (page_remove pgdir va m ≡ some m')
      × (page_lookup pgdir va m' ≡ some none)
      × (m'.pp_ref ≡ released m.pp_ref (load m (t, ptx va)))
      × ((n j : ℕ) → ((t == n) && (ptx va == j)) ≡ false → m'.words n j ≡ m.words n j)
page_remove-page_lookup m pgdir va t a c =
    let (m', e, r) = page_remove-Removed m pgdir va t a c in
    let other_page : ((t == pgdir) && (ptx va == pdx va)) ≡ false = rw (a.apart) refl in
    let a' : AtEntry m' pgdir va t =
      AtEntry-cong m m' pgdir va t r.same_npages (r.others pgdir (pdx va) other_page) a in
    (
      m',
      e,
      page_lookup-AtEntry m' pgdir va t a'
          ∙ page_of-zero m' (t, ptx va) (let z = r.cleared in ground arith),
      r.counts,
      r.others,
    )
