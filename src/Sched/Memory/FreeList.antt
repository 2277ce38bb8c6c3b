-- ===== src/Sched/Memory/FreeList.antt =====
-- The free list of sched/kern/pmap.c against an abstract list of pages.
use sistemas_operativos_fiub.Common.{
  ℕ, zero, suc, ◌≤◌, ◌<◌, ◌≡◌, refl, Bool, true, false, Option, none, some, List, [], ◌∷◌, not,
  ◌&&◌, ◌||◌, ◌/◌, ltb, leb, ◌==◌, if◌then◌else◌, has_char, if_both, Bool-cases, inl, inr, arith,
}
use sistemas_operativos_fiub.Sched.Kernel.{poner}
use sistemas_operativos_fiub.Sched.Memory.Pages.{
  Memory, in_use, init_page, init_pages, page_init, page_alloc, take_page, page_free, push_page,
}

-- The pages that the links give from a pointer on.
unfoldable pub Chain : (ℕ → Option ℕ) → Option ℕ → List ℕ → Type 0
Chain link from [] = from ≡ none
Chain link from (p ∷ ps) = (from ≡ some p) × Chain link (link p) ps

-- No page twice, each one below npages and without references.
unfoldable pub AllFree : ℕ → (ℕ → ℕ) → List ℕ → Type 0
AllFree npages pp_ref [] = Unit
AllFree npages pp_ref (p ∷ ps) =
    (has_char ps p ≡ false) × (p < npages) × (pp_ref p ≡ 0) × AllFree npages pp_ref ps

-- The free list of the memory is the list of pages.
pub record FreeList (m : Memory) (ps : List ℕ) : Type 0 where
  pub chain : Chain m.pp_link m.page_free_list ps
  pub all_free : AllFree m.npages m.pp_ref ps

-- Links that are not on the list do not matter.
Chain-poner :
    (link : ℕ → Option ℕ) (from x : Option ℕ) (q : ℕ) (ps : List ℕ)
    → has_char ps q ≡ false
    → Chain link from ps
    → Chain (poner link q x) from ps
unfolding Chain has_char
Chain-poner link from x q [] h c = c
Chain-poner link from x q (p ∷ ps) h c =
    let other : (q == p) ≡ false = ground arith in
    let rest : has_char ps q ≡ false = ground arith in
    (c.0, rw other (Chain-poner link (link p) x q ps rest c.1))

pub AllFree-poner :
    (npages : ℕ) (pp_ref : ℕ → ℕ) (q x : ℕ) (ps : List ℕ)
    → has_char ps q ≡ false
    → AllFree npages pp_ref ps
    → AllFree npages (poner pp_ref q x) ps
unfolding AllFree has_char
AllFree-poner n r q x [] h f = tt
AllFree-poner n r q x (p ∷ ps) h f =
    let other : (q == p) ≡ false = ground arith in
    let rest : has_char ps q ≡ false = ground arith in
    (f.0, f.1, rw other (f.2), AllFree-poner n r q x ps rest f.3)

-- The memory that page_alloc leaves after it took p.
pub record Taken (zeroed : Bool) (m m' : Memory) (p : ℕ) (ps : List ℕ) : Type 0 where
  pub rest : FreeList m' ps
  pub unlinked : m'.pp_link p ≡ none
  pub contents : m'.words ≡ (if zeroed then poner m.words p (λ k. 0) else m.words)
  pub counts : m'.pp_ref ≡ m.pp_ref
  pub same_npages : m'.npages ≡ m.npages
  pub links : (q : ℕ) → m.pp_link q ≡ none → m'.pp_link q ≡ none

poner_same {ℓ} : {A : Type ℓ} (f : ℕ → A) (i : ℕ) (x : A) → poner f i x i ≡ x
poner_same f i x = let e : (i == i) ≡ true = ground arith in rw e refl

unlink_first :
    (zeroed : Bool) (m : Memory) (words : ℕ → ℕ → ℕ) (p : ℕ) (ps : List ℕ)
    → FreeList m (p ∷ ps)
    → words ≡ (if zeroed then poner m.words p (λ k. 0) else m.words)
    → Taken zeroed m
        (record m { page_free_list = m.pp_link p; pp_link = poner m.pp_link p none; words = words })
        p
        ps
unfolding Chain AllFree
unlink_first zeroed m words p ps f w = record {
  rest = record {
    chain = Chain-poner m.pp_link (m.pp_link p) none p ps f.all_free.0 f.chain.1;
    all_free = f.all_free.3;
  };
  unlinked = poner_same m.pp_link p none;
  contents = w;
  counts = refl;
  same_npages = refl;
  links = λ q h. if_both (λ l. l ≡ none) (p == q) none (m.pp_link q) refl h;
}

-- When the free list is the pages p, ps, page_alloc gives p, which is then unlinked, and cleared if
-- that is asked for, and leaves the free list ps; no other page is written, and no count changes.
pub page_alloc-FreeList :
    (zeroed : Bool) (m : Memory) (p : ℕ) (ps : List ℕ)
    → FreeList m (p ∷ ps)
    → (m' : Memory) × (page_alloc zeroed m ≡ some (some p, m')) × Taken zeroed m m' p ps
unfolding page_alloc take_page Chain AllFree
page_alloc-FreeList true m p ps f =
    let lt : p < m.npages = f.all_free.1 in
    let in_range : leb m.npages p ≡ false = ground arith in
    (_, rw (f.chain.0, in_range) refl, unlink_first true m (poner m.words p (λ k. 0)) p ps f refl)
page_alloc-FreeList false m p ps f =
    (_, rw (f.chain.0) refl, unlink_first false m m.words p ps f refl)

-- When the free list is ps, a page below npages that is not on it, is not linked and has no
-- references is put in front of it by page_free.
pub page_free-FreeList :
    (m : Memory) (p : ℕ) (ps : List ℕ)
    → FreeList m ps
    → p < m.npages
    → has_char ps p ≡ false
    → m.pp_ref p ≡ 0
    → m.pp_link p ≡ none
    → (m' : Memory) × (page_free p m ≡ some m') × FreeList m' (p ∷ ps)
unfolding page_free push_page Chain AllFree
page_free-FreeList m p ps f lt away refs link =
    let none_left : (m.pp_ref p == 0) ≡ true = ground arith in
    let m' : Memory = record m {
      pp_link = poner m.pp_link p m.page_free_list;
      page_free_list = some p;
    } in
    (
      m',
      rw (none_left, link) refl,
      record {
        chain = (
          refl,
          rw (poner_same m.pp_link p m.page_free_list)
              (Chain-poner m.pp_link m.page_free_list m.page_free_list p ps away f.chain),
        );
        all_free = (away, lt, refs, f.all_free);
      },
    )

-- The pages that may be given out: not page 0, nor page 7 with the code of the other CPUs, and
-- either below 640 KB, or from 1 MB on and not below next_free, where the kernel ends.
abbrev pub usable : ℕ → ℕ → Bool
usable next_free p =
    ltb 0 p && not (p == 7) && (ltb p 160 || (leb 256 p && leb (next_free / 4096) p))

in_use-usable : (next_free p : ℕ) → usable next_free p ≡ not (in_use next_free p)
unfolding in_use
in_use-usable next_free p = ground arith

-- The usable pages before the n-th, the last one first.
unfoldable pub free_below : ℕ → ℕ → List ℕ
free_below next_free zero = []
free_below next_free (suc n) =
    let rest = free_below next_free n in if usable next_free n then n ∷ rest else rest

free_below_bound : (next_free n p : ℕ) → n ≤ p → has_char (free_below next_free n) p ≡ false
unfolding free_below has_char
free_below_bound next_free zero p h = refl
free_below_bound next_free (suc n) p h =
    ground (arith, free_below_bound next_free n p (omega arith))

init_pages-npages : (next_free n : ℕ) (m : Memory) → (init_pages next_free n m).npages ≡ m.npages
unfolding init_pages init_page
init_pages-npages next_free zero m = refl
init_pages-npages next_free (suc n) m = elim (Bool-cases (in_use next_free n)) [
  | inl used ↦ rw used (init_pages-npages next_free n m)
  | inr free ↦ rw free (init_pages-npages next_free n m)
]

init_page-FreeList :
    (next_free n : ℕ) (m : Memory)
    → n < m.npages
    → FreeList m (free_below next_free n)
    → FreeList (init_page next_free n m) (free_below next_free (suc n))
unfolding init_page free_below Chain AllFree
init_page-FreeList next_free n m lt f = elim (Bool-cases (in_use next_free n)) [
  | inl used ↦
      rw (in_use-usable next_free n, used)
        (record {
          chain =
              Chain-poner m.pp_link m.page_free_list none n (free_below next_free n) away f.chain;
          all_free = f.all_free;
        })
  | inr free ↦
      rw (in_use-usable next_free n, free)
        (record {
          chain = (
            refl,
            rw (poner_same (poner m.pp_link n none) n m.page_free_list) (
                Chain-poner (poner m.pp_link n none) m.page_free_list m.page_free_list n
                  (free_below next_free n) away
                  (Chain-poner m.pp_link m.page_free_list none n (free_below next_free n) away
                    f.chain)),
          );
          all_free = (
            away,
            lt,
            poner_same m.pp_ref n 0,
            AllFree-poner m.npages m.pp_ref n 0 (free_below next_free n) away f.all_free,
          );
        })
]
  where
    away : has_char (free_below next_free n) n ≡ false
    away = free_below_bound next_free n n (omega arith)

init_pages-FreeList :
    (next_free n : ℕ) (m : Memory)
    → n ≤ m.npages
    → m.page_free_list ≡ none
    → FreeList (init_pages next_free n m) (free_below next_free n)
unfolding init_pages free_below Chain AllFree
init_pages-FreeList next_free zero m le empty = record { chain = empty; all_free = tt }
init_pages-FreeList next_free (suc n) m le empty =
    init_page-FreeList next_free n (init_pages next_free n m)
      (omega (arith, init_pages-npages next_free n m))
      (init_pages-FreeList next_free n m (omega arith) empty)

-- page_init, when it finds an empty free list, makes it the pages of the machine but page 0, page 7
-- of the boot code, the pages 160 to 255 of the IO hole, and those from 256 on and below next_free,
-- each once and the last one first.
pub page_init-FreeList :
    (next_free : ℕ) (m : Memory)
    → m.page_free_list ≡ none
    → FreeList (page_init next_free m) (free_below next_free m.npages)
unfolding page_init
page_init-FreeList next_free m empty = init_pages-FreeList next_free m.npages m (omega arith) empty
