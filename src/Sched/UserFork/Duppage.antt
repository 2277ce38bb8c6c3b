-- ===== src/Sched/UserFork/Duppage.antt =====
-- duppage (sched/lib/fork.c): what it leaves in the page tables.
use Prim.Native.Nat.{bit_and, bit_or}
use sistemas_operativos_fiub.Common.{
  ℕ, zero, suc, ◌+◌, ◌*◌, ◌/◌, ◌%◌, ◌<◌, ◌≡◌, refl, sym, ap, ◌∙◌, true, false, ◌||◌, some, ◌==◌,
  if◌then◌else◌, inl, inr, arith,
}
use mathlib.Core.Path.{subst}
use sistemas_operativos_fiub.Common.Bits.{bit_and-two}
use sistemas_operativos_fiub.Sched.Kernel.{Kernel, mod32}
use sistemas_operativos_fiub.Sched.Env.{dado, envid2env}
use sistemas_operativos_fiub.Sched.Memory.Pages.{Memory, pgnum, pgsize}
use sistemas_operativos_fiub.Sched.Memory.Tables.{load, pdx, ptx, pte_w}
use sistemas_operativos_fiub.Sched.Memory.UserCheck.{utop}
use sistemas_operativos_fiub.Sched.Memory.Mapping.{AtEntry, AtEntry-cong, Counted}
use sistemas_operativos_fiub.Sched.Memory.Insert.{word_of}
use sistemas_operativos_fiub.Sched.PageCalls.{bad_address, has_bits}
use sistemas_operativos_fiub.Sched.System.{System, current_pgdir, memory, of_reply}
use sistemas_operativos_fiub.Sched.UserFork.{
  goes_on, user_panics, base_perm, duppage, duppage_with, must, not_user, page_map, pte_cow, uvpd,
  uvpt_at, with_entry,
}
use sistemas_operativos_fiub.Sched.UserFork.TwoMappings.{
  both_map, given, given-cases, given-small, read_map,
}

-- Page pn is writable or copy-on-write for the caller c, whose table for it is t1, and the child e
-- has a table for it, t2, with no entry there yet.
pub record Shareable (s : System) (c e envid pn t1 t2 w : ℕ) : Type 0 where
  pub caller : s.kern.curenv ≡ some c
  pub child : envid2env s.kern envid true ≡ dado (some e)
  pub low : pn < utop / pgsize
  pub table : AtEntry s.mem (s.env_pgdir c) (pn * pgsize) t1
  pub table_user : not_user (uvpd (s.env_pgdir c) s.mem (pn / 1024)) ≡ false
  pub child_table : AtEntry s.mem (s.env_pgdir e) (pn * pgsize) t2
  pub entry : load s.mem (t1, ptx (pn * pgsize)) ≡ w
  pub counted : Counted s.mem w
  pub user : not_user w ≡ false
  pub shared : (has_bits w pte_w || has_bits w pte_cow) ≡ true
  pub no_entry : load s.mem (t2, ptx (pn * pgsize)) ≡ 0
  pub apart : (t2 == t1) ≡ false
  pub apart_dir : (t2 == s.env_pgdir c) ≡ false
  pub room : s.mem.pp_ref (pgnum w) < 65534

-- The word is that of a copy-on-write entry, without PTE_W, for the page.
pub record CowEntry (v p : ℕ) : Type 0 where
  pub same_page : pgnum v ≡ p
  pub read_only : has_bits v pte_w ≡ false
  pub cow : v / pte_cow % 2 ≡ 1

given-CowEntry : (w p : ℕ) → CowEntry (word_of p (given w)) p
given-CowEntry w p = elim (given-cases w) [
  | inl e ↦ rw e (record {
    same_page = omega arith;
    read_only = ground (arith, bit_and-two (word_of p 0x805));
    cow = omega arith;
  })
  | inr e ↦ rw e (record {
    same_page = omega arith;
    read_only = ground (arith, bit_and-two (word_of p 0x81d));
    cow = omega arith;
  })
]

present : (w : ℕ) → not_user w ≡ false → (w == 0) ≡ false
present zero user = cc
present (suc w) user = ground arith

-- When page pn, below UTOP and with a table that the caller may read, is present, of the user,
-- counted, with room for one reference more, and writable or copy-on-write for the caller, of IO
-- (PTE_PCD and PTE_PWT) or not, and the child, which the caller may change, has a
-- table for it with no entry there, which is neither the caller's table nor its directory: duppage
-- goes on; afterwards the caller and the child have the same word for the page, a copy-on-write
-- entry for the same physical page without PTE_W, and the page has one reference more.
pub duppage-CowEntry :
    (s : System) (c e envid pn t1 t2 w : ℕ)
    → Shareable s c e envid pn t1 t2 w
    → (s' : System) × (duppage (s.env_pgdir c) envid pn s ≡ goes_on s')
      × CowEntry (load s'.mem (t1, ptx (pn * pgsize))) (pgnum w)
      × (load s'.mem (t2, ptx (pn * pgsize)) ≡ load s'.mem (t1, ptx (pn * pgsize)))
      × (s'.mem.pp_ref (pgnum w) ≡ s.mem.pp_ref (pgnum w) + 1)
unfolding duppage duppage_with with_entry uvpt_at must of_reply envid2env given
duppage-CowEntry s c e envid pn t1 t2 w h =
    let k : Kernel = s.kern in
    let pg : ℕ → ℕ = s.env_pgdir in
    let va : ℕ = pn * pgsize in
    let m0 : Memory = memory s in
    let a0 : AtEntry m0 (pg c) va t1 = AtEntry-cong s.mem m0 (pg c) va t1 refl refl h.table in
    let counted0 : Counted m0 w = record {
      in_range = h.counted.in_range;
      referred = h.counted.referred;
      bounded = h.counted.bounded;
      unlinked = h.counted.unlinked;
    } in
    let full : (w == 0) ≡ false = present w h.user in
    let b =
      both_map m0 (pg c) (pg e) va t1 t2 w (current_pgdir pg k.curenv) a0
        (AtEntry-cong s.mem m0 (pg e) va t2 refl refl h.child_table) h.entry counted0 full
        h.no_entry h.apart h.apart_dir h.room in
    let addr : bad_address va ≡ false = let lt = h.low in ground arith in
    let own : envid2env k 0 true ≡ dado (some c) = ap dado h.caller in
    let no_write : bit_and (given w) 2 ≡ 0 = (given-small w).1 in
    let s1 : System = record s { mem = b.first } in
    let s2 : System = record s { mem = b.second } in
    let call1 =
      read_map pg k m0 c e 0 envid va (bit_or (base_perm w) pte_cow) t1 addr own h.child a0
        (rw (h.entry) full) (rw (h.entry) counted0) no_write b.first
        (rw (h.entry) b.child_insert) in
    let call2 =
      read_map pg k (memory s1) c c 0 0 va (bit_or (base_perm w) pte_cow) t1 addr own own
        b.own_table (rw (b.own_entry) full) (rw (b.own_entry) b.own_counted) no_write b.second
        (rw (b.own_entry) b.own_insert) in
    let shift : pn * pgsize % mod32 ≡ va = let lt = h.low in omega arith in
    let dir : pn / 1024 ≡ pdx va = let lt = h.low in omega arith in
    let index : pn % 1024 ≡ ptx va = omega arith in
    let word : load s.mem (pgnum (uvpd (pg c) s.mem (pn / 1024)), pn % 1024) ≡ w =
      ap (λ i. load s.mem (pgnum (load s.mem (pg c, i)), pn % 1024)) dir
      ∙ ap (λ n. load s.mem (n, pn % 1024)) h.table.table
      ∙ ap (λ i. load s.mem (t1, i)) index
      ∙ h.entry in
    let read : uvpt_at (pg c) s.mem pn ≡ some w = rw (h.table_user) (ap some word) in
    (
      s2,
      ap
            (λ (a : ℕ).
              with_entry (uvpt_at (pg c) s.mem pn)
                (λ pte. if not_user pte then user_panics else duppage_with envid a pte s))
            shift
          ∙ ap
              (λ o.
                with_entry o
                  (λ pte. if not_user pte then user_panics else duppage_with envid va pte s))
              read
          ∙ rw (h.user, duppage_with, h.shared)
              (ap
                  (λ r.
                    must (of_reply pg r)
                      (λ s'. must (page_map 0 va 0 va (bit_or (base_perm w) pte_cow) s') goes_on))
                  call1
                ∙ ap (λ r. must (of_reply pg r) goes_on) call2),
      subst (λ v. CowEntry v (pgnum w)) (sym b.own_word) (given-CowEntry w (pgnum w)),
      b.child_word ∙ sym b.own_word,
      b.one_more,
    )
