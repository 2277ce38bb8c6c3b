-- ===== src/Sched/UserFork/TwoMappings.antt =====
-- sys_page_map of one page twice (sched/kern/syscall.c), as duppage of sched/lib/fork.c calls it.
use Prim.Native.Nat.{bit_and, bit_or}
use sistemas_operativos_fiub.Common.{
  ℕ, ◌+◌, ◌<◌, ◌≡◌, ◌⊎◌, refl, sym, ap, ◌∙◌, true, false, ◌&&◌, Option, some, ◌==◌, Bool-cases, inl,
  inr, arith,
}
use sistemas_operativos_fiub.Common.Bits.{zero-bit_and}
use sistemas_operativos_fiub.Sched.Kernel.{Kernel}
use sistemas_operativos_fiub.Sched.Env.{dado, envid2env}
use sistemas_operativos_fiub.Sched.Memory.Pages.{Memory, pgnum}
use sistemas_operativos_fiub.Sched.Memory.Tables.{load, page_insert, pdx, ptx, pte_w}
use sistemas_operativos_fiub.Sched.Memory.Mapping.{
  AtEntry, AtEntry-cong, Counted, page_lookup-AtEntry, page_of-Counted, released,
}
use sistemas_operativos_fiub.Sched.Memory.Insert.{page_insert-Inserted, word_of}
use sistemas_operativos_fiub.Sched.Memory.Reinsert.{page_insert_again}
use sistemas_operativos_fiub.Sched.PageCalls.{
  bad_address, env_page_map, has_bits, map_found, not32, reply, returns, sys_page_map, with_env,
}
use sistemas_operativos_fiub.Sched.UserFork.{base_perm, pte_cow, pte_io}

-- A mapping that asks for no write access.
module _ (env_pgdir : ℕ → ℕ) (k : Kernel) (m : Memory) (c e srcid dstid va perm t : ℕ) where
  pub read_map :
      bad_address va ≡ false
      → envid2env k srcid true ≡ dado (some c)
      → envid2env k dstid true ≡ dado (some e)
      → AtEntry m (env_pgdir c) va t
      → (load m (t, ptx va) == 0) ≡ false
      → Counted m (load m (t, ptx va))
      → bit_and (bit_or 5 perm) 2 ≡ 0
      → (m' : Memory)
      → page_insert (env_pgdir e) (pgnum (load m (t, ptx va))) va (bit_or 5 perm) m ≡ some (0, m')
      → sys_page_map env_pgdir k m srcid va dstid va perm ≡ returns 0 k m'
  unfolding sys_page_map with_env env_page_map map_found reply
  read_map addr is_src is_dst a full counted no_write m' inserted =
      let found =
        page_lookup-AtEntry m (env_pgdir c) va t a ∙ page_of-Counted m (t, ptx va) full counted in
      rw
        (
          sys_page_map,
          addr,
          is_src,
          with_env,
          is_dst,
          with_env,
          env_page_map,
          found,
          map_found,
          no_write,
          zero-bit_and (not32 (bit_and pte_w (load m (t, ptx va)))),
          inserted,
        )
        refl

-- The permissions that duppage asks for, as sys_page_map passes them on.
unfoldable pub given : ℕ → ℕ
given w = bit_or 5 (bit_or (base_perm w) pte_cow)

pub given-cases : (w : ℕ) → (given w ≡ 0x805) ⊎ (given w ≡ 0x81d)
unfolding given base_perm
given-cases w = elim (Bool-cases (has_bits w pte_io)) [
  | inl io ↦ inr (rw io refl)
  | inr plain ↦ inl (rw plain refl)
]

pub given-small : (w : ℕ) → (given w < 4096) × (bit_and (given w) 2 ≡ 0)
given-small w = elim (given-cases w) [
  | inl e ↦ (rw e (omega arith), rw e refl)
  | inr e ↦ (rw e (omega arith), rw e refl)
]

-- The two mappings, one after the other: first the child's, then the caller's own.
pub record BothMapped (m : Memory) (pg1 pg2 va t1 t2 w : ℕ) (cur : Memory → Memory) : Type 0 where
  pub first : Memory
  pub second : Memory
  pub child_insert : page_insert pg2 (pgnum w) va (given w) m ≡ some (0, first)
  pub own_insert : page_insert pg1 (pgnum w) va (given w) (cur first) ≡ some (0, second)
  pub own_table : AtEntry (cur first) pg1 va t1
  pub own_entry : load (cur first) (t1, ptx va) ≡ w
  pub own_counted : Counted (cur first) w
  pub own_word : load second (t1, ptx va) ≡ word_of (pgnum w) (given w)
  pub child_word : load second (t2, ptx va) ≡ word_of (pgnum w) (given w)
  pub one_more : second.pp_ref (pgnum w) ≡ m.pp_ref (pgnum w) + 1

-- `cur` sets the directory that tlb_invalidate looks at.
pub both_map :
    (m : Memory) (pg1 pg2 va t1 t2 w : ℕ) (o : Option ℕ)
    → AtEntry m pg1 va t1
    → AtEntry m pg2 va t2
    → load m (t1, ptx va) ≡ w
    → Counted m w
    → (w == 0) ≡ false
    → load m (t2, ptx va) ≡ 0
    → (t2 == t1) ≡ false
    → (t2 == pg1) ≡ false
    → m.pp_ref (pgnum w) < 65534
    → BothMapped m pg1 pg2 va t1 t2 w (λ x. record x { cur_pgdir = o })
unfolding released
both_map m pg1 pg2 va t1 t2 w o a1 a2 entry counted full empty apart apart_dir room =
    let p : ℕ = pgnum w in
    let small = given-small w in
    let in_range : p < m.npages = let h = counted.in_range in ground arith in
    let none_there : (load m (t2, ptx va) == 0) ≡ true = rw empty refl in
    let (m1, e1, r1) =
      page_insert-Inserted m pg2 p va (given w) t2 a2
        (λ some_there. absurd (differ (sym some_there ∙ none_there))) (small.0) in_range
        (omega arith) in
    let m1' : Memory = record m1 { cur_pgdir = o } in
    let away_dir : ((t2 == pg1) && (ptx va == pdx va)) ≡ false = rw apart_dir refl in
    let away : ((t2 == t1) && (ptx va == ptx va)) ≡ false = rw apart refl in
    let back : ((t1 == t2) && (ptx va == ptx va)) ≡ false =
      let swap : (t1 == t2) ≡ false = ground arith in rw swap refl in
    let a1' : AtEntry m1' pg1 va t1 =
      AtEntry-cong m m1' pg1 va t1 r1.same_npages (r1.others pg1 (pdx va) away_dir) a1 in
    let entry' : load m1' (t1, ptx va) ≡ w = r1.others t1 (ptx va) away ∙ entry in
    let here : (p == p) ≡ true = ground arith in
    let count : m1.pp_ref p ≡ m.pp_ref p + 1 =
      ap (λ (f : ℕ → ℕ). f p) r1.counts ∙ rw (none_there, here) (omega arith) in
    let counted' : Counted m1' w = record {
      in_range = rw (r1.same_npages) (counted.in_range);
      referred = omega (arith, count);
      bounded = omega (arith, count);
      unlinked = ap (λ (f : ℕ → Option ℕ). f p) (r1.kept_links none_there) ∙ counted.unlinked;
    } in
    let (m2, e2, same, l, word, others) =
      page_insert_again m1' pg1 p va (given w) t1 a1' (ap pgnum entry') (rw entry' counted')
        (rw entry' full) (small.0) (omega (arith, count)) in
    record {
      first = m1;
      second = m2;
      child_insert = e1;
      own_insert = e2;
      own_table = a1';
      own_entry = entry';
      own_counted = counted';
      own_word = word;
      child_word = others t2 (ptx va) back ∙ r1.entry;
      one_more = same ∙ count;
    }
  where
    differ : false ≡ true → ⊥
    differ h = cc
