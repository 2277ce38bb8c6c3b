-- ===== src/Sched/PageCalls/ReadOnly.antt =====
-- sys_page_map gives no write access to a page that is read-only for the source.
use Prim.Native.Nat.{bit_and, bit_or}
use sistemas_operativos_fiub.Common.{
  ℕ, ◌≡◌, refl, true, false, Option, none, some, if_both, if_split, Bool-cases, inl, inr, arith,
}
use sistemas_operativos_fiub.Common.Bits.{bit_and-two, two-bit_and, five-bit_or}
use sistemas_operativos_fiub.Sched.Kernel.{Kernel}
use sistemas_operativos_fiub.Sched.Env.{Resuelto, bad_env, dado, null_curenv, envid2env}
use sistemas_operativos_fiub.Sched.Memory.Pages.{Memory}
use sistemas_operativos_fiub.Sched.Memory.Tables.{
  Pte, load, page_insert, page_lookup, pte_p, pte_u, pte_w,
}
use sistemas_operativos_fiub.Sched.PageCalls.{
  PageReply, returns, breaks, bad_address, env_page_map, has_bits, map_found, not32, reply,
  sys_page_map, with_env,
}

-- What holds when a call returns 0.
unfoldable pub OnSuccess : Type 0 → PageReply → Type 0
OnSuccess P (returns r k m) = r ≡ 0 → P
OnSuccess P breaks = Unit

with_env-OnSuccess :
    (P : Type 0) (k : Kernel) (m : Memory) (next : ℕ → PageReply) (r : Resuelto)
    → ((e : ℕ) → r ≡ dado (some e) → OnSuccess P (next e))
    → OnSuccess P (with_env k m next r)
unfolding with_env OnSuccess
with_env-OnSuccess P k m next (dado (some e)) h = h e refl
with_env-OnSuccess P k m next (dado none) h = tt
with_env-OnSuccess P k m next bad_env h = λ e. absurd (ground arith)
with_env-OnSuccess P k m next null_curenv h = tt

weaken : {P Q : Type 0} → (P → Q) → (r : PageReply) → OnSuccess P r → OnSuccess Q r
unfolding OnSuccess
weaken f (returns r k m) h = λ z. f (h z)
weaken f breaks h = tt

-- The page at srcva in the source's directory has a writable entry.
abbrev pub Writable : (ℕ → ℕ) → Memory → ℕ → ℕ → Type 0
Writable env_pgdir m src srcva =
    (p : ℕ) × (pte : Pte) × (page_lookup (env_pgdir src) srcva m ≡ some (some (p, pte)))
    × (has_bits (load m pte) pte_w ≡ true)

-- The test of env_page_map.
refused :
    (perm w : ℕ)
    → has_bits perm pte_w ≡ true
    → has_bits (bit_and (bit_or 5 perm) pte_w) (not32 (bit_and pte_w w)) ≡ false
    → has_bits w pte_w ≡ true
refused perm w asks test = elim (Bool-cases (has_bits w pte_w)) [
  | inl ok ↦ ok
  | inr read_only ↦
      let wanted : bit_and (bit_or 5 perm) 2 ≡ 2 =
        ground (arith, bit_and-two (bit_or 5 perm), five-bit_or perm, bit_and-two perm) in
      let source : bit_and 2 w ≡ 0 = ground (arith, bit_and-two w, two-bit_and w) in
      absurd (contra wanted source test)
]
  where
    contra :
        bit_and (bit_or 5 perm) 2 ≡ 2
        → bit_and 2 w ≡ 0
        → has_bits (bit_and (bit_or 5 perm) 2) (not32 (bit_and 2 w)) ≡ false
        → ⊥
    contra e f t =
        let all : has_bits 2 (not32 0) ≡ true = refl in
        let here : has_bits (bit_and (bit_or 5 perm) 2) (not32 (bit_and 2 w)) ≡ true =
          rw (e, f) all in
        ground arith

map_found-Writable :
    (env_pgdir : ℕ → ℕ) (k : Kernel) (m : Memory) (src srcva pgdir va perm : ℕ)
    (found : Option (Option (ℕ × Pte)))
    → has_bits perm pte_w ≡ true
    → page_lookup (env_pgdir src) srcva m ≡ found
    → OnSuccess
        (Writable env_pgdir m src srcva)
        (reply k (map_found pgdir va (bit_or (bit_or pte_p pte_u) perm) m found))
unfolding map_found reply OnSuccess
map_found-Writable env_pgdir k m src srcva pgdir va perm none asks e = tt
map_found-Writable env_pgdir k m src srcva pgdir va perm (some none) asks e =
    λ z. absurd (ground arith)
map_found-Writable env_pgdir k m src srcva pgdir va perm (some (some (p, pte))) asks e =
    if_split (λ x. OnSuccess (Writable env_pgdir m src srcva) (reply k x))
      (has_bits (bit_and (bit_or 5 perm) pte_w) (not32 (bit_and pte_w (load m pte)))) _ _
      (λ no_right. λ z. absurd (ground arith))
      (λ right.
        always (reply k (page_insert pgdir p va (bit_or 5 perm) m))
          (p, pte, e, refused perm (load m pte) asks right))
  where
    always :
        (r : PageReply)
        → Writable env_pgdir m src srcva
        → OnSuccess (Writable env_pgdir m src srcva) r
    always (returns r k' m') w = λ z. w
    always breaks w = tt

-- When perm has PTE_W and sys_page_map returns 0, the page at srcva has a writable entry in the
-- source environment's page directory.
pub sys_page_map-Writable :
    (env_pgdir : ℕ → ℕ) (k : Kernel) (m : Memory) (srcenvid srcva dstenvid dstva perm : ℕ)
    → has_bits perm pte_w ≡ true
    → OnSuccess
        ((src : ℕ) × (envid2env k srcenvid true ≡ dado (some src)) × Writable env_pgdir m src srcva)
        (sys_page_map env_pgdir k m srcenvid srcva dstenvid dstva perm)
unfolding sys_page_map env_page_map OnSuccess
sys_page_map-Writable env_pgdir k m srcenvid srcva dstenvid dstva perm asks =
    if_both (OnSuccess Goal) (bad_address srcva) _ _ (λ z. absurd (ground arith))
      (if_both (OnSuccess Goal) (bad_address dstva) _ _ (λ z. absurd (ground arith))
        (with_env-OnSuccess Goal k m _ (envid2env k srcenvid true) (λ src is_src.
          with_env-OnSuccess Goal k m _ (envid2env k dstenvid true) (λ dst is_dst.
            weaken (λ w. (src, is_src, w)) _
              (map_found-Writable env_pgdir k m src srcva (env_pgdir dst) dstva perm
                (page_lookup (env_pgdir src) srcva m) asks refl)))))
  where
    Goal : Type 0
    Goal =
        (src : ℕ) × (envid2env k srcenvid true ≡ dado (some src)) × Writable env_pgdir m src srcva
