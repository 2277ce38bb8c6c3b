-- ===== src/Sched/UserString/Memcmp.antt =====
-- memcmp and memset (sched/lib/string.c).
use sistemas_operativos_fiub.Common.{
  ℕ, zero, suc, ◌+◌, ◌^◌, ◌≤◌, ◌<◌, ◌≡◌, ◌⊎◌, ◌↔◌, refl, sym, ap, ◌∙◌, false, ◌==◌, Bool-cases,
  ==_iff, inl, inr, arith,
}
use sistemas_operativos_fiub.Sched.Kernel.{add32, sub32}
use sistemas_operativos_fiub.Sched.UserString.{Bytes, memcmp, memcpy}
use sistemas_operativos_fiub.Sched.UserString.Repeat.{Copied}
use sistemas_operativos_fiub.Sched.UserString.Memmove.{memmove-Copied}

-- The blocks are equal, byte by byte.
abbrev pub SameBytes : Bytes → ℕ → ℕ → ℕ → Type 0
SameBytes mem s1 s2 n = (i : ℕ) → i < n → mem (s1 + i) ≡ mem (s2 + i)

tail : (mem : Bytes) (s1 s2 n : ℕ) → SameBytes mem s1 s2 (suc n) → SameBytes mem (s1 + 1) (s2 + 1) n
tail mem s1 s2 n same i lt =
    ap mem (omega arith) ∙ same (suc i) (omega arith) ∙ ap mem (omega arith)

head : (mem : Bytes) (s1 s2 n : ℕ) → SameBytes mem s1 s2 (suc n) → mem s1 ≡ mem s2
head mem s1 s2 n same =
    let a : s1 ≡ s1 + 0 = omega arith in
    let b : s2 + 0 ≡ s2 = omega arith in ap mem a ∙ same 0 (omega arith) ∙ ap mem b

joined :
    (mem : Bytes) (s1 s2 n : ℕ)
    → mem s1 ≡ mem s2
    → SameBytes mem (s1 + 1) (s2 + 1) n
    → SameBytes mem s1 s2 (suc n)
joined mem s1 s2 n first rest zero lt =
    let a : s1 + 0 ≡ s1 = omega arith in
    let b : s2 ≡ s2 + 0 = omega arith in ap mem a ∙ first ∙ ap mem b
joined mem s1 s2 n first rest (suc i) lt =
    let a : s1 + suc i ≡ s1 + 1 + i = omega arith in
    let b : s2 + 1 + i ≡ s2 + suc i = omega arith in ap mem a ∙ rest i (omega arith) ∙ ap mem b

-- For bytes, and blocks that end below 2^32, memcmp gives 0 exactly when the blocks are equal.
pub memcmp_iff :
    (mem : Bytes) (s1 s2 n : ℕ)
    → ((a : ℕ) → mem a < 256)
    → s1 + n < 2 ^ 32
    → s2 + n < 2 ^ 32
    → (memcmp mem s1 s2 n ≡ 0) ↔ SameBytes mem s1 s2 n
unfolding memcmp
memcmp_iff mem s1 s2 zero bytes h1 h2 = (λ e. λ i lt. absurd (omega arith), λ same. refl)
memcmp_iff mem s1 s2 (suc n) bytes h1 h2 =
    let next1 : add32 s1 1 ≡ s1 + 1 = omega arith in
    let next2 : add32 s2 1 ≡ s2 + 1 = omega arith in
    let (to, from) = memcmp_iff mem (s1 + 1) (s2 + 1) n bytes (omega arith) (omega arith) in
    rw (next1, next2)
      (elim (Bool-cases (mem s1 == mem s2)) [
        | inl eq ↦ rw eq (
          λ e. joined mem s1 s2 n ((==_iff (mem s1) (mem s2)).0 eq) (to e),
          λ same. from (tail mem s1 s2 n same),
        )
        | inr ne ↦ rw ne (
          λ e. absurd (apart (mem s1) (mem s2) (bytes s1) (bytes s2) ne e),
          λ same. absurd (differ (mem s1) (mem s2) ne (head mem s1 s2 n same)),
        )
      ])
  where
    apart : (x y : ℕ) → x < 256 → y < 256 → (x == y) ≡ false → sub32 x y ≡ 0 → ⊥
    apart x y hx hy ne e = ground arith

    differ : (x y : ℕ) → (x == y) ≡ false → x ≡ y → ⊥
    differ x y ne e = ground arith

-- For bytes, and blocks that end below 2^32 and do not overlap, memcmp finds no difference between
-- a block and its copy by memcpy.
pub memcpy-memcmp :
    (mem : Bytes) (dst src n : ℕ)
    → ((a : ℕ) → memcpy mem dst src n a < 256)
    → dst + n < 2 ^ 32
    → src + n < 2 ^ 32
    → ((src + n ≤ dst) ⊎ (dst + n ≤ src))
    → memcmp (memcpy mem dst src n) dst src n ≡ 0
unfolding memcpy
memcpy-memcmp mem dst src n bytes hd hs apart =
    let c : Copied mem (memcpy mem dst src n) dst src n = memmove-Copied mem dst src n hd hs in
    (memcmp_iff (memcpy mem dst src n) dst src n bytes hd hs).1
      (λ i lt. c.inside i lt ∙ sym (c.outside (src + i) (off i lt apart)))
  where
    off :
        (i : ℕ)
        → i < n
        → ((src + n ≤ dst) ⊎ (dst + n ≤ src))
        → (src + i < dst) ⊎ (dst + n ≤ src + i)
    off i lt (inl le) = inl (omega arith)
    off i lt (inr le) = inr (omega arith)
