-- ===== src/Sched/UserString/Strlcpy.antt =====
-- strlcpy (sched/lib/string.c) stays in its buffer.
use sistemas_operativos_fiub.Common.{
  ℕ, zero, suc, ◌+◌, ◌^◌, ◌≤◌, ◌<◌, ◌≡◌, ◌⊎◌, refl, ap, ◌∙◌, true, false, ◌==◌, Bool-cases, inl,
  inr, arith,
}
use sistemas_operativos_fiub.Sched.Kernel.{add32, poner}
use sistemas_operativos_fiub.Sched.UserString.{Bytes, strlcpy, strlcpy_loop}

-- Only the size bytes at dst change, and one of them is a NUL afterwards.
pub record Terminated (before after : Bytes) (dst size : ℕ) : Type 0 where
  pub outside : (a : ℕ) → ((a < dst) ⊎ (dst + size ≤ a)) → after a ≡ before a
  pub place : ℕ
  pub within : place < size
  pub nul : after (dst + place) ≡ 0

nul_here : (mem : Bytes) (dst size : ℕ) → 1 ≤ size → Terminated mem (poner mem dst 0) dst size
nul_here mem dst size room = record {
  outside = λ a out. let other : (dst == a) ≡ false = ground arith in rw other refl;
  place = 0;
  within = room;
  nul = let same : (dst == dst + 0) ≡ true = ground arith in rw same refl;
}

one_more :
    (mem after : Bytes) (dst x size : ℕ)
    → Terminated (poner mem dst x) after (dst + 1) size
    → Terminated mem after dst (suc size)
one_more mem after dst x size t = record {
  outside = λ a out.
      let other : (dst == a) ≡ false = ground arith in t.outside a (moved a out) ∙ rw other refl;
  place = suc t.place;
  within = let lt = t.within in omega arith;
  nul = let at : dst + suc t.place ≡ dst + 1 + t.place = omega arith in ap after at ∙ t.nul;
}
  where
    moved : (a : ℕ) → ((a < dst) ⊎ (dst + suc size ≤ a)) → (a < dst + 1) ⊎ (dst + 1 + size ≤ a)
    moved a (inl lt) = inl (omega arith)
    moved a (inr le) = inr (omega arith)

loop-Terminated :
    (n : ℕ) (mem : Bytes) (dst src : ℕ)
    → dst + suc n < 2 ^ 32
    → Terminated mem (strlcpy_loop mem dst src n) dst (suc n)
unfolding strlcpy_loop
loop-Terminated zero mem dst src hd = nul_here mem dst 1 (omega arith)
loop-Terminated (suc n) mem dst src hd =
    let next : add32 dst 1 ≡ dst + 1 = omega arith in
    elim (Bool-cases (mem src == 0)) [
      | inl stop ↦ rw stop (nul_here mem dst (suc (suc n)) (omega arith))
      | inr more ↦
          rw (more, next)
            (one_more mem _ dst (mem src) (suc n)
              (loop-Terminated n (poner mem dst (mem src)) (dst + 1) (add32 src 1) (omega arith)))
    ]

-- For a buffer of at least one byte that ends below 2^32, whatever src is, strlcpy changes no byte
-- outside the buffer, and leaves a NUL in it.
pub strlcpy-Terminated :
    (mem : Bytes) (dst src size : ℕ)
    → 1 ≤ size
    → dst + size < 2 ^ 32
    → Terminated mem (strlcpy mem dst src size) dst size
unfolding strlcpy
strlcpy-Terminated mem dst src zero room hd = absurd (omega arith)
strlcpy-Terminated mem dst src (suc n) room hd = loop-Terminated n mem dst src hd
