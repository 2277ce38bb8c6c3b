-- ===== src/Sched/UserString/Memmove.antt =====
-- memmove and memcpy (sched/lib/string.c) copy the block as it was, overlapping or not.
use sistemas_operativos_fiub.Common.{ℕ, ◌+◌, ◌/◌, ◌^◌, ◌<◌, ◌≡◌, sym, ◌&&◌, ltb, if_split, arith}
use sistemas_operativos_fiub.Sched.Kernel.{add32}
use sistemas_operativos_fiub.Sched.UserString.{
  Bytes, in_words, memmove, move_down, move_up, movsb, movsl,
}
use sistemas_operativos_fiub.Sched.UserString.Repeat.{
  Copied, bytes_of-bytes, bytes_of-words, movsb-IsStep, movsl-IsStep, rep_down-Copied,
  rep_up-Copied,
}

-- For blocks that end below 2^32, whether or not they overlap, and in words or not, the compiled
-- memmove leaves the n bytes that were at src at dst, and every other byte as it was.
pub memmove-Copied :
    (mem : Bytes) (dst src n : ℕ)
    → dst + n < 2 ^ 32
    → src + n < 2 ^ 32
    → Copied mem (memmove mem dst src n) dst src n
unfolding memmove move_down move_up
memmove-Copied mem dst src n hd hs =
    let end_d : add32 dst n ≡ dst + n = omega arith in
    let end_s : add32 src n ≡ src + n = omega arith in
    let bytes = sym (bytes_of-bytes n) in
    let C : Bytes → Type 0 = λ after. Copied mem after dst src n in
    rw (end_d, end_s)
      (if_split C (ltb src dst && ltb dst (src + n)) _ _
        (λ below.
          if_split C (in_words (dst + n) (src + n) n) _ _
            (λ all.
              rep_down-Copied 4 movsl movsl-IsStep (n / 4) n mem dst src
                (ground (arith, bytes_of-words (n / 4))) hd hs (ground arith))
            (λ _. rep_down-Copied 1 movsb movsb-IsStep n n mem dst src bytes hd hs (ground arith)))
        (λ clear.
          if_split C (in_words dst src n) _ _
            (λ all.
              rep_up-Copied 4 movsl movsl-IsStep (n / 4) n mem dst src
                (ground (arith, bytes_of-words (n / 4))) hd hs (ground arith))
            (λ _. rep_up-Copied 1 movsb movsb-IsStep n n mem dst src bytes hd hs (ground arith))))
