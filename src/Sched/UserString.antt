-- ===== src/Sched/UserString.antt =====
-- sched/lib/string.c: the functions on blocks of bytes, over the byte at each address. memset and
-- memmove are those that are compiled, with the string instructions, as ASM is 1.
pub mod Repeat
pub mod Memmove
pub mod Memcmp
pub mod Strlcpy
use sistemas_operativos_fiub.Common.{
  ℕ, zero, suc, ◌+◌, ◌/◌, ◌%◌, Bool, not, ◌&&◌, ltb, ◌==◌, if◌then◌else◌,
}
use sistemas_operativos_fiub.Sched.Kernel.{add32, poner, sub32}

abbrev pub Bytes : Type 0
Bytes = ℕ → ℕ

-- One movsb, and one movsl, which reads its four bytes before it writes them.
unfoldable pub movsb : Bytes → ℕ → ℕ → Bytes
movsb mem d s = poner mem d (mem s)

unfoldable pub movsl : Bytes → ℕ → ℕ → Bytes
movsl mem d s =
    poner
      (poner (poner (poner mem d (mem s)) (add32 d 1) (mem (add32 s 1))) (add32 d 2)
        (mem (add32 s 2)))
      (add32 d 3) (mem (add32 s 3))

-- `cld; rep` and `std; rep` with a count: %edi and %esi go up, or down, by the width of the step.
unfoldable pub rep_up : (Bytes → ℕ → ℕ → Bytes) → ℕ → Bytes → ℕ → ℕ → ℕ → Bytes
rep_up step w mem d s zero = mem
rep_up step w mem d s (suc count) = rep_up step w (step mem d s) (add32 d w) (add32 s w) count

unfoldable pub rep_down : (Bytes → ℕ → ℕ → Bytes) → ℕ → Bytes → ℕ → ℕ → ℕ → Bytes
rep_down step w mem d s zero = mem
rep_down step w mem d s (suc count) = rep_down step w (step mem d s) (sub32 d w) (sub32 s w) count

-- Both addresses and the size are multiples of 4.
abbrev pub in_words : ℕ → ℕ → ℕ → Bool
in_words d s n = s % 4 == 0 && d % 4 == 0 && n % 4 == 0

-- The block from its end on, where `d` and `s` are the addresses after the blocks.
unfoldable pub move_down : Bytes → ℕ → ℕ → ℕ → Bytes
move_down mem d s n =
    if in_words d s n
    then rep_down movsl 4 mem (sub32 d 4) (sub32 s 4) (n / 4)
    else rep_down movsb 1 mem (sub32 d 1) (sub32 s 1) n

unfoldable pub move_up : Bytes → ℕ → ℕ → ℕ → Bytes
move_up mem d s n =
    if in_words d s n then rep_up movsl 4 mem d s (n / 4) else rep_up movsb 1 mem d s n

unfoldable pub memmove : Bytes → ℕ → ℕ → ℕ → Bytes
memmove mem dst src n =
    if ltb src dst && ltb dst (add32 src n)
    then move_down mem (add32 dst n) (add32 src n) n
    else move_up mem dst src n

unfoldable pub memcpy : Bytes → ℕ → ℕ → ℕ → Bytes
memcpy mem dst src n = memmove mem dst src n

-- `cld; rep stosb`, and `cld; rep stosl` with the byte c four times in %eax.
unfoldable pub stosb : Bytes → ℕ → ℕ → ℕ → Bytes
stosb mem p c zero = mem
stosb mem p c (suc count) = stosb (poner mem p (c % 256)) (add32 p 1) c count

unfoldable pub stosl : Bytes → ℕ → ℕ → ℕ → Bytes
stosl mem p c zero = mem
stosl mem p c (suc count) = stosl (stosb mem p c 4) (add32 p 4) c count

unfoldable pub memset : Bytes → ℕ → ℕ → ℕ → Bytes
memset mem v c n =
    if n == 0
    then mem
    else if v % 4 == 0 && n % 4 == 0
    then stosl mem v c (n / 4)
    else stosb mem v c n

-- The difference of two bytes as an int.
unfoldable pub memcmp : Bytes → ℕ → ℕ → ℕ → ℕ
memcmp mem s1 s2 zero = 0
memcmp mem s1 s2 (suc n) =
    let rest = memcmp mem (add32 s1 1) (add32 s2 1) n in
    if mem s1 == mem s2 then rest else sub32 (mem s1) (mem s2)

-- strnlen, for a size: the bytes before the NUL, at most that many.
unfoldable pub strnlen : Bytes → ℕ → ℕ → ℕ
strnlen mem s zero = 0
strnlen mem s (suc n) = let rest = strnlen mem (add32 s 1) n in if mem s == 0 then 0 else rest + 1

-- The loop of strncpy, which stays at the NUL of src.
unfoldable pub strncpy : Bytes → ℕ → ℕ → ℕ → Bytes
strncpy mem dst src zero = mem
strncpy mem dst src (suc n) =
    let copied = poner mem dst (mem src) in
    strncpy copied (add32 dst 1) (if copied src == 0 then src else add32 src 1) n

-- The loop of strlcpy when n more bytes may be copied, and the NUL after it.
unfoldable pub strlcpy_loop : Bytes → ℕ → ℕ → ℕ → Bytes
strlcpy_loop mem dst src zero = poner mem dst 0
strlcpy_loop mem dst src (suc n) =
    let rest = strlcpy_loop (poner mem dst (mem src)) (add32 dst 1) (add32 src 1) n in
    if mem src == 0 then poner mem dst 0 else rest

unfoldable pub strlcpy : Bytes → ℕ → ℕ → ℕ → Bytes
strlcpy mem dst src zero = mem
strlcpy mem dst src (suc n) = strlcpy_loop mem dst src n

unfoldable pub strncmp : Bytes → ℕ → ℕ → ℕ → ℕ
strncmp mem p q zero = 0
strncmp mem p q (suc n) =
    let rest = strncmp mem (add32 p 1) (add32 q 1) n in
    if not (mem p == 0) && mem p == mem q then rest else sub32 (mem p) (mem q)
