-- ===== src/Sched/UserNumber.antt =====
-- strtol of sched/lib/string.c and printnum of sched/lib/printfmt.c. A string is the list of its
-- bytes up to the NUL, and a printer gives the list of the bytes that it passes to putch.
pub mod RoundTrip
use sistemas_operativos_fiub.Common.{
  ℕ, zero, suc, ◌+◌, ◌-◌, ◌*◌, ◌/◌, ◌%◌, ◌^◌, Bool, true, false, ◌&&◌, ◌||◌, Option, none, some,
  List, [], ◌∷◌, ◌++◌, leb, ltb, ◌==◌, if◌then◌else◌,
}
use sistemas_operativos_fiub.Sched.Kernel.{mod32}

-- `while (*s == ' ' || *s == '\t') s++;`
unfoldable pub skip_blanks : List ℕ → List ℕ
skip_blanks [] = []
skip_blanks (c ∷ s) = let rest = skip_blanks s in if c == 32 || c == 9 then rest else c ∷ s

-- Whether the number is negative, and what follows the sign.
unfoldable pub read_sign : List ℕ → Bool × List ℕ
read_sign [] = (false, [])
read_sign (c ∷ s) = if c == 43 then (false, s) else if c == 45 then (true, s) else (false, c ∷ s)

abbrev pub starts_hex : List ℕ → Bool
starts_hex (c ∷ d ∷ s) = c == 48 && d == 120
starts_hex _ = false

abbrev pub starts_zero : List ℕ → Bool
starts_zero (c ∷ s) = c == 48
starts_zero _ = false

abbrev pub drop_bytes : ℕ → List ℕ → List ℕ
drop_bytes zero s = s
drop_bytes (suc n) [] = []
drop_bytes (suc n) (c ∷ s) = drop_bytes n s

-- The base, and what follows its prefix.
unfoldable pub read_base : ℕ → List ℕ → ℕ × List ℕ
read_base base s =
    if (base == 0 || base == 16) && starts_hex s
    then (16, drop_bytes 2 s)
    else if base == 0 && starts_zero s
    then (8, drop_bytes 1 s)
    else if base == 0
    then (10, s)
    else (base, s)

-- LONG_MAX + 1
abbrev pub long_end : ℕ
long_end = 2 ^ 31

unfoldable pub digit_of : ℕ → Option ℕ
digit_of c =
    if leb 48 c && leb c 57
    then some (c - 48)
    else if leb 97 c && leb c 122
    then some (c - 97 + 10)
    else if leb 65 c && leb c 90
    then some (c - 65 + 10)
    else none

-- The loop over the digits: the value, and *endptr. The value is a long, of 32 bits with a sign:
-- `none` is a `val * base + dig` that overflows it.
unfoldable pub read_digits : ℕ → ℕ → List ℕ → Option (ℕ × List ℕ)
read_digits base val [] = some (val, [])
read_digits base val (c ∷ s) = elim (digit_of c) [
  | none ↦ some (val, c ∷ s)
  | some dig ↦
      let rest = read_digits base (val * base + dig) s in
      if leb base dig
      then some (val, c ∷ s)
      else if leb long_end (val * base + dig)
      then none
      else rest
]

-- `neg ? -val : val`, a negative value as its pattern.
abbrev pub negate_if : Bool → Option (ℕ × List ℕ) → Option (ℕ × List ℕ)
negate_if neg none = none
negate_if neg (some (val, s)) = some (if neg then (mod32 - val) % mod32 else val, s)

unfoldable pub strtol : List ℕ → ℕ → Option (ℕ × List ℕ)
strtol s base =
    let (neg, unsigned) = read_sign (skip_blanks s) in
    let (b, digits) = read_base base unsigned in negate_if neg (read_digits b 0 digits)

abbrev pub pad : ℕ → ℕ → List ℕ
pad padc zero = []
pad padc (suc n) = padc ∷ pad padc n

-- "0123456789abcdef"[d]
abbrev pub digit_char : ℕ → ℕ
digit_char d = if ltb d 10 then 48 + d else 87 + d

unfoldable pub printnum_at : ℕ → ℕ → ℕ → ℕ → ℕ → List ℕ
printnum_at zero num base width padc = []
printnum_at (suc steps) num base width padc =
    let rest = printnum_at steps (num / base) base (width - 1) padc in
    (if leb base num then rest else pad padc (width - 1)) ++ (digit_char (num % base) ∷ [])

-- Each call divides the number by the base, so that as many calls as the number and one are enough.
unfoldable pub printnum : ℕ → ℕ → ℕ → ℕ → List ℕ
printnum num base width padc = printnum_at (suc num) num base width padc
