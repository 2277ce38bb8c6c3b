-- ===== src/Sched/UserNumber/RoundTrip.antt =====
-- strtol (sched/lib/string.c) reads what printnum (sched/lib/printfmt.c) prints in base 10.
use mathlib.Core.List.{append_assoc}
use sistemas_operativos_fiub.Common.{
  ℕ, zero, suc, ◌+◌, ◌-◌, ◌*◌, ◌/◌, ◌%◌, ◌^◌, ◌≤◌, ◌<◌, ◌≡◌, refl, sym, ap, ◌∙◌, true, false, ◌||◌,
  Option, none, some, List, [], ◌∷◌, ◌++◌, leb, ltb, ◌==◌, if◌then◌else◌, Bool-cases, inl, inr,
  arith,
}
use sistemas_operativos_fiub.Sched.UserNumber.{
  digit_char, digit_of, long_end, negate_if, pad, printnum, printnum_at, read_base, read_digits,
  read_sign, skip_blanks, strtol,
}

digit_of-digit_char : (d : ℕ) → d < 10 → digit_of (digit_char d) ≡ some d
unfolding digit_of
digit_of-digit_char d lt =
    let low : ltb d 10 ≡ true = ground arith in
    let a : leb 48 (48 + d) ≡ true = ground arith in
    let b : leb (48 + d) 57 ≡ true = ground arith in
    let c : 48 + d - 48 ≡ d = omega arith in rw (low, a, b, c) refl

-- One digit, after the value of those before it.
read_digit :
    (val d : ℕ) (ys : List ℕ)
    → d < 10
    → val * 10 + d < 2 ^ 31
    → read_digits 10 val (digit_char d ∷ ys) ≡ read_digits 10 (val * 10 + d) ys
unfolding read_digits
read_digit val d ys lt small =
    let below : leb 10 d ≡ false = ground arith in
    let fits : leb long_end (val * 10 + d) ≡ false = ground arith in
    let step : Option ℕ → Option (ℕ × List ℕ) = λ o. elim o [
      | none ↦ some (val, digit_char d ∷ ys)
      | some dig ↦
          if leb 10 dig
          then some (val, digit_char d ∷ ys)
          else if leb long_end (val * 10 + dig)
          then none
          else read_digits 10 (val * 10 + dig) ys
    ] in
    ap step (digit_of-digit_char d lt) ∙ rw (below, fits) refl

no_pad : (w padc : ℕ) → w ≤ 1 → pad padc (w - 1) ≡ []
no_pad w padc h = let z : w - 1 ≡ 0 = omega arith in rw z refl

print-read :
    (steps num w padc : ℕ) (ys : List ℕ)
    → w ≤ 1
    → num < steps
    → num < 2 ^ 31
    → read_digits 10 0 (printnum_at steps num 10 w padc ++ ys) ≡ read_digits 10 num ys
unfolding printnum_at
print-read zero num w padc ys hw enough small = absurd (omega arith)
print-read (suc steps) num w padc ys hw enough small =
    let d : ℕ = num % 10 in
    let value : num / 10 * 10 + num % 10 ≡ num = omega arith in
    let last : read_digits 10 (num / 10) (digit_char d ∷ ys) ≡ read_digits 10 num ys =
      read_digit (num / 10) d ys (omega arith) (omega arith)
      ∙ ap (λ v. read_digits 10 v ys) value in
    let first : List ℕ =
      if leb 10 num then printnum_at steps (num / 10) 10 (w - 1) padc else pad padc (w - 1) in
    ap (read_digits 10 0) (append_assoc first (digit_char d ∷ []) ys)
    ∙ elim (Bool-cases (leb 10 num)) [
      | inl more ↦
          rw more (
            print-read steps (num / 10) (w - 1) padc (digit_char d ∷ ys) (omega arith)
              (ground arith) (omega arith))
          ∙ last
      | inr one ↦
          let none_before : num / 10 ≡ 0 = ground arith in
          rw (one, no_pad w padc hw)
            (ap (λ v. read_digits 10 v (digit_char d ∷ ys)) (sym none_before))
          ∙ last
    ]

-- The first byte is a digit.
pub record StartsDigit (s : List ℕ) : Type 0 where
  pub first : ℕ
  pub others : List ℕ
  pub split : s ≡ first ∷ others
  pub low : 48 ≤ first
  pub high : first ≤ 57

print-StartsDigit :
    (steps num w padc : ℕ) (ys : List ℕ)
    → w ≤ 1
    → num < steps
    → StartsDigit (printnum_at steps num 10 w padc ++ ys)
unfolding printnum_at
print-StartsDigit zero num w padc ys hw enough = absurd (omega arith)
print-StartsDigit (suc steps) num w padc ys hw enough = elim (Bool-cases (leb 10 num)) [
  | inl more ↦
      rw (more, append_assoc)
        (print-StartsDigit steps (num / 10) (w - 1) padc _ (omega arith) (ground arith))
  | inr one ↦
      let low : ltb (num % 10) 10 ≡ true = ground arith in
      rw (one, no_pad w padc hw)
        (record {
          first = digit_char (num % 10);
          others = ys;
          split = refl;
          low = rw low (omega arith);
          high = rw low (omega arith);
        })
]

-- Before a digit there is no blank, no sign and, in base 10, no prefix.
strtol-read_digits :
    (c : ℕ) (s : List ℕ)
    → 48 ≤ c
    → c ≤ 57
    → strtol (c ∷ s) 10 ≡ negate_if false (read_digits 10 0 (c ∷ s))
unfolding strtol skip_blanks read_sign read_base
strtol-read_digits c s low high =
    let blank : (c == 32 || c == 9) ≡ false = ground arith in
    let plus : (c == 43) ≡ false = ground arith in
    let minus : (c == 45) ≡ false = ground arith in rw (blank, plus, minus) refl

-- The text does not start with a digit or a letter.
abbrev pub EndsNumber : List ℕ → Type 0
EndsNumber [] = Unit
EndsNumber (c ∷ s) = digit_of c ≡ none

read_end : (val : ℕ) (ys : List ℕ) → EndsNumber ys → read_digits 10 val ys ≡ some (val, ys)
unfolding read_digits
read_end val [] h = refl
read_end val (c ∷ s) h =
    let step : Option ℕ → Option (ℕ × List ℕ) = λ o. elim o [
      | none ↦ some (val, c ∷ s)
      | some dig ↦
          if leb 10 dig
          then some (val, c ∷ s)
          else if leb long_end (val * 10 + dig)
          then none
          else read_digits 10 (val * 10 + dig) s
    ] in
    ap step h

-- For a number below 2^31, a width of at most 1, so without padding, and a text that does not start
-- with a digit or a letter: from what printnum prints in base 10, followed by the text, strtol in
-- base 10 reads that number, and *endptr is the text.
pub printnum-strtol :
    (num w padc : ℕ) (ys : List ℕ)
    → w ≤ 1
    → num < 2 ^ 31
    → EndsNumber ys
    → strtol (printnum num 10 w padc ++ ys) 10 ≡ some (num, ys)
unfolding printnum
printnum-strtol num w padc ys hw small stop =
    let d : StartsDigit (printnum_at (suc num) num 10 w padc ++ ys) =
      print-StartsDigit (suc num) num w padc ys hw (omega arith) in
    ap (λ s. strtol s 10) d.split
    ∙ strtol-read_digits d.first d.others d.low d.high
    ∙ ap (λ r. negate_if false r)
        (ap (read_digits 10 0) (sym d.split)
          ∙ print-read (suc num) num w padc ys hw (omega arith) small
          ∙ read_end num ys stop)
