-- ===== src/Fisopfs/Handlers/Content/Bytes.antt =====
-- realloc and memcpy on the contents of a file, as fisopfs_write uses them.
use sistemas_operativos_fiub.Common.{
  ℕ, zero, suc, ◌+◌, ◌-◌, ◌≤◌, ◌≡◌, refl, ap, true, List, [], ◌∷◌, ◌++◌, arith, length, take, drop,
  length-append, length-take, length-drop, take-append,
}
use sistemas_operativos_fiub.Fisopfs.Handlers.Content.Defs.{
  bytes_sin_iniciar, realloc, copiar_en, copia_valida,
}

length-bytes_sin_iniciar : (basura : ℕ → ℕ) (i n : ℕ) → length (bytes_sin_iniciar basura i n) ≡ n
unfolding bytes_sin_iniciar
length-bytes_sin_iniciar basura i zero = refl
length-bytes_sin_iniciar basura i (suc n) = ap suc (length-bytes_sin_iniciar basura (suc i) n)

-- A block that only grows keeps its bytes; one that shrinks keeps the first ones.
length-take_min : (n : ℕ) (bytes : List ℕ) → length (take n bytes) + (n - length bytes) ≡ n
length-take_min zero bytes = omega arith
length-take_min (suc n) [] = omega arith
length-take_min (suc n) (b ∷ bytes) = omega (arith, length-take_min n bytes)

-- The block has the size that was asked for.
pub length-realloc : (basura : ℕ → ℕ) (bytes : List ℕ) (n : ℕ) → length (realloc basura bytes n) ≡ n
unfolding realloc
length-realloc basura bytes n = omega (
  arith,
  length-append (take n bytes) (bytes_sin_iniciar basura (length bytes) (n - length bytes)),
  length-bytes_sin_iniciar basura (length bytes) (n - length bytes),
  length-take_min n bytes,
)

drop-append_at : (n : ℕ) (xs ys : List ℕ) → length xs ≡ n → drop n (xs ++ ys) ≡ ys
drop-append_at zero [] ys e = refl
drop-append_at zero (x ∷ xs) ys e = absurd (omega arith)
drop-append_at (suc n) [] ys e = absurd (omega arith)
drop-append_at (suc n) (x ∷ xs) ys e = drop-append_at n xs ys (omega arith)

-- What is copied into a block is read back from it, and the size of the block stays.
pub take-drop-copiar_en :
    (bytes : List ℕ) (offset : ℕ) (buf : List ℕ)
    → copia_valida offset (length buf) (length bytes) ≡ true
    → take (length buf) (drop offset (copiar_en bytes offset buf)) ≡ buf
unfolding copiar_en
take-drop-copiar_en bytes offset [] h = refl
take-drop-copiar_en bytes offset (b ∷ buf) h =
    let fits : offset ≤ length bytes = ground arith in
    let e : length (take offset bytes) ≡ offset = length-take offset bytes fits in
    rw
      (drop-append_at offset (take offset bytes)
        ((b ∷ buf) ++ drop (offset + length (b ∷ buf)) bytes) e)
      (take-append (b ∷ buf) _)

pub length-copiar_en :
    (bytes : List ℕ) (offset : ℕ) (buf : List ℕ)
    → offset + length buf ≤ length bytes
    → length (copiar_en bytes offset buf) ≡ length bytes
unfolding copiar_en
length-copiar_en bytes offset buf h = omega (
  arith,
  length-append (take offset bytes) (buf ++ drop (offset + length buf) bytes),
  length-append buf (drop (offset + length buf) bytes),
  length-take offset bytes (omega arith),
  length-drop (offset + length buf) bytes,
)
