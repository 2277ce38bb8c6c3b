-- ===== src/Fisopfs/Paths/Laws.antt =====
-- The path functions of fisopfs/utilidades.c against joining with '/'.
use native.Mathlib.Numerals.{add-one}
use sistemas_operativos_fiub.Common.{
  ℕ, zero, suc, ◌+◌, ◌≤◌, ◌<◌, ◌≡◌, refl, ap, true, false, none, some, [], ◌∷◌, ◌++◌, arith, ◌==◌,
  length, get_or, drop, Texto, has_char, strchr, strchr-append, strrchr-append, length-append,
  take-append, Bool-cases, inl, inr,
}
use sistemas_operativos_fiub.Fisopfs.Paths.{
  barra, buscar_barra, obtener_directorio_path, obtener_nombre_final_path, dividir_path_en_dos,
}

drop-suc-append : (xs ys : Texto) (c : ℕ) → drop (length xs + 1) (xs ++ c ∷ ys) ≡ ys
drop-suc-append [] ys c = refl
drop-suc-append (x ∷ xs) ys c = rw (add-one, drop) (rw add-one at (drop-suc-append xs ys c))

strchr-eq-none : (xs : Texto) (c : ℕ) → has_char xs c ≡ false → strchr xs c ≡ none
unfolding strchr has_char
strchr-eq-none [] c h = refl
strchr-eq-none (x ∷ xs) c h = ground (arith, strchr-eq-none xs c)

-- dividir_path_en_dos of "p/r" gives p and r, when p has no '/'.
pub dividir-join :
    (p r : Texto) → has_char p barra ≡ false → dividir_path_en_dos (p ++ barra ∷ r) ≡ (p, some r)
unfolding dividir_path_en_dos
dividir-join p r h =
    rw (strchr-append p r barra h, dividir_path_en_dos, take-append, drop-suc-append)

pub dividir_whole : (p : Texto) → has_char p barra ≡ false → dividir_path_en_dos p ≡ (p, none)
unfolding dividir_path_en_dos
dividir_whole p h = rw (strchr-eq-none p barra h, dividir_path_en_dos)

-- Every text with a '/' splits at its last one.
pub record LastSplit (path : Texto) : Type 0 where
  pub dir : Texto
  pub name : Texto
  pub joined : path ≡ dir ++ barra ∷ name
  pub plain : has_char name barra ≡ false

LastSplit-cons : (x : ℕ) (xs : Texto) → LastSplit xs → LastSplit (x ∷ xs)
LastSplit-cons x xs s = record {
  dir = x ∷ s.dir;
  name = s.name;
  joined = ap (λ t. x ∷ t) s.joined;
  plain = s.plain;
}

pub last_split : (path : Texto) → has_char path barra ≡ true → LastSplit path
unfolding has_char
last_split [] h = absurd (ground arith)
last_split (x ∷ xs) h = elim (Bool-cases (has_char xs barra)) [
  | inl later ↦ LastSplit-cons x xs (last_split xs later)
  | inr plain ↦
      let e : x ≡ barra = ground arith in
      record { dir = []; name = xs; joined = ap (λ c. c ∷ xs) e; plain = plain }
]

-- The loop of obtener_parte_directorio stops at the last '/'.
get_or_plain :
    (ys : Texto) (k : ℕ)
    → has_char ys barra ≡ false
    → k < length ys
    → (get_or ys k 0 == barra) ≡ false
unfolding has_char
get_or_plain [] k h lt = elim lt [ ]
get_or_plain (y ∷ ys) zero h lt = ground arith
get_or_plain (y ∷ ys) (suc k) h lt = get_or_plain ys k (ground arith) (omega arith)

get_or-append_at : (xs ys : Texto) (c : ℕ) → get_or (xs ++ c ∷ ys) (length xs) 0 ≡ c
get_or-append_at [] ys c = refl
get_or-append_at (x ∷ xs) ys c = get_or-append_at xs ys c

get_or-append_plain :
    (xs ys : Texto) (c i k : ℕ)
    → has_char ys barra ≡ false
    → i ≡ length xs + suc k
    → k < length ys
    → (get_or (xs ++ c ∷ ys) i 0 == barra) ≡ false
get_or-append_plain xs ys c zero k h e lt = absurd (omega arith)
get_or-append_plain [] ys c (suc i) k h e lt =
    let q : i ≡ k = omega arith in rw q (get_or_plain ys k h lt)
get_or-append_plain (x ∷ xs) ys c (suc i) k h e lt =
    get_or-append_plain xs ys c i k h (omega arith) lt

buscar_barra-append :
    (xs ys : Texto) (i k : ℕ)
    → has_char ys barra ≡ false
    → i ≡ length xs + k
    → k ≤ length ys
    → buscar_barra (xs ++ barra ∷ ys) (suc i) ≡ some (length xs)
unfolding buscar_barra
buscar_barra-append xs ys i zero h e le =
    let q : i ≡ length xs = omega arith in rw q (ground (arith, get_or-append_at xs ys barra))
buscar_barra-append xs ys zero (suc k) h e le = absurd (omega arith)
buscar_barra-append xs ys (suc i) (suc k) h e le = ground (
  arith,
  get_or-append_plain xs ys barra (suc i) k h (omega arith) (omega arith),
  buscar_barra-append xs ys i k h (omega arith) (omega arith),
)

buscar_barra-join :
    (xs ys : Texto)
    → has_char ys barra ≡ false
    → buscar_barra (xs ++ barra ∷ ys) (length (xs ++ barra ∷ ys)) ≡ some (length xs)
buscar_barra-join xs ys h = rw (length-append xs (barra ∷ ys)) (
    let e : length xs + suc (length ys) ≡ suc (length xs + length ys) = omega arith in
    rw e (buscar_barra-append xs ys _ (length ys) h refl (omega arith)))

-- The directory part of "d/n" is d, when d is not empty and n has no '/'.
pub parte_directorio-join :
    (c : ℕ) (d n : Texto)
    → has_char n barra ≡ false
    → obtener_directorio_path ((c ∷ d) ++ barra ∷ n) ≡ c ∷ d
unfolding obtener_directorio_path
parte_directorio-join c d n h =
    rw (buscar_barra-join (c ∷ d) n h)
      (ground (arith, take-append d (barra ∷ n), length-append d (barra ∷ n)))

-- The directory part of "/n" is "/".
pub parte_directorio-root :
    (n : Texto) → has_char n barra ≡ false → obtener_directorio_path (barra ∷ n) ≡ barra ∷ []
unfolding obtener_directorio_path
parte_directorio-root [] h = refl
parte_directorio-root (x ∷ n) h = rw (buscar_barra-join [] (x ∷ n) h, buscar_barra) (ground arith)

-- The last name of "d/n" is n, when n has no '/'.
pub nombre_final-join :
    (d n : Texto) → has_char n barra ≡ false → obtener_nombre_final_path (d ++ barra ∷ n) ≡ n
unfolding obtener_nombre_final_path
nombre_final-join d n h =
    rw (strrchr-append d n barra h, obtener_nombre_final_path) (drop-suc-append d n barra)
