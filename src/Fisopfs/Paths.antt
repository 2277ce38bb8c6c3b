-- ===== src/Fisopfs/Paths.antt =====
-- fisopfs/utilidades.c: the path functions, over C strings as lists of bytes. A path is cut in
-- place by storing a NUL, which here is a shorter list.
pub mod Laws
use sistemas_operativos_fiub.Common.{
  ℕ, zero, suc, ◌+◌, ◌&&◌, Bool, true, false, Option, none, some, List, [], ◌∷◌, ◌==◌,
  if◌then◌else◌, length, get_or, take, drop, Texto, strchr, strrchr,
}

-- '/' and '.'
abbrev pub barra : ℕ
barra = 47

abbrev pub punto : ℕ
punto = 46

-- The `for` loop of obtener_parte_directorio, entered with i = n - 1 and left with the index of
-- a '/' or with i = -1 (`none`).
unfoldable pub buscar_barra : Texto → ℕ → Option ℕ
buscar_barra path zero = none
buscar_barra path (suc i) =
    let rest = buscar_barra path i in if get_or path i 0 == barra then some i else rest

unfoldable pub obtener_parte_directorio : Texto → Texto
unfolding buscar_barra
obtener_parte_directorio path =
    if length path == 0
    then punto ∷ []
    else if (get_or path 0 0 == barra) && (length path == 1)
    then path
    else elim (buscar_barra path (length path)) [
      | some i ↦ if i == 0 then take 1 path else take i path
      | none ↦ punto ∷ []
    ]

unfoldable pub obtener_directorio_path : Texto → Texto
unfolding obtener_parte_directorio
obtener_directorio_path path = obtener_parte_directorio path

unfoldable pub obtener_nombre_final_path : Texto → Texto
unfolding strrchr
obtener_nombre_final_path path = elim (strrchr path barra) [
  | some i ↦ drop (i + 1) path
  | none ↦ path
]

-- primera_parte and segunda_parte, which is NULL when there is no '/'.
unfoldable pub dividir_path_en_dos : Texto → Texto × Option Texto
unfolding strchr
dividir_path_en_dos cadena = elim (strchr cadena barra) [
  | some n ↦ (take n cadena, some (drop (n + 1) cadena))
  | none ↦ (cadena, none)
]
