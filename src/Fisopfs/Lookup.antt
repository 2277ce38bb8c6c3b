-- ===== src/Fisopfs/Lookup.antt =====
-- encontrar_entrada_rec and encontrar_entrada of fisopfs/fisopfs.c. The pointer that they return
-- into the tree is the entry together with the tree around it.
pub mod Again
use sistemas_operativos_fiub.Common.{
  ℕ, Option, none, some, [], ◌∷◌, if◌then◌else◌, Texto, str_eq, drop,
}
use sistemas_operativos_fiub.Fisopfs.Paths.{barra, dividir_path_en_dos}
use sistemas_operativos_fiub.Fisopfs.Tree.{
  Cabecera, Entrada, vacia, archivo, directorio, invalida, Entradas, nil, cons, Fs,
}

-- `hallada e volver`: the entry, and what the whole becomes when `e'` stands in its place.
-- `ausente`: NULL, and the whole as the search left it. `colapso`: a read through an invalid
-- pointer.
pub data Busqueda (S : Type 0) : Type 0 where
  hallada : Entrada → (Entrada → S) → Busqueda S
  ausente : S → Busqueda S
  colapso : Busqueda S

abbrev pub dentro : {S T : Type 0} → (S → T) → Busqueda S → Busqueda T
dentro f (hallada e volver) = hallada e (λ e'. f (volver e'))
dentro f (ausente s) = ausente (f s)
dentro f colapso = colapso

abbrev pub tocar_atime : ℕ → Cabecera → Cabecera
tocar_atime t c = record c { st = record c.st { st_atime = t } }

-- The loop of encontrar_entrada_rec over the entries of a directory whose atime is set, with the
-- recursive call at a directory of that name.
unfoldable pub encontrar_en : ℕ → Texto → Option Texto → Entradas → Busqueda Entradas
encontrar_en t a resto nil = ausente nil
encontrar_en t a resto (cons vacia es) = dentro (cons vacia) (encontrar_en t a resto es)
encontrar_en t a resto (cons invalida es) = colapso
encontrar_en t a resto (cons (archivo f) es) =
    let siguientes = dentro (cons (archivo f)) (encontrar_en t a resto es) in
    if str_eq f.nombre a
    then elim resto [
      | some _ ↦ ausente (cons (archivo f) es)
      | none ↦ hallada (archivo f) (λ e. cons e es)
    ]
    else siguientes
encontrar_en t a resto (cons (directorio c hijos) es) =
    let siguientes = dentro (cons (directorio c hijos)) (encontrar_en t a resto es) in
    if str_eq c.nombre a
    then elim resto [
      | some r ↦
          dentro (λ hs. cons (directorio (tocar_atime t c) hs) es)
            (encontrar_en t (dividir_path_en_dos r).0 (dividir_path_en_dos r).1 hijos)
      | none ↦ hallada (directorio c hijos) (λ e. cons e es)
    ]
    else siguientes

unfoldable pub encontrar_entrada_rec : ℕ → Texto → Option Texto → Entrada → Busqueda Entrada
encontrar_entrada_rec t a resto (directorio c es) =
    dentro (directorio (tocar_atime t c)) (encontrar_en t a resto es)
encontrar_entrada_rec t a resto _ = colapso

abbrev pub con_raiz : Fs → Entrada → Fs
con_raiz fs e = record fs { raiz = e }

-- The paths that FUSE gives start with '/'. The empty path, of which the source reads what follows
-- the NUL, is not one of them: here it gives the empty name.
unfoldable pub encontrar_entrada : ℕ → Fs → Texto → Busqueda Fs
encontrar_entrada t fs path =
    if str_eq path (barra ∷ [])
    then hallada fs.raiz (con_raiz fs)
    else (let partes = dividir_path_en_dos (drop 1 path) in
        dentro (con_raiz fs) (encontrar_entrada_rec t partes.0 partes.1 fs.raiz))
