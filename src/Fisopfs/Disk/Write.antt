-- ===== src/Fisopfs/Disk/Write.antt =====
-- escribir_directorio_en_archivo and escribir_entrada_archivo_en_archivo.
use sistemas_operativos_fiub.Common.{
  ℕ, suc, Bool, true, false, Option, none, some, List, [], ◌∷◌, ◌++◌, ◌==◌, leb, if◌then◌else◌,
  length, take, Texto,
}
use sistemas_operativos_fiub.Fisopfs.Tree.{
  Stat, Cabecera, Archivo, Entrada, vacia, archivo, directorio, invalida, Entradas, nil, cons,
  cantidad_entradas, Codigo, menos, eio, exito, es_exito,
}

-- One block of the file: fisopfs_fs_t, entrada_directorio_t with its cantidad_entradas,
-- entrada_archivo_t, or the contents of a file. The pointers in them are not read back.
pub data Registro : Type 0 where
  r_fs : ℕ → Registro
  r_directorio : Cabecera → ℕ → Registro
  r_archivo : Texto → Stat → Registro
  r_datos : List ℕ → Registro

-- The calls of fwrite so far and what is in the file.
pub record Disco : Type 0 where
  pub intentos : ℕ
  pub registros : List Registro

-- `escribe k` says whether the k-th fwrite succeeds.
unfoldable pub fwrite : (ℕ → Bool) → Registro → Disco → Bool × Disco
fwrite escribe r k =
    if escribe k.intentos
    then (true, record { intentos = suc k.intentos; registros = k.registros ++ r ∷ [] })
    else (false, record k { intentos = suc k.intentos })

-- Nothing is written for an empty file, and the result of the second fwrite is dropped. `none`
-- is a read outside the contents or through an invalid pointer.
unfoldable pub escribir_entrada_archivo_en_archivo :
    (ℕ → Bool) → Archivo → Disco → Option (Codigo × Disco)
escribir_entrada_archivo_en_archivo escribe f k =
    let (bien, k1) = fwrite escribe (r_archivo f.nombre f.st) k in
    if bien
    then (if f.st.st_size == 0
        then some (exito, k1)
        else if leb f.st.st_size (length f.contenido)
        then some (exito, (fwrite escribe (r_datos (take f.st.st_size f.contenido)) k1).1)
        else none)
    else some (menos eio, k1)

-- The loop goes on to the next entry, or returns the error.
abbrev pub continuar :
    (Disco → Option (Codigo × Disco)) → Option (Codigo × Disco) → Option (Codigo × Disco)
continuar siguientes none = none
continuar siguientes (some (r, k)) =
    let rest = siguientes k in if es_exito r then rest else some (r, k)

unfoldable mutual
  unfolding fwrite escribir_entrada_archivo_en_archivo

  pub escribir_entrada : (ℕ → Bool) → Entrada → Disco → Option (Codigo × Disco)
  escribir_entrada escribe vacia k = some (exito, k)
  escribir_entrada escribe (archivo f) k = escribir_entrada_archivo_en_archivo escribe f k
  escribir_entrada escribe (directorio c es) k =
      let (bien, k1) = fwrite escribe (r_directorio c (cantidad_entradas es)) k in
      let resto = escribir_entradas escribe es k1 in if bien then resto else some (menos eio, k1)
  escribir_entrada escribe invalida k = none

  pub escribir_entradas : (ℕ → Bool) → Entradas → Disco → Option (Codigo × Disco)
  escribir_entradas escribe nil k = some (exito, k)
  escribir_entradas escribe (cons e es) k =
      continuar (escribir_entradas escribe es) (escribir_entrada escribe e k)
