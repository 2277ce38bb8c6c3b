-- ===== src/Fisopfs/Handlers/Attributes.antt =====
-- fisopfs_getattr, fisopfs_readdir and fisopfs_utimens of fisopfs/fisopfs.c, and
-- llenar_stat_entrada of fisopfs/entrada.c.
use sistemas_operativos_fiub.Common.{ℕ, Option, none, some, List, [], ◌∷◌, if◌then◌else◌, Texto}
use sistemas_operativos_fiub.Fisopfs.Paths.{punto}
use sistemas_operativos_fiub.Fisopfs.Tree.{
  Stat, Entrada, vacia, archivo, directorio, invalida, Entradas, nil, cons, Fs, Codigo, menos,
  sin_signo, enoent, einval, exito, Entorno,
}
use sistemas_operativos_fiub.Fisopfs.Lookup.{
  Busqueda, hallada, ausente, colapso, encontrar_entrada, tocar_atime,
}
use sistemas_operativos_fiub.Fisopfs.Outcome.{Salida, regresa, colapsa, path_largo}

-- llenar_stat_entrada; an empty or invalid slot has no stat to read.
abbrev pub llenar_stat_entrada : Entrada → Option Stat
llenar_stat_entrada (archivo f) = some f.st
llenar_stat_entrada (directorio c es) = some c.st
llenar_stat_entrada _ = none

-- `st` is written on success only.
unfoldable pub getattr_en : Busqueda Fs → Salida (Codigo × Option Stat)
getattr_en (hallada e volver) = regresa (exito, llenar_stat_entrada e) (volver e)
getattr_en (ausente fs) = regresa (menos enoent, none) fs
getattr_en colapso = colapsa

unfoldable pub fisopfs_getattr : Entorno → Fs → Texto → Salida (Codigo × Option Stat)
fisopfs_getattr env fs path =
    if path_largo path
    then regresa (menos einval, none) fs
    else getattr_en (encontrar_entrada env.ahora fs path)

-- The names handed to `filler` by the loop; `none` is a read through an invalid pointer.
unfoldable pub nombres : Entradas → Option (List Texto)
nombres nil = some []
nombres (cons vacia es) = nombres es
nombres (cons (archivo f) es) = elim (nombres es) [ none ↦ none | some ns ↦ some (f.nombre ∷ ns) ]
nombres (cons (directorio c hijos) es) = elim (nombres es) [
  | none ↦ none
  | some ns ↦ some (c.nombre ∷ ns)
]
nombres (cons invalida es) = none

abbrev pub puntos : List Texto
puntos = (punto ∷ []) ∷ (punto ∷ punto ∷ []) ∷ []

-- encontrar_entrada has returned; its null pointer is followed.
unfoldable pub readdir_en : Entorno → Busqueda Fs → Salida (Codigo × List Texto)
readdir_en env (hallada (directorio c es) volver) = elim (nombres es) [
  | none ↦ colapsa
  | some ns ↦
      regresa (exito, (punto ∷ []) ∷ (punto ∷ punto ∷ []) ∷ ns)
        (volver (directorio (tocar_atime env.ahora c) es))
]
readdir_en env (hallada e volver) = regresa (menos enoent, puntos) (volver e)
readdir_en env (ausente fs) = colapsa
readdir_en env colapso = colapsa

unfoldable pub fisopfs_readdir : Entorno → Fs → Texto → Salida (Codigo × List Texto)
fisopfs_readdir env fs path =
    if path_largo path
    then regresa (menos einval, []) fs
    else readdir_en env (encontrar_entrada env.ahora fs path)

-- Both times are ts[0].tv_sec.
abbrev pub con_tiempos : ℕ → Stat → Stat
con_tiempos t st = record st { st_atime = t; st_mtime = t }

abbrev pub poner_tiempos : ℕ → Entrada → Entrada
poner_tiempos t (archivo f) = archivo (record f { st = con_tiempos t f.st })
poner_tiempos t (directorio c es) = directorio (record c { st = con_tiempos t c.st }) es
poner_tiempos t e = e

unfoldable pub utimens_en : ℕ → Busqueda Fs → Salida Codigo
utimens_en t (hallada e volver) = regresa exito (volver (poner_tiempos t e))
utimens_en t (ausente fs) = regresa (sin_signo enoent) fs
utimens_en t colapso = colapsa

-- `ts0` and `ts1` are the seconds of the two times.
unfoldable pub fisopfs_utimens : Entorno → Fs → Texto → ℕ → ℕ → Salida Codigo
fisopfs_utimens env fs path ts0 ts1 =
    if path_largo path
    then regresa (menos einval) fs
    else utimens_en ts0 (encontrar_entrada env.ahora fs path)
