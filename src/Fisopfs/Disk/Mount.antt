-- ===== src/Fisopfs/Disk/Mount.antt =====
-- fisopfs_init, fisopfs_flush and fisopfs_destroy of fisopfs/fisopfs.c.
use sistemas_operativos_fiub.Common.{
  ℕ, Bool, Option, none, some, List, [], ◌∷◌, if◌then◌else◌, Texto,
}
use sistemas_operativos_fiub.Fisopfs.Paths.{barra}
use sistemas_operativos_fiub.Fisopfs.Tree.{
  Entrada, Fs, Codigo, menos, menos_uno, einval, eio, Entorno, Plataforma,
}
use sistemas_operativos_fiub.Fisopfs.Outcome.{path_largo}
use sistemas_operativos_fiub.Fisopfs.Handlers.Create.{crear_directorio_raiz}
use sistemas_operativos_fiub.Fisopfs.Handlers.Remove.{liberar_entrada}
use sistemas_operativos_fiub.Fisopfs.Disk.Write.{Registro, r_fs, Disco, fwrite, escribir_entrada}
use sistemas_operativos_fiub.Fisopfs.Disk.Read.{
  Lectura, leido, nulo, ilegible, sin_pasos, crear_directorio_desde_archivo,
}

-- `termina` is exit(EXIT_FAILURE).
pub data Arranque : Type 0 where
  montado : Fs → Arranque
  termina : Arranque
  falla : Arranque
  agotado : Arranque

abbrev pub montar : ℕ → Lectura Entrada → Arranque
montar espacio (leido e k rs) = montado (record { raiz = e; espacio_total_ocupado_fs = espacio })
montar espacio nulo = termina
montar espacio ilegible = falla
montar espacio sin_pasos = agotado

-- The persistence file, if it could be opened.
unfoldable pub fisopfs_init : Plataforma → Entorno → Option (List Registro) → Arranque
fisopfs_init p env none = elim (crear_directorio_raiz p env) [
  | none ↦ termina
  | some fs ↦ montado fs
]
fisopfs_init p env (some (r_fs espacio ∷ rs)) =
    montar espacio (crear_directorio_desde_archivo env.asigna 0 rs)
fisopfs_init p env (some _) = termina

-- The result of a flush, and the persistence file after it, if it was opened. As a whole `none`
-- is undefined behaviour.
pub record Volcado : Type 0 where
  pub codigo : Codigo
  pub persistencia : Option (List Registro)

abbrev pub disco_vacio : Disco
disco_vacio = record { intentos = 0; registros = [] }

-- The end of a flush: the file is closed whatever the result.
abbrev pub cerrar : Option (Codigo × Disco) → Option Volcado
cerrar none = none
cerrar (some (r, k)) = some (record { codigo = r; persistencia = some k.registros })

-- `abre`: fopen succeeds. `escribe k`: so does the k-th fwrite.
unfoldable pub fisopfs_flush : Bool → (ℕ → Bool) → Fs → Texto → Option Volcado
fisopfs_flush abre escribe fs path =
    if path_largo path
    then some (record { codigo = menos einval; persistencia = none })
    else if abre
    then (let (bien, k) = fwrite escribe (r_fs fs.espacio_total_ocupado_fs) disco_vacio in
        if bien
        then cerrar (escribir_entrada escribe fs.raiz k)
        else some (record { codigo = menos eio; persistencia = some k.registros }))
    else some (record { codigo = menos_uno; persistencia = none })

-- The file that the unmount leaves; the tree is released afterwards.
unfoldable pub fisopfs_destroy : Bool → (ℕ → Bool) → Fs → Option (Option (List Registro))
fisopfs_destroy abre escribe fs = elim (fisopfs_flush abre escribe fs (barra ∷ [])) [
  | none ↦ none
  | some v ↦ if liberar_entrada fs.raiz then some v.persistencia else none
]
