-- ===== src/Fisopfs/Handlers/Remove.antt =====
-- fisopfs_unlink and fisopfs_rmdir of fisopfs/fisopfs.c, with liberar_dir of
-- fisopfs/entrada_directorio.c.
use sistemas_operativos_fiub.Common.{ℕ, Bool, true, false, not, ◌&&◌, if◌then◌else◌, Texto, str_eq}
use sistemas_operativos_fiub.Fisopfs.Paths.{obtener_directorio_path, obtener_nombre_final_path}
use sistemas_operativos_fiub.Fisopfs.Tree.{
  Cabecera, Entrada, vacia, archivo, directorio, invalida, Entradas, nil, cons, Fs, Codigo, menos,
  sin_signo, enoent, enomem, einval, eperm, exito, Entorno, Plataforma, sub64,
}
use sistemas_operativos_fiub.Fisopfs.Directory.{tocar_todo, esta_vacio_directorio}
use sistemas_operativos_fiub.Fisopfs.Lookup.{Busqueda, hallada, ausente, colapso, encontrar_entrada}
use sistemas_operativos_fiub.Fisopfs.Outcome.{Salida, regresa, colapsa, path_largo, cabe_en_buffer}

-- liberar_dir releases every block of the tree below; what it can do wrong is to follow an
-- invalid pointer, and this is `true` when it does not.
unfoldable mutual
  pub liberar_entrada : Entrada → Bool
  liberar_entrada vacia = true
  liberar_entrada (archivo f) = true
  liberar_entrada (directorio c es) = liberar_dir es
  liberar_entrada invalida = false

  pub liberar_dir : Entradas → Bool
  liberar_dir nil = true
  liberar_dir (cons e es) = liberar_entrada e && liberar_dir es

-- How the loop over the entries of the directory ends.
pub data Baja : Type 0 where
  borrada : Entradas → Baja
  no_vacio : Baja
  sin_memoria : Baja
  no_esta : Baja
  ilegible : Baja

abbrev pub baja_tras : Entrada → Baja → Baja
baja_tras e (borrada es) = borrada (cons e es)
baja_tras e b = b

-- The slot of the first file of that name becomes a fresh empty entry, if its malloc succeeds.
unfoldable pub quitar_archivo : Bool → Texto → Entradas → Baja
quitar_archivo hay_memoria a nil = no_esta
quitar_archivo hay_memoria a (cons invalida es) = ilegible
quitar_archivo hay_memoria a (cons (archivo f) es) =
    let siguientes = baja_tras (archivo f) (quitar_archivo hay_memoria a es) in
    if str_eq f.nombre a
    then (if hay_memoria then borrada (cons vacia es) else sin_memoria)
    else siguientes
quitar_archivo hay_memoria a (cons e es) = baja_tras e (quitar_archivo hay_memoria a es)

unfoldable pub quitar_directorio : Bool → Texto → Entradas → Baja
quitar_directorio hay_memoria a nil = no_esta
quitar_directorio hay_memoria a (cons invalida es) = ilegible
quitar_directorio hay_memoria a (cons (directorio c hijos) es) =
    let siguientes = baja_tras (directorio c hijos) (quitar_directorio hay_memoria a es) in
    if str_eq c.nombre a
    then (if not (esta_vacio_directorio c)
        then no_vacio
        else if not hay_memoria
        then sin_memoria
        else if liberar_dir hijos
        then borrada (cons vacia es)
        else ilegible)
    else siguientes
quitar_directorio hay_memoria a (cons e es) = baja_tras e (quitar_directorio hay_memoria a es)

abbrev pub una_ocupada_menos : ℕ → Cabecera → Cabecera
una_ocupada_menos t c = record c {
  st = tocar_todo t c.st;
  cantidad_entradas_ocupadas = sub64 c.cantidad_entradas_ocupadas 1;
}

-- The end of both handlers: the directory and the space counter after a removal, the return
-- codes otherwise. A missing name gives ENOENT with no sign.
unfoldable pub terminar_baja :
    Entorno → ℕ → Cabecera → Entradas → (Entrada → Fs) → Baja → Salida Codigo
terminar_baja env tam c es volver (borrada es') =
    let fs = volver (directorio (una_ocupada_menos env.ahora c) es') in
    regresa exito (record fs { espacio_total_ocupado_fs = sub64 fs.espacio_total_ocupado_fs tam })
terminar_baja env tam c es volver no_vacio = regresa (menos eperm) (volver (directorio c es))
terminar_baja env tam c es volver sin_memoria = regresa (menos enomem) (volver (directorio c es))
terminar_baja env tam c es volver no_esta = regresa (sin_signo enoent) (volver (directorio c es))
terminar_baja env tam c es volver ilegible = colapsa

module _ (p : Plataforma) (env : Entorno) where
  unfoldable pub unlink_en : Texto → Busqueda Fs → Salida Codigo
  unlink_en a (hallada (directorio c es) volver) =
      terminar_baja env p.sizeof_archivo c es volver (quitar_archivo (env.asigna 0) a es)
  unlink_en a (hallada e volver) = regresa (menos enoent) (volver e)
  unlink_en a (ausente fs) = colapsa
  unlink_en a colapso = colapsa

  unfoldable pub fisopfs_unlink : Fs → Texto → Salida Codigo
  fisopfs_unlink fs path =
      if path_largo path
      then regresa (menos einval) fs
      else if cabe_en_buffer path
      then unlink_en (obtener_nombre_final_path path)
          (encontrar_entrada env.ahora fs (obtener_directorio_path path))
      else colapsa

  unfoldable pub rmdir_en : Texto → Busqueda Fs → Salida Codigo
  rmdir_en a (hallada (directorio c es) volver) =
      terminar_baja env p.sizeof_directorio c es volver (quitar_directorio (env.asigna 0) a es)
  rmdir_en a (hallada e volver) = regresa (menos enoent) (volver e)
  rmdir_en a (ausente fs) = colapsa
  rmdir_en a colapso = colapsa

  unfoldable pub fisopfs_rmdir : Fs → Texto → Salida Codigo
  fisopfs_rmdir fs path =
      if path_largo path
      then regresa (menos einval) fs
      else if cabe_en_buffer path
      then rmdir_en (obtener_nombre_final_path path)
          (encontrar_entrada env.ahora fs (obtener_directorio_path path))
      else colapsa
