-- ===== src/Fisopfs/Handlers/Create.antt =====
-- crear_directorio_raiz, fisopfs_mkdir and fisopfs_create of fisopfs/fisopfs.c.
use Prim.Native.Nat.{bit_or}
use sistemas_operativos_fiub.Common.{
  ℕ, suc, ◌+◌, ◌/◌, ◌%◌, Bool, Option, none, some, ◌∷◌, [], ◌==◌, ltb, if◌then◌else◌, Texto,
}
use sistemas_operativos_fiub.Fisopfs.Paths.{
  barra, obtener_directorio_path, obtener_nombre_final_path,
}
use sistemas_operativos_fiub.Fisopfs.Tree.{
  Archivo, Cabecera, Entrada, archivo, directorio, Entradas, Fs, Codigo, menos, sin_signo, enoent,
  enomem, einval, enospc, exito, es_exito, Entorno, Plataforma, add64,
}
use sistemas_operativos_fiub.Fisopfs.Directory.{
  Dir, a_entrada, poner_en, Colocado, colocar_entrada_dentro_de_directorio, crear_dir,
  crear_archivo,
}
use sistemas_operativos_fiub.Fisopfs.Lookup.{Busqueda, hallada, ausente, colapso, encontrar_entrada}
use sistemas_operativos_fiub.Fisopfs.Outcome.{Salida, regresa, colapsa, path_largo, cabe_en_buffer}

-- __S_IFDIR, and the test S_ISREG.
abbrev pub s_ifdir : ℕ
s_ifdir = 16384

abbrev pub s_isreg : ℕ → Bool
s_isreg mode = (mode / 4096) % 16 == 8

-- The root at the first mount; `none` is `exit(EXIT_FAILURE)`.
unfoldable pub crear_directorio_raiz : Plataforma → Entorno → Option Fs
crear_directorio_raiz p env =
    elim ((crear_dir env (λ k. env.asigna (suc k)) (env.asigna 0) (barra ∷ [])
      (bit_or s_ifdir 493)).1) [
        | some d ↦ some (record {
          raiz = directorio (record d.cab { st = record d.cab.st { st_uid = 1717 } }) d.entradas;
          espacio_total_ocupado_fs = p.sizeof_fs + p.sizeof_directorio;
        })
        | none ↦ none
      ]

-- After colocar_entrada_dentro_de_directorio: the count of the space on success; on failure the
-- new entry is freed, also where it already stands in the directory.
unfoldable pub terminar_alta : ℕ → (Entrada → Fs) → Option Colocado → Salida Codigo
terminar_alta tam volver none = colapsa
terminar_alta tam volver (some k) =
    if es_exito k.codigo
    then (let fs = volver (a_entrada k.dir) in
        regresa exito
          (record fs { espacio_total_ocupado_fs = add64 fs.espacio_total_ocupado_fs tam }))
    else regresa k.codigo (elim k.lugar [
      | none ↦ volver (a_entrada k.dir)
      | some i ↦ volver (directorio k.dir.cab (poner_en i Entrada.invalida k.dir.entradas))
    ])

module _ (p : Plataforma) (env : Entorno) where
  -- What crear_dir gave is placed in the directory at hand. It has made at most six allocations
  -- after that of the struct.
  unfoldable pub colocar_dir :
      Cabecera → Entradas → (Entrada → Fs) → Codigo × Option Dir → Salida Codigo
  colocar_dir c es volver (r, none) = regresa r (volver (directorio c es))
  colocar_dir c es volver (r, some d) = terminar_alta p.sizeof_directorio volver (
      colocar_entrada_dentro_de_directorio (λ k. env.asigna (k + 7)) env.ahora
        (record { cab = c; entradas = es }) (some (a_entrada d)))

  -- The directory is at hand: malloc, crear_dir and colocar_entrada_dentro_de_directorio.
  unfoldable pub mkdir_dentro : Texto → ℕ → Cabecera → Entradas → (Entrada → Fs) → Salida Codigo
  mkdir_dentro nombre mode c es volver =
      colocar_dir c es volver
        (crear_dir env (λ k. env.asigna (suc k)) (env.asigna 0) nombre (bit_or s_ifdir mode))

  -- encontrar_entrada has returned; its null pointer is followed.
  unfoldable pub mkdir_en : Texto → ℕ → Busqueda Fs → Salida Codigo
  mkdir_en nombre mode (hallada (directorio c es) volver) = mkdir_dentro nombre mode c es volver
  mkdir_en nombre mode (hallada e volver) = regresa (menos enoent) (volver e)
  mkdir_en nombre mode (ausente fs) = colapsa
  mkdir_en nombre mode colapso = colapsa

  unfoldable pub fisopfs_mkdir : Fs → Texto → ℕ → Salida Codigo
  fisopfs_mkdir fs path mode =
      if path_largo path
      then regresa (menos einval) fs
      else if ltb p.max_espacio_fs (add64 fs.espacio_total_ocupado_fs p.sizeof_directorio)
      then regresa (menos enospc) fs
      else if cabe_en_buffer path
      then mkdir_en (obtener_nombre_final_path path) mode
          (encontrar_entrada env.ahora fs (obtener_directorio_path path))
      else colapsa

  unfoldable pub colocar_archivo :
      Cabecera → Entradas → (Entrada → Fs) → Codigo × Option Archivo → Salida Codigo
  colocar_archivo c es volver (r, none) = regresa r (volver (directorio c es))
  colocar_archivo c es volver (r, some f) = terminar_alta p.sizeof_archivo volver (
      colocar_entrada_dentro_de_directorio (λ k. env.asigna (suc k)) env.ahora
        (record { cab = c; entradas = es }) (some (archivo f)))

  unfoldable pub create_dentro : Texto → ℕ → Cabecera → Entradas → (Entrada → Fs) → Salida Codigo
  create_dentro nombre mode c es volver =
      if s_isreg mode
      then (if env.asigna 0
          then colocar_archivo c es volver (crear_archivo env nombre mode)
          else regresa (menos enomem) (volver (directorio c es)))
      else regresa (sin_signo enoent) (volver (directorio c es))

  unfoldable pub create_en : Texto → ℕ → Busqueda Fs → Salida Codigo
  create_en nombre mode (hallada (directorio c es) volver) = create_dentro nombre mode c es volver
  create_en nombre mode (hallada e volver) = regresa (menos enoent) (volver e)
  create_en nombre mode (ausente fs) = colapsa
  create_en nombre mode colapso = colapsa

  unfoldable pub fisopfs_create : Fs → Texto → ℕ → Salida Codigo
  fisopfs_create fs path mode =
      if path_largo path
      then regresa (menos einval) fs
      else if ltb p.max_espacio_fs (add64 fs.espacio_total_ocupado_fs p.sizeof_archivo)
      then regresa (menos enospc) fs
      else if cabe_en_buffer path
      then create_en (obtener_nombre_final_path path) mode
          (encontrar_entrada env.ahora fs (obtener_directorio_path path))
      else colapsa
