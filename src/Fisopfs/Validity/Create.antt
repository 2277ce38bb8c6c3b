-- ===== src/Fisopfs/Validity/Create.antt =====
-- fisopfs_mkdir and fisopfs_create keep the state well formed while allocations succeed.
use Prim.Native.Nat.{bit_or}
use sistemas_operativos_fiub.Common.{
  ℕ, suc, ◌+◌, ◌^◌, if_split, ◌≤◌, ◌<◌, ◌≡◌, refl, ap, Bool, true, false, none, some, ◌⊎◌, inl, inr,
  arith, ltb, length, if◌then◌else◌, if_both, Bool-cases, Texto,
}
use sistemas_operativos_fiub.Fisopfs.Paths.{obtener_directorio_path}
use sistemas_operativos_fiub.Fisopfs.Tree.{
  Cabecera, Entrada, vacia, archivo, directorio, invalida, Entradas, nil, cantidad_entradas, Fs,
  Codigo, exito, es_exito, menos, einval, enospc, Entorno, Plataforma, add64, maximo_path,
}
use sistemas_operativos_fiub.Fisopfs.Directory.{
  Dir, a_entrada, colocar_entrada_dentro_de_directorio, crear_dir, crear_archivo, stat_nuevo,
  expandir_entradas_dir,
}
use sistemas_operativos_fiub.Fisopfs.Directory.Growth.{expandir_entradas_dir-EsValida}
use sistemas_operativos_fiub.Fisopfs.Directory.Placement.{Alta, colocar-Alta}
use sistemas_operativos_fiub.Fisopfs.Lookup.{Busqueda, hallada, ausente, colapso, encontrar_entrada}
use sistemas_operativos_fiub.Fisopfs.Outcome.{Salida, regresa, colapsa, path_largo, cabe_en_buffer}
use sistemas_operativos_fiub.Fisopfs.Handlers.Create.{
  s_ifdir, s_isreg, terminar_alta, colocar_dir, colocar_archivo, mkdir_dentro, mkdir_en,
  fisopfs_mkdir, create_dentro, create_en, fisopfs_create,
}
use sistemas_operativos_fiub.Fisopfs.Validity.{
  EsValida, EsValido, EsPlataforma, ocupa, ocupadas, uso,
}
use sistemas_operativos_fiub.Fisopfs.Validity.Search.{Vale, ValeFs, uso_fs, encontrar_entrada-Vale}
use sistemas_operativos_fiub.Fisopfs.Validity.Keeps.{
  Cumple, Cumple-weaken, Crece, Crece-refl, EsAusente, HalladaEn, cambio-Mantiene, quieto-Crece,
}

module _ (p : Plataforma) (env : Entorno) (fs : Fs) (valido : EsValido p fs)
    (plataforma : EsPlataforma p) (memoria : (k : ℕ) → env.asigna k ≡ true) where
  -- The end of both handlers, in the directory that the search found.
  alta-Cumple :
      (c : Cabecera) (es : Entradas) (volver : Entrada → Fs) (nueva : Entrada) (tam : ℕ)
      (asigna : ℕ → Bool)
      → HalladaEn p fs valido (directorio c es) volver
      → EsValida nueva
      → ocupa nueva ≡ 1
      → uso p nueva ≡ tam
      → fs.espacio_total_ocupado_fs + tam ≤ p.max_espacio_fs
      → ((k : ℕ) → asigna k ≡ true)
      → Cumple (Crece p fs tam) ⊥ (
          terminar_alta tam volver (
            colocar_entrada_dentro_de_directorio asigna env.ahora
              (record { cab = c; entradas = es })
              (some nueva)))
  unfolding terminar_alta
  alta-Cumple c es volver nueva tam asigna h v o size fits m =
      let a : Alta p nueva v o asigna env.ahora c es =
        colocar-Alta p nueva v o asigna env.ahora c es m h.valida in
      rw (a.coloca) (
        (cambio-Mantiene p fs valido (directorio c es) volver h (a_entrada a.dir) _ a.valido tt
            (omega (
              arith,
              (h.cambio (a_entrada a.dir) a.valido tt).2,
              a.uso_alta,
              size,
              fits,
              plataforma.maximo,
            ))
            (omega
              (arith, (h.cambio (a_entrada a.dir) a.valido tt).2, size, fits, plataforma.maximo))),
        omega (arith, h.uso_cambio (a_entrada a.dir) tt, a.uso_alta, size),
      )

  -- A new directory, when crear_dir gives one.
  record DirNuevo (asigna : ℕ → Bool) (nombre : Texto) (mode : ℕ) : Type 0 where
    dir : Dir
    crea : crear_dir env asigna true nombre mode ≡ (exito, some dir)
    valida : EsValida (a_entrada dir)
    uso_nuevo : uso p (a_entrada dir) ≡ p.sizeof_directorio

  crear_dir-DirNuevo :
      (asigna : ℕ → Bool) (nombre : Texto) (mode : ℕ)
      → ((k : ℕ) → asigna k ≡ true)
      → ltb (length nombre) maximo_path ≡ true
      → DirNuevo asigna nombre mode
  unfolding crear_dir uso ocupadas cantidad_entradas
  crear_dir-DirNuevo asigna nombre mode m short =
      let d : Dir = record {
        cab = record { nombre = nombre; st = stat_nuevo env mode; cantidad_entradas_ocupadas = 0 };
        entradas = nil;
      } in
      let x = expandir_entradas_dir-EsValida p asigna d m refl (omega arith) tt in
      record {
        dir = (expandir_entradas_dir asigna d).1;
        crea = rw short (
            ap (λ r. (r, if es_exito r then some (expandir_entradas_dir asigna d).1 else none))
              (x.0));
        valida = x.1;
        uso_nuevo = omega (arith, x.2);
      }

  crear_dir_long :
      (asigna : ℕ → Bool) (nombre : Texto) (mode : ℕ)
      → ltb (length nombre) maximo_path ≡ false
      → crear_dir env asigna true nombre mode ≡ (menos einval, none)
  unfolding crear_dir
  crear_dir_long asigna nombre mode long = rw long

  mkdir_dentro-Cumple :
      (nombre : Texto) (mode : ℕ) (c : Cabecera) (es : Entradas) (volver : Entrada → Fs)
      → HalladaEn p fs valido (directorio c es) volver
      → fs.espacio_total_ocupado_fs + p.sizeof_directorio ≤ p.max_espacio_fs
      → Cumple (Crece p fs p.sizeof_directorio) ⊥ (mkdir_dentro p env nombre mode c es volver)
  unfolding mkdir_dentro colocar_dir
  mkdir_dentro-Cumple nombre mode c es volver h fits =
      rw (memoria 0) (elim (Bool-cases (ltb (length nombre) maximo_path)) [
        | inl short ↦
            let n =
              crear_dir-DirNuevo (λ k. env.asigna (suc k)) nombre (bit_or s_ifdir mode)
                (λ k. memoria (suc k)) short in
            rw (n.crea) (
              alta-Cumple c es volver (a_entrada n.dir) p.sizeof_directorio
                (λ k. env.asigna (k + 7)) h n.valida refl n.uso_nuevo fits (λ k. memoria (k + 7)))
        | inr long ↦
            rw (crear_dir_long (λ k. env.asigna (suc k)) nombre _ long)
              (quieto-Crece p fs valido (directorio c es) volver h)
      ])

  mkdir_en-Cumple :
      (nombre : Texto) (mode : ℕ) (b : Busqueda Fs)
      → Vale p (ValeFs p fs) (uso_fs p) (uso p fs.raiz) b
      → fs.espacio_total_ocupado_fs + p.sizeof_directorio ≤ p.max_espacio_fs
      → Cumple (Crece p fs p.sizeof_directorio) (EsAusente b) (mkdir_en p env nombre mode b)
  unfolding mkdir_en
  mkdir_en-Cumple nombre mode (hallada (directorio c es) volver) h fits =
      mkdir_dentro-Cumple nombre mode c es volver h fits
  mkdir_en-Cumple nombre mode (hallada vacia volver) h fits = quieto-Crece p fs valido _ volver h
  mkdir_en-Cumple nombre mode (hallada (archivo f) volver) h fits =
      quieto-Crece p fs valido _ volver h
  mkdir_en-Cumple nombre mode (hallada invalida volver) h fits = quieto-Crece p fs valido _ volver h
  mkdir_en-Cumple nombre mode (ausente fs') h fits = tt
  mkdir_en-Cumple nombre mode colapso h fits = h

  -- The check of the space before the search, without wrap-around.
  room_of_check :
      (tam : ℕ)
      → tam < 2 ^ 63
      → ltb p.max_espacio_fs (add64 fs.espacio_total_ocupado_fs tam) ≡ false
      → fs.espacio_total_ocupado_fs + tam ≤ p.max_espacio_fs
  room_of_check tam small h = ground (arith, valido.dentro_del_maximo, plataforma.maximo)

  -- fisopfs_mkdir breaks down only where its path overflows the buffers or names a directory
  -- that is not there.
  abbrev pub SinPadre : Texto → Type 0
  SinPadre path =
      (cabe_en_buffer path ≡ false)
      ⊎ EsAusente (encontrar_entrada env.ahora fs (obtener_directorio_path path))

  -- The checks that open both handlers: the length of the path, the space and the buffers.
  guardas-Cumple :
      (path : Texto) (tam : ℕ) (rest : Salida Codigo)
      → tam < 2 ^ 63
      → (fs.espacio_total_ocupado_fs + tam ≤ p.max_espacio_fs
          → Cumple
              (Crece p fs tam)
              (EsAusente (encontrar_entrada env.ahora fs (obtener_directorio_path path)))
              rest)
      → Cumple (Crece p fs tam) (SinPadre path) (
          if path_largo path
          then regresa (menos einval) fs
          else if ltb p.max_espacio_fs (add64 fs.espacio_total_ocupado_fs tam)
          then regresa (menos enospc) fs
          else if cabe_en_buffer path
          then rest
          else colapsa)
  guardas-Cumple path tam rest small h =
      if_both (Cumple (Crece p fs tam) (SinPadre path)) (path_largo path) _ _
        (Crece-refl p fs valido)
        (if_split (Cumple (Crece p fs tam) (SinPadre path))
          (ltb p.max_espacio_fs (add64 fs.espacio_total_ocupado_fs tam)) _ _
          (λ _. Crece-refl p fs valido)
          (λ room.
            if_split (Cumple (Crece p fs tam) (SinPadre path)) (cabe_en_buffer path) _ _
              (λ _. Cumple-weaken (Crece p fs tam) rest inr (h (room_of_check tam small room)))
              inl))

  -- On a platform as EsPlataforma says and in a well-formed state, while every allocation
  -- succeeds, fisopfs_mkdir leaves a well-formed state whose space counter has moved by what the
  -- tree in use has: by the size of a directory on success, by nothing on an error. It breaks down
  -- only if the copy of the path does not fit its buffer or the search finds no parent.
  pub mkdir-Mantiene :
      (path : Texto) (mode : ℕ)
      → Cumple (Crece p fs p.sizeof_directorio) (SinPadre path) (fisopfs_mkdir p env fs path mode)
  unfolding fisopfs_mkdir
  mkdir-Mantiene path mode =
      guardas-Cumple path p.sizeof_directorio _ plataforma.directorio_acotado (
        mkdir_en-Cumple _ mode _
          (encontrar_entrada-Vale p env.ahora fs _ valido.arbol valido.raiz_directorio))

  colocar_archivo-Cumple :
      (nombre : Texto) (mode : ℕ) (c : Cabecera) (es : Entradas) (volver : Entrada → Fs)
      → HalladaEn p fs valido (directorio c es) volver
      → fs.espacio_total_ocupado_fs + p.sizeof_archivo ≤ p.max_espacio_fs
      → Cumple
          (Crece p fs p.sizeof_archivo)
          ⊥
          (colocar_archivo p env c es volver (crear_archivo env nombre mode))
  unfolding colocar_archivo crear_archivo uso
  colocar_archivo-Cumple nombre mode c es volver h fits =
      elim (Bool-cases (ltb (length nombre) maximo_path)) [
        | inl short ↦ rw short (
            alta-Cumple c es volver _ p.sizeof_archivo (λ k. env.asigna (suc k)) h (omega arith)
              refl (omega arith) fits (λ k. memoria (suc k)))
        | inr long ↦ rw long (quieto-Crece p fs valido (directorio c es) volver h)
      ]

  create_en-Cumple :
      (nombre : Texto) (mode : ℕ) (b : Busqueda Fs)
      → Vale p (ValeFs p fs) (uso_fs p) (uso p fs.raiz) b
      → fs.espacio_total_ocupado_fs + p.sizeof_archivo ≤ p.max_espacio_fs
      → Cumple (Crece p fs p.sizeof_archivo) (EsAusente b) (create_en p env nombre mode b)
  unfolding create_en create_dentro
  create_en-Cumple nombre mode (hallada (directorio c es) volver) h fits = rw (memoria 0) (
      if_both (Cumple (Crece p fs p.sizeof_archivo) ⊥) (s_isreg mode) _ _
        (colocar_archivo-Cumple nombre mode c es volver h fits)
        (quieto-Crece p fs valido _ volver h))
  create_en-Cumple nombre mode (hallada vacia volver) h fits = quieto-Crece p fs valido _ volver h
  create_en-Cumple nombre mode (hallada (archivo f) volver) h fits =
      quieto-Crece p fs valido _ volver h
  create_en-Cumple nombre mode (hallada invalida volver) h fits =
      quieto-Crece p fs valido _ volver h
  create_en-Cumple nombre mode (ausente fs') h fits = tt
  create_en-Cumple nombre mode colapso h fits = h

  -- On a platform as EsPlataforma says and in a well-formed state, while every allocation
  -- succeeds, fisopfs_create leaves a well-formed state whose space counter has moved by what the
  -- tree in use has: by the size of a file struct on success, by nothing on an error. It breaks
  -- down only if the copy of the path does not fit its buffer or the search finds no parent.
  pub create-Mantiene :
      (path : Texto) (mode : ℕ)
      → Cumple (Crece p fs p.sizeof_archivo) (SinPadre path) (fisopfs_create p env fs path mode)
  unfolding fisopfs_create
  create-Mantiene path mode = guardas-Cumple path p.sizeof_archivo _ plataforma.archivo_acotado (
      create_en-Cumple _ mode _
        (encontrar_entrada-Vale p env.ahora fs _ valido.arbol valido.raiz_directorio))
