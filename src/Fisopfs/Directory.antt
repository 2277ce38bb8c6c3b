-- ===== src/Fisopfs/Directory.antt =====
-- fisopfs/entrada_directorio.c without its disk functions, and crear_archivo of
-- fisopfs/entrada_archivo.c. `asigna k` says whether the k-th allocation from here on succeeds.
pub mod Growth
pub mod Placement
use sistemas_operativos_fiub.Common.{
  ℕ, zero, suc, ◌+◌, ◌-◌, ◌*◌, Bool, true, false, Option, none, some, [], ◌==◌, ltb, if◌then◌else◌,
  length, Texto,
}
use sistemas_operativos_fiub.Fisopfs.Tree.{
  Stat, Archivo, Cabecera, Entrada, vacia, directorio, invalida, Entradas, nil, cons,
  cantidad_entradas, enoent, enomem, efault, einval, Codigo, menos, exito, es_exito, Entorno,
  maximo_path,
}

-- A directory that is at hand: its header and its array.
pub record Dir : Type 0 where
  pub cab : Cabecera
  pub entradas : Entradas

abbrev pub a_entrada : Dir → Entrada
a_entrada d = directorio d.cab d.entradas

unfoldable pub append : Entradas → Entradas → Entradas
append nil fs = fs
append (cons e es) fs = cons e (append es fs)

-- n pointers of a fresh array, none of them set.
unfoldable pub sin_iniciar : ℕ → Entradas
sin_iniciar zero = nil
sin_iniciar (suc n) = cons invalida (sin_iniciar n)

unfoldable pub poner_en : ℕ → Entrada → Entradas → Entradas
poner_en i e nil = nil
poner_en zero e (cons f es) = cons e es
poner_en (suc i) e (cons f es) = cons f (poner_en i e es)

-- The loop of llenar_directorio_con_entradas_vacias: it leaves at the first slot for which
-- crear_entrada_vacia returns NULL, which it has stored.
unfoldable pub llenar_vacias : (ℕ → Bool) → Entradas → Codigo × Entradas
llenar_vacias asigna nil = (exito, nil)
llenar_vacias asigna (cons e es) =
    let rest = llenar_vacias (λ k. asigna (suc k)) es in
    if asigna 0 then (rest.0, cons vacia rest.1) else (menos enomem, cons invalida es)

-- The slots before `ocupadas` stay.
unfoldable pub llenar_desde : (ℕ → Bool) → ℕ → Entradas → Codigo × Entradas
llenar_desde asigna zero es = llenar_vacias asigna es
llenar_desde asigna (suc j) nil = (exito, nil)
llenar_desde asigna (suc j) (cons e es) =
    let rest = llenar_desde asigna j es in (rest.0, cons e rest.1)

unfoldable pub llenar_directorio_con_entradas_vacias : (ℕ → Bool) → Dir → Codigo × Dir
llenar_directorio_con_entradas_vacias asigna d =
    let (r, es) = llenar_desde asigna d.cab.cantidad_entradas_ocupadas d.entradas in
    (r, record d { entradas = es })

-- ENTRADAS_INICIALES and MULTIPLICADOR_ENTRADAS
abbrev pub entradas_iniciales : ℕ
entradas_iniciales = 5

abbrev pub multiplicador_entradas : ℕ
multiplicador_entradas = 2

-- The new `cantidad_entradas` of a full array of n slots.
abbrev pub ampliada : ℕ → ℕ
ampliada n = if n == 0 then entradas_iniciales else n * multiplicador_entradas

-- A failed malloc or realloc leaves a null array under the new count.
unfoldable pub expandir_entradas_dir : (ℕ → Bool) → Dir → Codigo × Dir
expandir_entradas_dir asigna d =
    let n = cantidad_entradas d.entradas in
    if n == d.cab.cantidad_entradas_ocupadas
    then (if asigna 0
        then llenar_directorio_con_entradas_vacias (λ k. asigna (suc k))
            (record d { entradas = append d.entradas (sin_iniciar (ampliada n - n)) })
        else (menos enomem, record d { entradas = sin_iniciar (ampliada n) }))
    else (exito, d)

-- The loop of colocar_entrada_dentro_de_directorio: the first empty slot takes the entry.
pub data Colocacion : Type 0 where
  colocada : ℕ → Entradas → Colocacion
  llena : Colocacion
  ilegible : Colocacion

abbrev pub una_mas : Entrada → Colocacion → Colocacion
una_mas e (colocada i es) = colocada (suc i) (cons e es)
una_mas e llena = llena
una_mas e ilegible = ilegible

unfoldable pub ocupar_vacia : Entrada → Entradas → Colocacion
ocupar_vacia nueva nil = llena
ocupar_vacia nueva (cons vacia es) = colocada 0 (cons nueva es)
ocupar_vacia nueva (cons invalida es) = ilegible
ocupar_vacia nueva (cons e es) = una_mas e (ocupar_vacia nueva es)

-- The three times that a change of a directory or a file sets.
abbrev pub tocar_todo : ℕ → Stat → Stat
tocar_todo t st = record st { st_mtime = t; st_atime = t; st_ctime = t }

-- The result, the directory, and the slot that holds the new entry if it was placed. `none` as
-- a whole is an access through an invalid pointer.
pub record Colocado : Type 0 where
  pub codigo : Codigo
  pub dir : Dir
  pub lugar : Option ℕ

abbrev pub una_ocupada_mas : ℕ → Cabecera → Cabecera
una_ocupada_mas t c = record c {
  cantidad_entradas_ocupadas = c.cantidad_entradas_ocupadas + 1;
  st = tocar_todo t c.st;
}

-- After the loop: the count, the times and expandir_entrdas_dir, or -ENOENT.
unfoldable pub tras_ocupar : (ℕ → Bool) → ℕ → Dir → Colocacion → Option Colocado
tras_ocupar asigna t d (colocada i es) =
    let r =
      expandir_entradas_dir asigna (record { cab = una_ocupada_mas t d.cab; entradas = es }) in
    some (record { codigo = r.0; dir = r.1; lugar = some i })
tras_ocupar asigna t d llena = some (record { codigo = menos enoent; dir = d; lugar = none })
tras_ocupar asigna t d ilegible = none

unfoldable pub colocar_entrada_dentro_de_directorio :
    (ℕ → Bool) → ℕ → Dir → Option Entrada → Option Colocado
colocar_entrada_dentro_de_directorio asigna t d none =
    some (record { codigo = menos efault; dir = d; lugar = none })
colocar_entrada_dentro_de_directorio asigna t d (some nueva) =
    tras_ocupar asigna t d (ocupar_vacia nueva d.entradas)

-- The stat of a new file or directory.
abbrev pub stat_nuevo : Entorno → ℕ → Stat
stat_nuevo env mode = record {
  st_size = 0;
  st_uid = env.uid;
  st_gid = env.gid;
  st_mode = mode;
  st_mtime = env.ahora;
  st_atime = env.ahora;
  st_ctime = env.ahora;
  st_nlink = 1;
  st_ino = 0;
  st_blocks = 0;
  st_blksize = 0;
}

-- The directory is given only on success: the callers drop or free it otherwise.
abbrev pub entregar : Codigo × Dir → Codigo × Option Dir
entregar (r, d) = (r, if es_exito r then some d else none)

-- crear_dir on memory that the caller allocated; `reservado` is false for a null pointer.
unfoldable pub crear_dir : Entorno → (ℕ → Bool) → Bool → Texto → ℕ → Codigo × Option Dir
crear_dir env asigna false path mode = (menos efault, none)
crear_dir env asigna true path mode =
    if ltb (length path) maximo_path
    then entregar (
        expandir_entradas_dir asigna (record {
          cab = record { nombre = path; st = stat_nuevo env mode; cantidad_entradas_ocupadas = 0 };
          entradas = nil;
        }))
    else (menos einval, none)

-- crear_archivo of fisopfs/entrada_archivo.c.
unfoldable pub crear_archivo : Entorno → Texto → ℕ → Codigo × Option Archivo
crear_archivo env nombre modo =
    if ltb (length nombre) maximo_path
    then (exito, some (record { nombre = nombre; st = stat_nuevo env modo; contenido = [] }))
    else (menos einval, none)

-- esta_vacio_directorio
abbrev pub esta_vacio_directorio : Cabecera → Bool
esta_vacio_directorio c = c.cantidad_entradas_ocupadas == 0
