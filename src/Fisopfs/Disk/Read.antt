-- ===== src/Fisopfs/Disk/Read.antt =====
-- crear_entrada_archivo_desde_archivo and crear_directorio_desde_archivo.
use sistemas_operativos_fiub.Common.{
  ℕ, zero, suc, ◌+◌, ◌-◌, Bool, List, [], ◌∷◌, ◌==◌, if◌then◌else◌, length, Texto,
}
use sistemas_operativos_fiub.Fisopfs.Tree.{
  Stat, Cabecera, Archivo, Entrada, archivo, directorio, Entradas, nil, cons, cantidad_entradas,
  es_exito,
}
use sistemas_operativos_fiub.Fisopfs.Directory.{append, sin_iniciar, llenar_desde}
use sistemas_operativos_fiub.Fisopfs.Disk.Write.{Registro, r_directorio, r_archivo, r_datos}

-- `leido a k rs`: the value, the allocations made so far and the blocks not read yet. `nulo`: the
-- function returns NULL. `ilegible`: undefined behaviour. `sin_pasos`: the fuel ran out.
pub data Lectura (A : Type 0) : Type 0 where
  leido : A → ℕ → List Registro → Lectura A
  nulo : Lectura A
  ilegible : Lectura A
  sin_pasos : Lectura A

-- `asigna k` says whether the k-th allocation succeeds.
module _ (asigna : ℕ → Bool) where
  -- The contents of a file whose struct has been read.
  unfoldable pub leer_contenido : ℕ → Texto → Stat → List Registro → Lectura Archivo
  leer_contenido k nombre st (r_datos d ∷ rs) =
      if asigna k
      then (if length d == st.st_size
          then leido (record { nombre = nombre; st = st; contenido = d }) (suc k) rs
          else nulo)
      else nulo
  leer_contenido k nombre st _ = nulo

  unfoldable pub crear_entrada_archivo_desde_archivo : ℕ → List Registro → Lectura Archivo
  crear_entrada_archivo_desde_archivo k (r_archivo nombre st ∷ rs) =
      if asigna k
      then (if st.st_size == 0
          then leido (record { nombre = nombre; st = st; contenido = [] }) (suc k) rs
          else leer_contenido (suc k) nombre st rs)
      else nulo
  crear_entrada_archivo_desde_archivo k _ = nulo

  -- The tail of crear_directorio_desde_archivo: the slots after those read become empty entries.
  unfoldable pub completar : Cabecera → ℕ → Lectura Entradas → Lectura Entrada
  completar c n (leido es k rs) =
      let (r, todas) =
        llenar_desde (λ i. asigna (k + i)) c.cantidad_entradas_ocupadas
          (append es (sin_iniciar (n - cantidad_entradas es))) in
      if es_exito r then leido (directorio c todas) (k + (n - cantidad_entradas es)) rs else nulo
  completar c n nulo = nulo
  completar c n ilegible = ilegible
  completar c n sin_pasos = sin_pasos

  -- `leer k ocupadas cantidad rs` is the loop over the occupied entries.
  unfoldable pub leer_directorio_con :
      (ℕ → ℕ → ℕ → List Registro → Lectura Entradas) → ℕ → List Registro → Lectura Entrada
  leer_directorio_con leer k (r_directorio c n ∷ rs) =
      if asigna k
      then (if asigna (suc k)
          then completar c n (leer (suc (suc k)) c.cantidad_entradas_ocupadas n rs)
          else nulo)
      else nulo
  leer_directorio_con leer k _ = nulo

  -- The failure of an entry in the middle: liberar_dir goes over the slots that are not set yet.
  abbrev pub liberar_a_medias : ℕ → Lectura Entradas
  liberar_a_medias zero = nulo
  liberar_a_medias (suc libres) = ilegible

  -- The entry just read is stored, out of bounds if no slot is left, and the loop goes on.
  abbrev pub guardar : ℕ → Entrada → Lectura Entradas → Lectura Entradas
  guardar zero e rest = ilegible
  guardar (suc libres) e (leido es k rs) = leido (cons e es) k rs
  guardar (suc libres) e rest = rest

  -- What the loop does with the directory, or the file, that it has tried to read.
  abbrev pub tras_directorio :
      ℕ → (ℕ → List Registro → Lectura Entradas) → Lectura Entrada → Lectura Entradas
  tras_directorio libres siguientes (leido e k rs) = guardar libres e (siguientes k rs)
  tras_directorio libres siguientes nulo = liberar_a_medias libres
  tras_directorio libres siguientes ilegible = ilegible
  tras_directorio libres siguientes sin_pasos = sin_pasos

  abbrev pub tras_archivo :
      ℕ → (ℕ → List Registro → Lectura Entradas) → Lectura Archivo → Lectura Entradas
  tras_archivo libres siguientes (leido g k rs) = guardar libres (archivo g) (siguientes k rs)
  tras_archivo zero siguientes nulo = ilegible
  tras_archivo (suc libres) siguientes nulo = nulo
  tras_archivo libres siguientes ilegible = ilegible
  tras_archivo libres siguientes sin_pasos = sin_pasos

  -- The loop over the `j` occupied entries still to read, `libres` slots being left. The fuel
  -- bounds the blocks read.
  unfoldable pub leer_entradas : ℕ → ℕ → ℕ → ℕ → List Registro → Lectura Entradas
  leer_entradas zero k j libres rs = sin_pasos
  leer_entradas (suc f) k zero libres rs = leido nil k rs
  leer_entradas (suc f) k (suc j) libres [] = liberar_a_medias libres
  leer_entradas (suc f) k (suc j) libres (r_directorio c n ∷ rs) =
      tras_directorio libres (λ k' rs'. leer_entradas f k' j (libres - 1) rs')
        (leer_directorio_con (leer_entradas f) k (r_directorio c n ∷ rs))
  leer_entradas (suc f) k (suc j) libres (r_archivo nombre st ∷ rs) =
      tras_archivo libres (λ k' rs'. leer_entradas f k' j (libres - 1) rs')
        (crear_entrada_archivo_desde_archivo k (r_archivo nombre st ∷ rs))
  leer_entradas (suc f) k (suc j) libres (r ∷ rs) = nulo

  unfoldable pub crear_directorio_desde_archivo : ℕ → List Registro → Lectura Entrada
  crear_directorio_desde_archivo k rs = leer_directorio_con (leer_entradas (suc (length rs))) k rs
