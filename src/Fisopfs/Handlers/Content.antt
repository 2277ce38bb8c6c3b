-- ===== src/Fisopfs/Handlers/Content.antt =====
-- fisopfs_truncate, fisopfs_read and fisopfs_write of fisopfs/fisopfs.c. Sizes and offsets are
-- 64-bit patterns: the sums in which the source mixes off_t and size_t are unsigned.
pub mod Defs
pub mod Bytes
use sistemas_operativos_fiub.Common.{
  ℕ, zero, suc, ◌+◌, ◌-◌, ◌%◌, ◌^◌, Bool, List, [], ◌∷◌, ◌++◌, ◌||◌, ◌==◌, ltb, leb, if◌then◌else◌,
  length, take, drop, Texto,
}
use sistemas_operativos_fiub.Fisopfs.Tree.{
  Archivo, archivo, directorio, Fs, Codigo, entero, menos, enoent, enomem, eio, eisdir, einval,
  enospc, exito, Entorno, Plataforma, add64, sub64,
}
use sistemas_operativos_fiub.Fisopfs.Directory.{tocar_todo}
use sistemas_operativos_fiub.Fisopfs.Lookup.{Busqueda, hallada, ausente, colapso, encontrar_entrada}
use Defs.{realloc, copiar_en, copia_valida}
use sistemas_operativos_fiub.Fisopfs.Outcome.{Salida, regresa, colapsa, path_largo}

-- A size_t returned as an int.
abbrev pub como_int : ℕ → Codigo
como_int n = entero (n % 2 ^ 32)

abbrev pub ocupar : ℕ → ℕ → Fs → Fs
ocupar menos_bytes mas_bytes fs = record fs {
  espacio_total_ocupado_fs = add64 (sub64 fs.espacio_total_ocupado_fs menos_bytes) mas_bytes;
}

module _ (p : Plataforma) (env : Entorno) where
  abbrev pub con_tamanio : ℕ → Archivo → Archivo
  con_tamanio n f = record f { st = tocar_todo env.ahora (record f.st { st_size = n }) }

  unfoldable pub truncate_en : ℕ → Busqueda Fs → Salida Codigo
  truncate_en size (hallada (directorio c es) volver) =
      regresa (menos eisdir) (volver (directorio c es))
  truncate_en size (hallada (archivo f) volver) =
      let espacio = (volver (archivo f)).espacio_total_ocupado_fs in
      let cambiado = λ (g : Archivo).
        regresa exito (ocupar f.st.st_size size (volver (archivo (con_tamanio size g)))) in
      if size == 0
      then cambiado f
      else if ltb p.max_espacio_fs (sub64 (add64 espacio size) f.st.st_size)
      then regresa (menos enospc) (volver (archivo f))
      else if env.asigna 0
      then cambiado (record f { contenido = realloc env.basura f.contenido size })
      else regresa (menos enomem) (volver (archivo f))
  truncate_en size (hallada e volver) = regresa (menos enoent) (volver e)
  truncate_en size (ausente fs) = regresa (menos enoent) fs
  truncate_en size colapso = colapsa

  unfoldable pub fisopfs_truncate : Fs → Texto → ℕ → Salida Codigo
  fisopfs_truncate fs path size =
      if path_largo path
      then regresa (menos einval) fs
      else truncate_en size (encontrar_entrada env.ahora fs path)

  -- The memcpy of fisopfs_write, the times and the returned count.
  unfoldable pub escribir_bytes : List ℕ → ℕ → Archivo → (Archivo → Fs) → Salida Codigo
  escribir_bytes buf offset f volver =
      if copia_valida offset (length buf) (length f.contenido)
      then regresa (como_int (length buf)) (
          volver (record f {
            contenido = copiar_en f.contenido offset buf;
            st = tocar_todo env.ahora f.st;
          }))
      else colapsa

  unfoldable pub write_en : List ℕ → ℕ → Busqueda Fs → Salida Codigo
  write_en buf offset (hallada (directorio c es) volver) =
      regresa (menos eisdir) (volver (directorio c es))
  write_en buf offset (hallada (archivo f) volver) =
      let espacio = (volver (archivo f)).espacio_total_ocupado_fs in
      let fin = add64 offset (length buf) in
      if ltb f.st.st_size fin
      then (if ltb p.max_espacio_fs (sub64 (add64 (add64 espacio (length buf)) offset) f.st.st_size)
          then regresa (menos enospc) (volver (archivo f))
          else if env.asigna 0
          then escribir_bytes buf offset
              (record f {
                contenido = realloc env.basura f.contenido fin;
                st = record f.st { st_size = fin };
              })
              (λ g. ocupar f.st.st_size fin (volver (archivo g)))
          else regresa (menos eio) (volver (archivo f)))
      else escribir_bytes buf offset f (λ g. volver (archivo g))
  write_en buf offset (hallada e volver) = regresa (menos enoent) (volver e)
  write_en buf offset (ausente fs) = regresa (menos enoent) fs
  write_en buf offset colapso = colapsa

  unfoldable pub fisopfs_write : Fs → Texto → List ℕ → ℕ → Salida Codigo
  fisopfs_write fs path buf offset =
      if path_largo path
      then regresa (menos einval) fs
      else write_en buf offset (encontrar_entrada env.ahora fs path)

-- The bytes that the kernel receives stand beside the returned count.
module _ (env : Entorno) where
  unfoldable pub read_en : ℕ → ℕ → Busqueda Fs → Salida (Codigo × List ℕ)
  read_en size offset (hallada (archivo f) volver) =
      let n = if ltb f.st.st_size (add64 offset size) then sub64 f.st.st_size offset else size in
      if copia_valida offset n (length f.contenido)
      then regresa (como_int n, take n (drop offset f.contenido))
          (volver (archivo (record f { st = record f.st { st_atime = env.ahora } })))
      else colapsa
  read_en size offset (hallada e volver) = regresa (menos enoent, []) (volver e)
  read_en size offset (ausente fs) = regresa (menos enoent, []) fs
  read_en size offset colapso = colapsa

  unfoldable pub fisopfs_read : Fs → Texto → ℕ → ℕ → Salida (Codigo × List ℕ)
  fisopfs_read fs path size offset =
      if path_largo path
      then regresa (menos einval, []) fs
      else read_en size offset (encontrar_entrada env.ahora fs path)
