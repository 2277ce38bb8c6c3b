-- ===== src/Fisopfs/Tree.antt =====
-- The data of fisopfs: struct stat, entrada_archivo_t (fisopfs/entrada_archivo.h),
-- entrada_directorio_t (fisopfs/entrada_directorio.h), the slots of a directory
-- (fisopfs/entrada.h, the enum of fisopfs/fisopfs.h) and fisopfs_fs_t.
use sistemas_operativos_fiub.Common.{ℕ, zero, suc, ◌+◌, ◌-◌, ◌%◌, ◌^◌, Bool, List, Texto}

-- The fields of struct stat that the file system sets.
pub record Stat : Type 0 where
  pub st_size : ℕ
  pub st_uid : ℕ
  pub st_gid : ℕ
  pub st_mode : ℕ
  pub st_mtime : ℕ
  pub st_atime : ℕ
  pub st_ctime : ℕ
  pub st_nlink : ℕ
  pub st_ino : ℕ
  pub st_blocks : ℕ
  pub st_blksize : ℕ

-- `contenido` is the allocated block, as long as its capacity; NULL is the empty list.
pub record Archivo : Type 0 where
  pub nombre : Texto
  pub st : Stat
  pub contenido : List ℕ

-- A directory without its array of entries.
pub record Cabecera : Type 0 where
  pub nombre : Texto
  pub st : Stat
  pub cantidad_entradas_ocupadas : ℕ

-- A slot by its `tipo`. `invalida` is a pointer that must not be followed: NULL, never set or
-- freed. `cantidad_entradas` is the number of slots.
mutual
  pub data Entrada : Type 0 where
    vacia : Entrada
    archivo : Archivo → Entrada
    directorio : Cabecera → Entradas → Entrada
    invalida : Entrada

  pub data Entradas : Type 0 where
    nil : Entradas
    cons : Entrada → Entradas → Entradas

unfoldable pub cantidad_entradas : Entradas → ℕ
cantidad_entradas nil = 0
cantidad_entradas (cons e es) = suc (cantidad_entradas es)

-- The root and the space counter; the root is a pointer to a directory.
pub record Fs : Type 0 where
  pub raiz : Entrada
  pub espacio_total_ocupado_fs : ℕ

-- The error numbers that the handlers return, most of them negated.
pub data Errno : Type 0 where
  enoent eio enomem efault eisdir einval enospc eperm : Errno

-- An `int` result: 0 or a count, as its 32-bit pattern; a negated error number; an error number
-- that the source returns without its sign; and the -1 of fisopfs_flush.
pub data Codigo : Type 0 where
  entero : ℕ → Codigo
  menos : Errno → Codigo
  sin_signo : Errno → Codigo
  menos_uno : Codigo

abbrev pub exito : Codigo
exito = entero 0

abbrev pub es_exito : Codigo → Bool
es_exito (entero zero) = Bool.true
es_exito _ = Bool.false

-- A result below zero.
abbrev pub es_negativo : Codigo → Bool
es_negativo (menos e) = Bool.true
es_negativo menos_uno = Bool.true
es_negativo _ = Bool.false

-- What the program asks of its surroundings during one call: the second that the clock shows,
-- the ids of the process, whether the k-th allocation succeeds, and the bytes of fresh memory.
pub record Entorno : Type 0 where
  pub ahora : ℕ
  pub uid : ℕ
  pub gid : ℕ
  pub asigna : ℕ → Bool
  pub basura : ℕ → ℕ

-- Constants of the platform and of the mount: the sizes of the structs and MAX_ESPACIO_FS.
pub record Plataforma : Type 0 where
  pub sizeof_fs : ℕ
  pub sizeof_directorio : ℕ
  pub sizeof_archivo : ℕ
  pub max_espacio_fs : ℕ

-- size_t arithmetic.
abbrev pub mod64 : ℕ
mod64 = 2 ^ 64

abbrev pub add64 : ℕ → ℕ → ℕ
add64 a b = (a + b) % mod64

abbrev pub sub64 : ℕ → ℕ → ℕ
sub64 a b = (a + (mod64 - b)) % mod64

abbrev pub maximo_path : ℕ
maximo_path = 2048
