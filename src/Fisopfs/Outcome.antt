-- ===== src/Fisopfs/Outcome.antt =====
-- What a handler of fisopfs/fisopfs.c gives back, and the test that opens every handler.
use sistemas_operativos_fiub.Common.{Bool, ltb, length, Texto}
use sistemas_operativos_fiub.Fisopfs.Tree.{Fs, maximo_path}

-- `regresa a fs`: the handler returns, with its result and the new state. `colapsa`: undefined
-- behaviour, such as a null or freed pointer followed or a write past a buffer.
pub data Salida (A : Type 0) : Type 0 where
  regresa : A → Fs → Salida A
  colapsa : Salida A

-- `strlen(path) > MAXIMO_PATH`
abbrev pub path_largo : Texto → Bool
path_largo path = ltb maximo_path (length path)

-- The copy of a path of this length and its NUL fits a buffer of MAXIMO_PATH bytes.
abbrev pub cabe_en_buffer : Texto → Bool
cabe_en_buffer path = ltb (length path) maximo_path
