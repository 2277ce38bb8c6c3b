-- ===== src/Fisopfs/Handlers/Content/Defs.antt =====
-- The bytes of a file: realloc and memcpy as fisopfs_truncate, fisopfs_read and fisopfs_write of
-- fisopfs/fisopfs.c call them.
use sistemas_operativos_fiub.Common.{
  ℕ, zero, suc, ◌+◌, ◌-◌, Bool, List, [], ◌∷◌, ◌++◌, ◌||◌, ◌==◌, leb, length, take, drop,
}

-- n bytes of fresh memory, from its byte i on.
unfoldable pub bytes_sin_iniciar : (ℕ → ℕ) → ℕ → ℕ → List ℕ
bytes_sin_iniciar basura i zero = []
bytes_sin_iniciar basura i (suc n) = basura i ∷ bytes_sin_iniciar basura (suc i) n

-- realloc(bytes, n) when it succeeds: the old bytes that fit, then what the memory held.
unfoldable pub realloc : (ℕ → ℕ) → List ℕ → ℕ → List ℕ
realloc basura bytes n = take n bytes ++ bytes_sin_iniciar basura (length bytes) (n - length bytes)

-- memcpy(bytes + offset, buf, strlen(buf)) inside the block.
unfoldable pub copiar_en : List ℕ → ℕ → List ℕ → List ℕ
copiar_en bytes offset buf = take offset bytes ++ (buf ++ drop (offset + length buf) bytes)

-- A memcpy of n bytes at this offset stays inside a block of that capacity.
abbrev pub copia_valida : ℕ → ℕ → ℕ → Bool
copia_valida offset n capacidad = n == 0 || leb (offset + n) capacidad
