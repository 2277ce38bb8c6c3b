-- ===== src/Fork/Xargs.antt =====
-- fork/xargs.c: the lines of the input in groups of NARGS, each group the arguments of one
-- execution of the program.
use sistemas_operativos_fiub.Common.{
  ℕ, zero, suc, ◌+◌, ◌%◌, Bool, ◌&&◌, Option, none, some, List, [], ◌∷◌, ◌==◌, ltb, leb,
  if◌then◌else◌, Texto,
}

abbrev pub nargs : ℕ
nargs = 4

abbrev pub salto : ℕ
salto = 10

-- `line[strcspn(line, "\n")] = 0`
unfoldable pub eliminar_salto : Texto → Texto
eliminar_salto [] = []
eliminar_salto (c ∷ line) = let rest = c ∷ eliminar_salto line in if c == salto then [] else rest

-- The array of NARGS + 2 pointers.
abbrev pub Args : Type 0
Args = ℕ → Option Texto

abbrev pub asignar : Args → ℕ → Option Texto → Args
asignar args i t j = if i == j then t else args j

unfoldable pub reiniciar_args : Args → Texto → Args
reiniciar_args args argv_1 j =
    if j == 0 then some argv_1 else if leb 1 j && ltb j (nargs + 1) then none else args j

-- The arguments that execvp reads, the n pointers from i on at most.
unfoldable pub vector : Args → ℕ → ℕ → List Texto
vector args i zero = []
vector args i (suc n) = elim (args i) [ none ↦ [] | some t ↦ t ∷ vector args (suc i) n ]

-- What the program does: `ejecuta` is a child that calls execvp and is waited for, `reemplaza` the
-- program's own execvp. Without the latter it ends in free(args[0]), whose argument is argv[1] and
-- was not allocated: `free_de_argv`.
pub data Corrida : Type 0 where
  reemplaza : List Texto → Corrida
  free_de_argv : Corrida
  error_fork : Corrida
  ejecuta : List Texto → Corrida → Corrida

-- The loop over the lines that getline gives, and what follows it. `fork k` tells whether the
-- k-th fork succeeds.
unfoldable pub leer_lineas : (ℕ → Bool) → Texto → ℕ → Args → ℕ → List Texto → Corrida
leer_lineas fork argv_1 k args i [] =
    if ltb 1 i then reemplaza (vector args 0 (nargs + 2)) else free_de_argv
leer_lineas fork argv_1 k args i (line ∷ lines) =
    let con_line = asignar args i (some (eliminar_salto line)) in
    let tras_ejecutar =
      ejecuta (vector con_line 0 (nargs + 2))
        (leer_lineas fork argv_1 (suc k) (reiniciar_args con_line argv_1) 1 lines) in
    let siguientes = leer_lineas fork argv_1 k con_line (i + 1) lines in
    if i % nargs == 0 then (if fork k then tras_ejecutar else error_fork) else siguientes

-- main with one argument.
unfoldable pub xargs : (ℕ → Bool) → Texto → List Texto → Corrida
xargs fork argv_1 lines =
    leer_lineas fork argv_1 0 (λ j. if j == 0 then some argv_1 else none) 1 lines
