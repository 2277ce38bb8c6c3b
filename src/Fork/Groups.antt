-- ===== src/Fork/Groups.antt =====
-- The executions of fork/xargs.c are the groups of its lines.
use sistemas_operativos_fiub.Common.{
  ℕ, suc, ◌+◌, ◌≡◌, refl, ap, Bool, true, none, some, List, [], ◌∷◌, map, ◌==◌, if◌then◌else◌,
  Texto, length,
}
use sistemas_operativos_fiub.Fork.Xargs.{
  Args, Corrida, ejecuta, reemplaza, free_de_argv, eliminar_salto, leer_lineas, nargs, asignar,
  reiniciar_args, vector, xargs,
}

-- The lines four by four, the last group as long as there are lines left.
abbrev pub grupos {ℓ} : {A : Type ℓ} → List A → List (List A)
grupos [] = []
grupos (a ∷ []) = (a ∷ []) ∷ []
grupos (a ∷ b ∷ []) = (a ∷ b ∷ []) ∷ []
grupos (a ∷ b ∷ c ∷ []) = (a ∷ b ∷ c ∷ []) ∷ []
grupos (a ∷ b ∷ c ∷ d ∷ rest) = (a ∷ b ∷ c ∷ d ∷ []) ∷ grupos rest

-- A child for each group of nargs lines, which is one of nargs + 1 arguments; the program itself
-- for a smaller one.
abbrev pub ejecutar_todos : List (List Texto) → Corrida
ejecutar_todos [] = free_de_argv
ejecutar_todos (g ∷ gs) =
    let rest = ejecutar_todos gs in if length g == nargs + 1 then ejecuta g rest else reemplaza g

-- The program's name and no arguments.
record Limpio (argv_1 : Texto) (args : Args) : Type 0 where
  cero : args 0 ≡ some argv_1
  uno : args 1 ≡ none
  dos : args 2 ≡ none
  tres : args 3 ≡ none
  cuatro : args 4 ≡ none
  cinco : args 5 ≡ none

leer_lineas-grupos :
    (fork : ℕ → Bool) (argv_1 : Texto) (k : ℕ) (args : Args) (lines : List Texto)
    → ((n : ℕ) → fork n ≡ true)
    → Limpio argv_1 args
    → leer_lineas fork argv_1 k args 1 lines
      ≡ ejecutar_todos (map (λ g. argv_1 ∷ map eliminar_salto g) (grupos lines))
unfolding leer_lineas vector reiniciar_args
leer_lineas-grupos fork a k args [] ok l = refl
leer_lineas-grupos fork a k args (w ∷ []) ok l = rw (l.cero, l.dos) refl
leer_lineas-grupos fork a k args (w ∷ x ∷ []) ok l = rw (l.cero, l.tres) refl
leer_lineas-grupos fork a k args (w ∷ x ∷ y ∷ []) ok l = rw (l.cero, l.cuatro) refl
leer_lineas-grupos fork a k args (w ∷ x ∷ y ∷ z ∷ rest) ok l =
    let llena : Args =
      asignar
        (asignar (asignar (asignar args 1 (some (eliminar_salto w))) 2 (some (eliminar_salto x))) 3
          (some (eliminar_salto y)))
        4 (some (eliminar_salto z)) in
    rw (l.cero, l.cinco, ok k)
      (ap (λ r. ejecuta (a ∷ map eliminar_salto (w ∷ x ∷ y ∷ z ∷ [])) r)
        (leer_lineas-grupos fork a (suc k) (reiniciar_args llena a) rest ok (record {
          cero = refl;
          uno = refl;
          dos = refl;
          tres = refl;
          cuatro = refl;
          cinco = l.cinco;
        })))

-- While every fork succeeds, the program given runs once for each group of NARGS lines, in the
-- order of the input and each line in one group, with the lines, without their newline, as its
-- arguments, in a child for a full group and in place of xargs for a last one that is smaller; when
-- no line is left for that, xargs ends in the free of argv[1].
pub xargs-grupos :
    (fork : ℕ → Bool) (argv_1 : Texto) (lines : List Texto)
    → ((n : ℕ) → fork n ≡ true)
    → xargs fork argv_1 lines
      ≡ ejecutar_todos (map (λ g. argv_1 ∷ map eliminar_salto g) (grupos lines))
unfolding xargs
xargs-grupos fork argv_1 lines ok =
    leer_lineas-grupos fork argv_1 0 (λ j. if j == 0 then some argv_1 else none) lines ok
      (record { cero = refl; uno = refl; dos = refl; tres = refl; cuatro = refl; cinco = refl })
