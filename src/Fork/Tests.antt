-- ===== src/Fork/Tests.antt =====
-- The exercises on small inputs.
use sistemas_operativos_fiub.Common.{◌≡◌, refl, true, some, List, [], ◌∷◌, map, Texto}
use sistemas_operativos_fiub.Fork.Primes.{Sistema, filtrar, generar, main, primo, proceso_filtro}
use sistemas_operativos_fiub.Fork.Xargs.{
  ejecuta, reemplaza, eliminar_salto, leer_lineas, reiniciar_args, vector, xargs,
}
use sistemas_operativos_fiub.Fork.Groups.{ejecutar_todos, grupos, xargs-grupos}

abbrev sin_fallas : Sistema
sin_fallas = record { pipe = λ k. true; fork = λ k. true }

primes_run : main sin_fallas 8 ≡ some (primo 2 ∷ primo 3 ∷ primo 5 ∷ primo 7 ∷ [])
unfolding main proceso_filtro filtrar generar
primes_run = refl

abbrev cinco_lineas : List Texto
cinco_lineas = (97 ∷ 10 ∷ []) ∷ (98 ∷ 10 ∷ []) ∷ (99 ∷ 10 ∷ []) ∷ (100 ∷ 10 ∷ []) ∷ (101 ∷ []) ∷ []

xargs-grupos_example :
    xargs (λ n. true) (101 ∷ []) cinco_lineas
    ≡ ejecutar_todos (map (λ g. (101 ∷ []) ∷ map eliminar_salto g) (grupos cinco_lineas))
xargs-grupos_example = xargs-grupos (λ n. true) (101 ∷ []) cinco_lineas (λ n. refl)

xargs_run :
    xargs (λ n. true) (101 ∷ []) cinco_lineas
    ≡ ejecuta
        ((101 ∷ []) ∷ (97 ∷ []) ∷ (98 ∷ []) ∷ (99 ∷ []) ∷ (100 ∷ []) ∷ [])
        (reemplaza ((101 ∷ []) ∷ (101 ∷ []) ∷ []))
unfolding xargs leer_lineas vector reiniciar_args eliminar_salto
xargs_run = refl
