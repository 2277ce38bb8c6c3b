-- ===== src/Fork/Primes.antt =====
-- fork/primes.c: the chain of processes that filter numbers, each one reading from the pipe on its
-- left and writing to the pipe on its right. A pipe is the list of the numbers written to it.
use sistemas_operativos_fiub.Common.{
  ℕ, zero, suc, ◌-◌, ◌%◌, ◌^◌, Bool, Option, none, some, List, [], ◌∷◌, ltb, ◌==◌, if◌then◌else◌,
}

-- What is printed: a prime, or the message of a failed call.
pub data Salida : Type 0 where
  primo : ℕ → Salida
  error_pipe : Salida
  error_fork : Salida

-- Whether the k-th pipe and the k-th fork succeed.
pub record Sistema : Type 0 where
  pub pipe : ℕ → Bool
  pub fork : ℕ → Bool

-- The loop over the numbers that are left in the pipe: those that pass to the right.
unfoldable pub filtrar : ℕ → List ℕ → List ℕ
filtrar p [] = []
filtrar p (value ∷ values) =
    let rest = filtrar p values in if value % p == 0 then rest else value ∷ rest

abbrev pub anotar : Salida → Option (List Salida) → Option (List Salida)
anotar s none = none
anotar s (some ss) = some (s ∷ ss)

-- What the k-th process and those to its right print. The first argument bounds the number of
-- processes; `none` is a bound that was too small. A process whose pipe or fork fails exits.
unfoldable pub proceso_filtro : Sistema → ℕ → ℕ → List ℕ → Option (List Salida)
proceso_filtro s zero k pipe_izq = none
proceso_filtro s (suc f) k [] = if s.pipe k then some [] else some (error_pipe ∷ [])
proceso_filtro s (suc f) k (p ∷ values) =
    let hijo = proceso_filtro s f (suc k) (filtrar p values) in
    if s.pipe k
    then anotar (primo p) (if s.fork k then hijo else some (error_fork ∷ []))
    else some (error_pipe ∷ [])

-- The n numbers from i on that the generator writes.
unfoldable pub generar : ℕ → ℕ → List ℕ
generar i zero = []
generar i (suc n) = i ∷ generar (suc i) n

-- INT_MAX
abbrev pub int_max : ℕ
int_max = 2 ^ 31 - 1

-- main on the number it was given, an int that is not negative; a negative one writes as little as
-- 0. On INT_MAX the test `i <= max` holds until `i++` overflows: the result is `none`.
unfoldable pub main : Sistema → ℕ → Option (List Salida)
main s max =
    if s.pipe 0
    then (if s.fork 0
        then (if ltb max int_max then proceso_filtro s (suc max) 1 (generar 2 (max - 1)) else none)
        else some (error_fork ∷ []))
    else some (error_pipe ∷ [])
