-- ===== src/Fork/Sieve.antt =====
-- The chain of processes of fork/primes.c prints the primes.
use sistemas_operativos_fiub.Common.{
  ℕ, zero, suc, ◌%◌, ◌≤◌, ◌<◌, ◌≡◌, ◌≢◌, ◌↔◌, refl, ap, Bool, true, not, ◌&&◌, ◌||◌, List, [], ◌∷◌,
  ltb, leb, ◌==◌, if◌then◌else◌, Bool-cases, inl, inr, length, arith,
}
use sistemas_operativos_fiub.Fork.Primes.{Sistema, generar}

-- A prime: no number from 2 on and below it divides it.
abbrev pub IsPrime : ℕ → Type 0
IsPrime m = (2 ≤ m) × ((d : ℕ) → 2 ≤ d → d < m → m % d ≢ 0)

-- No number from 2 on and below q divides m.
unfoldable pub sin_divisores : ℕ → ℕ → Bool
sin_divisores zero m = true
sin_divisores (suc d) m = sin_divisores d m && (ltb d 2 || not (m % d == 0))

abbrev pub es_primo : ℕ → Bool
es_primo m = leb 2 m && sin_divisores m m

sin_divisores_sound : (q m d : ℕ) → sin_divisores q m ≡ true → 2 ≤ d → d < q → m % d ≢ 0
unfolding sin_divisores
sin_divisores_sound zero m d h lo lt = absurd (omega arith)
sin_divisores_sound (suc q) m d h lo lt = elim (Bool-cases (d == q)) [
  | inl same ↦ ground arith
  | inr less ↦ sin_divisores_sound q m d (ground arith) lo (ground arith)
]

sin_divisores_complete :
    (q m : ℕ) → ((d : ℕ) → 2 ≤ d → d < q → m % d ≢ 0) → sin_divisores q m ≡ true
unfolding sin_divisores
sin_divisores_complete zero m h = refl
sin_divisores_complete (suc q) m h =
    ground (arith, sin_divisores_complete q m (λ d lo lt. h d lo (omega arith)), h q)

-- The test is the definition.
pub es_primo_iff : (m : ℕ) → (es_primo m ≡ true) ↔ IsPrime m
es_primo_iff m = (
  λ h. (ground arith, λ d. sin_divisores_sound m m d (ground arith)),
  λ h. ground (arith, sin_divisores_complete m m h.1),
)

-- The members of a list that pass a test, in order.
unfoldable pub elegir : (ℕ → Bool) → List ℕ → List ℕ
elegir t [] = []
elegir t (x ∷ xs) = let rest = elegir t xs in if t x then x ∷ rest else rest

-- The numbers of the pipe before the process of the prime q: no smaller one divides them.
abbrev pipe_de : ℕ → ℕ → List ℕ
pipe_de q n = elegir (sin_divisores q) (generar q n)

length-generar : (i n : ℕ) → length (generar i n) ≡ n
unfolding generar
length-generar i zero = refl
length-generar i (suc n) = ap suc (length-generar (suc i) n)

-- All calls succeed.
abbrev pub SinFallas : Sistema → Type 0
SinFallas s = ((k : ℕ) → s.pipe k ≡ true) × ((k : ℕ) → s.fork k ≡ true)
