-- ===== src/Fisopfs/Directory/Growth.antt =====
-- The array of a directory while allocations succeed: expandir_entrdas_dir only adds empty
-- entries at the end, and only to a full array.
use sistemas_operativos_fiub.Common.{
  ℕ, zero, suc, ◌+◌, ◌-◌, ◌≤◌, ◌<◌, ◌≡◌, refl, ap, Bool, true, arith, ◌==◌, if◌then◌else◌,
  Bool-cases, inl, inr, sym, ==_iff,
}
use sistemas_operativos_fiub.Fisopfs.Tree.{
  vacia, directorio, Entradas, nil, cons, cantidad_entradas, exito, Plataforma,
}
use sistemas_operativos_fiub.Fisopfs.Directory.{
  Dir, append, sin_iniciar, llenar_vacias, llenar_desde, llenar_directorio_con_entradas_vacias,
  expandir_entradas_dir, ampliada,
}
use sistemas_operativos_fiub.Fisopfs.Validity.{EsValida, SonValidas, ocupadas, uso, uso_entradas}

-- n empty entries.
unfoldable pub huecos : ℕ → Entradas
huecos zero = nil
huecos (suc n) = cons vacia (huecos n)

pub append-nil : (es : Entradas) → append es nil ≡ es
unfolding append
append-nil nil = refl
append-nil (cons e es) = ap (cons e) (append-nil es)

pub cantidad-append :
    (es fs : Entradas)
    → cantidad_entradas (append es fs) ≡ cantidad_entradas es + cantidad_entradas fs
unfolding append cantidad_entradas
cantidad-append nil fs = omega arith
cantidad-append (cons e es) fs = omega (arith, cantidad-append es fs)

pub ocupadas-append : (es fs : Entradas) → ocupadas (append es fs) ≡ ocupadas es + ocupadas fs
unfolding append ocupadas
ocupadas-append nil fs = omega arith
ocupadas-append (cons e es) fs = omega (arith, ocupadas-append es fs)

pub uso-append :
    (p : Plataforma) (es fs : Entradas)
    → uso_entradas p (append es fs) ≡ uso_entradas p es + uso_entradas p fs
unfolding append uso
uso-append p nil fs = omega arith
uso-append p (cons e es) fs = omega (arith, uso-append p es fs)

pub SonValidas-append :
    (es fs : Entradas) → SonValidas es → SonValidas fs → SonValidas (append es fs)
unfolding append
SonValidas-append nil fs v w = w
SonValidas-append (cons e es) fs v w = (v.0, SonValidas-append es fs (v.1) w)

pub cantidad-huecos : (n : ℕ) → cantidad_entradas (huecos n) ≡ n
unfolding huecos cantidad_entradas
cantidad-huecos zero = refl
cantidad-huecos (suc n) = ap suc (cantidad-huecos n)

pub ocupadas-huecos : (n : ℕ) → ocupadas (huecos n) ≡ 0
unfolding huecos ocupadas
ocupadas-huecos zero = refl
ocupadas-huecos (suc n) = omega (arith, ocupadas-huecos n)

pub uso-huecos : (p : Plataforma) (n : ℕ) → uso_entradas p (huecos n) ≡ 0
unfolding huecos uso
uso-huecos p zero = refl
uso-huecos p (suc n) = omega (arith, uso-huecos p n)

pub SonValidas-huecos : (n : ℕ) → SonValidas (huecos n)
unfolding huecos
SonValidas-huecos zero = tt
SonValidas-huecos (suc n) = (tt, SonValidas-huecos n)

pub llenar_vacias-sin_iniciar :
    (asigna : ℕ → Bool) (n : ℕ)
    → ((k : ℕ) → asigna k ≡ true)
    → llenar_vacias asigna (sin_iniciar n) ≡ (exito, huecos n)
unfolding llenar_vacias sin_iniciar huecos
llenar_vacias-sin_iniciar asigna zero h = refl
llenar_vacias-sin_iniciar asigna (suc n) h =
    rw (h 0, llenar_vacias-sin_iniciar (λ k. asigna (suc k)) n (λ k. h (suc k)))

-- The loop keeps the entries before the first new slot.
pub llenar_desde-append :
    (asigna : ℕ → Bool) (j : ℕ) (es : Entradas) (n : ℕ)
    → j ≡ cantidad_entradas es
    → ((k : ℕ) → asigna k ≡ true)
    → llenar_desde asigna j (append es (sin_iniciar n)) ≡ (exito, append es (huecos n))
unfolding llenar_desde append cantidad_entradas
llenar_desde-append asigna zero nil n e h = llenar_vacias-sin_iniciar asigna n h
llenar_desde-append asigna (suc j) nil n e h = absurd (omega arith)
llenar_desde-append asigna zero (cons f es) n e h = absurd (omega arith)
llenar_desde-append asigna (suc j) (cons f es) n e h =
    rw (llenar_desde-append asigna j es n (omega arith) h)

-- How many empty entries are added.
abbrev pub crecimiento : Dir → ℕ
crecimiento d =
    if cantidad_entradas d.entradas == d.cab.cantidad_entradas_ocupadas
    then ampliada (cantidad_entradas d.entradas) - cantidad_entradas d.entradas
    else 0

pub expandir_entradas_dir-eq :
    (asigna : ℕ → Bool) (d : Dir)
    → ((k : ℕ) → asigna k ≡ true)
    → expandir_entradas_dir asigna d
      ≡ (exito, record d { entradas = append d.entradas (huecos (crecimiento d)) })
unfolding expandir_entradas_dir llenar_directorio_con_entradas_vacias append huecos
expandir_entradas_dir-eq asigna d h =
    elim (Bool-cases (cantidad_entradas d.entradas == d.cab.cantidad_entradas_ocupadas)) [
      | inl full ↦
          let e : d.cab.cantidad_entradas_ocupadas ≡ cantidad_entradas d.entradas =
            sym ((==_iff _ _).0 full) in
          rw
            (full, h 0, llenar_desde-append (λ k. asigna (suc k)) _ d.entradas _ e (λ k. h (suc k)))
      | inr room ↦ rw (room, append-nil)
    ]

crecimiento_room : (n o : ℕ) → o ≤ n → o < n + (if n == o then ampliada n - n else 0)
crecimiento_room n o h = ground arith

-- While every allocation succeeds, expandir_entradas_dir of a directory that counts its entries
-- right, with all its slots perhaps occupied, returns 0 and leaves a well-formed directory, which
-- has an empty slot, whose entries use as much as before.
pub expandir_entradas_dir-EsValida :
    (p : Plataforma) (asigna : ℕ → Bool) (d : Dir)
    → ((k : ℕ) → asigna k ≡ true)
    → d.cab.cantidad_entradas_ocupadas ≡ ocupadas d.entradas
    → ocupadas d.entradas ≤ cantidad_entradas d.entradas
    → SonValidas d.entradas
    → let r = expandir_entradas_dir asigna d in
      (r.0 ≡ exito)
      × EsValida (directorio r.1.cab r.1.entradas)
      × (uso_entradas p r.1.entradas ≡ uso_entradas p d.entradas)
expandir_entradas_dir-EsValida p asigna d h count room v =
    rw (expandir_entradas_dir-eq asigna d h) (
      refl,
      (
        omega (
          arith,
          ocupadas-append d.entradas (huecos (crecimiento d)),
          ocupadas-huecos (crecimiento d),
        ),
        omega (
          arith,
          ocupadas-append d.entradas (huecos (crecimiento d)),
          ocupadas-huecos (crecimiento d),
          cantidad-append d.entradas (huecos (crecimiento d)),
          cantidad-huecos (crecimiento d),
          crecimiento_room (cantidad_entradas d.entradas) d.cab.cantidad_entradas_ocupadas
              (omega arith),
        ),
        SonValidas-append _ _ v (SonValidas-huecos _),
      ),
      omega (arith, uso-append p d.entradas (huecos (crecimiento d)), uso-huecos p (crecimiento d)),
    )
