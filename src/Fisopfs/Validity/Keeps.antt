-- ===== src/Fisopfs/Validity/Keeps.antt =====
-- A handler keeps the state well formed and its space counter exact.
use sistemas_operativos_fiub.Common.{ℕ, ◌+◌, ◌≤◌, ◌≡◌, refl, arith, if◌then◌else◌}
use sistemas_operativos_fiub.Fisopfs.Tree.{Entrada, Fs, Plataforma, Codigo, es_exito}
use sistemas_operativos_fiub.Fisopfs.Lookup.{Busqueda, hallada, ausente, colapso}
use sistemas_operativos_fiub.Fisopfs.Outcome.{Salida, regresa, colapsa}
use sistemas_operativos_fiub.Fisopfs.Validity.{EsValida, EsValido, uso}
use sistemas_operativos_fiub.Fisopfs.Validity.Search.{MismaClase, HalladaVale, ValeFs, uso_fs}

-- The new state is well formed, and the counter has moved by what the use of the tree has.
pub record Mantiene (p : Plataforma) (fs fs' : Fs) : Type 0 where
  pub valido : EsValido p fs'
  pub cuenta :
      fs'.espacio_total_ocupado_fs + uso p fs.raiz ≡ fs.espacio_total_ocupado_fs + uso p fs'.raiz

-- It is kept, and on success the tree uses `tam` more bytes; otherwise as many as before.
abbrev pub Crece : Plataforma → Fs → ℕ → Codigo → Fs → Type 0
Crece p fs tam r fs' =
    Mantiene p fs fs' × (uso p fs'.raiz ≡ uso p fs.raiz + (if es_exito r then tam else 0))

-- `Q` holds of a handler's result and state; the handler breaks down only if `R`.
abbrev pub Cumple : {A : Type 0} → (A → Fs → Type 0) → Type 0 → Salida A → Type 0
Cumple Q R (regresa a fs) = Q a fs
Cumple Q R colapsa = R

pub Cumple-weaken :
    {A : Type 0} {R R' : Type 0} (Q : A → Fs → Type 0) (s : Salida A)
    → (R → R')
    → Cumple Q R s
    → Cumple Q R' s
Cumple-weaken Q (regresa a fs) f h = h
Cumple-weaken Q colapsa f h = f h

pub Cumple-map :
    {A : Type 0} (Q Q' : A → Fs → Type 0) (R : Type 0) (s : Salida A)
    → ((a : A) (fs : Fs) → Q a fs → Q' a fs)
    → Cumple Q R s
    → Cumple Q' R s
Cumple-map Q Q' R (regresa a fs) f h = f a fs h
Cumple-map Q Q' R colapsa f h = h

-- The search found nothing.
abbrev pub EsAusente : Busqueda Fs → Type 0
EsAusente (hallada e volver) = ⊥
EsAusente (ausente fs) = Unit
EsAusente colapso = ⊥

module _ (p : Plataforma) (fs : Fs) (valido : EsValido p fs) where
  -- What a search finds in the state.
  abbrev pub HalladaEn : (e : Entrada) → (Entrada → Fs) → Type 0
  HalladaEn e volver = HalladaVale p (ValeFs p fs) (uso_fs p) (uso p fs.raiz) e volver

  pub ausente-Mantiene :
      (fs' : Fs) → ValeFs p fs fs' × (uso_fs p fs' ≡ uso p fs.raiz) → Mantiene p fs fs'
  ausente-Mantiene fs' h = record {
    valido = record {
      arbol = h.0.0;
      raiz_directorio = h.0.1;
      cubre = omega (arith, valido.cubre, h.0.2, h.1);
      dentro_del_maximo = omega (arith, valido.dentro_del_maximo, h.0.2);
    };
    cuenta = omega (arith, h.0.2, h.1);
  }

  pub Mantiene-refl : Mantiene p fs fs
  Mantiene-refl = ausente-Mantiene fs ((valido.arbol, valido.raiz_directorio, refl), refl)

  pub Crece-refl : Mantiene p fs fs × (uso p fs.raiz ≡ uso p fs.raiz + 0)
  Crece-refl = (Mantiene-refl, omega arith)

  module _ (e : Entrada) (volver : Entrada → Fs) (h : HalladaEn e volver) where
    -- The entry is replaced and the counter set.
    pub cambio-Mantiene :
        (e' : Entrada) (n : ℕ)
        → EsValida e'
        → MismaClase e e'
        → n + uso p e ≡ fs.espacio_total_ocupado_fs + uso p e'
        → n ≤ p.max_espacio_fs
        → Mantiene p fs (record (volver e') { espacio_total_ocupado_fs = n })
    cambio-Mantiene e' n v k balance fits = record {
      valido = record {
        arbol = (h.cambio e' v k).0;
        raiz_directorio = (h.cambio e' v k).1;
        cubre = omega (arith, valido.cubre, balance, h.uso_cambio e' k, h.cabe);
        dentro_del_maximo = fits;
      };
      cuenta = omega (arith, balance, h.uso_cambio e' k, h.cabe);
    }

    -- The entry is replaced by one of the same use.
    pub igual-Mantiene :
        (e' : Entrada)
        → EsValida e'
        → MismaClase e e'
        → uso p e' ≡ uso p e
        → Mantiene p fs (volver e')
    igual-Mantiene e' v k same =
        ausente-Mantiene (volver e') (h.cambio e' v k, omega (arith, h.uso_cambio e' k, same))

    pub quieto-Mantiene : Mantiene p fs (volver e)
    quieto-Mantiene = igual-Mantiene e h.valida h.clase refl

    -- An error return that changes no entry.
    pub quieto-Crece : Mantiene p fs (volver e) × (uso p (volver e).raiz ≡ uso p fs.raiz + 0)
    quieto-Crece = (quieto-Mantiene, omega (arith, h.uso_cambio e h.clase))

    -- The counter that the handlers read is the one of the state before the search.
    pub mismo_espacio : (volver e).espacio_total_ocupado_fs ≡ fs.espacio_total_ocupado_fs
    mismo_espacio = (h.cambio e h.valida h.clase).2
