-- ===== src/Fisopfs/Validity/Search.antt =====
-- encontrar_entrada keeps the tree well formed, finds files and directories only, and what it
-- finds can be replaced by a well-formed entry of the same kind.
use sistemas_operativos_fiub.Common.{
  ℕ, suc, ◌+◌, ◌≤◌, ◌≡◌, refl, ap, Option, none, some, arith, if_both, Texto, str_eq, ◌∷◌, [],
}
use sistemas_operativos_fiub.Fisopfs.Paths.{barra, dividir_path_en_dos}
use sistemas_operativos_fiub.Fisopfs.Tree.{
  Cabecera, Entrada, vacia, archivo, directorio, invalida, Entradas, nil, cons, cantidad_entradas,
  Fs, Plataforma,
}
use sistemas_operativos_fiub.Fisopfs.Lookup.{
  Busqueda, hallada, ausente, colapso, dentro, tocar_atime, encontrar_en, encontrar_entrada_rec,
  encontrar_entrada, con_raiz,
}
use sistemas_operativos_fiub.Fisopfs.Validity.{
  EsValida, SonValidas, ocupa, ocupadas, uso, uso_entradas, EsDirectorio,
}

-- Both are files, or both are directories.
abbrev pub MismaClase : Entrada → Entrada → Type 0
MismaClase (archivo f) (archivo g) = Unit
MismaClase (directorio c es) (directorio d fs) = Unit
MismaClase _ _ = ⊥

pub MismaClase-ocupa : (e e' : Entrada) → MismaClase e e' → ocupa e' ≡ ocupa e
MismaClase-ocupa (archivo f) (archivo g) h = refl
MismaClase-ocupa (archivo f) _ h = absurd h
MismaClase-ocupa (directorio c es) (directorio d fs) h = refl
MismaClase-ocupa (directorio c es) _ h = absurd h
MismaClase-ocupa vacia _ h = absurd h
MismaClase-ocupa invalida _ h = absurd h

module _ (p : Plataforma) where
  -- `V` is what a whole must satisfy, `U` what it uses, `u` what it used before the search.
  pub record HalladaVale {S : Type 0} (V : S → Type 0) (U : S → ℕ) (u : ℕ) (e : Entrada)
      (volver : Entrada → S) : Type 0 where
    pub valida : EsValida e
    pub clase : MismaClase e e
    pub cabe : uso p e ≤ u
    pub cambio : (e' : Entrada) → EsValida e' → MismaClase e e' → V (volver e')
    pub uso_cambio : (e' : Entrada) → MismaClase e e' → U (volver e') + uso p e ≡ u + uso p e'

  abbrev pub Vale : {S : Type 0} → (S → Type 0) → (S → ℕ) → ℕ → Busqueda S → Type 0
  Vale V U u (hallada e volver) = HalladaVale V U u e volver
  Vale V U u (ausente s) = V s × (U s ≡ u)
  Vale V U u colapso = ⊥

  -- A search inside a part, seen from the whole.
  pub dentro-Vale :
      {S T : Type 0} (f : S → T) (V : S → Type 0) (U : S → ℕ) (W : T → Type 0) (X : T → ℕ)
      (u d w : ℕ)
      → w ≡ d + u
      → ((s : S) → V s → W (f s))
      → ((s : S) → X (f s) ≡ d + U s)
      → (b : Busqueda S) → Vale V U u b
      → Vale W X w (dentro f b)
  dentro-Vale f V U W X u d w eq keep size (hallada e volver) h = record {
    valida = h.valida;
    clase = h.clase;
    cabe = omega (arith, h.cabe);
    cambio = λ e' v k. keep (volver e') (h.cambio e' v k);
    uso_cambio = λ e' k. omega (arith, size (volver e'), h.uso_cambio e' k);
  }
  dentro-Vale f V U W X u d w eq keep size (ausente s) h =
      (keep s (h.0), omega (arith, size s, h.1))
  dentro-Vale f V U W X u d w eq keep size colapso h = h

  -- The slots of a directory after a search: as many, and as many occupied.
  abbrev pub MismosHuecos : Entradas → Entradas → Type 0
  MismosHuecos es es' =
      SonValidas es' × (ocupadas es' ≡ ocupadas es) × (cantidad_entradas es' ≡ cantidad_entradas es)

  abbrev EsRaiz : Entrada → Type 0
  EsRaiz e = EsValida e × EsDirectorio e

  abbrev ValeEn : Entradas → Busqueda Entradas → Type 0
  ValeEn es = Vale (MismosHuecos es) (uso_entradas p) (uso_entradas p es)

  hallada-ValeEn :
      (e : Entrada) (es : Entradas)
      → MismaClase e e
      → SonValidas (cons e es)
      → ValeEn (cons e es) (hallada e (λ e'. cons e' es))
  unfolding uso ocupadas cantidad_entradas
  hallada-ValeEn e es k v = record {
    valida = v.0;
    clase = k;
    cabe = omega arith;
    cambio = λ e' w m. ((w, v.1), rw (MismaClase-ocupa e e' m) refl, refl);
    uso_cambio = λ e' m. omega arith;
  }

  siguientes-ValeEn :
      (e : Entrada) (es : Entradas) (b : Busqueda Entradas)
      → EsValida e
      → ValeEn es b
      → ValeEn (cons e es) (dentro (cons e) b)
  unfolding uso ocupadas cantidad_entradas
  siguientes-ValeEn e es b v h =
      dentro-Vale (cons e) (MismosHuecos es) (uso_entradas p) (MismosHuecos (cons e es))
        (uso_entradas p) (uso_entradas p es) (uso p e) _ refl
        (λ s k. ((v, k.0), rw (k.1) refl, ap suc (k.2))) (λ s. refl) b h

  -- The search in a directory below, seen from the directory above.
  subdirectorio-ValeEn :
      (t : ℕ) (c : Cabecera) (hijos es : Entradas) (b : Busqueda Entradas)
      → SonValidas (cons (directorio c hijos) es)
      → ValeEn hijos b
      → ValeEn
          (cons (directorio c hijos) es)
          (dentro (λ hs. cons (directorio (tocar_atime t c) hs) es) b)
  unfolding uso ocupadas cantidad_entradas
  subdirectorio-ValeEn t c hijos es b v h =
      dentro-Vale (λ hs. cons (directorio (tocar_atime t c) hs) es) (MismosHuecos hijos)
        (uso_entradas p) (MismosHuecos (cons (directorio c hijos) es)) (uso_entradas p)
        (uso_entradas p hijos) (p.sizeof_directorio + uso_entradas p es) _ (omega arith)
        (λ s k.
          (((omega (arith, k.1, v.0.0), omega (arith, k.1, k.2, v.0.1), k.0), v.1), refl, refl))
        (λ s. omega arith) b h

  pub encontrar_en-Vale :
      (t : ℕ) (a : Texto) (resto : Option Texto) (es : Entradas)
      → SonValidas es
      → ValeEn es (encontrar_en t a resto es)
  unfolding encontrar_en
  encontrar_en-Vale t a resto nil v = ((tt, refl, refl), refl)
  encontrar_en-Vale t a resto (cons vacia es) v =
      siguientes-ValeEn vacia es _ tt (encontrar_en-Vale t a resto es (v.1))
  encontrar_en-Vale t a resto (cons invalida es) v = absurd (v.0)
  encontrar_en-Vale t a none (cons (archivo f) es) v =
      if_both (ValeEn (cons (archivo f) es)) (str_eq f.nombre a) _ _
        (hallada-ValeEn (archivo f) es tt v)
        (siguientes-ValeEn (archivo f) es _ (v.0) (encontrar_en-Vale t a none es (v.1)))
  encontrar_en-Vale t a (some r) (cons (archivo f) es) v =
      if_both (ValeEn (cons (archivo f) es)) (str_eq f.nombre a) _ _ ((v, refl, refl), refl)
        (siguientes-ValeEn (archivo f) es _ (v.0) (encontrar_en-Vale t a (some r) es (v.1)))
  encontrar_en-Vale t a none (cons (directorio c hijos) es) v =
      if_both (ValeEn (cons (directorio c hijos) es)) (str_eq c.nombre a) _ _
        (hallada-ValeEn (directorio c hijos) es tt v)
        (siguientes-ValeEn (directorio c hijos) es _ (v.0) (encontrar_en-Vale t a none es (v.1)))
  encontrar_en-Vale t a (some r) (cons (directorio c hijos) es) v =
      if_both (ValeEn (cons (directorio c hijos) es)) (str_eq c.nombre a) _ _
        (subdirectorio-ValeEn t c hijos es _ v
          (encontrar_en-Vale t (dividir_path_en_dos r).0 (dividir_path_en_dos r).1 hijos (v.0.2)))
        (siguientes-ValeEn (directorio c hijos) es _ (v.0)
          (encontrar_en-Vale t a (some r) es (v.1)))

  -- What a whole state keeps through a search and a replacement of what was found.
  abbrev pub ValeFs : Fs → Fs → Type 0
  ValeFs fs fs' =
      EsValida fs'.raiz
      × EsDirectorio fs'.raiz
      × (fs'.espacio_total_ocupado_fs ≡ fs.espacio_total_ocupado_fs)

  abbrev pub uso_fs : Fs → ℕ
  uso_fs fs = uso p fs.raiz

  raiz-ValeFs :
      (fs : Fs) (e e' : Entrada)
      → EsDirectorio e
      → EsValida e'
      → MismaClase e e'
      → ValeFs fs (con_raiz fs e')
  raiz-ValeFs fs (directorio c es) (directorio d fs') h v k = (v, tt, refl)
  raiz-ValeFs fs (directorio c es) _ h v k = absurd k
  raiz-ValeFs fs vacia _ h v k = absurd h
  raiz-ValeFs fs (archivo f) _ h v k = absurd h
  raiz-ValeFs fs invalida _ h v k = absurd h

  EsDirectorio-MismaClase : (e : Entrada) → EsDirectorio e → MismaClase e e
  EsDirectorio-MismaClase (directorio c es) h = tt
  EsDirectorio-MismaClase vacia h = h
  EsDirectorio-MismaClase (archivo f) h = absurd h
  EsDirectorio-MismaClase invalida h = h

  recursiva-ValeFs :
      (t : ℕ) (fs : Fs) (a : Texto) (resto : Option Texto) (e : Entrada)
      → EsValida e
      → EsDirectorio e
      → Vale (ValeFs fs) uso_fs (uso p e) (dentro (con_raiz fs) (encontrar_entrada_rec t a resto e))
  unfolding encontrar_entrada_rec uso
  recursiva-ValeFs t fs a resto (directorio c es) v h =
      dentro-Vale (con_raiz fs) EsRaiz (uso p) (ValeFs fs) uso_fs _ 0 _ (omega arith)
        (λ s k. (k.0, k.1, refl)) (λ s. omega arith) _
        (dentro-Vale (directorio (tocar_atime t c)) (MismosHuecos es) (uso_entradas p) EsRaiz
          (uso p) _ p.sizeof_directorio _ refl
          (λ s k. ((omega (arith, k.1, v.0), omega (arith, k.1, k.2, v.1), k.0), tt)) (λ s. refl) _
          (encontrar_en-Vale t a resto es (v.2)))
  recursiva-ValeFs t fs a resto vacia v h = absurd h
  recursiva-ValeFs t fs a resto (archivo f) v h = absurd h
  recursiva-ValeFs t fs a resto invalida v h = absurd h

  -- A search by path in a well-formed tree never follows an invalid pointer and changes neither the
  -- space counter nor what the tree uses. What it finds is well formed; with a well-formed entry of
  -- the same kind in its place the whole is well formed and its use changes by what the entry's
  -- does.
  pub encontrar_entrada-Vale :
      (t : ℕ) (fs : Fs) (path : Texto)
      → EsValida fs.raiz
      → EsDirectorio fs.raiz
      → Vale (ValeFs fs) uso_fs (uso p fs.raiz) (encontrar_entrada t fs path)
  unfolding encontrar_entrada
  encontrar_entrada-Vale t fs path v h =
      if_both (Vale (ValeFs fs) uso_fs (uso p fs.raiz)) (str_eq path (barra ∷ [])) _ _
        (record {
          valida = v;
          clase = EsDirectorio-MismaClase fs.raiz h;
          cabe = omega arith;
          cambio = λ e' w k. raiz-ValeFs fs fs.raiz e' h w k;
          uso_cambio = λ e' k. omega arith;
        })
        (recursiva-ValeFs t fs _ _ fs.raiz v h)
