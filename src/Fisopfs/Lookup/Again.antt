-- ===== src/Fisopfs/Lookup/Again.antt =====
-- A search by the same path finds what was put in the place of what it found.
use sistemas_operativos_fiub.Common.{
  ℕ, ◌≡◌, refl, ◌∙◌, ap, true, false, Option, none, some, ◌∷◌, [], if_split, Bool-cases, inl, inr,
  drop, Texto, str_eq,
}
use sistemas_operativos_fiub.Fisopfs.Paths.{barra, dividir_path_en_dos}
use sistemas_operativos_fiub.Fisopfs.Tree.{
  Cabecera, Archivo, Entrada, vacia, archivo, directorio, invalida, Entradas, nil, cons, Fs,
}
use sistemas_operativos_fiub.Fisopfs.Lookup.{
  Busqueda, hallada, ausente, colapso, dentro, tocar_atime, encontrar_en, encontrar_entrada_rec,
  encontrar_entrada, con_raiz,
}

-- Two files of one name, or two directories of one name.
abbrev pub MismaEtiqueta : Entrada → Entrada → Type 0
MismaEtiqueta (archivo f) (archivo g) = g.nombre ≡ f.nombre
MismaEtiqueta (directorio c es) (directorio d fs) = d.nombre ≡ c.nombre
MismaEtiqueta _ _ = ⊥

-- The search finds this entry.
abbrev pub Encuentra : {S : Type 0} → Entrada → Busqueda S → Type 0
Encuentra e' (hallada e volver) = e ≡ e'
Encuentra e' (ausente s) = ⊥
Encuentra e' colapso = ⊥

pub Encuentra-dentro :
    {S T : Type 0} (f : S → T) (e' : Entrada) (b : Busqueda S)
    → Encuentra e' b
    → Encuentra e' (dentro f b)
Encuentra-dentro f e' (hallada e volver) h = h
Encuentra-dentro f e' (ausente s) h = h
Encuentra-dentro f e' colapso h = h

-- A second search `otra` finds the entry that replaced the one found first.
abbrev pub Reencuentra : {S : Type 0} → (S → Busqueda S) → Busqueda S → Type 0
Reencuentra otra (hallada e volver) =
    (e' : Entrada) → MismaEtiqueta e e' → Encuentra e' (otra (volver e'))
Reencuentra otra (ausente s) = Unit
Reencuentra otra colapso = Unit

pub Reencuentra-dentro :
    {S T : Type 0} (f : S → T) (otra : S → Busqueda S) (fuera : T → Busqueda T) (b : Busqueda S)
    → ((s : S) (e : Entrada) → Encuentra e (otra s) → Encuentra e (fuera (f s)))
    → Reencuentra otra b
    → Reencuentra fuera (dentro f b)
Reencuentra-dentro f otra fuera (hallada e volver) up h = λ e' k. up (volver e') e' (h e' k)
Reencuentra-dentro f otra fuera (ausente s) up h = tt
Reencuentra-dentro f otra fuera colapso up h = tt

abbrev TieneNombre : Texto → Entrada → Type 0
TieneNombre a (archivo f) = str_eq f.nombre a ≡ true
TieneNombre a (directorio c es) = str_eq c.nombre a ≡ true
TieneNombre a _ = ⊥

module _ (t t' : ℕ) where
  -- An entry of another name, or none, is passed over again.
  salta :
      (a : Texto) (resto : Option Texto) (e : Entrada) (es : Entradas)
      → ((s : Entradas)
          → encontrar_en t' a resto (cons e s) ≡ dentro (cons e) (encontrar_en t' a resto s))
      → Reencuentra (encontrar_en t' a resto) (encontrar_en t a resto es)
      → Reencuentra (encontrar_en t' a resto) (dentro (cons e) (encontrar_en t a resto es))
  salta a resto e es skip h =
      Reencuentra-dentro (cons e) (encontrar_en t' a resto) (encontrar_en t' a resto)
        (encontrar_en t a resto es)
        (λ s e' k. rw (skip s) (Encuentra-dentro (cons e) e' (encontrar_en t' a resto s) k)) h

  otra_archivo :
      (a : Texto) (resto : Option Texto) (f : Archivo) (s : Entradas)
      → str_eq f.nombre a ≡ false
      → encontrar_en t' a resto (cons (archivo f) s)
        ≡ dentro (cons (archivo f)) (encontrar_en t' a resto s)
  unfolding encontrar_en
  otra_archivo a resto f s h = rw h

  otra_directorio :
      (a : Texto) (resto : Option Texto) (c : Cabecera) (hs s : Entradas)
      → str_eq c.nombre a ≡ false
      → encontrar_en t' a resto (cons (directorio c hs) s)
        ≡ dentro (cons (directorio c hs)) (encontrar_en t' a resto s)
  unfolding encontrar_en
  otra_directorio a resto c hs s h = rw h

  -- What replaced the entry at the head of the slots.
  cabeza :
      (a : Texto) (e e' : Entrada) (es : Entradas)
      → MismaEtiqueta e e'
      → TieneNombre a e
      → Encuentra e' (encontrar_en t' a none (cons e' es))
  unfolding encontrar_en
  cabeza a (archivo f) (archivo g) es k h =
      let n : str_eq g.nombre a ≡ true = ap (λ b. str_eq b a) k ∙ h in rw n refl
  cabeza a (directorio c hs) (directorio d ds) es k h =
      let n : str_eq d.nombre a ≡ true = ap (λ b. str_eq b a) k ∙ h in rw n refl
  cabeza a (archivo f) _ es k h = absurd k
  cabeza a (directorio c hs) _ es k h = absurd k
  cabeza a vacia _ es k h = absurd h
  cabeza a invalida _ es k h = absurd h

  -- The search goes down into the directory at the head again.
  baja :
      (a r : Texto) (c : Cabecera) (es s : Entradas)
      → str_eq c.nombre a ≡ true
      → (e : Entrada)
      → Encuentra e (encontrar_en t' (dividir_path_en_dos r).0 (dividir_path_en_dos r).1 s)
      → Encuentra e (encontrar_en t' a (some r) (cons (directorio (tocar_atime t c) s) es))
  unfolding encontrar_en
  baja a r c es s same e h =
      rw same
        (Encuentra-dentro (λ hs. cons (directorio (tocar_atime t' (tocar_atime t c)) hs) es) e _ h)

  pub encontrar_en-Reencuentra :
      (a : Texto) (resto : Option Texto) (es : Entradas)
      → Reencuentra (encontrar_en t' a resto) (encontrar_en t a resto es)
  unfolding encontrar_en
  encontrar_en-Reencuentra a resto nil = tt
  encontrar_en-Reencuentra a resto (cons vacia es) =
      salta a resto vacia es (λ s. refl) (encontrar_en-Reencuentra a resto es)
  encontrar_en-Reencuentra a resto (cons invalida es) = tt
  encontrar_en-Reencuentra a none (cons (archivo f) es) =
      if_split (Reencuentra (encontrar_en t' a none)) (str_eq f.nombre a) _ _
        (λ same e' k. cabeza a (archivo f) e' es k same)
        (λ differ.
          salta a none (archivo f) es (λ s. otra_archivo a none f s differ)
            (encontrar_en-Reencuentra a none es))
  encontrar_en-Reencuentra a (some r) (cons (archivo f) es) =
      if_split (Reencuentra (encontrar_en t' a (some r))) (str_eq f.nombre a) _ _ (λ same. tt)
        (λ differ.
          salta a (some r) (archivo f) es (λ s. otra_archivo a (some r) f s differ)
            (encontrar_en-Reencuentra a (some r) es))
  encontrar_en-Reencuentra a none (cons (directorio c hs) es) =
      if_split (Reencuentra (encontrar_en t' a none)) (str_eq c.nombre a) _ _
        (λ same e' k. cabeza a (directorio c hs) e' es k same)
        (λ differ.
          salta a none (directorio c hs) es (λ s. otra_directorio a none c hs s differ)
            (encontrar_en-Reencuentra a none es))
  encontrar_en-Reencuentra a (some r) (cons (directorio c hs) es) =
      if_split (Reencuentra (encontrar_en t' a (some r))) (str_eq c.nombre a) _ _
        (λ same.
          Reencuentra-dentro (λ s. cons (directorio (tocar_atime t c) s) es)
            (encontrar_en t' (dividir_path_en_dos r).0 (dividir_path_en_dos r).1)
            (encontrar_en t' a (some r))
            (encontrar_en t (dividir_path_en_dos r).0 (dividir_path_en_dos r).1 hs)
            (λ s e h. baja a r c es s same e h)
            (encontrar_en-Reencuentra (dividir_path_en_dos r).0 (dividir_path_en_dos r).1 hs))
        (λ differ.
          salta a (some r) (directorio c hs) es (λ s. otra_directorio a (some r) c hs s differ)
            (encontrar_en-Reencuentra a (some r) es))

  recursiva-Reencuentra :
      (a : Texto) (resto : Option Texto) (e : Entrada)
      → Reencuentra (encontrar_entrada_rec t' a resto) (encontrar_entrada_rec t a resto e)
  unfolding encontrar_entrada_rec
  recursiva-Reencuentra a resto (directorio c es) =
      Reencuentra-dentro (directorio (tocar_atime t c)) (encontrar_en t' a resto)
        (encontrar_entrada_rec t' a resto) (encontrar_en t a resto es)
        (λ s e h. Encuentra-dentro (directorio (tocar_atime t' (tocar_atime t c))) e _ h)
        (encontrar_en-Reencuentra a resto es)
  recursiva-Reencuentra a resto vacia = tt
  recursiva-Reencuentra a resto (archivo f) = tt
  recursiva-Reencuentra a resto invalida = tt

  -- When a search by a path finds an entry and one with the same name and type takes its place, a
  -- search by the same path, at any other second, finds the new one.
  pub encontrar_entrada-Reencuentra :
      (path : Texto) (fs : Fs)
      → Reencuentra (λ s. encontrar_entrada t' s path) (encontrar_entrada t fs path)
  unfolding encontrar_entrada
  encontrar_entrada-Reencuentra path fs =
      if_split (Reencuentra (λ s. encontrar_entrada t' s path)) (str_eq path (barra ∷ [])) _ _
        (λ root e' k. rw root refl)
        (λ other.
          Reencuentra-dentro (con_raiz fs)
            (encontrar_entrada_rec t' (dividir_path_en_dos (drop 1 path)).0
              (dividir_path_en_dos (drop 1 path)).1)
            (λ s. encontrar_entrada t' s path) _
            (λ s e h. rw other (Encuentra-dentro (con_raiz (con_raiz fs s)) e _ h))
            (recursiva-Reencuentra _ _ fs.raiz))

otra_espacio :
    (t : ℕ) (fs fs' : Fs) (e : Entrada) (b : Busqueda Entrada)
    → Encuentra e (dentro (con_raiz fs') b)
    → Encuentra e (dentro (con_raiz fs) b)
otra_espacio t fs fs' e (hallada x volver) h = h
otra_espacio t fs fs' e (ausente s) h = h
otra_espacio t fs fs' e colapso h = h

-- The space counter plays no part in a search.
pub Encuentra-espacio :
    (t n : ℕ) (path : Texto) (e : Entrada) (fs : Fs)
    → Encuentra e (encontrar_entrada t fs path)
    → Encuentra e (encontrar_entrada t (record fs { espacio_total_ocupado_fs = n }) path)
unfolding encontrar_entrada
Encuentra-espacio t n path e fs = elim (Bool-cases (str_eq path (barra ∷ []))) [
  | inl root ↦ rw root (λ h. h)
  | inr other ↦ rw other (otra_espacio t (record fs { espacio_total_ocupado_fs = n }) fs e _)
]
