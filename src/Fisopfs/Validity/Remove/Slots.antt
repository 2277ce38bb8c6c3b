-- ===== src/Fisopfs/Validity/Remove/Slots.antt =====
-- The loops of fisopfs_unlink and fisopfs_rmdir over the slots of a well-formed directory.
use sistemas_operativos_fiub.Common.{
  suc, ◌+◌, ◌⊎◌, inl, inr, ◌≤◌, ◌≡◌, refl, ap, Bool, false, not, arith, if_split, Texto, str_eq,
  str_eq_iff,
}
use sistemas_operativos_fiub.Fisopfs.Tree.{
  Entrada, vacia, archivo, directorio, invalida, Entradas, nil, cons, cantidad_entradas, Plataforma,
}
use sistemas_operativos_fiub.Fisopfs.Directory.{esta_vacio_directorio}
use sistemas_operativos_fiub.Fisopfs.Handlers.Remove.{
  Baja, borrada, no_vacio, sin_memoria, no_esta, ilegible, baja_tras, quitar_archivo,
  quitar_directorio,
}
use sistemas_operativos_fiub.Fisopfs.Validity.{
  EsValida, SonValidas, EsPlataforma, ocupa, ocupadas, uso, uso_entradas,
}
use sistemas_operativos_fiub.Fisopfs.Validity.Remove.Release.{liberar_dir-SonValidas}

-- The second directory is the first one, with the slot of the entry q empty.
pub data Retira (q : Entrada) : Entradas → Entradas → Type 0 where
  este : (es : Entradas) → Retira q (cons q es) (cons vacia es)
  otro :
      (e : Entrada) (es nuevas : Entradas)
      → Retira q es nuevas
      → Retira q (cons e es) (cons e nuevas)

-- A file of that name.
abbrev pub EsArchivo : Texto → Entrada → Type 0
EsArchivo a (archivo f) = f.nombre ≡ a
EsArchivo a _ = ⊥

-- The first slot with an entry that N says is one that P says.
unfoldable pub Quitable : (Entrada → Type 0) → (Entrada → Type 0) → Entradas → Type 0
Quitable N P nil = ⊥
Quitable N P (cons e es) = (N e × P e) ⊎ ((N e → ⊥) × Quitable N P es)

Quitable-otro :
    (N P : Entrada → Type 0) (e : Entrada) (es : Entradas)
    → (N e → ⊥)
    → (Quitable N P es → ⊥)
    → Quitable N P (cons e es)
    → ⊥
unfolding Quitable
Quitable-otro N P e es ajena resto (inl h) = ajena h.0
Quitable-otro N P e es ajena resto (inr h) = resto h.1

Quitable-este :
    (N P : Entrada → Type 0) (e : Entrada) (es : Entradas)
    → N e
    → (P e → ⊥)
    → Quitable N P (cons e es)
    → ⊥
unfolding Quitable
Quitable-este N P e es n llena (inl h) = llena h.1
Quitable-este N P e es n llena (inr h) = h.0 n

module _ (p : Plataforma) where
  -- The removed entry, and the slots after its removal.
  pub record Borrada (P : Entrada → Type 0) (es nuevas : Entradas) : Type 0 where
    pub quitada : Entrada
    pub cual : P quitada
    pub retira : Retira quitada es nuevas
    pub una_menos : suc (ocupadas nuevas) ≡ ocupadas es
    pub misma_cantidad : cantidad_entradas nuevas ≡ cantidad_entradas es
    pub validas : SonValidas nuevas
    pub uso_menos : uso_entradas p nuevas + uso p quitada ≡ uso_entradas p es

  abbrev pub BajaVale : (Entrada → Type 0) → (Entrada → Type 0) → Bool → Entradas → Baja → Type 0
  BajaVale N P hay_memoria es (borrada nuevas) = Borrada P es nuevas
  BajaVale N P hay_memoria es no_vacio = Quitable N P es → ⊥
  BajaVale N P hay_memoria es sin_memoria = hay_memoria ≡ false
  BajaVale N P hay_memoria es no_esta = Quitable N P es → ⊥
  BajaVale N P hay_memoria es ilegible = ⊥

  baja_tras-Vale :
      (N P : Entrada → Type 0) (m : Bool) (e : Entrada) (es : Entradas) (b : Baja)
      → EsValida e
      → (N e → ⊥)
      → BajaVale N P m es b
      → BajaVale N P m (cons e es) (baja_tras e b)
  unfolding ocupadas cantidad_entradas uso
  baja_tras-Vale N P m e es (borrada nuevas) v n h = record {
    quitada = h.quitada;
    cual = h.cual;
    retira = otro e es nuevas h.retira;
    una_menos = omega (arith, h.una_menos);
    misma_cantidad = ap suc h.misma_cantidad;
    validas = (v, h.validas);
    uso_menos = omega (arith, h.uso_menos);
  }
  baja_tras-Vale N P m e es no_vacio v n h = Quitable-otro N P e es n h
  baja_tras-Vale N P m e es sin_memoria v n h = h
  baja_tras-Vale N P m e es no_esta v n h = Quitable-otro N P e es n h
  baja_tras-Vale N P m e es ilegible v n h = h

  Borrada-Vale :
      (P : Entrada → Type 0) (e : Entrada) (es : Entradas)
      → P e
      → ocupa e ≡ 1
      → SonValidas es
      → Borrada P (cons e es) (cons vacia es)
  unfolding ocupadas cantidad_entradas uso
  Borrada-Vale P e es h o v = record {
    quitada = e;
    cual = h;
    retira = este es;
    una_menos = omega arith;
    misma_cantidad = refl;
    validas = (tt, v);
    uso_menos = omega arith;
  }

  pub EsArchivo-uso : (a : Texto) (e : Entrada) → EsArchivo a e → p.sizeof_archivo ≤ uso p e
  unfolding uso
  EsArchivo-uso a (archivo f) h = omega arith
  EsArchivo-uso a vacia h = absurd h
  EsArchivo-uso a (directorio c es) h = absurd h
  EsArchivo-uso a invalida h = absurd h

  pub quitar_archivo-Vale :
      (m : Bool) (a : Texto) (es : Entradas)
      → SonValidas es
      → BajaVale (EsArchivo a) (EsArchivo a) m es (quitar_archivo m a es)
  unfolding quitar_archivo Quitable
  quitar_archivo-Vale m a nil v = λ q. q
  quitar_archivo-Vale m a (cons invalida es) v = absurd (v.0)
  quitar_archivo-Vale m a (cons vacia es) v =
      baja_tras-Vale (EsArchivo a) (EsArchivo a) m vacia es _ tt (λ n. n)
        (quitar_archivo-Vale m a es (v.1))
  quitar_archivo-Vale m a (cons (directorio c hs) es) v =
      baja_tras-Vale (EsArchivo a) (EsArchivo a) m _ es _ (v.0) (λ n. n)
        (quitar_archivo-Vale m a es (v.1))
  quitar_archivo-Vale m a (cons (archivo f) es) v =
      if_split (BajaVale (EsArchivo a) (EsArchivo a) m (cons (archivo f) es)) (str_eq f.nombre a) _
        _
        (λ same.
          if_split (BajaVale (EsArchivo a) (EsArchivo a) m (cons (archivo f) es)) m _ _
            (λ _.
              Borrada-Vale (EsArchivo a) (archivo f) es ((str_eq_iff f.nombre a).0 same) refl (v.1))
            (λ none_left. none_left))
        (λ differs.
          baja_tras-Vale (EsArchivo a) (EsArchivo a) m (archivo f) es _ (v.0)
            (λ n. let same = (str_eq_iff f.nombre a).1 n in cc) (quitar_archivo-Vale m a es (v.1)))

  uso_sin_ocupadas : (es : Entradas) → SonValidas es → ocupadas es ≡ 0 → uso_entradas p es ≡ 0
  unfolding ocupadas uso
  uso_sin_ocupadas nil v h = refl
  uso_sin_ocupadas (cons vacia es) v h = omega (arith, uso_sin_ocupadas es (v.1) (omega arith))
  uso_sin_ocupadas (cons invalida es) v h = absurd (v.0)
  uso_sin_ocupadas (cons (archivo f) es) v h = absurd (omega arith)
  uso_sin_ocupadas (cons (directorio c hs) es) v h = absurd (omega arith)

  -- A directory of that name in which nothing is.
  abbrev pub EsDirVacio : Texto → Entrada → Type 0
  EsDirVacio a (directorio c es) =
      (c.nombre ≡ a) × (c.cantidad_entradas_ocupadas ≡ 0) × (uso_entradas p es ≡ 0)
  EsDirVacio a _ = ⊥

  pub EsDirVacio-uso : (a : Texto) (e : Entrada) → EsDirVacio a e → uso p e ≡ p.sizeof_directorio
  unfolding uso
  EsDirVacio-uso a (directorio c es) h = omega (arith, h.2)
  EsDirVacio-uso a vacia h = absurd h
  EsDirVacio-uso a (archivo f) h = absurd h
  EsDirVacio-uso a invalida h = absurd h

  -- A directory of that name.
  abbrev pub EsDirectorio : Texto → Entrada → Type 0
  EsDirectorio a (directorio c es) = c.nombre ≡ a
  EsDirectorio a _ = ⊥

  pub quitar_directorio-Vale :
      (m : Bool) (a : Texto) (es : Entradas)
      → SonValidas es
      → BajaVale (EsDirectorio a) (EsDirVacio a) m es (quitar_directorio m a es)
  unfolding quitar_directorio Quitable
  quitar_directorio-Vale m a nil v = λ q. q
  quitar_directorio-Vale m a (cons invalida es) v = absurd (v.0)
  quitar_directorio-Vale m a (cons vacia es) v =
      baja_tras-Vale (EsDirectorio a) (EsDirVacio a) m vacia es _ tt (λ n. n)
        (quitar_directorio-Vale m a es (v.1))
  quitar_directorio-Vale m a (cons (archivo f) es) v =
      baja_tras-Vale (EsDirectorio a) (EsDirVacio a) m _ es _ (v.0) (λ n. n)
        (quitar_directorio-Vale m a es (v.1))
  quitar_directorio-Vale m a (cons (directorio c hs) es) v =
      let V = BajaVale (EsDirectorio a) (EsDirVacio a) m (cons (directorio c hs) es) in
      if_split V (str_eq c.nombre a) _ _
        (λ same.
          if_split V (not (esta_vacio_directorio c)) _ _
            (λ full.
              Quitable-este (EsDirectorio a) (EsDirVacio a) (directorio c hs) es
                ((str_eq_iff c.nombre a).0 same)
                (λ k. let none_left = k.1 in absurd (ground arith)))
            (λ empty.
              if_split V (not m) _ _ (λ no_memory. ground arith)
                (λ _. rw (liberar_dir-SonValidas hs (v.0.2)) (
                  Borrada-Vale (EsDirVacio a) (directorio c hs) es
                    (
                      (str_eq_iff c.nombre a).0 same,
                      ground arith,
                      uso_sin_ocupadas hs (v.0.2) (ground (arith, v.0.0)),
                    )
                    refl (v.1)))))
        (λ differs.
          baja_tras-Vale (EsDirectorio a) (EsDirVacio a) m _ es _ (v.0)
            (λ n. let same = (str_eq_iff c.nombre a).1 n in cc)
            (quitar_directorio-Vale m a es (v.1)))

  -- Every occupied entry uses a byte at least.
  pub ocupadas-le-uso : EsPlataforma p → (es : Entradas) → ocupadas es ≤ uso_entradas p es
  unfolding ocupadas uso
  ocupadas-le-uso q nil = omega arith
  ocupadas-le-uso q (cons vacia es) = omega (arith, ocupadas-le-uso q es)
  ocupadas-le-uso q (cons invalida es) = omega (arith, ocupadas-le-uso q es)
  ocupadas-le-uso q (cons (archivo f) es) = omega (arith, ocupadas-le-uso q es, q.con_archivo)
  ocupadas-le-uso q (cons (directorio c hs) es) =
      omega (arith, ocupadas-le-uso q es, q.con_directorio)
