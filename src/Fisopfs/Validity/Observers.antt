-- ===== src/Fisopfs/Validity/Observers.antt =====
-- fisopfs_getattr, fisopfs_readdir and fisopfs_utimens (fisopfs/fisopfs.c) on well-formed states.
use sistemas_operativos_fiub.Common.{ℕ, ◌≡◌, refl, some, List, [], ◌∷◌, if_both, Texto}
use sistemas_operativos_fiub.Fisopfs.Tree.{
  vacia, archivo, directorio, invalida, Entradas, nil, cons, Fs, Codigo, Entorno, Plataforma,
}
use sistemas_operativos_fiub.Fisopfs.Lookup.{
  Busqueda, hallada, ausente, colapso, encontrar_entrada, tocar_atime,
}
use sistemas_operativos_fiub.Fisopfs.Outcome.{path_largo}
use sistemas_operativos_fiub.Fisopfs.Handlers.Attributes.{
  fisopfs_getattr, fisopfs_readdir, fisopfs_utimens, getattr_en, nombres, readdir_en, utimens_en,
  con_tiempos,
}
use sistemas_operativos_fiub.Fisopfs.Validity.{EsValido, SonValidas, uso}
use sistemas_operativos_fiub.Fisopfs.Validity.Search.{Vale, ValeFs, uso_fs, encontrar_entrada-Vale}
use sistemas_operativos_fiub.Fisopfs.Validity.Keeps.{
  Mantiene, Cumple, EsAusente, Mantiene-refl, quieto-Mantiene, igual-Mantiene, ausente-Mantiene,
}

-- The names of well-formed slots can all be read.
nombres-SonValidas : (es : Entradas) → SonValidas es → (ns : List Texto) × (nombres es ≡ some ns)
unfolding nombres
nombres-SonValidas nil v = ([], refl)
nombres-SonValidas (cons vacia es) v = nombres-SonValidas es (v.1)
nombres-SonValidas (cons invalida es) v = absurd (v.0)
nombres-SonValidas (cons (archivo f) es) v =
    let (ns, eq) = nombres-SonValidas es (v.1) in (f.nombre ∷ ns, rw eq refl)
nombres-SonValidas (cons (directorio c hs) es) v =
    let (ns, eq) = nombres-SonValidas es (v.1) in (c.nombre ∷ ns, rw eq refl)

module _ (p : Plataforma) (env : Entorno) (fs : Fs) (valido : EsValido p fs) where
  -- Whatever the handler shows, the state is kept.
  abbrev Muestra : {A : Type 0} → (Codigo × A) → Fs → Type 0
  Muestra r fs' = Mantiene p fs fs'

  getattr_en-Muestra :
      (b : Busqueda Fs)
      → Vale p (ValeFs p fs) (uso_fs p) (uso p fs.raiz) b
      → Cumple Muestra ⊥ (getattr_en b)
  unfolding getattr_en
  getattr_en-Muestra (hallada e volver) h = quieto-Mantiene p fs valido e volver h
  getattr_en-Muestra (ausente fs') h = ausente-Mantiene p fs valido fs' h
  getattr_en-Muestra colapso h = h

  -- In a well-formed state fisopfs_getattr does not break down and leaves a well-formed state with
  -- the space counter and the use of the tree in step.
  pub getattr-Mantiene :
      (path : Texto) → Cumple (λ r fs'. Mantiene p fs fs') ⊥ (fisopfs_getattr env fs path)
  unfolding fisopfs_getattr
  getattr-Mantiene path =
      if_both (Cumple Muestra ⊥) (path_largo path) _ _ (Mantiene-refl p fs valido) (
        getattr_en-Muestra _
          (encontrar_entrada-Vale p env.ahora fs path valido.arbol valido.raiz_directorio))

  readdir_en-Muestra :
      (b : Busqueda Fs)
      → Vale p (ValeFs p fs) (uso_fs p) (uso p fs.raiz) b
      → Cumple Muestra (EsAusente b) (readdir_en env b)
  unfolding readdir_en uso
  readdir_en-Muestra (hallada (directorio c es) volver) h =
      let (ns, eq) = nombres-SonValidas es h.valida.2 in
      rw (Cumple, eq)
        (igual-Mantiene p fs valido (directorio c es) volver h
          (directorio (tocar_atime env.ahora c) es) h.valida tt refl)
  readdir_en-Muestra (hallada vacia volver) h = quieto-Mantiene p fs valido _ volver h
  readdir_en-Muestra (hallada (archivo f) volver) h = quieto-Mantiene p fs valido _ volver h
  readdir_en-Muestra (hallada invalida volver) h = quieto-Mantiene p fs valido _ volver h
  readdir_en-Muestra (ausente fs') h = tt
  readdir_en-Muestra colapso h = h

  utimens_en-Muestra :
      (t : ℕ) (b : Busqueda Fs)
      → Vale p (ValeFs p fs) (uso_fs p) (uso p fs.raiz) b
      → Cumple (λ r fs'. Mantiene p fs fs') ⊥ (utimens_en t b)
  unfolding utimens_en uso
  utimens_en-Muestra t (hallada (directorio c es) volver) h =
      igual-Mantiene p fs valido (directorio c es) volver h
        (directorio (record c { st = con_tiempos t c.st }) es) h.valida tt refl
  utimens_en-Muestra t (hallada vacia volver) h = quieto-Mantiene p fs valido _ volver h
  utimens_en-Muestra t (hallada (archivo f) volver) h =
      igual-Mantiene p fs valido (archivo f) volver h
        (archivo (record f { st = con_tiempos t f.st })) h.valida tt refl
  utimens_en-Muestra t (hallada invalida volver) h = quieto-Mantiene p fs valido _ volver h
  utimens_en-Muestra t (ausente fs') h = ausente-Mantiene p fs valido fs' h
  utimens_en-Muestra t colapso h = h

  -- In a well-formed state fisopfs_readdir leaves a well-formed state with the space counter and
  -- the use of the tree in step. It breaks down only if the search finds nothing under the path.
  pub readdir-Mantiene :
      (path : Texto)
      → Cumple
          (λ r fs'. Mantiene p fs fs')
          (EsAusente (encontrar_entrada env.ahora fs path))
          (fisopfs_readdir env fs path)
  unfolding fisopfs_readdir
  readdir-Mantiene path =
      if_both (Cumple Muestra (EsAusente (encontrar_entrada env.ahora fs path))) (path_largo path) _
        _ (Mantiene-refl p fs valido)
        (readdir_en-Muestra _
          (encontrar_entrada-Vale p env.ahora fs path valido.arbol valido.raiz_directorio))

  -- In a well-formed state fisopfs_utimens does not break down and leaves a well-formed state with
  -- the space counter and the use of the tree in step.
  pub utimens-Mantiene :
      (path : Texto) (ts0 ts1 : ℕ)
      → Cumple (λ r fs'. Mantiene p fs fs') ⊥ (fisopfs_utimens env fs path ts0 ts1)
  unfolding fisopfs_utimens
  utimens-Mantiene path ts0 ts1 =
      if_both (Cumple (λ (r : Codigo) fs'. Mantiene p fs fs') ⊥) (path_largo path) _ _
        (Mantiene-refl p fs valido)
        (utimens_en-Muestra ts0 _
          (encontrar_entrada-Vale p env.ahora fs path valido.arbol valido.raiz_directorio))
