-- ===== src/Fisopfs/Disk/RoundTrip.antt =====
-- fisopfs_flush followed by fisopfs_init, while every write and every allocation succeeds.
mod Written
use mathlib.Core.List.{append-nil, append_assoc}
use sistemas_operativos_fiub.Common.{
  ℕ, suc, zero, ◌+◌, ◌-◌, ◌≤◌, ◌<◌, ◌≡◌, refl, sym, ◌∙◌, ap, Bool, true, false, List, [], ◌∷◌, ◌++◌,
  ◌==◌, if◌then◌else◌, if_split, take, arith, Option, none, some, Texto, length, length-append,
  length-take, leb, Bool-cases, inl, inr, ==_iff,
}
use sistemas_operativos_fiub.Fisopfs.Paths.{barra}
use sistemas_operativos_fiub.Fisopfs.Tree.{
  Cabecera, Archivo, Entrada, vacia, archivo, directorio, invalida, Entradas, nil, cons,
  cantidad_entradas, Fs, Codigo, exito, Entorno, Plataforma,
}
use sistemas_operativos_fiub.Fisopfs.Directory.{append, sin_iniciar, llenar_desde}
use sistemas_operativos_fiub.Fisopfs.Directory.Growth.{huecos, llenar_desde-append}
use sistemas_operativos_fiub.Fisopfs.Disk.Write.{
  Registro, r_fs, r_directorio, r_archivo, r_datos, Disco, fwrite,
  escribir_entrada_archivo_en_archivo, escribir_entrada, escribir_entradas,
}
use sistemas_operativos_fiub.Fisopfs.Disk.Read.{
  Lectura, leido, nulo, ilegible, sin_pasos, leer_contenido, crear_entrada_archivo_desde_archivo,
  completar, leer_directorio_con, guardar, tras_directorio, tras_archivo, leer_entradas,
  crear_directorio_desde_archivo,
}
use sistemas_operativos_fiub.Fisopfs.Disk.Mount.{
  montar, cerrar, montado, fisopfs_init, Volcado, disco_vacio, fisopfs_flush,
}
use sistemas_operativos_fiub.Fisopfs.Disk.Compact.{
  bloques_archivo, bloques_en, recortado, compactar_en, compactar_slots, compactar,
  cantidad-compactar_en,
}
use sistemas_operativos_fiub.Fisopfs.Validity.{
  EsValida, SonValidas, ocupa, ocupadas, EsDirectorio, EsValido,
}
use Written.{escribir_entrada_valida}

take_none : (n : ℕ) (bytes : List ℕ) → n ≡ 0 → take n bytes ≡ []
take_none zero bytes h = refl
take_none (suc n) bytes h = absurd (omega arith)

module _ (asigna : ℕ → Bool) (memoria : (k : ℕ) → asigna k ≡ true) where
  -- A reader that succeeds with this value and leaves these blocks.
  abbrev Lee : {A : Type 0} → Lectura A → A → List Registro → Type 0
  Lee l a rs = (k : ℕ) × (l ≡ leido a k rs)

  leer_archivo-Lee :
      (f : Archivo) (k : ℕ) (rest : List Registro)
      → f.st.st_size ≤ length f.contenido
      → Lee
          (crear_entrada_archivo_desde_archivo asigna k (bloques_archivo f ++ rest))
          (recortado f)
          rest
  unfolding crear_entrada_archivo_desde_archivo leer_contenido bloques_archivo
  leer_archivo-Lee f k rest v = elim (Bool-cases (f.st.st_size == 0)) [
    | inl empty ↦ (
      suc k,
      rw (memoria k, empty)
          (ap (λ bs. leido (record f { contenido = bs }) (suc k) rest)
            (sym (take_none f.st.st_size f.contenido ((==_iff f.st.st_size 0).0 empty)))),
    )
    | inr full ↦
        let whole : (length (take f.st.st_size f.contenido) == f.st.st_size) ≡ true =
          (==_iff _ _).1 (length-take f.st.st_size f.contenido v) in
        (suc (suc k), rw (memoria k, full, memoria (suc k), whole))
  ]

  completar-Lee :
      (c : Cabecera) (hs : Entradas) (k : ℕ) (rest : List Registro)
      → EsValida (directorio c hs)
      → Lee
          (completar asigna c (cantidad_entradas hs) (leido (compactar_en hs) k rest))
          (directorio c (compactar_slots hs))
          rest
  unfolding completar compactar_slots
  completar-Lee c hs k rest v =
      let full : c.cantidad_entradas_ocupadas ≡ cantidad_entradas (compactar_en hs) =
        omega (arith, v.0, cantidad-compactar_en hs (v.2)) in
      (
        k + (cantidad_entradas hs - cantidad_entradas (compactar_en hs)),
        rw (
            llenar_desde-append (λ i. asigna (k + i)) c.cantidad_entradas_ocupadas (compactar_en hs)
              (cantidad_entradas hs - cantidad_entradas (compactar_en hs)) full
              (λ i. memoria (k + i))),
      )

  -- The directory is read once its slots are.
  leer_directorio-Lee :
      (c : Cabecera) (hs : Entradas) (leer : ℕ → ℕ → ℕ → List Registro → Lectura Entradas) (k : ℕ)
      (rest : List Registro)
      → EsValida (directorio c hs)
      → Lee
          (leer
            (suc (suc k))
            c.cantidad_entradas_ocupadas
            (cantidad_entradas hs)
            (bloques_en hs ++ rest))
          (compactar_en hs)
          rest
      → Lee
          (leer_directorio_con asigna leer k
            (r_directorio c (cantidad_entradas hs) ∷ (bloques_en hs ++ rest)))
          (directorio c (compactar_slots hs))
          rest
  unfolding leer_directorio_con
  leer_directorio-Lee c hs leer k rest v inner =
      let done = completar-Lee c hs (inner.0) rest v in
      (
        done.0,
        rw (memoria k, memoria (suc k))
            (ap (completar asigna c (cantidad_entradas hs)) (inner.1) ∙ done.1),
      )

  -- The loop reads the blocks of the slots of a directory, whatever follows them in the file.
  leer_entradas-Lee :
      (es : Entradas) (f k j libres : ℕ) (rest : List Registro)
      → SonValidas es
      → j ≡ ocupadas es
      → j ≤ libres
      → length (bloques_en es) < f
      → Lee (leer_entradas asigna f k j libres (bloques_en es ++ rest)) (compactar_en es) rest
  unfolding leer_entradas bloques_en bloques_archivo compactar_en compactar_slots ocupadas
  leer_entradas-Lee es zero k j libres rest v e room fuel = absurd (omega arith)
  leer_entradas-Lee nil (suc f) k zero libres rest v e room fuel = (k, refl)
  leer_entradas-Lee nil (suc f) k (suc j) libres rest v e room fuel = absurd (omega arith)
  leer_entradas-Lee (cons vacia es) (suc f) k j libres rest v e room fuel =
      leer_entradas-Lee es (suc f) k j libres rest (v.1) (omega (arith, e)) room fuel
  leer_entradas-Lee (cons invalida es) (suc f) k j libres rest v e room fuel = absurd (v.0)
  leer_entradas-Lee (cons (archivo g) es) (suc f) k zero libres rest v e room fuel =
      absurd (omega arith)
  leer_entradas-Lee (cons (archivo g) es) (suc f) k (suc j) zero rest v e room fuel =
      absurd (omega arith)
  leer_entradas-Lee (cons (archivo g) es) (suc f) k (suc j) (suc libres) rest v e room fuel =
      let after = bloques_en es ++ rest in
      let one = leer_archivo-Lee g k after (v.0) in
      let more =
        leer_entradas-Lee es f (one.0) j (suc libres - 1) rest (v.1) (omega (arith, e))
          (omega arith) (omega (arith, fuel, length-append (bloques_archivo g) (bloques_en es))) in
      (
        more.0,
        ap (leer_entradas asigna (suc f) k (suc j) (suc libres))
              (append_assoc (bloques_archivo g) (bloques_en es) rest)
            ∙ ap
                (tras_archivo asigna (suc libres)
                  (λ k' rs'. leer_entradas asigna f k' j (suc libres - 1) rs'))
                (one.1)
            ∙ ap (guardar asigna (suc libres) (archivo (recortado g))) (more.1),
      )
  leer_entradas-Lee (cons (directorio c hs) es) (suc f) k zero libres rest v e room fuel =
      absurd (omega arith)
  leer_entradas-Lee (cons (directorio c hs) es) (suc f) k (suc j) zero rest v e room fuel =
      absurd (omega arith)
  leer_entradas-Lee (cons (directorio c hs) es) (suc f) k (suc j) (suc libres) rest v e room fuel =
      let after = bloques_en es ++ rest in
      let inner =
        leer_entradas-Lee hs f (suc (suc k)) c.cantidad_entradas_ocupadas (cantidad_entradas hs)
          after (v.0.2) (v.0.0) (omega (arith, v.0.0, v.0.1))
          (omega (arith, fuel, length-append (bloques_en hs) (bloques_en es))) in
      let one = leer_directorio-Lee c hs (leer_entradas asigna f) k after (v.0) inner in
      let more =
        leer_entradas-Lee es f (one.0) j (suc libres - 1) rest (v.1) (omega (arith, e))
          (omega arith) (omega (arith, fuel, length-append (bloques_en hs) (bloques_en es))) in
      (
        more.0,
        ap
              (λ rs.
                leer_entradas asigna (suc f) k (suc j) (suc libres)
                  (r_directorio c (cantidad_entradas hs) ∷ rs))
              (append_assoc (bloques_en hs) (bloques_en es) rest)
            ∙ ap
                (tras_directorio asigna (suc libres)
                  (λ k' rs'. leer_entradas asigna f k' j (suc libres - 1) rs'))
                (one.1)
            ∙ ap (guardar asigna (suc libres) (directorio c (compactar_slots hs))) (more.1),
      )

flush-init_raiz :
    (p : Plataforma) (env : Entorno) (escribe : ℕ → Bool)
    → ((k : ℕ) → escribe k ≡ true)
    → ((k : ℕ) → env.asigna k ≡ true)
    → (espacio : ℕ) (e : Entrada) → EsValida e
    → EsDirectorio e
    → (rs : List Registro) × (fisopfs_flush true escribe
          (record { raiz = e; espacio_total_ocupado_fs = espacio })
          (barra ∷ [])
        ≡ some (record { codigo = exito; persistencia = some rs }))
      × (fisopfs_init p env (some rs)
          ≡ montado (record { raiz = compactar e; espacio_total_ocupado_fs = espacio }))
unfolding fisopfs_flush fwrite fisopfs_init crear_directorio_desde_archivo compactar
flush-init_raiz p env escribe bien memoria espacio vacia v d = absurd d
flush-init_raiz p env escribe bien memoria espacio (archivo f) v d = absurd d
flush-init_raiz p env escribe bien memoria espacio invalida v d = absurd d
flush-init_raiz p env escribe bien memoria espacio (directorio c hs) v d =
    let w =
      escribir_entrada_valida escribe bien c hs v
        (record { intentos = 1; registros = r_fs espacio ∷ [] }) in
    let blocks = bloques_en hs in
    let inner =
      leer_entradas-Lee env.asigna memoria hs (suc (suc (length blocks))) 2
        c.cantidad_entradas_ocupadas (cantidad_entradas hs) [] (v.2) (v.0) (omega (arith, v.0, v.1))
        (omega arith) in
    let all =
      leer_directorio-Lee env.asigna memoria c hs
        (leer_entradas env.asigna (suc (suc (length blocks)))) 0 [] v inner in
    (
      r_fs espacio ∷ (r_directorio c (cantidad_entradas hs) ∷ blocks),
      rw (bien 0) (ap cerrar (w.1)),
      ap
            (λ rs. montar espacio (
              leer_directorio_con env.asigna (leer_entradas env.asigna (suc (suc (length blocks))))
                0 (r_directorio c (cantidad_entradas hs) ∷ rs)))
            (sym (append-nil blocks))
          ∙ ap (montar espacio) (all.1),
    )

-- A mounted state, its tree compacted.
abbrev pub compacto : Fs → Fs
compacto fs = record fs { raiz = compactar fs.raiz }

-- In a well-formed state, while the file opens and every write succeeds, a flush returns 0; while
-- every allocation succeeds, mounting the file that it wrote gives the same space counter and the
-- same tree, its directories compacted.
pub flush-init :
    (p : Plataforma) (env : Entorno) (escribe : ℕ → Bool) (fs : Fs)
    → EsValido p fs
    → ((k : ℕ) → escribe k ≡ true)
    → ((k : ℕ) → env.asigna k ≡ true)
    → (rs : List Registro) × (fisopfs_flush true escribe fs (barra ∷ [])
        ≡ some (record { codigo = exito; persistencia = some rs }))
      × (fisopfs_init p env (some rs) ≡ montado (compacto fs))
flush-init p env escribe fs valido bien memoria =
    flush-init_raiz p env escribe bien memoria fs.espacio_total_ocupado_fs fs.raiz valido.arbol
      valido.raiz_directorio
