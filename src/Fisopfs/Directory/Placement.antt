-- ===== src/Fisopfs/Directory/Placement.antt =====
-- colocar_entrada_dentro_de_directorio in a well-formed directory, while allocations succeed.
use sistemas_operativos_fiub.Common.{ℕ, suc, ◌+◌, ◌<◌, ◌≡◌, refl, ap, ◌∙◌, Bool, true, some, arith}
use sistemas_operativos_fiub.Fisopfs.Tree.{
  Cabecera, Entrada, vacia, archivo, directorio, invalida, Entradas, nil, cons, cantidad_entradas,
  exito, Plataforma,
}
use sistemas_operativos_fiub.Fisopfs.Directory.{
  Dir, colocada, ocupar_vacia, una_mas, una_ocupada_mas, tras_ocupar, a_entrada,
  expandir_entradas_dir, colocar_entrada_dentro_de_directorio,
}
use sistemas_operativos_fiub.Fisopfs.Directory.Growth.{expandir_entradas_dir-EsValida}
use sistemas_operativos_fiub.Fisopfs.Validity.{
  EsValida, SonValidas, ocupa, ocupadas, uso, uso_entradas,
}

module _ (p : Plataforma) (nueva : Entrada) (valida : EsValida nueva)
    (llena_hueco : ocupa nueva ≡ 1) where
  -- The first empty slot is found, and the rest stays.
  pub record Puesta (es : Entradas) : Type 0 where
    pub lugar : ℕ
    pub nuevas : Entradas
    pub encuentra : ocupar_vacia nueva es ≡ colocada lugar nuevas
    pub una_ocupada : ocupadas nuevas ≡ suc (ocupadas es)
    pub misma_cantidad : cantidad_entradas nuevas ≡ cantidad_entradas es
    pub validas : SonValidas nuevas
    pub uso_mas : uso_entradas p nuevas ≡ uso_entradas p es + uso p nueva

  Puesta-cons :
      (e : Entrada) (es : Entradas)
      → EsValida e
      → ocupar_vacia nueva (cons e es) ≡ una_mas e (ocupar_vacia nueva es)
      → Puesta es
      → Puesta (cons e es)
  unfolding ocupadas cantidad_entradas uso
  Puesta-cons e es v skip q = record {
    lugar = suc q.lugar;
    nuevas = cons e q.nuevas;
    encuentra = rw (skip, q.encuentra) refl;
    una_ocupada = omega (arith, q.una_ocupada);
    misma_cantidad = ap suc q.misma_cantidad;
    validas = (v, q.validas);
    uso_mas = omega (arith, q.uso_mas);
  }

  pub ocupar_vacia-Puesta :
      (es : Entradas) → SonValidas es → ocupadas es < cantidad_entradas es → Puesta es
  unfolding ocupar_vacia ocupadas cantidad_entradas uso
  ocupar_vacia-Puesta nil v room = absurd (omega arith)
  ocupar_vacia-Puesta (cons vacia es) v room = record {
    lugar = 0;
    nuevas = cons nueva es;
    encuentra = refl;
    una_ocupada = omega arith;
    misma_cantidad = refl;
    validas = (valida, v.1);
    uso_mas = omega arith;
  }
  ocupar_vacia-Puesta (cons (archivo f) es) v room =
      Puesta-cons (archivo f) es (v.0) refl (ocupar_vacia-Puesta es (v.1) (omega arith))
  ocupar_vacia-Puesta (cons (directorio c hs) es) v room =
      Puesta-cons (directorio c hs) es (v.0) refl (ocupar_vacia-Puesta es (v.1) (omega arith))
  ocupar_vacia-Puesta (cons invalida es) v room = absurd (v.0)

  -- The entry is placed, the directory stays well formed, and its use grows by the entry's.
  pub record Alta (asigna : ℕ → Bool) (t : ℕ) (c : Cabecera) (es : Entradas) : Type 0 where
    pub dir : Dir
    pub lugar : ℕ
    pub coloca :
        colocar_entrada_dentro_de_directorio asigna t
          (record { cab = c; entradas = es })
          (some nueva)
        ≡ some (record { codigo = exito; dir = dir; lugar = some lugar })
    pub valido : EsValida (a_entrada dir)
    pub uso_alta : uso p (a_entrada dir) ≡ uso p (directorio c es) + uso p nueva

  pub colocar-Alta :
      (asigna : ℕ → Bool) (t : ℕ) (c : Cabecera) (es : Entradas)
      → ((k : ℕ) → asigna k ≡ true)
      → EsValida (directorio c es)
      → Alta asigna t c es
  unfolding colocar_entrada_dentro_de_directorio tras_ocupar uso
  colocar-Alta asigna t c es h v =
      let q : Puesta es = ocupar_vacia-Puesta es (v.2) (v.1) in
      let d : Dir = record { cab = una_ocupada_mas t c; entradas = q.nuevas } in
      let x =
        expandir_entradas_dir-EsValida p asigna d h (omega (arith, q.una_ocupada, v.0))
          (omega (arith, q.una_ocupada, q.misma_cantidad, v.1)) q.validas in
      record {
        dir = (expandir_entradas_dir asigna d).1;
        lugar = q.lugar;
        coloca =
            ap (tras_ocupar asigna t (record { cab = c; entradas = es })) q.encuentra
            ∙ ap
                (λ r. some (record {
                  codigo = r;
                  dir = (expandir_entradas_dir asigna d).1;
                  lugar = some q.lugar;
                }))
                (x.0);
        valido = x.1;
        uso_alta = omega (arith, x.2, q.uso_mas);
      }
