-- ===== src/Fisopfs/Validity/Remove/Ending.antt =====
-- terminar_baja (fisopfs/fisopfs.c): the end of fisopfs_unlink and of fisopfs_rmdir.
use sistemas_operativos_fiub.Common.{ℕ, ◌+◌, ◌^◌, ◌≤◌, ◌<◌, ◌≡◌, refl, Bool, false, inl, inr, arith}
use sistemas_operativos_fiub.Fisopfs.Tree.{
  Cabecera, Entrada, directorio, Entradas, Fs, Codigo, es_exito, Entorno, Plataforma, sub64,
}
use sistemas_operativos_fiub.Fisopfs.Lookup.{Busqueda, hallada}
use sistemas_operativos_fiub.Fisopfs.Handlers.Remove.{
  Baja, borrada, no_vacio, sin_memoria, no_esta, ilegible, una_ocupada_menos, terminar_baja,
}
use sistemas_operativos_fiub.Fisopfs.Validity.{EsValida, EsValido, EsPlataforma, uso}
use sistemas_operativos_fiub.Fisopfs.Validity.Keeps.{Mantiene, Cumple, HalladaEn, quieto-Mantiene}
use sistemas_operativos_fiub.Fisopfs.Validity.Remove.Shrinks.{Encoge, SinBaja}
use sistemas_operativos_fiub.Fisopfs.Validity.Remove.Slots.{BajaVale, ocupadas-le-uso}

module _ (p : Plataforma) (env : Entorno) (fs : Fs) (valido : EsValido p fs)
    (plataforma : EsPlataforma p) where
  pub quieto-Encoge :
      (P : Entrada → Type 0) (F : Type 0) (b : Busqueda Fs) (tam : ℕ) (fs' : Fs) (r : Codigo)
      → es_exito r ≡ false
      → F
      → Mantiene p fs fs'
      → fs'.espacio_total_ocupado_fs ≡ fs.espacio_total_ocupado_fs
      → Encoge p fs P F b tam r fs'
  quieto-Encoge P F b tam fs' r bad why m e = record {
    motivo = λ _. why;
    valido' = m.valido;
    cuenta = rw bad (omega (arith, e));
    quitada = λ good. cc;
    igual = λ _. omega (arith, m.cuenta, e);
  }

  pub terminar_baja-Cumple :
      (N P : Entrada → Type 0) (F : Type 0) (tam : ℕ) (m : Bool) (c : Cabecera) (es : Entradas)
      (volver : Entrada → Fs) (b : Baja)
      → (SinBaja N P m (hallada (directorio c es) volver) → F)
      → ((e : Entrada) → P e → tam ≤ uso p e)
      → tam < 2 ^ 63
      → HalladaEn p fs valido (directorio c es) volver
      → BajaVale p N P m es b
      → Cumple
          (Encoge p fs P F (hallada (directorio c es) volver) tam)
          ⊥
          (terminar_baja env tam c es volver b)
  unfolding terminar_baja uso
  terminar_baja-Cumple N P F tam m c es volver (borrada nuevas) why lo small h q =
      let few = ocupadas-le-uso p plataforma es in
      let v' : EsValida (directorio (una_ocupada_menos env.ahora c) nuevas) = (
        omega (
          arith, few, q.una_menos, h.valida.0, h.cabe, valido.cubre, valido.dentro_del_maximo,
          plataforma.maximo,
        ),
        omega (arith, q.una_menos, q.misma_cantidad, h.valida.1),
        q.validas,
      ) in
      let less = lo q.quitada q.cual in
      let same = (h.cambio (directorio (una_ocupada_menos env.ahora c) nuevas) v' tt).2 in
      let used = h.uso_cambio (directorio (una_ocupada_menos env.ahora c) nuevas) tt in
      let count : sub64
              (volver (directorio (una_ocupada_menos env.ahora c) nuevas)).espacio_total_ocupado_fs
              tam
            + tam
          ≡ fs.espacio_total_ocupado_fs =
        omega (
          arith, less, same, q.uso_menos, h.cabe, valido.cubre, valido.dentro_del_maximo,
          plataforma.maximo,
        ) in
      let gone : uso p (volver (directorio (una_ocupada_menos env.ahora c) nuevas)).raiz
            + uso p q.quitada
          ≡ uso p fs.raiz =
        omega (arith, used, q.uso_menos, h.cabe) in
      record {
        valido' = record {
          arbol = (h.cambio (directorio (una_ocupada_menos env.ahora c) nuevas) v' tt).0;
          raiz_directorio = (h.cambio (directorio (una_ocupada_menos env.ahora c) nuevas) v' tt).1;
          cubre = omega (arith, count, gone, less, valido.cubre);
          dentro_del_maximo = omega (arith, count, valido.dentro_del_maximo);
        };
        cuenta = count;
        quitada = λ _. record {
          padre = c;
          padre' = una_ocupada_menos env.ahora c;
          entradas = es;
          nuevas = nuevas;
          volver = volver;
          quitada = q.quitada;
          hallado = refl;
          cual = q.cual;
          retira = q.retira;
          una_menos = omega (arith, v'.0, q.una_menos, h.valida.0);
          mismo_nombre = refl;
          arbol = refl;
          uso_menos = gone;
        };
        motivo = λ bad. cc;
        igual = λ bad. cc;
      }
  terminar_baja-Cumple N P F tam m c es volver no_vacio why lo small h q =
      quieto-Encoge P F _ tam _ _ refl (why (inr q)) (quieto-Mantiene p fs valido _ volver h)
        (h.cambio _ h.valida tt).2
  terminar_baja-Cumple N P F tam m c es volver sin_memoria why lo small h q =
      quieto-Encoge P F _ tam _ _ refl (why (inl q)) (quieto-Mantiene p fs valido _ volver h)
        (h.cambio _ h.valida tt).2
  terminar_baja-Cumple N P F tam m c es volver no_esta why lo small h q =
      quieto-Encoge P F _ tam _ _ refl (why (inr q)) (quieto-Mantiene p fs valido _ volver h)
        (h.cambio _ h.valida tt).2
  terminar_baja-Cumple N P F tam m c es volver ilegible why lo small h q = q
