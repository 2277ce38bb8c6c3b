-- ===== src/Fisopfs/Validity/Remove/Release.antt =====
-- liberar_archivo (fisopfs/entrada_archivo.c) and liberar_dir (fisopfs/entrada_directorio.c) on a
-- well-formed entry.
use sistemas_operativos_fiub.Common.{◌≡◌, refl, true}
use sistemas_operativos_fiub.Fisopfs.Tree.{
  Entrada, vacia, archivo, directorio, invalida, Entradas, nil, cons,
}
use sistemas_operativos_fiub.Fisopfs.Handlers.Remove.{liberar_entrada, liberar_dir}
use sistemas_operativos_fiub.Fisopfs.Validity.{EsValida, SonValidas}

mutual
  unfolding liberar_entrada

  liberar_entrada-EsValida : (e : Entrada) → EsValida e → liberar_entrada e ≡ true
  liberar_entrada-EsValida vacia v = refl
  liberar_entrada-EsValida (archivo f) v = refl
  liberar_entrada-EsValida (directorio c es) v = liberar_dir-SonValidas es (v.2)
  liberar_entrada-EsValida invalida v = absurd v

  pub liberar_dir-SonValidas : (es : Entradas) → SonValidas es → liberar_dir es ≡ true
  liberar_dir-SonValidas nil v = refl
  liberar_dir-SonValidas (cons e es) v =
      rw (liberar_entrada-EsValida e (v.0)) (liberar_dir-SonValidas es (v.1))

-- liberar_dir and liberar_archivo release the whole tree of a well-formed entry without following
-- an invalid pointer.
pub liberar_entrada_valida : (e : Entrada) → EsValida e → liberar_entrada e ≡ true
liberar_entrada_valida e v = liberar_entrada-EsValida e v
