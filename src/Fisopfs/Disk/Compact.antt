-- ===== src/Fisopfs/Disk/Compact.antt =====
-- The blocks that a tree is written as, and the tree that is read back from them: in every
-- directory the occupied entries come first, and a file has no block beyond its size.
use sistemas_operativos_fiub.Common.{
  ℕ, suc, zero, ◌-◌, ◌≡◌, refl, ◌∙◌, List, [], ◌∷◌, ◌++◌, ◌==◌, if◌then◌else◌, take, arith, some,
}
use sistemas_operativos_fiub.Fisopfs.Tree.{
  Archivo, Entrada, vacia, archivo, directorio, invalida, Entradas, nil, cons, cantidad_entradas,
}
use sistemas_operativos_fiub.Fisopfs.Directory.{append}
use sistemas_operativos_fiub.Fisopfs.Directory.Growth.{huecos}
use sistemas_operativos_fiub.Fisopfs.Handlers.Attributes.{nombres}
use sistemas_operativos_fiub.Fisopfs.Disk.Write.{Registro, r_directorio, r_archivo, r_datos}
use sistemas_operativos_fiub.Fisopfs.Validity.{SonValidas, ocupadas}

unfoldable pub bloques_archivo : Archivo → List Registro
bloques_archivo f =
    r_archivo f.nombre f.st
    ∷ (if f.st.st_size == 0 then [] else r_datos (take f.st.st_size f.contenido) ∷ [])

unfoldable pub bloques_en : Entradas → List Registro
bloques_en nil = []
bloques_en (cons vacia es) = bloques_en es
bloques_en (cons invalida es) = bloques_en es
bloques_en (cons (archivo f) es) = bloques_archivo f ++ bloques_en es
bloques_en (cons (directorio c hs) es) =
    r_directorio c (cantidad_entradas hs) ∷ (bloques_en hs ++ bloques_en es)

abbrev pub recortado : Archivo → Archivo
recortado f = record f { contenido = take f.st.st_size f.contenido }

unfoldable pub compactar_en : Entradas → Entradas
compactar_en nil = nil
compactar_en (cons vacia es) = compactar_en es
compactar_en (cons invalida es) = compactar_en es
compactar_en (cons (archivo f) es) = cons (archivo (recortado f)) (compactar_en es)
compactar_en (cons (directorio c hs) es) =
    cons
      (directorio c (
        append (compactar_en hs)
          (huecos (cantidad_entradas hs - cantidad_entradas (compactar_en hs)))))
      (compactar_en es)

-- The slots of a directory after the occupied ones.
unfoldable pub compactar_slots : Entradas → Entradas
compactar_slots hs =
    append (compactar_en hs) (huecos (cantidad_entradas hs - cantidad_entradas (compactar_en hs)))

unfoldable pub compactar : Entrada → Entrada
compactar (directorio c hs) = directorio c (compactar_slots hs)
compactar e = e

pub cantidad-compactar_en :
    (es : Entradas) → SonValidas es → cantidad_entradas (compactar_en es) ≡ ocupadas es
unfolding compactar_en cantidad_entradas ocupadas
cantidad-compactar_en nil v = refl
cantidad-compactar_en (cons vacia es) v = omega (arith, cantidad-compactar_en es (v.1))
cantidad-compactar_en (cons invalida es) v = absurd (v.0)
cantidad-compactar_en (cons (archivo f) es) v = omega (arith, cantidad-compactar_en es (v.1))
cantidad-compactar_en (cons (directorio c hs) es) v = omega (arith, cantidad-compactar_en es (v.1))

nombres-huecos : (n : ℕ) → nombres (huecos n) ≡ some []
unfolding nombres huecos
nombres-huecos zero = refl
nombres-huecos (suc n) = nombres-huecos n

nombres-append-huecos : (es : Entradas) (n : ℕ) → nombres (append es (huecos n)) ≡ nombres es
unfolding nombres append
nombres-append-huecos nil n = nombres-huecos n
nombres-append-huecos (cons vacia es) n = nombres-append-huecos es n
nombres-append-huecos (cons invalida es) n = refl
nombres-append-huecos (cons (archivo f) es) n = rw (nombres-append-huecos es n)
nombres-append-huecos (cons (directorio c hs) es) n = rw (nombres-append-huecos es n)

nombres-compactar_en : (es : Entradas) → SonValidas es → nombres (compactar_en es) ≡ nombres es
unfolding nombres compactar_en
nombres-compactar_en nil v = refl
nombres-compactar_en (cons vacia es) v = nombres-compactar_en es (v.1)
nombres-compactar_en (cons invalida es) v = absurd (v.0)
nombres-compactar_en (cons (archivo f) es) v = rw (nombres-compactar_en es (v.1))
nombres-compactar_en (cons (directorio c hs) es) v = rw (nombres-compactar_en es (v.1))

-- From slots that are well formed, fisopfs_readdir lists after a flush and a mount, which compact
-- them, the same names in the same order.
pub nombres-compactar_slots :
    (es : Entradas) → SonValidas es → nombres (compactar_slots es) ≡ nombres es
unfolding compactar_slots
nombres-compactar_slots es v = nombres-append-huecos _ _ ∙ nombres-compactar_en es v
