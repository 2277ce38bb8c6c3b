-- ===== src/Fisopfs/Disk/RoundTrip/Written.antt =====
-- What escribir_directorio_en_archivo writes for a well-formed tree, while every fwrite succeeds.
use mathlib.Core.List.{append-nil, append_assoc}
use sistemas_operativos_fiub.Common.{
  ℕ, suc, ◌≤◌, ◌≡◌, ◌∙◌, ap, Bool, true, List, [], ◌∷◌, ◌++◌, ◌==◌, arith, Option, some, length,
  leb, Bool-cases, inl, inr,
}
use sistemas_operativos_fiub.Fisopfs.Tree.{
  Cabecera, Archivo, Entrada, vacia, archivo, directorio, invalida, Entradas, nil, cons,
  cantidad_entradas, Codigo, exito,
}
use sistemas_operativos_fiub.Fisopfs.Disk.Write.{
  Registro, r_directorio, Disco, continuar, fwrite, escribir_entrada_archivo_en_archivo,
  escribir_entrada, escribir_entradas,
}
use sistemas_operativos_fiub.Fisopfs.Disk.Compact.{bloques_archivo, bloques_en}
use sistemas_operativos_fiub.Fisopfs.Validity.{EsValida, SonValidas}

module _ (escribe : ℕ → Bool) (bien : (k : ℕ) → escribe k ≡ true) where
  -- A writer that succeeds and appends these blocks.
  abbrev pub Escribe : (Disco → Option (Codigo × Disco)) → List Registro → Type 0
  Escribe w rs =
      (k : Disco)
      → (n : ℕ) × (w k ≡ some (exito, record { intentos = n; registros = k.registros ++ rs }))

  escribir_archivo-Escribe :
      (f : Archivo)
      → f.st.st_size ≤ length f.contenido
      → Escribe (escribir_entrada_archivo_en_archivo escribe f) (bloques_archivo f)
  unfolding escribir_entrada_archivo_en_archivo fwrite bloques_archivo
  escribir_archivo-Escribe f v k = elim (Bool-cases (f.st.st_size == 0)) [
    | inl empty ↦ (suc k.intentos, rw (bien k.intentos, empty))
    | inr full ↦
        let fits : leb f.st.st_size (length f.contenido) ≡ true = ground arith in
        (
          suc (suc k.intentos),
          rw (bien k.intentos, full, fits, bien (suc k.intentos))
              (ap (λ rs. some (exito, record { intentos = suc (suc k.intentos); registros = rs }))
                (append_assoc k.registros _ _)),
        )
  ]

  -- The blocks of one slot.
  abbrev pub bloques : Entrada → List Registro
  bloques (archivo f) = bloques_archivo f
  bloques (directorio c hs) = r_directorio c (cantidad_entradas hs) ∷ bloques_en hs
  bloques _ = []

  luego-Escribe :
      (e : Entrada) (es : Entradas)
      → Escribe (escribir_entrada escribe e) (bloques e)
      → Escribe (escribir_entradas escribe es) (bloques_en es)
      → Escribe (escribir_entradas escribe (cons e es)) (bloques e ++ bloques_en es)
  unfolding escribir_entrada
  luego-Escribe e es h g k =
      let first = h k in
      let then_ = g (record { intentos = first.0; registros = k.registros ++ bloques e }) in
      (
        then_.0,
        ap (continuar (escribir_entradas escribe es)) (first.1)
            ∙ then_.1
            ∙ ap (λ rs. some (exito, record { intentos = then_.0; registros = rs }))
                (append_assoc k.registros (bloques e) (bloques_en es)),
      )

  mutual
    unfolding escribir_entrada fwrite bloques_en

    escribir_entrada-Escribe :
        (e : Entrada) → EsValida e → Escribe (escribir_entrada escribe e) (bloques e)
    escribir_entrada-Escribe vacia v k = (k.intentos, rw append-nil)
    escribir_entrada-Escribe invalida v k = absurd v
    escribir_entrada-Escribe (archivo f) v k = escribir_archivo-Escribe f v k
    escribir_entrada-Escribe (directorio c hs) v k =
        let rest = escribir_entradas-Escribe hs (v.2) (record {
          intentos = suc k.intentos;
          registros = k.registros ++ r_directorio c (cantidad_entradas hs) ∷ [];
        }) in
        (
          rest.0,
          rw (bien k.intentos) (
              rest.1
              ∙ ap (λ rs. some (exito, record { intentos = rest.0; registros = rs }))
                  (append_assoc k.registros (r_directorio c (cantidad_entradas hs) ∷ [])
                    (bloques_en hs))),
        )

    escribir_entradas-Escribe :
        (es : Entradas) → SonValidas es → Escribe (escribir_entradas escribe es) (bloques_en es)
    escribir_entradas-Escribe nil v k = (k.intentos, rw append-nil)
    escribir_entradas-Escribe (cons vacia es) v k =
        luego-Escribe vacia es (escribir_entrada-Escribe vacia tt)
          (escribir_entradas-Escribe es (v.1)) k
    escribir_entradas-Escribe (cons invalida es) v k = absurd (v.0)
    escribir_entradas-Escribe (cons (archivo f) es) v k =
        luego-Escribe (archivo f) es (escribir_archivo-Escribe f (v.0))
          (escribir_entradas-Escribe es (v.1)) k
    escribir_entradas-Escribe (cons (directorio c hs) es) v k =
        luego-Escribe (directorio c hs) es (escribir_entrada-Escribe (directorio c hs) (v.0))
          (escribir_entradas-Escribe es (v.1)) k

-- The whole tree is written, as its blocks, after what the file held.
pub escribir_entrada_valida :
    (escribe : ℕ → Bool)
    → ((k : ℕ) → escribe k ≡ true)
    → (c : Cabecera) (hs : Entradas) → EsValida (directorio c hs)
    → (k : Disco)
    → (n : ℕ) × (escribir_entrada escribe (directorio c hs) k
        ≡ some (
          exito,
          record {
            intentos = n;
            registros = k.registros ++ r_directorio c (cantidad_entradas hs) ∷ bloques_en hs;
          },
        ))
escribir_entrada_valida escribe bien c hs v k =
    escribir_entrada-Escribe escribe bien (directorio c hs) v k
