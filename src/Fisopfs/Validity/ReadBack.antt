-- ===== src/Fisopfs/Validity/ReadBack.antt =====
-- fisopfs_read after fisopfs_write, and fisopfs_read beyond the end of a file.
use sistemas_operativos_fiub.Common.{
  ℕ, ◌+◌, ◌^◌, ◌≤◌, ◌<◌, ◌≡◌, refl, sym, true, false, List, arith, length, take, drop, Bool-cases,
  ap, Texto, ltb, ◌⊎◌, inl, inr,
}
use mathlib.Core.Path.{subst}
use sistemas_operativos_fiub.Fisopfs.Tree.{
  Archivo, Entrada, archivo, Fs, Codigo, Entorno, Plataforma, add64, sub64, es_negativo,
}
use sistemas_operativos_fiub.Fisopfs.Lookup.{Busqueda, hallada, ausente, colapso, encontrar_entrada}
use sistemas_operativos_fiub.Fisopfs.Lookup.Again.{Encuentra, encontrar_entrada-Reencuentra}
use sistemas_operativos_fiub.Fisopfs.Outcome.{colapsa, path_largo}
use sistemas_operativos_fiub.Fisopfs.Handlers.Content.{
  como_int, read_en, fisopfs_read, write_en, fisopfs_write,
}
use sistemas_operativos_fiub.Fisopfs.Handlers.Content.Defs.{copia_valida}
use sistemas_operativos_fiub.Fisopfs.Validity.{EsValido, EsPlataforma}
use sistemas_operativos_fiub.Fisopfs.Validity.Search.{encontrar_entrada-Vale}
use sistemas_operativos_fiub.Fisopfs.Validity.Keeps.{Cumple, Cumple-map}
use sistemas_operativos_fiub.Fisopfs.Validity.Content.{
  EscritoBien, write_en-Cumple, copia_valida_of_le,
}

-- The reader gets these bytes and their count.
abbrev pub Recibe : List ℕ → (Codigo × List ℕ) → Fs → Type 0
Recibe bytes r fs' = r ≡ (como_int (length bytes), bytes)

module _ (env : Entorno) (g : Archivo) (buf : List ℕ) (offset : ℕ)
    (small : offset + length buf < 2 ^ 63)
    (contiene : take (length buf) (drop offset g.contenido) ≡ buf)
    (alcanza : offset + length buf ≤ g.st.st_size) (cabe : g.st.st_size ≤ length g.contenido) where
  read_en-Recibe :
      (volver : Entrada → Fs)
      → Cumple (Recibe buf) ⊥ (read_en env (length buf) offset (hallada (archivo g) volver))
  unfolding read_en
  read_en-Recibe volver =
      let short : ltb g.st.st_size (add64 offset (length buf)) ≡ false = ground arith in
      rw (short, copia_valida_of_le offset (length buf) (length g.contenido) (omega arith))
        (ap (λ bs. (como_int (length buf), bs)) contiene)

  read_en-Encuentra :
      (b : Busqueda Fs)
      → Encuentra (archivo g) b
      → Cumple (Recibe buf) ⊥ (read_en env (length buf) offset b)
  read_en-Encuentra (hallada e volver) h =
      subst (λ x. Cumple (Recibe buf) ⊥ (read_en env (length buf) offset (hallada x volver)))
        (sym h) (read_en-Recibe volver)
  read_en-Encuentra (ausente fs') h = absurd h
  read_en-Encuentra colapso h = absurd h

module _ (p : Plataforma) (fs : Fs) (valido : EsValido p fs) (plataforma : EsPlataforma p) where
  -- On a platform as EsPlataforma says and in a well-formed state a write that ends below 2^63
  -- does not break down, and unless it returns an error, a read of as many bytes at the same
  -- offset of the same path, at any later second, gives the bytes written and their count.
  pub write-read :
      (env env' : Entorno) (path : Texto) (buf : List ℕ) (offset : ℕ)
      → offset + length buf < 2 ^ 63
      → Cumple
          (λ r fs'.
            (es_negativo r ≡ true)
            ⊎ Cumple (Recibe buf) ⊥ (fisopfs_read env' fs' path (length buf) offset))
          ⊥
          (fisopfs_write p env fs path buf offset)
  unfolding fisopfs_write fisopfs_read
  write-read env env' path buf offset small = elim (Bool-cases (path_largo path)) [
    | inl long ↦ rw long (inl refl)
    | inr short ↦ rw short (
        Cumple-map (EscritoBien p env fs valido plataforma env'.ahora path buf offset small) _ ⊥
          (write_en p env buf offset (encontrar_entrada env.ahora fs path))
          (λ r fs' h. elim (h.1) [
            | inl bad ↦ inl bad
            | inr good ↦ inr (
                read_en-Encuentra env' good.1.archivo_escrito buf offset small good.1.contiene
                  good.1.alcanza good.1.cabe _ good.1.reencontrado)
          ])
          (write_en-Cumple p env fs valido plataforma env'.ahora path buf offset small
            (encontrar_entrada env.ahora fs path)
            (encontrar_entrada-Vale p env.ahora fs path valido.arbol valido.raiz_directorio)
            (encontrar_entrada-Reencuentra env.ahora env'.ahora path fs)))
  ]

-- When the search finds a file whose block has less than 2^63 bytes, a read that starts beyond its
-- st_size and ends below 2^63 breaks down: the length st_size - offset has wrapped around.
pub read_beyond_end :
    (env : Entorno) (f : Archivo) (volver : Entrada → Fs) (size offset : ℕ)
    → f.st.st_size < offset
    → offset + size < 2 ^ 63
    → length f.contenido < 2 ^ 63
    → read_en env size offset (hallada (archivo f) volver) ≡ colapsa
unfolding read_en
read_beyond_end env f volver size offset past small block =
    let wraps : ltb f.st.st_size (add64 offset size) ≡ true = ground arith in
    let huge : copia_valida offset (sub64 f.st.st_size offset) (length f.contenido) ≡ false =
      ground arith in
    rw (wraps, huge)
