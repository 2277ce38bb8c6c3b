-- ===== src/Fisopfs/Validity/Content.antt =====
-- fisopfs_truncate and fisopfs_write keep the state well formed, and the file that
-- fisopfs_write leaves holds the bytes written.
use sistemas_operativos_fiub.Common.{
  ℕ, ◌+◌, ◌^◌, ◌≤◌, ◌<◌, ◌≡◌, refl, sym, true, false, List, arith, length, take, drop, if_both,
  if_split, Texto, ltb, ◌==◌, inl, inr, ==_iff, ◌⊎◌,
}
use sistemas_operativos_fiub.Fisopfs.Tree.{
  Archivo, Entrada, vacia, archivo, directorio, invalida, Fs, Codigo, es_negativo, Entorno,
  Plataforma, add64, sub64,
}
use sistemas_operativos_fiub.Fisopfs.Lookup.{Busqueda, hallada, ausente, colapso, encontrar_entrada}
use sistemas_operativos_fiub.Fisopfs.Directory.{tocar_todo}
use sistemas_operativos_fiub.Fisopfs.Lookup.Again.{
  Encuentra, Reencuentra, Encuentra-espacio, encontrar_entrada-Reencuentra,
}
use sistemas_operativos_fiub.Fisopfs.Outcome.{path_largo}
use sistemas_operativos_fiub.Fisopfs.Handlers.Content.{
  ocupar, como_int, con_tamanio, truncate_en, fisopfs_truncate, escribir_bytes, write_en,
  fisopfs_write,
}
use sistemas_operativos_fiub.Fisopfs.Handlers.Content.Defs.{realloc, copiar_en, copia_valida}
use sistemas_operativos_fiub.Fisopfs.Handlers.Content.Bytes.{
  length-realloc, length-copiar_en, take-drop-copiar_en,
}
use sistemas_operativos_fiub.Fisopfs.Validity.{EsValida, EsValido, EsPlataforma, uso}
use sistemas_operativos_fiub.Fisopfs.Validity.Search.{Vale, ValeFs, uso_fs, encontrar_entrada-Vale}
use sistemas_operativos_fiub.Fisopfs.Validity.Keeps.{
  Mantiene, Cumple, HalladaEn, Mantiene-refl, quieto-Mantiene, mismo_espacio, cambio-Mantiene,
  igual-Mantiene, ausente-Mantiene,
}

pub not_ltb : (a b : ℕ) → ltb a b ≡ false → b ≤ a
not_ltb a b h = ground arith

-- The check of the space, without wrap-around.
room_of_sub :
    (m espacio size viejo : ℕ)
    → espacio < 2 ^ 63
    → size < 2 ^ 63
    → viejo ≤ espacio
    → ltb m (sub64 (add64 espacio size) viejo) ≡ false
    → espacio + size ≤ m + viejo
room_of_sub m espacio size viejo a b c h = omega (arith, not_ltb _ _ h)

room_of_sub_offset :
    (m espacio size offset viejo : ℕ)
    → espacio < 2 ^ 63
    → offset + size < 2 ^ 63
    → viejo ≤ espacio
    → ltb m (sub64 (add64 (add64 espacio size) offset) viejo) ≡ false
    → espacio + add64 offset size ≤ m + viejo
room_of_sub_offset m espacio size offset viejo a b c h = omega (arith, not_ltb _ _ h)

pub copia_valida_of_le : (offset n cap : ℕ) → offset + n ≤ cap → copia_valida offset n cap ≡ true
copia_valida_of_le offset n cap h = ground arith

module _ (p : Plataforma) (env : Entorno) (fs : Fs) (valido : EsValido p fs)
    (plataforma : EsPlataforma p) where
  abbrev Bien : Codigo → Fs → Type 0
  Bien r fs' = Mantiene p fs fs'

  -- The file found is replaced, with another size, and the counter follows.
  tamanio-Mantiene :
      (f g : Archivo) (n : ℕ) (volver : Entrada → Fs)
      → n ≡ g.st.st_size
      → HalladaEn p fs valido (archivo f) volver
      → EsValida (archivo g)
      → fs.espacio_total_ocupado_fs + g.st.st_size ≤ p.max_espacio_fs + f.st.st_size
      → Mantiene p fs (ocupar f.st.st_size n (volver (archivo g)))
  unfolding uso
  tamanio-Mantiene f g n volver e h v fits =
      cambio-Mantiene p fs valido (archivo f) volver h (archivo g) _ v tt
        (omega (
          arith,
          e,
          (h.cambio (archivo g) v tt).2,
          fits,
          h.cabe,
          valido.cubre,
          valido.dentro_del_maximo,
          plataforma.maximo,
        ))
        (omega (
          arith,
          e,
          (h.cambio (archivo g) v tt).2,
          fits,
          h.cabe,
          valido.cubre,
          valido.dentro_del_maximo,
          plataforma.maximo,
        ))

  truncate_en-Cumple :
      (size : ℕ) (b : Busqueda Fs)
      → size < 2 ^ 63
      → Vale p (ValeFs p fs) (uso_fs p) (uso p fs.raiz) b
      → Cumple Bien ⊥ (truncate_en p env size b)
  unfolding truncate_en uso
  truncate_en-Cumple size (hallada (archivo f) volver) small h =
      if_split (Cumple Bien ⊥) (size == 0) _ _
        (λ zero_size.
          tamanio-Mantiene f (con_tamanio p env size f) size volver refl h
            (omega (arith, (==_iff size 0).0 zero_size))
            (omega (arith, (==_iff size 0).0 zero_size, valido.dentro_del_maximo)))
        (λ _.
          if_split (Cumple Bien ⊥)
            (ltb p.max_espacio_fs
              (sub64 (add64 (volver (archivo f)).espacio_total_ocupado_fs size) f.st.st_size))
            _ _ (λ _. quieto-Mantiene p fs valido _ volver h)
            (λ room.
              if_both (Cumple Bien ⊥) (env.asigna 0) _ _
                (tamanio-Mantiene f
                  (con_tamanio p env size
                    (record f { contenido = realloc env.basura f.contenido size }))
                  size volver refl h (omega (arith, length-realloc env.basura f.contenido size))
                  (room_of_sub _ _ size f.st.st_size
                    (omega (arith, valido.dentro_del_maximo, plataforma.maximo)) small
                    (omega (arith, h.cabe, valido.cubre))
                    (rw (mismo_espacio p fs valido (archivo f) volver h) at room)))
                (quieto-Mantiene p fs valido _ volver h)))
  truncate_en-Cumple size (hallada (directorio c es) volver) small h =
      quieto-Mantiene p fs valido _ volver h
  truncate_en-Cumple size (hallada vacia volver) small h = quieto-Mantiene p fs valido _ volver h
  truncate_en-Cumple size (hallada invalida volver) small h = quieto-Mantiene p fs valido _ volver h
  truncate_en-Cumple size (ausente fs') small h = ausente-Mantiene p fs valido fs' h
  truncate_en-Cumple size colapso small h = h

  -- On a platform as EsPlataforma says and in a well-formed state fisopfs_truncate, to a size
  -- below 2^63, does not break down and leaves a well-formed state whose space counter has moved
  -- by what the tree in use has.
  pub truncate-Mantiene :
      (path : Texto) (size : ℕ)
      → size < 2 ^ 63
      → Cumple Bien ⊥ (fisopfs_truncate p env fs path size)
  unfolding fisopfs_truncate
  truncate-Mantiene path size small =
      if_both (Cumple Bien ⊥) (path_largo path) _ _ (Mantiene-refl p fs valido) (
        truncate_en-Cumple size _ small
          (encontrar_entrada-Vale p env.ahora fs _ valido.arbol valido.raiz_directorio))

  module _ (t : ℕ) (path : Texto) (buf : List ℕ) (offset : ℕ)
      (small : offset + length buf < 2 ^ 63) where
    -- The file that holds `buf` at `offset`, found again by the same path.
    pub record Escrito (fs' : Fs) : Type 0 where
      pub archivo_escrito : Archivo
      pub reencontrado : Encuentra (archivo archivo_escrito) (encontrar_entrada t fs' path)
      pub contiene : take (length buf) (drop offset archivo_escrito.contenido) ≡ buf
      pub alcanza : offset + length buf ≤ archivo_escrito.st.st_size
      pub cabe : archivo_escrito.st.st_size ≤ length archivo_escrito.contenido

    -- An error, or the count of the bytes, which the file then holds.
    abbrev pub EscritoBien : Codigo → Fs → Type 0
    EscritoBien r fs' =
        Mantiene p fs fs' × ((es_negativo r ≡ true) ⊎ ((r ≡ como_int (length buf)) × Escrito fs'))

    escribir_bytes-Cumple :
        (f : Archivo) (volver : Archivo → Fs)
        → offset + length buf ≤ f.st.st_size
        → f.st.st_size ≤ length f.contenido
        → ((g : Archivo)
            → g.nombre ≡ f.nombre
            → g.st.st_size ≡ f.st.st_size
            → length g.contenido ≡ length f.contenido
            → Mantiene p fs (volver g)
              × Encuentra (archivo g) (encontrar_entrada t (volver g) path))
        → Cumple EscritoBien ⊥ (escribir_bytes p env buf offset f volver)
    unfolding escribir_bytes
    escribir_bytes-Cumple f volver reach fit put =
        let ok = copia_valida_of_le offset (length buf) (length f.contenido) (omega arith) in
        let g : Archivo = record f {
          contenido = copiar_en f.contenido offset buf;
          st = tocar_todo env.ahora f.st;
        } in
        let size = length-copiar_en f.contenido offset buf (omega arith) in
        let done = put g refl refl size in
        rw ok (
          done.0,
          inr (
            refl,
            record {
              archivo_escrito = g;
              reencontrado = done.1;
              contiene = take-drop-copiar_en f.contenido offset buf ok;
              alcanza = reach;
              cabe = omega (arith, size);
            },
          ),
        )

    pub write_en-Cumple :
        (b : Busqueda Fs)
        → Vale p (ValeFs p fs) (uso_fs p) (uso p fs.raiz) b
        → Reencuentra (λ s. encontrar_entrada t s path) b
        → Cumple EscritoBien ⊥ (write_en p env buf offset b)
    unfolding write_en uso
    write_en-Cumple (hallada (archivo f) volver) h again =
        if_split (Cumple EscritoBien ⊥) (ltb f.st.st_size (add64 offset (length buf))) _ _
          (λ grows.
            if_split (Cumple EscritoBien ⊥)
              (ltb p.max_espacio_fs (
                sub64
                  (add64 (add64 (volver (archivo f)).espacio_total_ocupado_fs (length buf)) offset)
                  f.st.st_size))
              _ _ (λ _. (quieto-Mantiene p fs valido _ volver h, inl refl))
              (λ room.
                if_both (Cumple EscritoBien ⊥) (env.asigna 0) _ _
                  (escribir_bytes-Cumple
                    (record f {
                      contenido = realloc env.basura f.contenido (add64 offset (length buf));
                      st = record f.st { st_size = add64 offset (length buf) };
                    })
                    (λ g. ocupar f.st.st_size (add64 offset (length buf)) (volver (archivo g)))
                    (omega arith)
                    (omega
                      (arith, length-realloc env.basura f.contenido (add64 offset (length buf))))
                    (λ g n s l. (
                      tamanio-Mantiene f g (add64 offset (length buf)) volver (sym s) h
                          (omega (
                            arith,
                            s,
                            l,
                            length-realloc env.basura f.contenido (add64 offset (length buf)),
                          ))
                          (omega (
                            arith,
                            s,
                            room_of_sub_offset _ _ (length buf) offset f.st.st_size
                                (omega (arith, valido.dentro_del_maximo, plataforma.maximo)) small
                                (omega (arith, h.cabe, valido.cubre))
                                (rw (mismo_espacio p fs valido (archivo f) volver h) at room),
                          )),
                      Encuentra-espacio t _ path (archivo g) (volver (archivo g))
                          (again (archivo g) n),
                    )))
                  (quieto-Mantiene p fs valido _ volver h, inl refl)))
          (λ stays.
            escribir_bytes-Cumple f (λ g. volver (archivo g)) (omega (arith, not_ltb _ _ stays))
              h.valida
              (λ g n s l. (
                igual-Mantiene p fs valido _ volver h (archivo g) (omega (arith, h.valida)) tt
                    (omega arith),
                again (archivo g) n,
              )))
    write_en-Cumple (hallada (directorio c es) volver) h again =
        (quieto-Mantiene p fs valido _ volver h, inl refl)
    write_en-Cumple (hallada vacia volver) h again =
        (quieto-Mantiene p fs valido _ volver h, inl refl)
    write_en-Cumple (hallada invalida volver) h again =
        (quieto-Mantiene p fs valido _ volver h, inl refl)
    write_en-Cumple (ausente fs') h again = (ausente-Mantiene p fs valido fs' h, inl refl)
    write_en-Cumple colapso h again = h

    -- On a platform as EsPlataforma says and in a well-formed state a write that ends below 2^63
    -- does not break down and leaves a well-formed state whose space counter has moved by what the
    -- tree in use has; its result is below zero or is the count of the bytes, and then a search by
    -- the same path finds a file that has the bytes at the offset, inside its size and its block.
    pub write-EscritoBien : Cumple EscritoBien ⊥ (fisopfs_write p env fs path buf offset)
    unfolding fisopfs_write
    write-EscritoBien =
        if_both (Cumple EscritoBien ⊥) (path_largo path) _ _ (Mantiene-refl p fs valido, inl refl)
          (write_en-Cumple (encontrar_entrada env.ahora fs path)
            (encontrar_entrada-Vale p env.ahora fs path valido.arbol valido.raiz_directorio)
            (encontrar_entrada-Reencuentra env.ahora t path fs))
