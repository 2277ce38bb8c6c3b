-- ===== src/Fisopfs/Validity/Remove.antt =====
-- fisopfs_unlink and fisopfs_rmdir keep the state well formed.
pub mod Release
pub mod Slots
pub mod Shrinks
pub mod Ending
use sistemas_operativos_fiub.Common.{
  ℕ, suc, ◌+◌, ◌^◌, ◌≤◌, ◌<◌, ◌≡◌, refl, ap, Bool, true, false, not, ◌⊎◌, inl, inr, arith,
  if◌then◌else◌, if_both, if_split, Texto, str_eq, str_eq_iff, zero, ==_iff,
}
use sistemas_operativos_fiub.Fisopfs.Paths.{obtener_directorio_path, obtener_nombre_final_path}
use sistemas_operativos_fiub.Fisopfs.Tree.{
  Cabecera, Archivo, Entrada, vacia, archivo, directorio, invalida, Entradas, nil, cons,
  cantidad_entradas, Fs, Codigo, menos, einval, es_exito, Entorno, Plataforma, sub64,
}
use sistemas_operativos_fiub.Fisopfs.Directory.{esta_vacio_directorio}
use sistemas_operativos_fiub.Fisopfs.Lookup.{Busqueda, hallada, ausente, colapso, encontrar_entrada}
use sistemas_operativos_fiub.Fisopfs.Outcome.{Salida, regresa, colapsa, path_largo, cabe_en_buffer}
use sistemas_operativos_fiub.Fisopfs.Handlers.Remove.{
  liberar_entrada, liberar_dir, Baja, borrada, no_vacio, sin_memoria, no_esta, ilegible, baja_tras,
  quitar_archivo, quitar_directorio, una_ocupada_menos, terminar_baja, unlink_en, fisopfs_unlink,
  rmdir_en, fisopfs_rmdir,
}
use sistemas_operativos_fiub.Fisopfs.Validity.{
  EsValida, SonValidas, EsValido, EsPlataforma, ocupa, ocupadas, uso, uso_entradas,
}
use sistemas_operativos_fiub.Fisopfs.Validity.Search.{Vale, ValeFs, uso_fs, encontrar_entrada-Vale}
use sistemas_operativos_fiub.Fisopfs.Validity.Keeps.{
  Mantiene, Cumple, Cumple-weaken, EsAusente, HalladaEn, Mantiene-refl, quieto-Mantiene,
}
pub use Shrinks.{Encoge, SinBaja}
use Shrinks.{Retirada}
pub use Slots.{EsArchivo, EsDirVacio, EsDirectorio, Quitable, Retira}
pub use Release.{liberar_entrada_valida}
use Slots.{
  EsArchivo-uso, EsDirVacio-uso, Borrada, BajaVale, quitar_archivo-Vale, quitar_directorio-Vale,
  ocupadas-le-uso,
}
use Ending.{quieto-Encoge, terminar_baja-Cumple}

module _ (p : Plataforma) (env : Entorno) (fs : Fs) (valido : EsValido p fs)
    (plataforma : EsPlataforma p) where
  -- The search for the parent, and the checks that open both handlers.
  abbrev pub padre_de : Texto → Busqueda Fs
  padre_de path = encontrar_entrada env.ahora fs (obtener_directorio_path path)

  abbrev pub BajaSinPadre : Texto → Type 0
  BajaSinPadre path =
      (cabe_en_buffer path ≡ false)
      ⊎ EsAusente (encontrar_entrada env.ahora fs (obtener_directorio_path path))

  guardas-Cumple :
      (P : Entrada → Type 0) (F : Type 0) (tam : ℕ) (path : Texto) (rest : Salida Codigo)
      → (path_largo path ≡ true → F)
      → Cumple
          (Encoge p fs P F (padre_de path) tam)
          (EsAusente (encontrar_entrada env.ahora fs (obtener_directorio_path path)))
          rest
      → Cumple (Encoge p fs P F (padre_de path) tam) (BajaSinPadre path) (
          if path_largo path
          then regresa (menos einval) fs
          else if cabe_en_buffer path
          then rest
          else colapsa)
  guardas-Cumple P F tam path rest long h =
      let E = Encoge p fs P F (padre_de path) tam in
      if_split (Cumple E (BajaSinPadre path)) (path_largo path) _ _
        (λ over.
          quieto-Encoge p env fs valido plataforma P F (padre_de path) tam fs _ refl (long over)
            (Mantiene-refl p fs valido) refl)
        (λ _.
          if_split (Cumple E (BajaSinPadre path)) (cabe_en_buffer path) _ _
            (λ _. Cumple-weaken E rest inr h) inl)

  -- Why a removal by path fails: the path is too long, or as SinBaja says.
  abbrev pub NoBaja : (Entrada → Type 0) → (Entrada → Type 0) → Texto → Type 0
  NoBaja N P path = (path_largo path ≡ true) ⊎ SinBaja N P (env.asigna 0) (padre_de path)

  unlink_en-Cumple :
      (F : Type 0) (a : Texto) (b : Busqueda Fs)
      → (SinBaja (EsArchivo a) (EsArchivo a) (env.asigna 0) b → F)
      → Vale p (ValeFs p fs) (uso_fs p) (uso p fs.raiz) b
      → Cumple (Encoge p fs (EsArchivo a) F b p.sizeof_archivo) (EsAusente b) (unlink_en p env a b)
  unfolding unlink_en Quitable
  unlink_en-Cumple F a (hallada (directorio c es) volver) why h =
      terminar_baja-Cumple p env fs valido plataforma (EsArchivo a) (EsArchivo a) F p.sizeof_archivo
        _ c es volver _ why (EsArchivo-uso p a) plataforma.archivo_acotado h
        (quitar_archivo-Vale p (env.asigna 0) a es (h.valida.2))
  unlink_en-Cumple F a (hallada vacia volver) why h =
      quieto-Encoge p env fs valido plataforma _ _ _ _ _ _ refl (why (inr (λ q. q)))
        (quieto-Mantiene p fs valido _ volver h) (h.cambio _ h.valida h.clase).2
  unlink_en-Cumple F a (hallada (archivo f) volver) why h =
      quieto-Encoge p env fs valido plataforma _ _ _ _ _ _ refl (why (inr (λ q. q)))
        (quieto-Mantiene p fs valido _ volver h) (h.cambio _ h.valida h.clase).2
  unlink_en-Cumple F a (hallada invalida volver) why h =
      quieto-Encoge p env fs valido plataforma _ _ _ _ _ _ refl (why (inr (λ q. q)))
        (quieto-Mantiene p fs valido _ volver h) (h.cambio _ h.valida h.clase).2
  unlink_en-Cumple F a (ausente fs') why h = tt
  unlink_en-Cumple F a colapso why h = h

  -- On a platform as EsPlataforma says and in a well-formed state fisopfs_unlink leaves a
  -- well-formed state. On success the parent directory of the path has the slot of a file of the
  -- path's last name empty, the other slots as they were and one entry less in its count, the tree
  -- has it in the parent's place and uses less by what the file used, contents included, and the
  -- space counter loses the size of a file struct; otherwise the counter and the use of the tree
  -- are as before, and the path is too long, an allocation fails, or the search finds no directory
  -- with a file of that name. It breaks down only if the copy of the path does not fit its buffer or
  -- the search finds no parent.
  pub unlink-Encoge :
      (path : Texto)
      → Cumple
          (Encoge p fs
            (EsArchivo (obtener_nombre_final_path path))
            (NoBaja
              (EsArchivo (obtener_nombre_final_path path))
              (EsArchivo (obtener_nombre_final_path path))
              path)
            (padre_de path)
            p.sizeof_archivo)
          (BajaSinPadre path)
          (fisopfs_unlink p env fs path)
  unfolding fisopfs_unlink
  unlink-Encoge path = guardas-Cumple _ _ _ path _ inl (
      unlink_en-Cumple _ _ _ inr
        (encontrar_entrada-Vale p env.ahora fs _ valido.arbol valido.raiz_directorio))

  rmdir_en-Cumple :
      (F : Type 0) (a : Texto) (b : Busqueda Fs)
      → (SinBaja (EsDirectorio p a) (EsDirVacio p a) (env.asigna 0) b → F)
      → Vale p (ValeFs p fs) (uso_fs p) (uso p fs.raiz) b
      → Cumple
          (Encoge p fs (EsDirVacio p a) F b p.sizeof_directorio)
          (EsAusente b)
          (rmdir_en p env a b)
  unfolding rmdir_en Quitable
  rmdir_en-Cumple F a (hallada (directorio c es) volver) why h =
      terminar_baja-Cumple p env fs valido plataforma (EsDirectorio p a) (EsDirVacio p a) F
        p.sizeof_directorio _ c es volver _ why (λ e k. omega (arith, EsDirVacio-uso p a e k))
        plataforma.directorio_acotado h (quitar_directorio-Vale p (env.asigna 0) a es (h.valida.2))
  rmdir_en-Cumple F a (hallada vacia volver) why h =
      quieto-Encoge p env fs valido plataforma _ _ _ _ _ _ refl (why (inr (λ q. q)))
        (quieto-Mantiene p fs valido _ volver h) (h.cambio _ h.valida h.clase).2
  rmdir_en-Cumple F a (hallada (archivo f) volver) why h =
      quieto-Encoge p env fs valido plataforma _ _ _ _ _ _ refl (why (inr (λ q. q)))
        (quieto-Mantiene p fs valido _ volver h) (h.cambio _ h.valida h.clase).2
  rmdir_en-Cumple F a (hallada invalida volver) why h =
      quieto-Encoge p env fs valido plataforma _ _ _ _ _ _ refl (why (inr (λ q. q)))
        (quieto-Mantiene p fs valido _ volver h) (h.cambio _ h.valida h.clase).2
  rmdir_en-Cumple F a (ausente fs') why h = tt
  rmdir_en-Cumple F a colapso why h = h

  -- On a platform as EsPlataforma says and in a well-formed state fisopfs_rmdir leaves a
  -- well-formed state. On success the parent directory of the path has the slot of an empty
  -- directory of the path's last name empty, the other slots as they were and one entry less in its
  -- count, the tree has it in the parent's place and uses less by what the directory used, and the
  -- space counter loses the size of a directory; otherwise the counter and the use of the tree are
  -- as before, and the path is too long, an allocation fails, or the search finds no directory whose
  -- first subdirectory of that name is empty. It breaks down only if the copy of the path does not
  -- fit its buffer or the search finds no parent.
  pub rmdir-Encoge :
      (path : Texto)
      → Cumple
          (Encoge p fs
            (EsDirVacio p (obtener_nombre_final_path path))
            (NoBaja
              (EsDirectorio p (obtener_nombre_final_path path))
              (EsDirVacio p (obtener_nombre_final_path path))
              path)
            (padre_de path)
            p.sizeof_directorio)
          (BajaSinPadre path)
          (fisopfs_rmdir p env fs path)
  unfolding fisopfs_rmdir
  rmdir-Encoge path = guardas-Cumple _ _ _ path _ inl (
      rmdir_en-Cumple _ _ _ inr
        (encontrar_entrada-Vale p env.ahora fs _ valido.arbol valido.raiz_directorio))
