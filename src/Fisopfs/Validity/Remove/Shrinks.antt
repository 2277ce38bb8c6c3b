-- ===== src/Fisopfs/Validity/Remove/Shrinks.antt =====
-- What fisopfs_unlink and fisopfs_rmdir do to a well-formed state.
use sistemas_operativos_fiub.Common.{ℕ, suc, ◌+◌, ◌≡◌, ◌⊎◌, Bool, true, false, if◌then◌else◌}
use sistemas_operativos_fiub.Fisopfs.Tree.{
  Cabecera, Entrada, directorio, Entradas, nil, Fs, Codigo, es_exito, Plataforma,
}
use sistemas_operativos_fiub.Fisopfs.Lookup.{Busqueda, hallada}
use sistemas_operativos_fiub.Fisopfs.Validity.{EsValido, uso}
use sistemas_operativos_fiub.Fisopfs.Validity.Remove.Slots.{Retira, Quitable}

-- The slots of the directory that was found.
abbrev pub entradas_de : Busqueda Fs → Entradas
entradas_de (hallada (directorio c es) volver) = es
entradas_de _ = nil

-- Why nothing was removed: an allocation failed, or the directory found has no entry to remove.
abbrev pub SinBaja : (Entrada → Type 0) → (Entrada → Type 0) → Bool → Busqueda Fs → Type 0
SinBaja N P m b = (m ≡ false) ⊎ (Quitable N P (entradas_de b) → ⊥)

module _ (p : Plataforma) (fs : Fs) where
  -- The directory that the search b found has the slot of `quitada` empty and counts one entry
  -- less, and in the tree it takes the place of the one found; the tree loses what `quitada` used.
  pub record Retirada (P : Entrada → Type 0) (b : Busqueda Fs) (fs' : Fs) : Type 0 where
    pub padre : Cabecera
    pub padre' : Cabecera
    pub entradas : Entradas
    pub nuevas : Entradas
    pub volver : Entrada → Fs
    pub quitada : Entrada
    pub hallado : b ≡ hallada (directorio padre entradas) volver
    pub cual : P quitada
    pub retira : Retira quitada entradas nuevas
    pub una_menos : suc padre'.cantidad_entradas_ocupadas ≡ padre.cantidad_entradas_ocupadas
    pub mismo_nombre : padre'.nombre ≡ padre.nombre
    pub arbol : fs'.raiz ≡ (volver (directorio padre' nuevas)).raiz
    pub uso_menos : uso p fs'.raiz + uso p quitada ≡ uso p fs.raiz

  -- The state stays well formed. On success the counter loses `tam`, and the directory found the
  -- entry; otherwise the counter and the use of the tree stay, and F holds.
  pub record Encoge (P : Entrada → Type 0) (F : Type 0) (b : Busqueda Fs) (tam : ℕ) (r : Codigo)
      (fs' : Fs) : Type 0 where
    pub valido' : EsValido p fs'
    pub cuenta :
        fs'.espacio_total_ocupado_fs + (if es_exito r then tam else 0) ≡ fs.espacio_total_ocupado_fs
    pub quitada : es_exito r ≡ true → Retirada P b fs'
    pub motivo : es_exito r ≡ false → F
    pub igual : es_exito r ≡ false → uso p fs'.raiz ≡ uso p fs.raiz
