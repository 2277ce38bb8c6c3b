-- ===== src/Fisopfs/Validity.antt =====
-- When a tree of fisopfs is well formed, and what it occupies: the predicates that the theorems
-- about the handlers preserve.
pub mod Search
pub mod Keeps
pub mod Create
pub mod Remove
pub mod Content
pub mod ReadBack
pub mod Observers
use sistemas_operativos_fiub.Common.{ℕ, ◌+◌, ◌≤◌, ◌<◌, ◌≡◌, ◌^◌, length}
use sistemas_operativos_fiub.Fisopfs.Tree.{
  Entrada, vacia, archivo, directorio, invalida, Entradas, nil, cons, cantidad_entradas, Fs,
  Plataforma,
}

-- 1 for a slot that holds a file or a directory.
abbrev pub ocupa : Entrada → ℕ
ocupa vacia = 0
ocupa invalida = 0
ocupa _ = 1

unfoldable pub ocupadas : Entradas → ℕ
ocupadas nil = 0
ocupadas (cons e es) = ocupa e + ocupadas es

-- Every pointer can be followed, the block of a file holds its st_size bytes, and a directory
-- counts its occupied entries right and has an empty one left.
abbrev mutual
  pub EsValida : Entrada → Type 0
  EsValida vacia = Unit
  EsValida (archivo f) = f.st.st_size ≤ length f.contenido
  EsValida (directorio c es) =
      (c.cantidad_entradas_ocupadas ≡ ocupadas es)
      × (ocupadas es < cantidad_entradas es)
      × SonValidas es
  EsValida invalida = ⊥

  pub SonValidas : Entradas → Type 0
  SonValidas nil = Unit
  SonValidas (cons e es) = EsValida e × SonValidas es

-- The bytes that the space counter is meant to count: the structs and the contents.
module _ (p : Plataforma) where
  unfoldable mutual
    pub uso : Entrada → ℕ
    uso vacia = 0
    uso (archivo f) = p.sizeof_archivo + f.st.st_size
    uso (directorio c es) = p.sizeof_directorio + uso_entradas es
    uso invalida = 0

    pub uso_entradas : Entradas → ℕ
    uso_entradas nil = 0
    uso_entradas (cons e es) = uso e + uso_entradas es

-- The root is a directory.
abbrev pub EsDirectorio : Entrada → Type 0
EsDirectorio (directorio c es) = Unit
EsDirectorio _ = ⊥

-- What the program relies on: the structs have a size, far below 2^63, and the maximum is below 2^63.
pub record EsPlataforma (p : Plataforma) : Type 0 where
  pub con_directorio : 0 < p.sizeof_directorio
  pub con_archivo : 0 < p.sizeof_archivo
  pub directorio_acotado : p.sizeof_directorio < 2 ^ 63
  pub archivo_acotado : p.sizeof_archivo < 2 ^ 63
  pub maximo : p.max_espacio_fs < 2 ^ 63

-- A well-formed state: the tree is, the counter covers what is in use, and it stays within the
-- maximum.
pub record EsValido (p : Plataforma) (fs : Fs) : Type 0 where
  pub arbol : EsValida fs.raiz
  pub raiz_directorio : EsDirectorio fs.raiz
  pub cubre : p.sizeof_fs + uso p fs.raiz ≤ fs.espacio_total_ocupado_fs
  pub dentro_del_maximo : fs.espacio_total_ocupado_fs ≤ p.max_espacio_fs
