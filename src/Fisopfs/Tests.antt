-- ===== src/Fisopfs/Tests.antt =====
-- fisopfs on small states: the theorems at concrete data.
use sistemas_operativos_fiub.Common.{ℕ, ◌≡◌, refl, true, some, List, [], ◌∷◌, ◌⊎◌, Texto, arith}
use sistemas_operativos_fiub.Fisopfs.Paths.{
  barra, obtener_nombre_final_path, dividir_path_en_dos, obtener_directorio_path,
}
use sistemas_operativos_fiub.Fisopfs.Tree.{
  Stat, Cabecera, Archivo, vacia, archivo, directorio, Entradas, nil, cons, Fs, Plataforma, Entorno,
  exito, es_negativo, cantidad_entradas,
}
use sistemas_operativos_fiub.Fisopfs.Directory.{Dir, expandir_entradas_dir}
use sistemas_operativos_fiub.Fisopfs.Lookup.{encontrar_entrada}
use sistemas_operativos_fiub.Fisopfs.Outcome.{Salida, colapsa}
use sistemas_operativos_fiub.Common.{str_eq, strchr, strrchr}
use sistemas_operativos_fiub.Fisopfs.Paths.{buscar_barra, obtener_parte_directorio}
use sistemas_operativos_fiub.Fisopfs.Lookup.{encontrar_entrada_rec, encontrar_en}
use sistemas_operativos_fiub.Fisopfs.Tree.{cantidad_entradas}
use sistemas_operativos_fiub.Fisopfs.Directory.{
  append, sin_iniciar, llenar_vacias, llenar_desde, llenar_directorio_con_entradas_vacias,
  expandir_entradas_dir, ocupar_vacia, tras_ocupar, colocar_entrada_dentro_de_directorio, crear_dir,
}
use sistemas_operativos_fiub.Fisopfs.Handlers.Create.{
  mkdir_en, mkdir_dentro, colocar_dir, terminar_alta,
}
use sistemas_operativos_fiub.Fisopfs.Handlers.Remove.{
  unlink_en, rmdir_en, quitar_archivo, quitar_directorio, terminar_baja, liberar_dir,
}
use sistemas_operativos_fiub.Fisopfs.Handlers.Content.{write_en, escribir_bytes}
use sistemas_operativos_fiub.Fisopfs.Handlers.Content.Defs.{bytes_sin_iniciar, copiar_en, realloc}
use mathlib.Core.Option.{Option, none}
use sistemas_operativos_fiub.Fisopfs.Tree.{Codigo, entero}
use sistemas_operativos_fiub.Fisopfs.Handlers.Create.{fisopfs_create, fisopfs_mkdir}
use sistemas_operativos_fiub.Fisopfs.Handlers.Remove.{
  fisopfs_rmdir, fisopfs_unlink, liberar_entrada,
}
use sistemas_operativos_fiub.Fisopfs.Handlers.Content.{
  fisopfs_read, fisopfs_truncate, fisopfs_write,
}
use sistemas_operativos_fiub.Fisopfs.Disk.Write.{Registro}
use sistemas_operativos_fiub.Fisopfs.Disk.Mount.{fisopfs_flush, fisopfs_init, montado}
use sistemas_operativos_fiub.Fisopfs.Disk.RoundTrip.{compacto, flush-init}
use sistemas_operativos_fiub.Fisopfs.Validity.{EsPlataforma, EsValida, EsValido, ocupadas, uso}
use sistemas_operativos_fiub.Fisopfs.Validity.Keeps.{Crece, Cumple, Mantiene}
use sistemas_operativos_fiub.Fisopfs.Validity.Create.{SinPadre, create-Mantiene, mkdir-Mantiene}
use sistemas_operativos_fiub.Fisopfs.Validity.Remove.{
  BajaSinPadre, Encoge, NoBaja, padre_de, rmdir-Encoge, unlink-Encoge,
}
use sistemas_operativos_fiub.Fisopfs.Validity.Remove.Slots.{EsArchivo, EsDirVacio, EsDirectorio}
use sistemas_operativos_fiub.Fisopfs.Validity.Content.{
  EscritoBien, truncate-Mantiene, write-EscritoBien,
}
use sistemas_operativos_fiub.Fisopfs.Validity.ReadBack.{Recibe, write-read}

abbrev st_de : ℕ → Stat
st_de n = record {
  st_size = n;
  st_uid = 1;
  st_gid = 1;
  st_mode = 33188;
  st_mtime = 5;
  st_atime = 5;
  st_ctime = 5;
  st_nlink = 1;
  st_ino = 0;
  st_blocks = 0;
  st_blksize = 0;
}

abbrev plataforma : Plataforma
plataforma = record {
  sizeof_fs = 16;
  sizeof_directorio = 200;
  sizeof_archivo = 180;
  max_espacio_fs = 5000;
}

abbrev entorno : Entorno
entorno = record { ahora = 9; uid = 1; gid = 1; asigna = λ k. true; basura = λ k. 255 }

-- A file "a" with the bytes "hi", in a block of three.
abbrev archivo_a : Archivo
archivo_a = record { nombre = 97 ∷ []; st = st_de 2; contenido = 104 ∷ 105 ∷ 0 ∷ [] }

-- An empty directory "d".
abbrev dir_d : Cabecera
dir_d = record { nombre = 100 ∷ []; st = st_de 0; cantidad_entradas_ocupadas = 0 }

abbrev cabecera_raiz : Cabecera
cabecera_raiz = record { nombre = barra ∷ []; st = st_de 0; cantidad_entradas_ocupadas = 2 }

abbrev slots : Entradas
slots = cons (archivo archivo_a) (cons vacia (cons (directorio dir_d (cons vacia nil)) nil))

abbrev fs0 : Fs
fs0 = record { raiz = directorio cabecera_raiz slots; espacio_total_ocupado_fs = 700 }

valida0 : EsValida (directorio cabecera_raiz slots)
unfolding ocupadas cantidad_entradas
valida0 = (refl, omega arith, (omega arith, (tt, ((refl, omega arith, (tt, tt)), tt))))

valido0 : EsValido plataforma fs0
unfolding uso
valido0 = record {
  arbol = valida0;
  raiz_directorio = tt;
  cubre = omega arith;
  dentro_del_maximo = omega arith;
}

plataforma0 : EsPlataforma plataforma
plataforma0 = record {
  con_directorio = omega arith;
  con_archivo = omega arith;
  directorio_acotado = omega arith;
  archivo_acotado = omega arith;
  maximo = omega arith;
}

-- "/d/x", "/a" and "/d".
abbrev path_x : Texto
path_x = barra ∷ 100 ∷ barra ∷ 120 ∷ []

abbrev path_a : Texto
path_a = barra ∷ 97 ∷ []

abbrev path_d : Texto
path_d = barra ∷ 100 ∷ []

flush-init_example :
    (rs : List Registro) × (fisopfs_flush true (λ k. true) fs0 (barra ∷ [])
      ≡ some (record { codigo = exito; persistencia = some rs }))
    × (fisopfs_init plataforma entorno (some rs) ≡ montado (compacto fs0))
flush-init_example = flush-init plataforma entorno (λ k. true) fs0 valido0 (λ k. refl) (λ k. refl)

write-read_example :
    Cumple
      (λ r fs'.
        (es_negativo r ≡ true)
        ⊎ Cumple (Recibe (120 ∷ 121 ∷ [])) ⊥ (fisopfs_read entorno fs' path_a 2 1))
      ⊥
      (fisopfs_write plataforma entorno fs0 path_a (120 ∷ 121 ∷ []) 1)
write-read_example =
    write-read plataforma fs0 valido0 plataforma0 entorno entorno path_a (120 ∷ 121 ∷ []) 1
      (omega arith)

mkdir-Mantiene_example :
    Cumple
      (Crece plataforma fs0 200)
      (SinPadre plataforma entorno fs0 valido0 plataforma0 (λ k. refl) path_x)
      (fisopfs_mkdir plataforma entorno fs0 path_x 493)
mkdir-Mantiene_example =
    mkdir-Mantiene plataforma entorno fs0 valido0 plataforma0 (λ k. refl) path_x 493

create-Mantiene_example :
    Cumple
      (Crece plataforma fs0 180)
      (SinPadre plataforma entorno fs0 valido0 plataforma0 (λ k. refl) path_x)
      (fisopfs_create plataforma entorno fs0 path_x 33188)
create-Mantiene_example =
    create-Mantiene plataforma entorno fs0 valido0 plataforma0 (λ k. refl) path_x 33188

unlink-Encoge_example :
    Cumple
      (Encoge plataforma fs0
        (EsArchivo (obtener_nombre_final_path path_a))
        (NoBaja plataforma entorno fs0 valido0 plataforma0
          (EsArchivo (obtener_nombre_final_path path_a))
          (EsArchivo (obtener_nombre_final_path path_a))
          path_a)
        (padre_de plataforma entorno fs0 valido0 plataforma0 path_a)
        180)
      (BajaSinPadre plataforma entorno fs0 valido0 plataforma0 path_a)
      (fisopfs_unlink plataforma entorno fs0 path_a)
unlink-Encoge_example = unlink-Encoge plataforma entorno fs0 valido0 plataforma0 path_a

rmdir-Encoge_example :
    Cumple
      (Encoge plataforma fs0
        (EsDirVacio plataforma (obtener_nombre_final_path path_d))
        (NoBaja plataforma entorno fs0 valido0 plataforma0
          (EsDirectorio plataforma (obtener_nombre_final_path path_d))
          (EsDirVacio plataforma (obtener_nombre_final_path path_d))
          path_d)
        (padre_de plataforma entorno fs0 valido0 plataforma0 path_d)
        200)
      (BajaSinPadre plataforma entorno fs0 valido0 plataforma0 path_d)
      (fisopfs_rmdir plataforma entorno fs0 path_d)
rmdir-Encoge_example = rmdir-Encoge plataforma entorno fs0 valido0 plataforma0 path_d

truncate-Mantiene_example :
    Cumple
      (λ r fs'. Mantiene plataforma fs0 fs')
      ⊥
      (fisopfs_truncate plataforma entorno fs0 path_a 7)
truncate-Mantiene_example =
    truncate-Mantiene plataforma entorno fs0 valido0 plataforma0 path_a 7 (omega arith)

write-EscritoBien_example :
    Cumple
      (EscritoBien plataforma entorno fs0 valido0 plataforma0 9 path_a (120 ∷ []) 4 (omega arith))
      ⊥
      (fisopfs_write plataforma entorno fs0 path_a (120 ∷ []) 4)
write-EscritoBien_example =
    write-EscritoBien plataforma entorno fs0 valido0 plataforma0 9 path_a (120 ∷ []) 4 (omega arith)

-- A directory whose only slot was just filled.
abbrev llena : Dir
llena = record {
  cab = record dir_d { cantidad_entradas_ocupadas = 1 };
  entradas = cons (archivo archivo_a) nil;
}

-- The code that a handler returns.
abbrev codigo_de : Salida Codigo → Option Codigo
codigo_de (Salida.regresa r fs) = some r
codigo_de colapsa = none

mkdir_run : codigo_de (fisopfs_mkdir plataforma entorno fs0 path_x 493) ≡ some exito
unfolding fisopfs_mkdir mkdir_en mkdir_dentro colocar_dir crear_dir
    colocar_entrada_dentro_de_directorio ocupar_vacia tras_ocupar expandir_entradas_dir
    llenar_directorio_con_entradas_vacias llenar_vacias llenar_desde append sin_iniciar
    cantidad_entradas terminar_alta encontrar_entrada encontrar_entrada_rec encontrar_en
    dividir_path_en_dos strchr str_eq obtener_directorio_path obtener_parte_directorio buscar_barra
    obtener_nombre_final_path strrchr
mkdir_run = refl

unlink_run : codigo_de (fisopfs_unlink plataforma entorno fs0 path_a) ≡ some exito
unfolding fisopfs_unlink unlink_en quitar_archivo terminar_baja encontrar_entrada
    encontrar_entrada_rec encontrar_en dividir_path_en_dos strchr str_eq obtener_directorio_path
    obtener_parte_directorio buscar_barra obtener_nombre_final_path strrchr
unlink_run = refl

rmdir_run : codigo_de (fisopfs_rmdir plataforma entorno fs0 path_d) ≡ some exito
unfolding fisopfs_rmdir rmdir_en quitar_directorio terminar_baja liberar_entrada liberar_dir
    encontrar_entrada encontrar_entrada_rec encontrar_en dividir_path_en_dos strchr str_eq
    obtener_directorio_path obtener_parte_directorio buscar_barra obtener_nombre_final_path strrchr
rmdir_run = refl

write_run :
    codigo_de (fisopfs_write plataforma entorno fs0 path_a (120 ∷ 121 ∷ []) 1) ≡ some (entero 2)
unfolding fisopfs_write write_en escribir_bytes copiar_en realloc bytes_sin_iniciar
    encontrar_entrada encontrar_entrada_rec encontrar_en dividir_path_en_dos strchr str_eq
    obtener_directorio_path obtener_parte_directorio buscar_barra obtener_nombre_final_path strrchr
write_run = refl
