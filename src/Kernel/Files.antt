-- ===== src/Kernel/Files.antt =====
-- The tables of open files of solicitudes.c and kernel_generales.c: the global table, which counts
-- how often a file is open, and one table for each process. What the file system answers to
-- fs_validate_file and fs_create_file is an argument.
pub mod Counts
pub mod Balance
pub mod Close
use so_distribuido.Base.{
  same_text, ℕ, ◌+◌, ◌-◌, ◌%◌, ◌^◌, List, [], ◌∷◌, ◌++◌, Option, none, some, Bool, true, false,
  ◌&&◌, ◌||◌, not, ◌==◌, ltb, leb, if◌then◌else◌,
}

-- t_global_file; the name of the file is its bytes.
pub record GlobalFile : Type 0 where
  pub file : List ℕ
  pub open_count : ℕ
  pub global_fd : ℕ

-- t_banderas
pub record Flags : Type 0 where
  pub lectura : Bool
  pub escritura : Bool
  pub creacion : Bool

-- t_process_file
pub record ProcessFile : Type 0 where
  pub proceso_fd : ℕ
  pub global_fd : ℕ
  pub flags : Flags
  pub offset_cursor : ℕ

-- t_table_file
pub record TableFile : Type 0 where
  pub pid : ℕ
  pub tabla_archivos : List ProcessFile
  pub contador_fd : ℕ

-- tabla_global_archivos, contador_fd_global, listaDeTablasDeArchivosDeProcesos
pub record FileTables : Type 0 where
  pub global : List GlobalFile
  pub contador_fd_global : ℕ
  pub tablas : List TableFile

-- buscarArchivoTablaGlobal: the descriptor of the file, which is counted as open once more; -1 is
-- `none`.
unfoldable pub buscar_archivo : List ℕ → List GlobalFile → Option ℕ × List GlobalFile
buscar_archivo direccion [] = (none, [])
buscar_archivo direccion (g ∷ gs) =
    let (fd, rest) = buscar_archivo direccion gs in
    if same_text g.file direccion
    then (some g.global_fd, record g { open_count = (g.open_count + 1) % 2 ^ 32 } ∷ gs)
    else (fd, g ∷ rest)

-- crearArchivoTablaGlobal; contador_fd_global is a uint8_t.
unfoldable pub crear_archivo : List ℕ → FileTables → ℕ × FileTables
crear_archivo direccion s = (
  s.contador_fd_global,
  record s {
    global =
        s.global
        ++ record { file = direccion; open_count = 1; global_fd = s.contador_fd_global } ∷ [];
    contador_fd_global = (s.contador_fd_global + 1) % 2 ^ 8;
  },
)

-- getTablaArchivo: the table of a process, `none` for a process without one.
unfoldable pub find_tabla : ℕ → List TableFile → Option TableFile
find_tabla pid [] = none
find_tabla pid (t ∷ ts) = if t.pid == pid then some t else find_tabla pid ts

-- getTablaArchivo adds a table for a process that has none.
unfoldable pub get_tabla : ℕ → List TableFile → List TableFile
get_tabla pid ts = elim (find_tabla pid ts) [
  | some t ↦ ts
  | none ↦ ts ++ record { pid = pid; tabla_archivos = []; contador_fd = 10 } ∷ []
]

-- cargarArchivoTablaProceso, on the table that getTablaArchivo answers.
unfoldable pub cargar_archivo : ℕ → ℕ → Flags → List TableFile → Option ℕ × List TableFile
cargar_archivo pid fd_global flags [] = (none, [])
cargar_archivo pid fd_global flags (t ∷ ts) =
    let (fd, rest) = cargar_archivo pid fd_global flags ts in
    let file : ProcessFile = record {
      proceso_fd = t.contador_fd;
      global_fd = fd_global;
      flags = flags;
      offset_cursor = 0;
    } in
    if t.pid == pid
    then (
      some t.contador_fd,
      record t {
        tabla_archivos = t.tabla_archivos ++ file ∷ [];
        contador_fd = (t.contador_fd + 1) % 2 ^ 8;
      }
          ∷ ts,
    )
    else (fd, t ∷ rest)

-- The descriptor of a process for an open file.
unfoldable pub cargar : ℕ → ℕ → Flags → FileTables → Option ℕ × FileTables
cargar pid fd_global flags s =
    let (fd, tablas) = cargar_archivo pid fd_global flags (get_tabla pid s.tablas) in
    (fd, record s { tablas = tablas })

-- abrir_archivo, where the file is not in the global table. `is_reg` says that fs_validate_file
-- answered ISREG, `created` that fs_create_file answered a positive number; a negative answer is
-- `none`.
unfoldable pub abrir_nuevo : ℕ → List ℕ → Flags → Bool → Bool → FileTables → Option ℕ × FileTables
abrir_nuevo pid direccion flags is_reg created s =
    let (fd, s') = crear_archivo direccion s in
    if ((flags.lectura || flags.escritura) && is_reg) || (flags.creacion && created)
    then cargar pid fd flags s'
    else (none, s)

-- abrir_archivo
unfoldable pub abrir_archivo : ℕ → List ℕ → Flags → Bool → Bool → FileTables → Option ℕ × FileTables
abrir_archivo pid direccion flags is_reg created s =
    let (fd, global) = buscar_archivo direccion s.global in
    elim fd [
      | none ↦ abrir_nuevo pid direccion flags is_reg created s
      | some g ↦ cargar pid g flags (record s { global = global })
    ]

-- buscarArchivoTablaProceso
unfoldable pub buscar_proceso : ℕ → List ProcessFile → Option ProcessFile
buscar_proceso fd [] = none
buscar_proceso fd (f ∷ fs) = if f.proceso_fd == fd then some f else buscar_proceso fd fs

-- descontarDeLaTablaGlobal; `none` where it would read a file that is not in the table.
unfoldable pub descontar : ℕ → List GlobalFile → Option (List GlobalFile)
descontar fd [] = none
descontar fd (g ∷ gs) =
    let rest = descontar fd gs in
    if g.global_fd == fd
    then some (if ltb 1 g.open_count then record g { open_count = g.open_count - 1 } ∷ gs else gs)
    else (elim rest [ none ↦ none | some left ↦ some (g ∷ left) ])

-- list_remove_and_destroy_by_condition on the descriptor of a process
unfoldable pub quitar : ℕ → List ProcessFile → List ProcessFile
quitar fd [] = []
quitar fd (f ∷ fs) = if f.proceso_fd == fd then fs else f ∷ quitar fd fs

unfoldable pub quitar_archivo : ℕ → ℕ → List TableFile → List TableFile
quitar_archivo pid fd [] = []
quitar_archivo pid fd (t ∷ ts) =
    if t.pid == pid
    then record t { tabla_archivos = quitar fd t.tabla_archivos } ∷ ts
    else t ∷ quitar_archivo pid fd ts

unfoldable pub buscar_en_tablas : ℕ → ℕ → List TableFile → Option ProcessFile
buscar_en_tablas pid fd [] = none
buscar_en_tablas pid fd (t ∷ ts) =
    if t.pid == pid then buscar_proceso fd t.tabla_archivos else buscar_en_tablas pid fd ts

-- The rest of the request OC_FUNCION_CERRAR, for an open file.
unfoldable pub cerrar :
    ℕ → ℕ → List TableFile → FileTables → Option (List GlobalFile) → Option (Bool × FileTables)
cerrar pid fd tablas s none = none
cerrar pid fd tablas s (some global) =
    some (true, record s { global = global; tablas = quitar_archivo pid fd tablas })

-- The request OC_FUNCION_CERRAR; false is EC_ARCHIVO_NO_ABIERTO.
unfoldable pub cerrar_archivo : ℕ → ℕ → FileTables → Option (Bool × FileTables)
cerrar_archivo pid fd s =
    let tablas = get_tabla pid s.tablas in
    elim (buscar_en_tablas pid fd tablas) [
      | none ↦ some (false, record s { tablas = tablas })
      | some f ↦ cerrar pid fd tablas s (descontar f.global_fd s.global)
    ]
