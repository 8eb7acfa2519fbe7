-- ===== src/Kernel/Requests.antt =====
-- solicitudes.c: the table of the pages of heap, and the requests OC_FUNCION_RESERVAR and
-- OC_FUNCION_LIBERAR of solve_request. The calls of memory_prot.h are the operations of a MemoryCalls,
-- which the memory process of Memoria fills (Requests/Memory).
-- The counters of the process that are only printed are left out. `none` is a call with no
-- defined result in C: a NULL that is read.
pub mod Reserve
pub mod Memory
pub mod Release
pub mod Address
use so_distribuido.Base.{
  ℕ, zero, suc, ◌+◌, ◌-◌, ◌*◌, ◌/◌, ◌%◌, ◌^◌, List, [], ◌∷◌, Option, none, some, Bool, true, false,
  ◌&&◌, ◌==◌, ltb, leb, if◌then◌else◌, Buffer,
}
use so_distribuido.SharedLibrary.MemoryProt.{negative}
use so_distribuido.Kernel.Heap.{
  Metadata, header, leer_metadata, bytes_of, crear_metadata_libre, buscar_bloque_disponible,
  marcar_bloque_ocupado, marcar_bloque_libre, defragmentar,
}

-- The memory process as the kernel calls it: a state, the bytes of the pages of a process, and
-- the calls. A call to write writes the first bytes of a page.
pub record MemoryCalls (S : Type 0) : Type 0 where
  pub contents : S → ℕ → ℕ → Buffer
  pub assign_pages : ℕ → ℕ → S → ℕ × S
  pub write : ℕ → ℕ → ℕ → Buffer → S → S
  pub read_page : ℕ → ℕ → S → Buffer × S
  pub delete_page : ℕ → ℕ → S → S
  pub finalize_process : ℕ → S → S

-- t_pagina_heap
pub record PaginaHeap : Type 0 where
  pub pid : ℕ
  pub nro_pagina : ℕ
  pub espacio_libre : ℕ

-- t_codigo_proceso
pub record CodigoProceso : Type 0 where
  pub pid : ℕ
  pub paginas_codigo : ℕ

-- TAMANIO_PAGINAS, tabla_paginas_por_proceso, and the padding of the metadata.
pub record Pages : Type 0 where
  pub tamanio : ℕ
  pub codigos : List CodigoProceso
  pub padding : Buffer

unfoldable pub buscar_codigo_de_proceso : ℕ → List CodigoProceso → Option ℕ
buscar_codigo_de_proceso pid [] = none
buscar_codigo_de_proceso pid (c ∷ cs) =
    let rest = buscar_codigo_de_proceso pid cs in
    if c.pid == pid then some c.paginas_codigo else rest

-- tiene_mismo_pid_y_espacio_disponible
abbrev pub has_room : ℕ → ℕ → PaginaHeap → Bool
has_room pid espacio p = p.pid == pid && leb (espacio + header) p.espacio_libre

unfoldable pub obtener_pagina_con_suficiente_espacio : ℕ → ℕ → List PaginaHeap → Option PaginaHeap
obtener_pagina_con_suficiente_espacio pid espacio [] = none
obtener_pagina_con_suficiente_espacio pid espacio (p ∷ ps) =
    let rest = obtener_pagina_con_suficiente_espacio pid espacio ps in
    if has_room pid espacio p then some p else rest

unfoldable pub crear_pagina_heap : ℕ → ℕ → ℕ → PaginaHeap
crear_pagina_heap tamanio pid nro_pagina = record {
  pid = pid;
  nro_pagina = nro_pagina;
  espacio_libre = tamanio - header;
}

-- The number after that of the last page of the process.
unfoldable pub nro_siguiente : ℕ → ℕ → List PaginaHeap → ℕ
nro_siguiente pid n [] = n
nro_siguiente pid n (p ∷ ps) = nro_siguiente pid (if p.pid == pid then p.nro_pagina + 1 else n) ps

unfoldable pub list_add : List PaginaHeap → PaginaHeap → List PaginaHeap
list_add [] p = p ∷ []
list_add (q ∷ qs) p = q ∷ list_add qs p

unfoldable pub tabla_heap_agregar_pagina : ℕ → ℕ → List PaginaHeap → List PaginaHeap
tabla_heap_agregar_pagina tamanio pid tabla =
    list_add tabla (crear_pagina_heap tamanio pid (nro_siguiente pid 0 tabla))

-- modificar_pagina on the page that obtener_pagina_con_suficiente_espacio answers.
unfoldable pub modificar_pagina : ℕ → ℕ → List PaginaHeap → List PaginaHeap
modificar_pagina pid espacio [] = []
modificar_pagina pid espacio (p ∷ ps) =
    let rest = modificar_pagina pid espacio ps in
    if has_room pid espacio p
    then record p { espacio_libre = p.espacio_libre - (espacio + header) } ∷ ps
    else p ∷ rest

-- _pagina_de_programa
abbrev pub is_page : ℕ → ℕ → PaginaHeap → Bool
is_page pid nro_pagina p = p.pid == pid && p.nro_pagina == nro_pagina

unfoldable pub buscar_pagina_heap : ℕ → ℕ → List PaginaHeap → Option PaginaHeap
buscar_pagina_heap pid nro_pagina [] = none
buscar_pagina_heap pid nro_pagina (p ∷ ps) =
    let rest = buscar_pagina_heap pid nro_pagina ps in
    if is_page pid nro_pagina p then some p else rest

unfoldable pub tabla_heap_cambiar_espacio_libre :
    ℕ → ℕ → ℕ → List PaginaHeap → Option (List PaginaHeap)
tabla_heap_cambiar_espacio_libre pid nro_pagina liberado [] = none
tabla_heap_cambiar_espacio_libre pid nro_pagina liberado (p ∷ ps) =
    let rest = tabla_heap_cambiar_espacio_libre pid nro_pagina liberado ps in
    if is_page pid nro_pagina p
    then some (record p { espacio_libre = p.espacio_libre + liberado } ∷ ps)
    else elim rest [ none ↦ none | some qs ↦ some (p ∷ qs) ]

unfoldable pub tabla_heap_sacar_pagina : ℕ → ℕ → List PaginaHeap → List PaginaHeap
tabla_heap_sacar_pagina pid nro_pagina [] = []
tabla_heap_sacar_pagina pid nro_pagina (p ∷ ps) =
    let rest = tabla_heap_sacar_pagina pid nro_pagina ps in
    if is_page pid nro_pagina p then ps else p ∷ rest

unfoldable pub pagina_vacia : ℕ → ℕ → ℕ → List PaginaHeap → Option Bool
pagina_vacia tamanio pid nro_pagina tabla = elim (buscar_pagina_heap pid nro_pagina tabla) [
  | none ↦ none
  | some p ↦ some (p.espacio_libre == tamanio - header)
]

unfoldable pub obtener_direccion_relativa : ℕ → ℕ → ℕ → ℕ → ℕ
obtener_direccion_relativa tamanio puntero nro_pagina paginas_codigo =
    (puntero + header + tamanio * nro_pagina + tamanio * paginas_codigo) % 2 ^ 32

-- The number of the page and the place of the block in it.
unfoldable pub obtener_direccion_de_bloque_verdadera : ℕ → ℕ → ℕ → ℕ × ℕ
obtener_direccion_de_bloque_verdadera tamanio posicion paginas_codigo = (
  (posicion / tamanio + 2 ^ 32 - paginas_codigo) % 2 ^ 32,
  (posicion % tamanio + 2 ^ 32 - header) % 2 ^ 32,
)

-- What the CPU gets: the pointer and the error of OC_RESP_RESERVAR, the status of
-- OC_RESP_LIBERAR, or nothing.
pub data Answer : Type 0 where
  reservar_es : (puntero : ℕ) → (error_heap : ℕ) → Answer
  liberar_es : (status : ℕ) → Answer
  no_answer : Answer

abbrev pub no_space : ℕ
no_space = negative 203

module _ {S : Type 0} (memory : MemoryCalls S) (pages : Pages) where
  abbrev pub Result : Type 0
  Result = Option (Answer × List PaginaHeap × S)

  -- The rest of OC_FUNCION_RESERVAR, with the block that buscar_bloque_disponible answers.
  unfoldable pub reservar_bloque :
      ℕ → ℕ → ℕ → PaginaHeap → List PaginaHeap → Buffer → S → Option ℕ → Result
  reservar_bloque pid espacio paginas_codigo pagina tabla bytes s none = none
  reservar_bloque pid espacio paginas_codigo pagina tabla bytes s (some bloque) =
      let nuevos = marcar_bloque_ocupado bloque bytes espacio pages.padding in
      some (
        reservar_es
            (obtener_direccion_relativa pages.tamanio bloque pagina.nro_pagina paginas_codigo) 0,
        modificar_pagina pid espacio tabla,
        memory.write pid (pagina.nro_pagina + paginas_codigo) pages.tamanio nuevos s,
      )

  -- From the reading of the page on.
  unfoldable pub reservar_en : ℕ → ℕ → ℕ → PaginaHeap → List PaginaHeap → S → Result
  reservar_en pid espacio paginas_codigo pagina tabla s =
      let (bytes, s') = memory.read_page pid (pagina.nro_pagina + paginas_codigo) s in
      reservar_bloque pid espacio paginas_codigo pagina tabla bytes s'
        (buscar_bloque_disponible pages.tamanio bytes espacio)

  -- The new page is formatted and used.
  unfoldable pub reservar_nueva : ℕ → ℕ → ℕ → List PaginaHeap → S → Option PaginaHeap → Result
  reservar_nueva pid espacio paginas_codigo tabla s none = none
  reservar_nueva pid espacio paginas_codigo tabla s (some pagina) =
      reservar_en pid espacio paginas_codigo pagina tabla (
        memory.write pid (pagina.nro_pagina + paginas_codigo) header
          (bytes_of (crear_metadata_libre pages.tamanio) pages.padding) s)

  -- From the answer of assign_pages on.
  unfoldable pub reservar_asignada : ℕ → ℕ → ℕ → List PaginaHeap → ℕ × S → Result
  reservar_asignada pid espacio paginas_codigo tabla (status, s) =
      let tabla' = tabla_heap_agregar_pagina pages.tamanio pid tabla in
      if leb (2 ^ 31) status
      then if status == no_space
        then some (reservar_es 0 2, tabla, memory.finalize_process pid s)
        else some (no_answer, tabla, s)
      else reservar_nueva pid espacio paginas_codigo tabla' s
          (obtener_pagina_con_suficiente_espacio pid espacio tabla')

  unfoldable pub reservar_pagina : ℕ → ℕ → ℕ → List PaginaHeap → S → Option PaginaHeap → Result
  reservar_pagina pid espacio paginas_codigo tabla s none =
      reservar_asignada pid espacio paginas_codigo tabla (memory.assign_pages pid 1 s)
  reservar_pagina pid espacio paginas_codigo tabla s (some pagina) =
      reservar_en pid espacio paginas_codigo pagina tabla s

  -- OC_FUNCION_RESERVAR. The kernel has the pages of code of every process that runs: for another
  -- one, the NULL of buscar_codigo_de_proceso is taken to be read, whatever the memory answers.
  unfoldable pub reservar : ℕ → ℕ → List PaginaHeap → S → Result
  reservar pid espacio tabla s =
      if ltb (pages.tamanio - header) espacio
      then some (reservar_es 0 1, tabla, memory.finalize_process pid s)
      else elim (buscar_codigo_de_proceso pid pages.codigos) [
        | none ↦ none
        | some paginas_codigo ↦
            reservar_pagina pid espacio paginas_codigo tabla s
              (obtener_pagina_con_suficiente_espacio pid espacio tabla)
      ]

  -- The end of OC_FUNCION_LIBERAR: an empty page goes back to the memory.
  unfoldable pub liberar_fin : ℕ → ℕ → ℕ → Buffer → List PaginaHeap → S → Option Bool → Result
  liberar_fin pid nro_pagina paginas_codigo bytes tabla s none = none
  liberar_fin pid nro_pagina paginas_codigo bytes tabla s (some true) = some (
    liberar_es 1,
    tabla_heap_sacar_pagina pid nro_pagina tabla,
    memory.delete_page pid ((nro_pagina + paginas_codigo) % 2 ^ 32) s,
  )
  liberar_fin pid nro_pagina paginas_codigo bytes tabla s (some false) = some (
    liberar_es 1,
    tabla,
    memory.write pid ((nro_pagina + paginas_codigo) % 2 ^ 32) pages.tamanio bytes s,
  )

  -- After the change of the table in defragmentar.
  unfoldable pub liberar_tabla : ℕ → ℕ → ℕ → Buffer → S → Option (List PaginaHeap) → Result
  liberar_tabla pid nro_pagina paginas_codigo bytes s none = none
  liberar_tabla pid nro_pagina paginas_codigo bytes s (some tabla) =
      liberar_fin pid nro_pagina paginas_codigo bytes tabla s
        (pagina_vacia pages.tamanio pid nro_pagina tabla)

  -- From defragmentar on; two blocks that are joined are a metadata more of free space.
  unfoldable pub liberar_junta : ℕ → ℕ → ℕ → List PaginaHeap → S → Option (Buffer × Bool) → Result
  liberar_junta pid nro_pagina paginas_codigo tabla s none = none
  liberar_junta pid nro_pagina paginas_codigo tabla s (some (bytes, joined)) =
      liberar_tabla pid nro_pagina paginas_codigo bytes s (
        if joined then tabla_heap_cambiar_espacio_libre pid nro_pagina header tabla else some tabla)

  unfoldable pub liberar_bloque : ℕ → ℕ → ℕ → ℕ → Buffer → S → Option (List PaginaHeap) → Result
  liberar_bloque pid nro_pagina bloque paginas_codigo bytes s none = none
  liberar_bloque pid nro_pagina bloque paginas_codigo bytes s (some tabla) =
      let libre = marcar_bloque_libre (leer_metadata bytes bloque) bytes bloque pages.padding in
      liberar_junta pid nro_pagina paginas_codigo tabla s
        (defragmentar pages.tamanio libre pages.padding)

  -- The place of the block and the page are known; a place before the page is not one.
  unfoldable pub liberar_en : ℕ → ℕ → ℕ × ℕ → List PaginaHeap → S → Result
  liberar_en pid paginas_codigo (nro_pagina, bloque) tabla s =
      let (bytes, s') = memory.read_page pid ((nro_pagina + paginas_codigo) % 2 ^ 32) s in
      let resto =
        liberar_bloque pid nro_pagina bloque paginas_codigo bytes s' (
          tabla_heap_cambiar_espacio_libre pid nro_pagina (leer_metadata bytes bloque).size
            tabla) in
      if leb (2 ^ 31) bloque then none else resto

  -- OC_FUNCION_LIBERAR; a negative pointer, an int, is not in a page.
  unfoldable pub liberar : ℕ → ℕ → List PaginaHeap → S → Result
  liberar pid posicion tabla s = elim (buscar_codigo_de_proceso pid pages.codigos) [
    | none ↦ none
    | some paginas_codigo ↦
        let liberado =
          liberar_en pid paginas_codigo
            (obtener_direccion_de_bloque_verdadera pages.tamanio posicion paginas_codigo) tabla s in
        if leb (2 ^ 31) posicion then none else liberado
  ]
