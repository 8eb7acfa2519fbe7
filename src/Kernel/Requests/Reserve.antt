-- ===== src/Kernel/Requests/Reserve.antt =====
-- What the program gets of OC_FUNCION_RESERVAR.
use so_distribuido.Base.{
  ℕ, ◌+◌, ◌-◌, ◌%◌, ◌^◌, ◌<◌, ◌≤◌, ◌≡◌, inl, inr, refl, ◌∙◌, sym, List, [], ◌∷◌, none, some, true,
  false, leb, if◌then◌else◌, Buffer, memcpy_start, arith, Bool-cases, le→ltb_false,
}
use so_distribuido.Kernel.Heap.{
  Metadata, header, poner_metadata, marcar_bloque_ocupado, bytes_of, crear_metadata_libre,
}
use so_distribuido.Kernel.Heap.Blocks.{extent, Tiles, Placed, Placed-same, leer_same, leer-poner}
use so_distribuido.Kernel.Heap.Search.{first_fit, has_fit, buscar-first_fit}
use so_distribuido.Kernel.Heap.Reserve.{reserved, marcar_bloque_ocupado-Tiles}
use so_distribuido.Kernel.Requests.{
  MemoryCalls, PaginaHeap, Pages, buscar_codigo_de_proceso, has_room,
  obtener_pagina_con_suficiente_espacio, tabla_heap_agregar_pagina, modificar_pagina,
  obtener_direccion_relativa, reservar_es, Result, reservar, reservar_pagina, reservar_en,
  reservar_bloque, reservar_nueva, reservar_asignada, list_add, crear_pagina_heap, nro_siguiente,
}

-- What the kernel relies on, for the pages that are ready: those of a running process that the memory
-- gave. A read of such a page answers what it has, a write of its first bytes writes them, and it stays
-- ready.
pub record IsMemory {S : Type 0} (memory : MemoryCalls S) (tamanio : ℕ)
    (IsReady : S → ℕ → ℕ → Type 0) : Type 0 where
  pub read :
      (pid page : ℕ) (s : S)
      → IsReady s pid page
      → (i : ℕ) → i < tamanio
      → (memory.read_page pid page s).0 i ≡ memory.contents s pid page i
  pub read_ready :
      (pid page : ℕ) (s : S) → IsReady s pid page → IsReady (memory.read_page pid page s).1 pid page
  pub write_inside :
      (pid page size : ℕ) (bytes : Buffer) (s : S)
      → IsReady s pid page
      → size ≤ tamanio
      → (i : ℕ) → i < size
      → memory.contents (memory.write pid page size bytes s) pid page i ≡ bytes i
  pub write_ready :
      (pid page size : ℕ) (bytes : Buffer) (s : S)
      → IsReady s pid page
      → size ≤ tamanio
      → IsReady (memory.write pid page size bytes s) pid page

pub Tiles-same :
    (tamanio : ℕ) (a b : Buffer) (ms : List Metadata)
    → ((i : ℕ) → i < tamanio → a i ≡ b i)
    → Tiles tamanio a ms
    → Tiles tamanio b ms
Tiles-same tamanio a b ms same t = record {
  segment = Placed-same a b 0 ms (λ i h k. same i (omega (arith, k, t.filled))) t.segment;
  filled = t.filled;
}

-- The answer and the state that a reservation in a page with the blocks ms leaves.
pub record Reserved {S : Type 0} (memory : MemoryCalls S) (pages : Pages)
    (IsReady : S → ℕ → ℕ → Type 0) (pid espacio_pedido paginas_codigo : ℕ) (pagina : PaginaHeap)
    (tabla : List PaginaHeap) (ms : List Metadata) (answer : Result memory pages) : Type 0 where
  pub after : S
  pub answers :
      answer
      ≡ some (
        reservar_es
            (obtener_direccion_relativa pages.tamanio
              (first_fit espacio_pedido 0 ms)
              pagina.nro_pagina
              paginas_codigo)
            0,
        modificar_pagina pid espacio_pedido tabla,
        after,
      )
  pub tiles :
      Tiles pages.tamanio
        (memory.contents after pid (pagina.nro_pagina + paginas_codigo))
        (reserved espacio_pedido ms)
  pub ready : IsReady after pid (pagina.nro_pagina + paginas_codigo)

reservar_en-Reserved :
    {S : Type 0} (memory : MemoryCalls S) (pages : Pages) (IsReady : S → ℕ → ℕ → Type 0)
    (laws : IsMemory memory pages.tamanio IsReady) (pid espacio_pedido paginas_codigo : ℕ)
    (pagina : PaginaHeap) (tabla : List PaginaHeap) (s : S) (ms : List Metadata)
    → pages.tamanio < 2 ^ 32
    → IsReady s pid (pagina.nro_pagina + paginas_codigo)
    → Tiles pages.tamanio (memory.contents s pid (pagina.nro_pagina + paginas_codigo)) ms
    → has_fit espacio_pedido ms ≡ true
    → Reserved memory pages IsReady pid espacio_pedido paginas_codigo pagina tabla ms
        (reservar_en memory pages pid espacio_pedido paginas_codigo pagina tabla s)
unfolding reservar_en reservar_bloque
reservar_en-Reserved memory pages IsReady laws pid e paginas pagina tabla s ms small ready tiles
      fit =
    let page = pagina.nro_pagina + paginas in
    let bytes = (memory.read_page pid page s).0 in
    let s' = (memory.read_page pid page s).1 in
    let tiles' : Tiles pages.tamanio bytes ms =
      Tiles-same pages.tamanio (memory.contents s pid page) bytes ms
        (λ i h. sym (laws.read pid page s ready i h)) tiles in
    let ready' = laws.read_ready pid page s ready in
    let nuevos = marcar_bloque_ocupado (first_fit e 0 ms) bytes e pages.padding in
    record {
      after = memory.write pid page pages.tamanio nuevos s';
      answers = rw (buscar-first_fit pages.tamanio bytes e ms small tiles', reservar_bloque) refl;
      tiles =
          Tiles-same pages.tamanio nuevos _ (reserved e ms)
            (λ i h.
              sym (laws.write_inside pid page pages.tamanio nuevos s' ready' (omega arith) i h))
            (marcar_bloque_ocupado-Tiles pages.tamanio bytes e pages.padding ms small tiles' fit).0;
      ready = laws.write_ready pid page pages.tamanio nuevos s' ready' (omega arith);
    }

reservar_within :
    {S : Type 0} (memory : MemoryCalls S) (pages : Pages) (pid e paginas : ℕ)
    (tabla : List PaginaHeap) (s : S)
    → e + header ≤ pages.tamanio
    → buscar_codigo_de_proceso pid pages.codigos ≡ some paginas
    → reservar memory pages pid e tabla s
      ≡ reservar_pagina memory pages pid e paginas tabla s
          (obtener_pagina_con_suficiente_espacio pid e tabla)
unfolding reservar reservar_pagina
reservar_within memory pages pid e paginas tabla s h c =
    rw (le→ltb_false (pages.tamanio - header) e (omega (arith, h)), c, reservar) refl

-- With pages of less than 2^32 bytes, a reservation of a size that a page may hold, of a
-- process whose pages of code the kernel has and for which the table has a page with enough
-- free space, where the blocks of the page fill it and one of them fits, is answered with
-- error 0 and the pointer to the data of the first block that fits. That block is cut in two
-- in the memory, the blocks fill the page again, and the table counts the page less free.
-- The memory is one that reads what was written of the pages that are ready, as this page
-- is, and it is ready again after.
pub reservar-Reserved :
    {S : Type 0} (memory : MemoryCalls S) (pages : Pages) (IsReady : S → ℕ → ℕ → Type 0)
    (laws : IsMemory memory pages.tamanio IsReady) (pid espacio_pedido paginas_codigo : ℕ)
    (pagina : PaginaHeap) (tabla : List PaginaHeap) (s : S) (ms : List Metadata)
    → pages.tamanio < 2 ^ 32
    → espacio_pedido + header ≤ pages.tamanio
    → buscar_codigo_de_proceso pid pages.codigos ≡ some paginas_codigo
    → obtener_pagina_con_suficiente_espacio pid espacio_pedido tabla ≡ some pagina
    → IsReady s pid (pagina.nro_pagina + paginas_codigo)
    → Tiles pages.tamanio (memory.contents s pid (pagina.nro_pagina + paginas_codigo)) ms
    → has_fit espacio_pedido ms ≡ true
    → Reserved memory pages IsReady pid espacio_pedido paginas_codigo pagina tabla ms
        (reservar memory pages pid espacio_pedido tabla s)
unfolding reservar_pagina
reservar-Reserved memory pages IsReady laws pid e paginas pagina tabla s ms small h c room ready
      tiles fit =
    rw (reservar_within memory pages pid e paginas tabla s h c, room)
      (reservar_en-Reserved memory pages IsReady laws pid e paginas pagina tabla s ms small ready
        tiles fit)

obtener_added :
    (pid e : ℕ) (tabla : List PaginaHeap) (p : PaginaHeap)
    → obtener_pagina_con_suficiente_espacio pid e tabla ≡ none
    → obtener_pagina_con_suficiente_espacio pid e (list_add tabla p)
      ≡ (if has_room pid e p then some p else none)
unfolding obtener_pagina_con_suficiente_espacio list_add
obtener_added pid e [] p h = refl
obtener_added pid e (q ∷ qs) p h = elim (Bool-cases (has_room pid e q)) [
  | inl y ↦ let bad : some q ≡ none = rw y at h in ground arith
  | inr n ↦ rw n (obtener_added pid e qs p (rw n at h))
]

new_room :
    (tamanio pid e n : ℕ)
    → e + header + header ≤ tamanio
    → has_room pid e (crear_pagina_heap tamanio pid n) ≡ true
unfolding crear_pagina_heap
new_room tamanio pid e n h = ground arith

no_room :
    (tamanio pid e n : ℕ)
    → tamanio < e + header + header
    → has_room pid e (crear_pagina_heap tamanio pid n) ≡ false
unfolding crear_pagina_heap
no_room tamanio pid e n h = ground arith

-- The table with the new page of the process.
abbrev pub tabla_nueva : Pages → ℕ → List PaginaHeap → List PaginaHeap
tabla_nueva pages pid tabla = tabla_heap_agregar_pagina pages.tamanio pid tabla

reservar_added :
    {S : Type 0} (memory : MemoryCalls S) (pages : Pages) (pid e paginas : ℕ)
    (tabla : List PaginaHeap) (s : S)
    → e + header ≤ pages.tamanio
    → buscar_codigo_de_proceso pid pages.codigos ≡ some paginas
    → obtener_pagina_con_suficiente_espacio pid e tabla ≡ none
    → (memory.assign_pages pid 1 s).0 < 2 ^ 31
    → reservar memory pages pid e tabla s
      ≡ reservar_nueva memory pages pid e paginas
          (tabla_nueva pages pid tabla)
          (memory.assign_pages pid 1 s).1
          (obtener_pagina_con_suficiente_espacio pid e (tabla_nueva pages pid tabla))
unfolding reservar_pagina reservar_asignada
reservar_added memory pages pid e paginas tabla s h c room ok =
    let positive : leb (2 ^ 31) (memory.assign_pages pid 1 s).0 ≡ false = ground (arith, ok) in
    rw (reservar_within memory pages pid e paginas tabla s h c, room, positive) refl

-- A reservation of a process whose pages of code the kernel has, that passes the check of
-- its size, but whose size and two metadata are more than a page, for which the table has no
-- page with enough free space, has no defined result where the memory gives a page: the new
-- page is too small too, and the kernel reads NULL.
pub reservar-null :
    {S : Type 0} (memory : MemoryCalls S) (pages : Pages) (pid espacio_pedido paginas_codigo : ℕ)
    (tabla : List PaginaHeap) (s : S)
    → espacio_pedido + header ≤ pages.tamanio
    → pages.tamanio < espacio_pedido + header + header
    → buscar_codigo_de_proceso pid pages.codigos ≡ some paginas_codigo
    → obtener_pagina_con_suficiente_espacio pid espacio_pedido tabla ≡ none
    → (memory.assign_pages pid 1 s).0 < 2 ^ 31
    → reservar memory pages pid espacio_pedido tabla s ≡ none
unfolding tabla_heap_agregar_pagina reservar_nueva
reservar-null memory pages pid e paginas tabla s h k c room ok =
    let n = nro_siguiente pid 0 tabla in
    rw
      (
        reservar_added memory pages pid e paginas tabla s h c room ok,
        obtener_added pid e tabla (crear_pagina_heap pages.tamanio pid n) room,
        no_room pages.tamanio pid e n k,
      )
      refl

-- A page of one free block.
abbrev pub whole : ℕ → Metadata
whole tamanio = record { size = tamanio - header; is_free = true }

whole-word :
    (tamanio : ℕ)
    → header ≤ tamanio
    → tamanio < 2 ^ 32
    → crear_metadata_libre tamanio ≡ whole tamanio
unfolding crear_metadata_libre
whole-word tamanio h small =
    let eq : (tamanio + 2 ^ 32 - header) % 2 ^ 32 ≡ tamanio - header = omega (arith, h, small) in
    rw eq refl

whole-Tiles :
    (tamanio : ℕ) (bytes padding : Buffer)
    → header ≤ tamanio
    → tamanio < 2 ^ 32
    → ((i : ℕ) → i < header → bytes i ≡ bytes_of (crear_metadata_libre tamanio) padding i)
    → Tiles tamanio bytes (whole tamanio ∷ [])
unfolding Placed extent poner_metadata
whole-Tiles tamanio bytes padding h small same =
    let m = whole tamanio in
    let made = whole-word tamanio h small in
    record {
      segment = (
        leer_same bytes (poner_metadata bytes 0 m padding) 0 (λ i a b.
              rw made at same i (omega (arith, b))
              ∙ sym (memcpy_start bytes (bytes_of m padding) header i (omega (arith, b))))
            ∙ leer-poner bytes 0 m padding (omega (arith, small)),
        tt,
      );
      filled = omega (arith, h);
    }

whole-has_fit :
    (tamanio e : ℕ) → e + header + header ≤ tamanio → has_fit e (whole tamanio ∷ []) ≡ true
unfolding has_fit
whole-has_fit tamanio e h = ground arith

-- With pages of less than 2^32 bytes, a reservation of a process whose pages of code the
-- kernel has, for which the table has no page with enough free space, of a size that leaves
-- room for two metadata in a page, where the memory gives a page, which is ready, is
-- answered with error 0 and the pointer to the first block of the new page. The page is
-- formatted as one free block, which is cut in two, and stands in the table. The memory is
-- one that reads what was written of the pages that are ready, and the page is ready again
-- after.
pub reservar-nueva :
    {S : Type 0} (memory : MemoryCalls S) (pages : Pages) (IsReady : S → ℕ → ℕ → Type 0)
    (laws : IsMemory memory pages.tamanio IsReady) (pid espacio_pedido paginas_codigo : ℕ)
    (tabla : List PaginaHeap) (s : S)
    → pages.tamanio < 2 ^ 32
    → espacio_pedido + header + header ≤ pages.tamanio
    → buscar_codigo_de_proceso pid pages.codigos ≡ some paginas_codigo
    → obtener_pagina_con_suficiente_espacio pid espacio_pedido tabla ≡ none
    → (memory.assign_pages pid 1 s).0 < 2 ^ 31
    → IsReady (memory.assign_pages pid 1 s).1 pid (nro_siguiente pid 0 tabla + paginas_codigo)
    → Reserved memory pages IsReady pid espacio_pedido paginas_codigo
        (crear_pagina_heap pages.tamanio pid (nro_siguiente pid 0 tabla))
        (tabla_nueva pages pid tabla)
        (whole pages.tamanio ∷ [])
        (reservar memory pages pid espacio_pedido tabla s)
unfolding tabla_heap_agregar_pagina reservar_nueva crear_pagina_heap
reservar-nueva memory pages IsReady laws pid e paginas tabla s small h c room ok ready =
    let n = nro_siguiente pid 0 tabla in
    let pagina = crear_pagina_heap pages.tamanio pid n in
    rw
      (
        reservar_added memory pages pid e paginas tabla s (omega (arith, h)) c room ok,
        obtener_added pid e tabla pagina room,
        new_room pages.tamanio pid e n h,
      )
      (reservar_en-Reserved memory pages IsReady laws pid e paginas pagina
        (tabla_nueva pages pid tabla) _ (whole pages.tamanio ∷ []) small
        (laws.write_ready pid (n + paginas) header _ _ ready (omega (arith, h)))
        (whole-Tiles pages.tamanio _ pages.padding (omega (arith, h)) small
          (λ i k. laws.write_inside pid _ header _ _ ready (omega (arith, h)) i k))
        (whole-has_fit pages.tamanio e h))
