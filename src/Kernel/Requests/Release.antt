-- ===== src/Kernel/Requests/Release.antt =====
-- What OC_FUNCION_LIBERAR does to the page and to the table.
use so_distribuido.Base.{
  ℕ, ◌+◌, ◌-◌, ◌%◌, ◌^◌, ◌<◌, ◌≤◌, ◌≡◌, inl, inr, refl, ◌∙◌, ap, sym, List, [], ◌∷◌, ◌++◌, none,
  some, Bool, true, false, ◌==◌, leb, if◌then◌else◌, Buffer, arith, Bool-cases,
}
use so_distribuido.Kernel.Heap.{Metadata, header, leer_metadata, defragmentar}
use so_distribuido.Kernel.Heap.Blocks.{extent, espacio, Tiles}
use so_distribuido.Kernel.Heap.Change.{read_middle, middle_le}
use so_distribuido.Kernel.Heap.Release.{freed, marcar_bloque_libre-Tiles}
use so_distribuido.Kernel.Heap.Merge.{merged, joins, defragmentar-Tiles}
use so_distribuido.Kernel.Requests.{
  MemoryCalls, PaginaHeap, Pages, buscar_codigo_de_proceso, is_page, buscar_pagina_heap,
  tabla_heap_cambiar_espacio_libre, tabla_heap_sacar_pagina, pagina_vacia,
  obtener_direccion_de_bloque_verdadera, liberar_es, Result, liberar, liberar_en, liberar_bloque,
  liberar_junta, liberar_tabla, liberar_fin,
}
use so_distribuido.Kernel.Requests.Reserve.{IsMemory, Tiles-same, whole}

-- espacio_libre is kept in step.
cambiar-buscar :
    (pid n d : ℕ) (tabla : List PaginaHeap) (p : PaginaHeap)
    → buscar_pagina_heap pid n tabla ≡ some p
    → (tabla' : List PaginaHeap) × (tabla_heap_cambiar_espacio_libre pid n d tabla ≡ some tabla')
      × (buscar_pagina_heap pid n tabla' ≡ some (record p { espacio_libre = p.espacio_libre + d }))
unfolding buscar_pagina_heap tabla_heap_cambiar_espacio_libre
cambiar-buscar pid n d [] p h = ground arith
cambiar-buscar pid n d (q ∷ qs) p h = elim (Bool-cases (is_page pid n q)) [
  | inl y ↦
      let e : some q ≡ some p = rw y at h in
      (
        record q { espacio_libre = q.espacio_libre + d } ∷ qs,
        rw y refl,
        rw y (
            ap
              (λ o. elim o [
                | none ↦ none
                | some x ↦ some (record x { espacio_libre = x.espacio_libre + d })
              ])
              e),
      )
  | inr n' ↦
      let (rest, changed, found) = cambiar-buscar pid n d qs p (rw n' at h) in
      (q ∷ rest, rw (n', changed) refl, rw n' found)
]

free_le : (b : Bool) (n : ℕ) → (if b then n else 0) ≤ n
free_le true n = omega arith
free_le false n = omega arith

-- The metadata is never free space.
espacio_le : (m : Metadata) (ms : List Metadata) → espacio (m ∷ ms) + header ≤ extent (m ∷ ms)
unfolding espacio extent
espacio_le m [] = let le = free_le m.is_free m.size in omega (arith, le)
espacio_le m (m₂ ∷ ms) =
    let le = free_le m.is_free m.size in let ih = espacio_le m₂ ms in omega (arith, le, ih)

same_metadata : (a b : Metadata) → a.size ≡ b.size → a.is_free ≡ b.is_free → a ≡ b
same_metadata a b e f i = record { size = e i; is_free = f i }

free_whole :
    (tamanio : ℕ) (m : Metadata)
    → m.size ≡ tamanio - header
    → m.is_free ≡ true
    → m ∷ [] ≡ whole tamanio ∷ []
free_whole tamanio m e f = ap (λ x. x ∷ []) (same_metadata m (whole tamanio) e f)

-- Blocks that fill a page, and whose free space is all of it but a metadata, are one free block.
pub espacio-whole :
    (tamanio : ℕ) (ms : List Metadata)
    → header < tamanio
    → extent ms ≡ tamanio
    → espacio ms ≡ tamanio - header
    → ms ≡ whole tamanio ∷ []
unfolding espacio extent
espacio-whole tamanio [] h filled free = ground arith
espacio-whole tamanio (m ∷ []) h filled free = elim (Bool-cases m.is_free) [
  | inl y ↦ free_whole tamanio m (omega (arith, filled)) y
  | inr n ↦ let f = rw n at free in ground (arith, f, h)
]
espacio-whole tamanio (m ∷ m₂ ∷ ms) h filled free =
    let le = free_le m.is_free m.size in
    let ih = espacio_le m₂ ms in
    let bad : tamanio < tamanio = omega (arith, le, ih, filled, free, h) in ground (arith, bad)

-- The page that was read, as it is numbered in the memory.
abbrev pub page_of : ℕ → ℕ → ℕ
page_of n paginas_codigo = (n + paginas_codigo) % 2 ^ 32

-- The blocks after defragmentar.
abbrev pub defragmented : List Metadata → List Metadata
defragmented [] = []
defragmented (m ∷ ms) = merged m ms

-- The blocks that a release leaves: the page goes back to the memory as one free block, or it is
-- written, and the table keeps its free space.
pub data Released {S : Type 0} (memory : MemoryCalls S) (pages : Pages)
    (IsReady : S → ℕ → ℕ → Type 0) (pid n paginas_codigo : ℕ) (ms : List Metadata)
    (answer : Result memory pages) : Type 0 where
  page_returned :
      (tabla : List PaginaHeap) (s : S)
      → ms ≡ whole pages.tamanio ∷ []
      → IsReady s pid (page_of n paginas_codigo)
      → answer
        ≡ some (
          liberar_es 1,
          tabla_heap_sacar_pagina pid n tabla,
          memory.delete_page pid (page_of n paginas_codigo) s,
        )
      → Released memory pages IsReady pid n paginas_codigo ms answer
  page_kept :
      (tabla : List PaginaHeap) (s : S) (p : PaginaHeap)
      → answer ≡ some (liberar_es 1, tabla, s)
      → IsReady s pid (page_of n paginas_codigo)
      → Tiles pages.tamanio (memory.contents s pid (page_of n paginas_codigo)) ms
      → buscar_pagina_heap pid n tabla ≡ some p
      → p.espacio_libre ≡ espacio ms
      → Released memory pages IsReady pid n paginas_codigo ms answer

equal : (a b : ℕ) → (a == b) ≡ true → a ≡ b
equal a b h = ground arith

vacia_some :
    (tamanio pid n : ℕ) (tabla : List PaginaHeap) (p : PaginaHeap)
    → buscar_pagina_heap pid n tabla ≡ some p
    → pagina_vacia tamanio pid n tabla ≡ some (p.espacio_libre == tamanio - header)
unfolding pagina_vacia
vacia_some tamanio pid n tabla p found = rw (found, pagina_vacia) refl

module _ {S : Type 0} (memory : MemoryCalls S) (pages : Pages) (IsReady : S → ℕ → ℕ → Type 0)
    (laws : IsMemory memory pages.tamanio IsReady) (pid paginas : ℕ) (big : header < pages.tamanio)
    (small : pages.tamanio < 2 ^ 31) where
  tabla-Released :
      (n : ℕ) (bytes : Buffer) (tabla : List PaginaHeap) (s : S) (p : PaginaHeap)
      (ms : List Metadata)
      → IsReady s pid (page_of n paginas)
      → Tiles pages.tamanio bytes ms
      → buscar_pagina_heap pid n tabla ≡ some p
      → p.espacio_libre ≡ espacio ms
      → Released memory pages IsReady pid n paginas ms
          (liberar_tabla memory pages pid n paginas bytes s (some tabla))
  unfolding liberar_tabla liberar_fin
  tabla-Released n bytes tabla s p ms ready tiles found same =
      let vacia = vacia_some pages.tamanio pid n tabla p found in
      elim (Bool-cases (p.espacio_libre == pages.tamanio - header)) [
        | inl y ↦
            page_returned tabla s
              (espacio-whole pages.tamanio ms big tiles.filled (sym same ∙ equal _ _ y)) ready
              (rw (vacia, y) refl)
        | inr n' ↦
            page_kept tabla (memory.write pid (page_of n paginas) pages.tamanio bytes s) p
              (rw (vacia, n') refl)
              (laws.write_ready pid (page_of n paginas) pages.tamanio bytes s ready (omega arith))
              (Tiles-same pages.tamanio bytes _ ms
                (λ i h. sym (
                  laws.write_inside pid (page_of n paginas) pages.tamanio bytes s ready
                    (omega arith) i h))
                tiles)
              found same
      ]

  junta-Released :
      (n : ℕ) (bytes : Buffer) (tabla : List PaginaHeap) (s : S) (p : PaginaHeap) (m : Metadata)
      (ms : List Metadata)
      → IsReady s pid (page_of n paginas)
      → Tiles pages.tamanio bytes (m ∷ ms)
      → buscar_pagina_heap pid n tabla ≡ some p
      → p.espacio_libre ≡ espacio (m ∷ ms)
      → Released memory pages IsReady pid n paginas (merged m ms) (
          liberar_junta memory pages pid n paginas tabla s
            (defragmentar pages.tamanio bytes pages.padding))
  unfolding liberar_junta
  junta-Released n bytes tabla s p m ms ready tiles found same =
      let (result, answers, tiles', counted) =
        defragmentar-Tiles pages.tamanio bytes pages.padding m ms small tiles in
      elim (Bool-cases (joins m ms)) [
        | inl y ↦
            let (tabla', changed, found') = cambiar-buscar pid n header tabla p found in
            rw (answers, y, changed)
              (tabla-Released n result tabla' s _ (merged m ms) ready tiles' found'
                (let c = rw y at counted in omega (arith, c, same)))
        | inr n' ↦
            rw (answers, n')
              (tabla-Released n result tabla s p (merged m ms) ready tiles' found
                (let c = rw n' at counted in omega (arith, c, same)))
      ]

  libre-Released :
      (n : ℕ) (bytes : Buffer) (tabla : List PaginaHeap) (s : S) (p : PaginaHeap)
      (ms : List Metadata)
      → IsReady s pid (page_of n paginas)
      → Tiles pages.tamanio bytes ms
      → buscar_pagina_heap pid n tabla ≡ some p
      → p.espacio_libre ≡ espacio ms
      → Released memory pages IsReady pid n paginas (defragmented ms) (
          liberar_junta memory pages pid n paginas tabla s
            (defragmentar pages.tamanio bytes pages.padding))
  unfolding extent
  libre-Released n bytes tabla s p [] ready tiles found same =
      let f = tiles.filled in ground (arith, f, big)
  libre-Released n bytes tabla s p (m ∷ ms) ready tiles found same =
      junta-Released n bytes tabla s p m ms ready tiles found same

  bloque-Released :
      (n : ℕ) (bytes : Buffer) (tabla : List PaginaHeap) (s : S) (p : PaginaHeap)
      (before : List Metadata) (m : Metadata) (after : List Metadata)
      → IsReady s pid (page_of n paginas)
      → Tiles pages.tamanio bytes (before ++ (m ∷ after))
      → m.is_free ≡ false
      → buscar_pagina_heap pid n tabla ≡ some p
      → p.espacio_libre ≡ espacio (before ++ (m ∷ after))
      → Released memory pages IsReady pid n paginas (defragmented (before ++ (freed m ∷ after))) (
          liberar_bloque memory pages pid n (extent before) paginas bytes s (
            tabla_heap_cambiar_espacio_libre pid n
              (leer_metadata bytes (extent before)).size
              tabla))
  unfolding liberar_bloque
  bloque-Released n bytes tabla s p before m after ready tiles used found same =
      let z : 0 + extent before ≡ extent before = omega arith in
      let read : leer_metadata bytes (extent before) ≡ m =
        rw z at (read_middle bytes 0 before m after tiles.segment) in
      let size : (leer_metadata bytes (extent before)).size ≡ m.size = ap (λ x. x.size) read in
      let (tabla', changed, found') = cambiar-buscar pid n m.size tabla p found in
      let (tiles', counted) =
        marcar_bloque_libre-Tiles pages.tamanio bytes pages.padding before m after
          (omega (arith, small)) tiles used in
      rw (size, changed)
        (libre-Released n _ tabla' s _ (before ++ (freed m ∷ after)) ready tiles' found'
          (omega (arith, counted, same)))

liberar_place :
    {S : Type 0} (memory : MemoryCalls S) (pages : Pages) (pid posicion paginas n bloque : ℕ)
    (tabla : List PaginaHeap) (s : S)
    → buscar_codigo_de_proceso pid pages.codigos ≡ some paginas
    → obtener_direccion_de_bloque_verdadera pages.tamanio posicion paginas ≡ (n, bloque)
    → leb (2 ^ 31) bloque ≡ false
    → leb (2 ^ 31) posicion ≡ false
    → liberar memory pages pid posicion tabla s
      ≡ liberar_bloque memory pages pid n bloque paginas
          (memory.read_page pid (page_of n paginas) s).0
          (memory.read_page pid (page_of n paginas) s).1
          (tabla_heap_cambiar_espacio_libre pid n
            (leer_metadata (memory.read_page pid (page_of n paginas) s).0 bloque).size
            tabla)
unfolding liberar liberar_en
liberar_place memory pages pid posicion paginas n bloque tabla s c place inside positive =
    rw (c, place, inside, positive, liberar, liberar_en) refl

-- With pages of more than 8 and less than 2^31 bytes, where the kernel has the pages of code
-- of the process, the blocks of a page of heap fill it, the table has their free space, and
-- the pointer, an int that is not negative, names a used block, releasing the pointer is
-- answered 1. Either the released page is one free block only, and it goes back to the
-- memory and out of the table; or the page is written with the block free and the first two
-- neighbouring free blocks joined, its blocks still fill it, and the table still has their
-- free space. The memory is one that reads what was written of the pages that are ready, as
-- this page is, and it is ready again after.
pub liberar-Released :
    {S : Type 0} (memory : MemoryCalls S) (pages : Pages) (IsReady : S → ℕ → ℕ → Type 0)
    (laws : IsMemory memory pages.tamanio IsReady) (pid posicion paginas_codigo n : ℕ)
    (tabla : List PaginaHeap) (s : S) (p : PaginaHeap) (before : List Metadata) (m : Metadata)
    (after : List Metadata)
    → header < pages.tamanio
    → pages.tamanio < 2 ^ 31
    → posicion < 2 ^ 31
    → buscar_codigo_de_proceso pid pages.codigos ≡ some paginas_codigo
    → obtener_direccion_de_bloque_verdadera pages.tamanio posicion paginas_codigo
      ≡ (n, extent before)
    → IsReady s pid (page_of n paginas_codigo)
    → Tiles pages.tamanio (memory.contents s pid (page_of n paginas_codigo)) (before ++ (m ∷ after))
    → m.is_free ≡ false
    → buscar_pagina_heap pid n tabla ≡ some p
    → p.espacio_libre ≡ espacio (before ++ (m ∷ after))
    → Released memory pages IsReady pid n paginas_codigo
        (defragmented (before ++ (freed m ∷ after)))
        (liberar memory pages pid posicion tabla s)
liberar-Released memory pages IsReady laws pid posicion paginas n tabla s p before m after big small
      positive c place ready tiles used found same =
    let le = middle_le before m after in
    let inside : leb (2 ^ 31) (extent before) ≡ false =
      let lt : extent before < 2 ^ 31 = omega (arith, le, tiles.filled, small) in
      ground (arith, lt) in
    let page = page_of n paginas in
    let bytes = (memory.read_page pid page s).0 in
    let ms = before ++ (m ∷ after) in
    let tiles' : Tiles pages.tamanio bytes ms =
      Tiles-same pages.tamanio (memory.contents s pid page) bytes ms
        (λ i h. sym (laws.read pid page s ready i h)) tiles in
    let pointer : leb (2 ^ 31) posicion ≡ false = ground (arith, positive) in
    rw
      (liberar_place memory pages pid posicion paginas n (extent before) tabla s c place inside
        pointer)
      (bloque-Released memory pages IsReady laws pid paginas big small n _ tabla _ p before m after
        (laws.read_ready pid page s ready) tiles' used found same)
