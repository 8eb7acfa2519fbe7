-- ===== src/Kernel/Tests/Requests.antt =====
-- Reservations of process 1, whose code takes 3 pages, in the memory process, and the release of one.
use so_distribuido.Base.{ℕ, ◌+◌, ◌<◌, ◌^◌, ◌≡◌, refl, List, [], ◌∷◌, none, some, true, arith}
use so_distribuido.Memoria.Types.{Text}
use so_distribuido.Memoria.Server.{process_request}
use so_distribuido.Memoria.Tests.{running, IsProper-1, grown_page, grown-IsConsistent}
use so_distribuido.Kernel.Heap.{Metadata}
use so_distribuido.Kernel.Heap.Blocks.{extent, espacio, Tiles}
use so_distribuido.Kernel.Heap.Search.{has_fit}
use so_distribuido.Kernel.Heap.Reserve.{ocupado, reserved}
use so_distribuido.Kernel.Heap.Release.{freed}
use so_distribuido.Kernel.Requests.Memory.{
  Process, memory_process, IsReady, memory_process-IsMemory, call, called, status,
}
use so_distribuido.Kernel.Requests.{
  MemoryCalls, PaginaHeap, Pages, buscar_codigo_de_proceso, obtener_pagina_con_suficiente_espacio,
  buscar_pagina_heap, crear_pagina_heap, nro_siguiente, obtener_direccion_relativa,
  obtener_direccion_de_bloque_verdadera, reservar, liberar,
}
use so_distribuido.Kernel.Requests.Reserve.{
  Reserved, tabla_nueva, whole, reservar-Reserved, reservar-null, reservar-nueva,
}
use so_distribuido.Kernel.Requests.Release.{defragmented, Released, liberar-Released}
use so_distribuido.Kernel.Requests.Address.{direccion_back}
use so_distribuido.Kernel.Tests.Heap.{zeros}

abbrev times : ℕ → Text
times i = i ∷ []

abbrev start : Process
start = some (times, running)

abbrev memory : MemoryCalls Process
memory = memory_process 256

abbrev pages : Pages
pages = record {
  tamanio = 256;
  codigos = record { pid = 1; paginas_codigo = 3 } ∷ [];
  padding = zeros;
}

code_3 : buscar_codigo_de_proceso 1 pages.codigos ≡ some 3
unfolding buscar_codigo_de_proceso
code_3 = refl

no_room : (e : ℕ) → obtener_pagina_con_suficiente_espacio 1 e [] ≡ none
unfolding obtener_pagina_con_suficiente_espacio
no_room e = refl

given : (memory.assign_pages 1 1 start).0 < 2 ^ 31
unfolding call called process_request status
given = rw (grown_page.0) (omega arith)

given-IsReady : IsReady 256 (memory.assign_pages 1 1 start).1 1 (nro_siguiente 1 0 [] + 3)
unfolding IsReady call called process_request nro_siguiente
given-IsReady = record {
  consistent = grown-IsConsistent;
  proper = IsProper-1;
  size = grown_page.2;
  frame = 4;
  found = grown_page.1;
}

reservar-nueva_example :
    Reserved memory pages
      (IsReady 256)
      1
      10
      3
      (crear_pagina_heap 256 1 (nro_siguiente 1 0 []))
      (tabla_nueva pages 1 [])
      (whole 256 ∷ [])
      (reservar memory pages 1 10 [] start)
reservar-nueva_example =
    reservar-nueva memory pages (IsReady 256)
      (memory_process-IsMemory 256 (omega arith) (omega arith)) 1 10 3 [] start (omega arith)
      (omega arith) code_3 (no_room 10) given given-IsReady

reservar-null_example : reservar memory pages 1 245 [] start ≡ none
reservar-null_example =
    reservar-null memory pages 1 245 3 [] start (omega arith) (omega arith) code_3 (no_room 245)
      given

-- After the first reservation.
abbrev page_0 : PaginaHeap
page_0 = record { pid = 1; nro_pagina = 0; espacio_libre = 230 }

abbrev free_230 : Metadata
free_230 = record { size = 230; is_free = true }

abbrev used : List Metadata
used = ocupado 10 ∷ free_230 ∷ []

room_230 : obtener_pagina_con_suficiente_espacio 1 20 (page_0 ∷ []) ≡ some page_0
unfolding obtener_pagina_con_suficiente_espacio
room_230 = refl

fits_20 : has_fit 20 used ≡ true
unfolding has_fit
fits_20 = refl

first : (s : Process) × IsReady 256 s 1 3 × Tiles 256 (memory.contents s 1 3) used
unfolding crear_pagina_heap nro_siguiente reserved
first =
    let r =
      reservar-nueva memory pages (IsReady 256)
        (memory_process-IsMemory 256 (omega arith) (omega arith)) 1 10 3 [] start (omega arith)
        (omega arith) code_3 (no_room 10) given given-IsReady in
    (r.after, r.ready, r.tiles)

reservar-Reserved_example :
    Reserved memory pages
      (IsReady 256)
      1
      20
      3
      page_0
      (page_0 ∷ [])
      used
      (reservar memory pages 1 20 (page_0 ∷ []) first.0)
reservar-Reserved_example =
    reservar-Reserved memory pages (IsReady 256)
      (memory_process-IsMemory 256 (omega arith) (omega arith)) 1 20 3 page_0 (page_0 ∷ []) first.0
      used (omega arith) (omega arith) code_3 room_230 first.1 first.2 fits_20

direccion_back_example :
    obtener_direccion_de_bloque_verdadera 64 (obtener_direccion_relativa 64 18 3 2) 2 ≡ (3, 18)
direccion_back_example = direccion_back 64 18 3 2 (omega arith) (omega arith) (omega arith)

place_776 : obtener_direccion_de_bloque_verdadera 256 776 3 ≡ (0, extent [])
unfolding obtener_direccion_de_bloque_verdadera extent
place_776 = refl

found_0 : buscar_pagina_heap 1 0 (page_0 ∷ []) ≡ some page_0
unfolding buscar_pagina_heap
found_0 = refl

liberar-Released_example :
    Released memory pages
      (IsReady 256)
      1
      0
      3
      (defragmented (freed (ocupado 10) ∷ free_230 ∷ []))
      (liberar memory pages 1 776 (page_0 ∷ []) first.0)
unfolding espacio
liberar-Released_example =
    liberar-Released memory pages (IsReady 256)
      (memory_process-IsMemory 256 (omega arith) (omega arith)) 1 776 3 0 (page_0 ∷ []) first.0
      page_0 [] (ocupado 10) (free_230 ∷ []) (omega arith) (omega arith) (omega arith) code_3
      place_776 first.1 first.2 refl found_0 refl
