-- ===== src/Kernel/Tests/Heap.antt =====
-- A page of heap of 64 bytes: a reservation of 10 bytes, and its release.
use so_distribuido.Base.{
  ◌+◌, ◌≡◌, inl, inr, refl, [], ◌∷◌, some, true, if◌then◌else◌, Buffer, arith,
}
use so_distribuido.Kernel.Heap.{
  Metadata, header, leer_metadata, poner_metadata, buscar_bloque_disponible, marcar_bloque_ocupado,
  marcar_bloque_libre, defragmentar,
}
use so_distribuido.Kernel.Heap.Blocks.{extent, Placed, Tiles, espacio, leer-poner}
use so_distribuido.Kernel.Heap.Search.{first_fit, has_fit, buscar-first_fit}
use so_distribuido.Kernel.Heap.Reserve.{
  ocupado, reserved, ocupado_kept, marcar_bloque_ocupado-Tiles,
}
use so_distribuido.Kernel.Heap.Release.{freed, marcar_bloque_libre-Tiles}
use so_distribuido.Kernel.Heap.Merge.{merged, joins, defragmentar-Tiles}

abbrev pub zeros : Buffer
zeros i = 0

abbrev pub free_56 : Metadata
free_56 = record { size = 56; is_free = true }

abbrev pub empty_page : Buffer
empty_page = poner_metadata zeros 0 free_56 zeros

pub empty-Tiles : Tiles 64 empty_page (free_56 ∷ [])
unfolding Placed extent
empty-Tiles = record {
  segment = (leer-poner zeros 0 free_56 zeros (omega arith), tt);
  filled = refl;
}

buscar-first_fit_example : buscar_bloque_disponible 64 empty_page 10 ≡ some 0
unfolding first_fit
buscar-first_fit_example =
    buscar-first_fit 64 empty_page 10 (free_56 ∷ []) (omega arith) empty-Tiles

pub fits_10 : has_fit 10 (free_56 ∷ []) ≡ true
unfolding has_fit
fits_10 = refl

abbrev pub one_page : Buffer
one_page = marcar_bloque_ocupado (first_fit 10 0 (free_56 ∷ [])) empty_page 10 zeros

marcar_bloque_ocupado-Tiles_example :
    Tiles 64 one_page (reserved 10 (free_56 ∷ []))
    × (espacio (reserved 10 (free_56 ∷ [])) + (10 + header) ≡ espacio (free_56 ∷ []))
marcar_bloque_ocupado-Tiles_example =
    marcar_bloque_ocupado-Tiles 64 empty_page 10 zeros (free_56 ∷ []) (omega arith) empty-Tiles
      fits_10

ocupado_kept_example : empty_page 12 ≡ marcar_bloque_ocupado 0 empty_page 10 zeros 12
ocupado_kept_example =
    ocupado_kept empty_page 0 10 free_56 zeros 12 (leer-poner zeros 0 free_56 zeros (omega arith))
      (omega arith) (omega arith) (inr (omega arith)) (inl (omega arith))

pub used-Tiles : Tiles 64 one_page (ocupado 10 ∷ record { size = 38; is_free = true } ∷ [])
unfolding reserved
used-Tiles =
    (marcar_bloque_ocupado-Tiles 64 empty_page 10 zeros (free_56 ∷ []) (omega arith) empty-Tiles
      fits_10).0

abbrev free_38 : Metadata
free_38 = record { size = 38; is_free = true }

abbrev freed_page : Buffer
freed_page = marcar_bloque_libre (leer_metadata one_page (extent [])) one_page (extent []) zeros

defragmentar-Tiles_example :
    (result : Buffer) × (defragmentar 64 freed_page zeros
      ≡ some (result, joins (freed (ocupado 10)) (free_38 ∷ [])))
    × Tiles 64 result (merged (freed (ocupado 10)) (free_38 ∷ []))
    × (espacio (merged (freed (ocupado 10)) (free_38 ∷ []))
        ≡ espacio (freed (ocupado 10) ∷ free_38 ∷ [])
          + (if joins (freed (ocupado 10)) (free_38 ∷ []) then header else 0))
defragmentar-Tiles_example =
    defragmentar-Tiles 64 freed_page zeros (freed (ocupado 10)) (free_38 ∷ []) (omega arith)
      (marcar_bloque_libre-Tiles 64 one_page zeros [] (ocupado 10) (free_38 ∷ []) (omega arith)
        used-Tiles refl).0

-- Two blocks of 8 bytes released in the order of their places leave a page that is not empty:
-- the last release joins only the first two of three free blocks.
three_free :
    merged (freed (ocupado 8)) (freed (ocupado 8) ∷ record { size = 24; is_free = true } ∷ [])
    ≡ record { size = 24; is_free = true } ∷ record { size = 24; is_free = true } ∷ []
unfolding merged
three_free = refl
