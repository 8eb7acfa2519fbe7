-- ===== src/Kernel/Heap/Search.antt =====
-- buscar_bloque_disponible on the list of the blocks of a page.
use so_distribuido.Base.{
  ℕ, zero, suc, ◌+◌, ◌%◌, ◌^◌, ◌<◌, ◌≤◌, ◌≡◌, refl, List, [], ◌∷◌, some, Bool, true, false,
  if◌then◌else◌, Buffer, arith, length, lt→ltb, le→ltb_false,
}
use so_distribuido.Kernel.Heap.{Metadata, header, buscar_desde, buscar_bloque_disponible}
use so_distribuido.Kernel.Heap.Blocks.{extent, Placed, Tiles, fits}

-- The place of the first block that fits, or NULL.
unfoldable pub first_fit : ℕ → ℕ → List Metadata → ℕ
first_fit espacio_pedido from [] = 0
first_fit espacio_pedido from (m ∷ ms) =
    let rest = first_fit espacio_pedido (from + header + m.size) ms in
    if fits espacio_pedido m then from else rest

-- Some block fits.
unfoldable pub has_fit : ℕ → List Metadata → Bool
has_fit espacio_pedido [] = false
has_fit espacio_pedido (m ∷ ms) =
    let rest = has_fit espacio_pedido ms in if fits espacio_pedido m then true else rest

pub length_le_extent : (ms : List Metadata) → length ms ≤ extent ms
unfolding extent
length_le_extent [] = omega arith
length_le_extent (m ∷ ms) = let ih = length_le_extent ms in omega (arith, ih)

some_if : (b : Bool) (x y : ℕ) → (if b then some x else some y) ≡ some (if b then x else y)
some_if true x y = refl
some_if false x y = refl

buscar_desde-first_fit :
    (fuel tamanio : ℕ) (pagina : Buffer) (espacio_pedido from : ℕ) (ms : List Metadata)
    → Placed pagina from ms
    → from + extent ms ≡ tamanio
    → tamanio < 2 ^ 32
    → length ms < fuel
    → buscar_desde fuel tamanio pagina espacio_pedido from ≡ some (first_fit espacio_pedido from ms)
unfolding buscar_desde first_fit Placed extent
buscar_desde-first_fit zero tamanio pagina e from ms s filled small enough = ground arith
buscar_desde-first_fit (suc fuel) tamanio pagina e from [] s filled small enough =
    rw (le→ltb_false from tamanio (omega (arith, filled))) refl
buscar_desde-first_fit (suc fuel) tamanio pagina e from (m ∷ ms) (h, s) filled small enough =
    let next : (from + header + m.size) % 2 ^ 32 ≡ from + header + m.size =
      omega (arith, filled, small) in
    let ih =
      buscar_desde-first_fit fuel tamanio pagina e (from + header + m.size) ms s
        (omega (arith, filled)) small (omega (arith, enough)) in
    rw (h, next, ih, lt→ltb from tamanio (omega (arith, filled)))
      (some_if (fits e m) from (first_fit e (from + header + m.size) ms))

-- On a page of less than 2^32 bytes whose blocks fill it, the walk of
-- buscar_bloque_disponible over the bytes ends, and it answers what a search of the list of
-- blocks does: the place of the first block that is free and has room for the size and a
-- metadata, or NULL.
pub buscar-first_fit :
    (tamanio : ℕ) (pagina : Buffer) (espacio_pedido : ℕ) (ms : List Metadata)
    → tamanio < 2 ^ 32
    → Tiles tamanio pagina ms
    → buscar_bloque_disponible tamanio pagina espacio_pedido ≡ some (first_fit espacio_pedido 0 ms)
unfolding buscar_bloque_disponible
buscar-first_fit tamanio pagina e ms small tiles =
    let few = length_le_extent ms in
    buscar_desde-first_fit (suc tamanio) tamanio pagina e 0 ms tiles.segment
      (omega (arith, tiles.filled)) small (omega (arith, few, tiles.filled))
