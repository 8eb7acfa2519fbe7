-- ===== src/Kernel/Heap.antt =====
-- solicitudes.c: the blocks of a page of heap. A page is its bytes; a block is 8 bytes of
-- metadata (a size, a byte for isFree, and three bytes of padding that malloc leaves as they
-- are) and `size` bytes of data. The integers are their bit patterns, `tamanio` is
-- TAMANIO_PAGINAS and `padding` the padding of the metadata that is written.
pub mod Blocks
pub mod Search
pub mod Change
pub mod Reserve
pub mod Release
pub mod Merge
use so_distribuido.Base.{
  ℕ, zero, suc, ◌+◌, ◌-◌, ◌*◌, ◌/◌, ◌%◌, ◌^◌, Option, none, some, Bool, true, false, not, ◌&&◌,
  ◌==◌, ltb, leb, if◌then◌else◌, Buffer, shift, memcpy,
}

-- t_heapMetadata
pub record Metadata : Type 0 where
  pub size : ℕ
  pub is_free : Bool

-- sizeof(t_heapMetadata)
abbrev pub header : ℕ
header = 8

unfoldable pub leer_metadata : Buffer → ℕ → Metadata
leer_metadata pagina at = record {
  size = pagina at + pagina (at + 1) * 2 ^ 8 + pagina (at + 2) * 2 ^ 16 + pagina (at + 3) * 2 ^ 24;
  is_free = not (pagina (at + 4) == 0);
}

abbrev pub flag : Bool → ℕ
flag b = if b then 1 else 0

-- The bytes of a t_heapMetadata.
unfoldable pub bytes_of : Metadata → Buffer → Buffer
bytes_of m padding zero = m.size % 2 ^ 8
bytes_of m padding (suc zero) = m.size / 2 ^ 8 % 2 ^ 8
bytes_of m padding (suc (suc zero)) = m.size / 2 ^ 16 % 2 ^ 8
bytes_of m padding (suc (suc (suc zero))) = m.size / 2 ^ 24 % 2 ^ 8
bytes_of m padding (suc (suc (suc (suc zero)))) = flag m.is_free
bytes_of m padding i = padding i

-- memcpy(pagina + at, &m, sizeof(t_heapMetadata))
unfoldable pub poner_metadata : Buffer → ℕ → Metadata → Buffer → Buffer
poner_metadata pagina at m padding = memcpy pagina at (bytes_of m padding) header

unfoldable pub crear_metadata_libre : ℕ → Metadata
crear_metadata_libre espacio = record {
  size = (espacio + 2 ^ 32 - header) % 2 ^ 32;
  is_free = true;
}

-- The loop of buscar_bloque_disponible. NULL is 0; `none` is a walk that the fuel does not reach
-- the end of.
unfoldable pub buscar_desde : ℕ → ℕ → Buffer → ℕ → ℕ → Option ℕ
buscar_desde zero tamanio pagina espacio_pedido offset = none
buscar_desde (suc fuel) tamanio pagina espacio_pedido offset =
    let m = leer_metadata pagina offset in
    let rest =
      buscar_desde fuel tamanio pagina espacio_pedido ((offset + header + m.size) % 2 ^ 32) in
    if ltb offset tamanio
    then if m.is_free && leb (espacio_pedido + header) m.size then some offset else rest
    else some 0

unfoldable pub buscar_bloque_disponible : ℕ → Buffer → ℕ → Option ℕ
buscar_bloque_disponible tamanio pagina espacio_pedido =
    buscar_desde (suc tamanio) tamanio pagina espacio_pedido 0

unfoldable pub marcar_bloque_ocupado : ℕ → Buffer → ℕ → Buffer → Buffer
marcar_bloque_ocupado bloque pagina espacio_pedido padding =
    let m = leer_metadata pagina bloque in
    let sobrante = (m.size + 2 ^ 32 - espacio_pedido) % 2 ^ 32 in
    let ocupado =
      poner_metadata pagina bloque (record { size = espacio_pedido; is_free = false }) padding in
    poner_metadata ocupado (bloque + header + espacio_pedido) (crear_metadata_libre sobrante)
      padding

-- The metadata that it is called with is the one that stands at the place.
unfoldable pub marcar_bloque_libre : Metadata → Buffer → ℕ → Buffer → Buffer
marcar_bloque_libre m pagina at padding =
    poner_metadata pagina at (record m { is_free = true }) padding

unfoldable pub juntar_bloques : Metadata → Metadata → Metadata
juntar_bloques m₁ m₂ = record m₂ { size = (m₂.size + header + m₁.size) % 2 ^ 32 }

-- The loop of defragmentar, from the second block of a pair; a negative offset, an int, is a read
-- before the page; the answer is the page, and whether
-- two blocks were joined.
unfoldable pub defragmentar_desde : ℕ → ℕ → Buffer → Buffer → Metadata → ℕ → Option (Buffer × Bool)
defragmentar_desde zero tamanio pagina padding m offset = none
defragmentar_desde (suc fuel) tamanio pagina padding m offset =
    let m₂ = leer_metadata pagina offset in
    let rest =
      defragmentar_desde fuel tamanio pagina padding m₂ ((offset + header + m₂.size) % 2 ^ 32) in
    if leb (2 ^ 31) offset
    then none
    else if ltb offset tamanio
    then if m.is_free && m₂.is_free
      then some
          (poner_metadata pagina (offset - header - m.size) (juntar_bloques m m₂) padding, true)
      else rest
    else some (pagina, false)

unfoldable pub defragmentar : ℕ → Buffer → Buffer → Option (Buffer × Bool)
defragmentar tamanio pagina padding =
    let m = leer_metadata pagina 0 in
    defragmentar_desde (suc tamanio) tamanio pagina padding m ((header + m.size) % 2 ^ 32)
