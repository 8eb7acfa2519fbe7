-- ===== src/Kernel/Heap/Release.antt =====
-- marcar_bloque_libre and defragmentar on the list of the blocks of a page.
use so_distribuido.Base.{
  ℕ, ◌+◌, ◌^◌, ◌<◌, ◌≤◌, ◌≡◌, ◌⊎◌, inl, inr, refl, ◌∙◌, sym, List, [], ◌∷◌, ◌++◌, true, false,
  Buffer, arith,
}
use so_distribuido.Kernel.Heap.{
  Metadata, header, leer_metadata, poner_metadata, marcar_bloque_libre,
}
use so_distribuido.Kernel.Heap.Blocks.{
  extent, Placed, Tiles, espacio, leer-poner, poner_outside, extent_append,
}
use so_distribuido.Kernel.Heap.Change.{Placed-replace, middle_le, read_middle}

abbrev pub freed : Metadata → Metadata
freed m = record m { is_free = true }

middle-espacio :
    (before : List Metadata) (m : Metadata) (after : List Metadata)
    → m.is_free ≡ false
    → espacio (before ++ (freed m ∷ after)) ≡ espacio (before ++ (m ∷ after)) + m.size
unfolding espacio
middle-espacio [] m after h = rw h (omega arith)
middle-espacio (x ∷ before) m after h =
    let ih = middle-espacio before m after h in rw ih (omega arith)

header_outside :
    (at : ℕ) (m : Metadata) (i : ℕ)
    → (i < at) ⊎ (at + (header + m.size + 0) ≤ i)
    → (i < at) ⊎ (at + header ≤ i)
header_outside at m i (inl h) = inl h
header_outside at m i (inr h) = inr (omega (arith, h))

release_at :
    (pagina : Buffer) (padding : Buffer) (before : List Metadata) (m : Metadata)
    (after : List Metadata)
    → m.size < 2 ^ 32
    → Placed pagina 0 (before ++ (m ∷ after))
    → Placed
        (poner_metadata pagina (0 + extent before) (freed m) padding)
        0
        (before ++ (freed m ∷ after))
unfolding extent Placed
release_at pagina padding before m after small s =
    let at = 0 + extent before in
    Placed-replace pagina (poner_metadata pagina at (freed m) padding) 0 before (m ∷ [])
      (freed m ∷ []) after refl s
      (λ i out. sym (poner_outside pagina at (freed m) padding i (header_outside at m i out)))
      (leer-poner pagina at (freed m) padding small, tt)

-- Marking a used block as free leaves a page that is filled by the same blocks, with this one free;
-- the free space grows by its size.
pub marcar_bloque_libre-Tiles :
    (tamanio : ℕ) (pagina : Buffer) (padding : Buffer) (before : List Metadata) (m : Metadata)
    (after : List Metadata)
    → tamanio < 2 ^ 32
    → Tiles tamanio pagina (before ++ (m ∷ after))
    → m.is_free ≡ false
    → Tiles tamanio
        (marcar_bloque_libre (leer_metadata pagina (extent before)) pagina (extent before) padding)
        (before ++ (freed m ∷ after))
      × (espacio (before ++ (freed m ∷ after)) ≡ espacio (before ++ (m ∷ after)) + m.size)
unfolding marcar_bloque_libre extent
marcar_bloque_libre-Tiles tamanio pagina padding before m after small tiles used =
    let z : 0 + extent before ≡ extent before = omega arith in
    let le = middle_le before m after in
    let read : leer_metadata pagina (extent before) ≡ m =
      rw z at (read_middle pagina 0 before m after tiles.segment) in
    let segment =
      release_at pagina padding before m after (omega (arith, le, tiles.filled, small))
        tiles.segment in
    rw read (
      record {
        segment = rw z at segment;
        filled =
            extent_append before (freed m ∷ after)
            ∙ sym (extent_append before (m ∷ after))
            ∙ tiles.filled;
      },
      middle-espacio before m after used,
    )
