-- ===== src/Kernel/Heap/Merge.antt =====
-- defragmentar on the list of the blocks of a page: the first two free blocks that are neighbours
-- become one.
use so_distribuido.Base.{
  ℕ, zero, suc, ◌+◌, ◌-◌, ◌%◌, ◌^◌, ◌<◌, ◌≡◌, inl, inr, refl, ◌∙◌, sym, List, [], ◌∷◌, Option, some,
  Bool, true, false, ◌&&◌, ltb, leb, if◌then◌else◌, Buffer, arith, Bool-cases, length, lt→ltb,
  le→ltb_false,
}
use so_distribuido.Kernel.Heap.{
  Metadata, header, leer_metadata, poner_metadata, juntar_bloques, defragmentar_desde, defragmentar,
}
use so_distribuido.Kernel.Heap.Blocks.{
  extent, Placed, Tiles, espacio, leer_same, leer-poner, poner_outside, Placed-same,
}
use so_distribuido.Kernel.Heap.Search.{length_le_extent}

-- The blocks after defragmentar, with m in front of ms, and whether two were joined.
unfoldable pub merged : Metadata → List Metadata → List Metadata
merged m [] = m ∷ []
merged m (m₂ ∷ ms) =
    let rest = merged m₂ ms in
    if m.is_free && m₂.is_free
    then record { size = m₂.size + header + m.size; is_free = m₂.is_free } ∷ ms
    else m ∷ rest

unfoldable pub joins : Metadata → List Metadata → Bool
joins m [] = false
joins m (m₂ ∷ ms) = let rest = joins m₂ ms in if m.is_free && m₂.is_free then true else rest

-- What defragmentar_desde answers, from the block m on.
pub record Joined (answer : Option (Buffer × Bool)) (pagina : Buffer) (from : ℕ) (m : Metadata)
    (ms : List Metadata) : Type 0 where
  pub result : Buffer
  pub answers : answer ≡ some (result, joins m ms)
  pub segment : Placed result from (merged m ms)
  pub before : (i : ℕ) → i < from → result i ≡ pagina i

pub merged-extent : (m : Metadata) (ms : List Metadata) → extent (merged m ms) ≡ extent (m ∷ ms)
unfolding merged extent
merged-extent m [] = refl
merged-extent m (m₂ ∷ ms) = elim (Bool-cases (m.is_free && m₂.is_free)) [
  | inl y ↦ rw y (omega arith)
  | inr n ↦ let ih = merged-extent m₂ ms in rw (n, ih) refl
]

both : (a b : Bool) → (a && b) ≡ true → (a ≡ true) × (b ≡ true)
both true true h = (refl, refl)
both true false h = ground arith
both false b h = ground arith

pub merged-espacio :
    (m : Metadata) (ms : List Metadata)
    → espacio (merged m ms) ≡ espacio (m ∷ ms) + (if joins m ms then header else 0)
unfolding merged joins espacio
merged-espacio m [] = omega arith
merged-espacio m (m₂ ∷ ms) = elim (Bool-cases (m.is_free && m₂.is_free)) [
  | inl y ↦ let (a, b) = both m.is_free m₂.is_free y in rw (a, b) (omega arith)
  | inr n ↦ let ih = merged-espacio m₂ ms in rw (n, ih) (omega arith)
]

below_2_31 : (n : ℕ) → n < 2 ^ 31 → leb (2 ^ 31) n ≡ false
below_2_31 n h = ground (arith, h)

step_apart :
    (fuel tamanio : ℕ) (pagina padding : Buffer) (m m₂ : Metadata) (offset next : ℕ)
    (answer : Option (Buffer × Bool))
    → leer_metadata pagina offset ≡ m₂
    → leb (2 ^ 31) offset ≡ false
    → ltb offset tamanio ≡ true
    → (m.is_free && m₂.is_free) ≡ false
    → (offset + header + m₂.size) % 2 ^ 32 ≡ next
    → defragmentar_desde fuel tamanio pagina padding m₂ next ≡ answer
    → defragmentar_desde (suc fuel) tamanio pagina padding m offset ≡ answer
unfolding defragmentar_desde
step_apart fuel tamanio pagina padding m m₂ offset next answer read positive inside apart same
      later =
    rw (read, positive, inside, apart, same) later

desde-Joined :
    (fuel tamanio : ℕ) (pagina padding : Buffer) (from : ℕ) (m : Metadata) (ms : List Metadata)
    → Placed pagina from (m ∷ ms)
    → from + extent (m ∷ ms) ≡ tamanio
    → tamanio < 2 ^ 31
    → length ms < fuel
    → Joined
        (defragmentar_desde fuel tamanio pagina padding m (from + header + m.size))
        pagina
        from
        m
        ms
unfolding defragmentar_desde merged joins Placed extent juntar_bloques
desde-Joined zero tamanio pagina padding from m ms s filled small enough = ground arith
desde-Joined (suc fuel) tamanio pagina padding from m [] s filled small enough = record {
  result = pagina;
  answers =
      let positive : leb (2 ^ 31) (from + header + m.size) ≡ false =
        below_2_31 (from + header + m.size) (omega (arith, filled, small)) in
      rw (positive, le→ltb_false (from + header + m.size) tamanio (omega (arith, filled))) refl;
  segment = s;
  before = λ i h. refl;
}
desde-Joined (suc fuel) tamanio pagina padding from m (m₂ ∷ ms) (h, (h₂, s)) filled small enough =
    let offset = from + header + m.size in
    let next : (offset + header + m₂.size) % 2 ^ 32 ≡ offset + header + m₂.size =
      omega (arith, filled, small) in
    let positive : leb (2 ^ 31) offset ≡ false = below_2_31 offset (omega (arith, filled, small)) in
    let inside = lt→ltb offset tamanio (omega (arith, filled)) in
    let start : offset - header - m.size ≡ from = omega arith in
    let sum : (m₂.size + header + m.size) % 2 ^ 32 ≡ m₂.size + header + m.size =
      omega (arith, filled, small) in
    let j : Metadata = record { size = m₂.size + header + m.size; is_free = m₂.is_free } in
    let far : offset + header + m₂.size ≡ from + header + (m₂.size + header + m.size) =
      omega arith in
    elim (Bool-cases (m.is_free && m₂.is_free)) [
      | inl y ↦ record {
        result = poner_metadata pagina from j padding;
        answers = rw (h₂, positive, inside, y, start, sum) refl;
        segment = rw y (
          leer-poner pagina from j padding (omega (arith, filled, small)),
          Placed-same pagina (poner_metadata pagina from j padding) (from + header + j.size) ms
              (λ i a b. sym (poner_outside pagina from j padding i (inr (omega (arith, a)))))
              (rw far at s),
        );
        before = λ i k. poner_outside pagina from j padding i (inl k);
      }
      | inr n ↦
          let ih =
            desde-Joined fuel tamanio pagina padding offset m₂ ms (h₂, s) (omega (arith, filled))
              small (omega (arith, enough)) in
          record {
            result = ih.result;
            answers =
                step_apart fuel tamanio pagina padding m m₂ offset (offset + header + m₂.size) _ h₂
                  positive inside n next ih.answers
                ∙ rw n refl;
            segment = rw n (
              leer_same ih.result pagina from (λ i a b. ih.before i (omega (arith, b))) ∙ h,
              ih.segment,
            );
            before = λ i k. ih.before i (omega (arith, k));
          }
    ]

-- On a page of less than 2^31 bytes that one block or more fill, defragmentar ends and
-- answers a page filled by the same blocks, but that the first two free blocks that are
-- neighbours are one; it says whether there were two, and the free space grows by a metadata
-- just then.
pub defragmentar-Tiles :
    (tamanio : ℕ) (pagina padding : Buffer) (m : Metadata) (ms : List Metadata)
    → tamanio < 2 ^ 31
    → Tiles tamanio pagina (m ∷ ms)
    → (result : Buffer) × (defragmentar tamanio pagina padding ≡ some (result, joins m ms))
      × Tiles tamanio result (merged m ms)
      × (espacio (merged m ms) ≡ espacio (m ∷ ms) + (if joins m ms then header else 0))
unfolding defragmentar extent Placed
defragmentar-Tiles tamanio pagina padding m ms small tiles =
    let few = length_le_extent ms in
    let filled = tiles.filled in
    let j =
      desde-Joined (suc tamanio) tamanio pagina padding 0 m ms tiles.segment (omega (arith, filled))
        small (omega (arith, few, filled)) in
    let start : (header + m.size) % 2 ^ 32 ≡ 0 + header + m.size = omega (arith, filled, small) in
    (
      j.result,
      rw (tiles.segment.0, start) j.answers,
      record { segment = j.segment; filled = merged-extent m ms ∙ filled },
      merged-espacio m ms,
    )
