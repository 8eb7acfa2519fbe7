-- ===== src/Kernel/Heap/Reserve.antt =====
-- marcar_bloque_ocupado on the list of the blocks of a page.
use so_distribuido.Base.{
  ℕ, ◌+◌, ◌-◌, ◌%◌, ◌^◌, ◌<◌, ◌≤◌, ◌≡◌, ◌⊎◌, inl, inr, refl, ◌∙◌, ap, sym, List, [], ◌∷◌, ◌++◌,
  true, false, if◌then◌else◌, Buffer, arith, Bool-cases,
}
use so_distribuido.Kernel.Heap.{
  Metadata, header, leer_metadata, poner_metadata, crear_metadata_libre, marcar_bloque_ocupado,
}
use so_distribuido.Kernel.Heap.Blocks.{
  extent, Placed, Tiles, fits, espacio, leer_same, leer-poner, poner_outside,
}
use so_distribuido.Kernel.Heap.Search.{first_fit, has_fit}
use so_distribuido.Kernel.Heap.Change.{Placed-replace, middle_le, read_middle}

-- The blocks after a reservation: the first that fits is cut in two.
abbrev pub ocupado : ℕ → Metadata
ocupado espacio_pedido = record { size = espacio_pedido; is_free = false }

abbrev pub sobrante : ℕ → Metadata → Metadata
sobrante espacio_pedido m = record { size = m.size - espacio_pedido - header; is_free = true }

unfoldable pub reserved : ℕ → List Metadata → List Metadata
reserved espacio_pedido [] = []
reserved espacio_pedido (m ∷ ms) =
    let rest = reserved espacio_pedido ms in
    if fits espacio_pedido m
    then ocupado espacio_pedido ∷ sobrante espacio_pedido m ∷ ms
    else m ∷ rest

-- Where the first block that fits stands.
pub record FirstFit (espacio_pedido from : ℕ) (ms : List Metadata) : Type 0 where
  pub before : List Metadata
  pub found : Metadata
  pub after : List Metadata
  pub split : ms ≡ before ++ (found ∷ after)
  pub place : first_fit espacio_pedido from ms ≡ from + extent before
  pub fitting : fits espacio_pedido found ≡ true
  pub cut :
      reserved espacio_pedido ms
      ≡ before ++ (ocupado espacio_pedido ∷ sobrante espacio_pedido found ∷ after)

pub first : (e from : ℕ) (ms : List Metadata) → has_fit e ms ≡ true → FirstFit e from ms
unfolding has_fit first_fit reserved extent
first e from [] h = ground arith
first e from (m ∷ ms) h = elim (Bool-cases (fits e m)) [
  | inl y ↦ record {
    before = [];
    found = m;
    after = ms;
    split = refl;
    place = rw y (omega arith);
    fitting = y;
    cut = rw y refl;
  }
  | inr n ↦
      let f = first e (from + header + m.size) ms (rw n at h) in
      record {
        before = m ∷ f.before;
        found = f.found;
        after = f.after;
        split = ap (λ xs. m ∷ xs) f.split;
        place = rw (n, f.place) (omega arith);
        fitting = f.fitting;
        cut = rw n (ap (λ xs. m ∷ xs) f.cut);
      }
]

fits_le : (e : ℕ) (m : Metadata) → fits e m ≡ true → e + header ≤ m.size
fits_le e m h = ground arith

fits_free : (e : ℕ) (m : Metadata) → fits e m ≡ true → m.is_free ≡ true
fits_free e m h = ground arith

sobrante-word :
    (e : ℕ) (m : Metadata)
    → e + header ≤ m.size
    → m.size < 2 ^ 32
    → crear_metadata_libre ((m.size + 2 ^ 32 - e) % 2 ^ 32) ≡ sobrante e m
unfolding crear_metadata_libre
sobrante-word e m h small =
    let eq : ((m.size + 2 ^ 32 - e) % 2 ^ 32 + 2 ^ 32 - header) % 2 ^ 32 ≡ m.size - e - header =
      omega (arith, h, small) in
    rw eq refl

-- The page after marcar_bloque_ocupado, from the block on.
ocupado-Placed :
    (pagina : Buffer) (at e : ℕ) (m : Metadata) (padding : Buffer)
    → leer_metadata pagina at ≡ m
    → e + header ≤ m.size
    → m.size < 2 ^ 32
    → Placed (marcar_bloque_ocupado at pagina e padding) at (ocupado e ∷ sobrante e m ∷ [])
unfolding marcar_bloque_ocupado Placed
ocupado-Placed pagina at e m padding read h small =
    let p = poner_metadata pagina at (ocupado e) padding in
    rw (read, sobrante-word e m h small)
      (
        leer_same _ p at (λ i a b.
              poner_outside p (at + header + e) (sobrante e m) padding i (inl (omega (arith, b))))
            ∙ leer-poner pagina at (ocupado e) padding (omega (arith, h, small)),
        (leer-poner p (at + header + e) (sobrante e m) padding (omega (arith, h, small)), tt),
      )

-- marcar_bloque_ocupado on a block of less than 2^32 bytes that has room for the size and a
-- metadata writes no byte outside the block's metadata and that of the rest: neither the
-- data of any block nor the metadata of another one changes.
pub ocupado_kept :
    (pagina : Buffer) (at e : ℕ) (m : Metadata) (padding : Buffer) (i : ℕ)
    → leer_metadata pagina at ≡ m
    → e + header ≤ m.size
    → m.size < 2 ^ 32
    → (i < at) ⊎ (at + header ≤ i)
    → (i < at + header + e) ⊎ (at + header + e + header ≤ i)
    → pagina i ≡ marcar_bloque_ocupado at pagina e padding i
unfolding marcar_bloque_ocupado
ocupado_kept pagina at e m padding i read h small out out' =
    let p = poner_metadata pagina at (ocupado e) padding in
    rw (read, sobrante-word e m h small)
      (sym (
        poner_outside p (at + header + e) (sobrante e m) padding i out'
        ∙ poner_outside pagina at (ocupado e) padding i out))

ocupado_around :
    (pagina : Buffer) (at e : ℕ) (m : Metadata) (padding : Buffer) (i : ℕ)
    → leer_metadata pagina at ≡ m
    → e + header ≤ m.size
    → m.size < 2 ^ 32
    → (i < at) ⊎ (at + (header + m.size + 0) ≤ i)
    → pagina i ≡ marcar_bloque_ocupado at pagina e padding i
ocupado_around pagina at e m padding i read h small (inl out) =
    ocupado_kept pagina at e m padding i read h small (inl out) (inl (omega (arith, out)))
ocupado_around pagina at e m padding i read h small (inr out) =
    ocupado_kept pagina at e m padding i read h small (inr (omega (arith, out)))
      (inr (omega (arith, h, out)))

-- In the page, a reservation of e bytes at the first block that fits.
reserve_at :
    (pagina : Buffer) (e : ℕ) (padding : Buffer) (before : List Metadata) (m : Metadata)
    (after : List Metadata)
    → fits e m ≡ true
    → m.size < 2 ^ 32
    → Placed pagina 0 (before ++ (m ∷ after))
    → Placed
        (marcar_bloque_ocupado (0 + extent before) pagina e padding)
        0
        (before ++ (ocupado e ∷ sobrante e m ∷ after))
unfolding extent
reserve_at pagina e padding before m after fit small s =
    let at = 0 + extent before in
    let h = fits_le e m fit in
    let read = read_middle pagina 0 before m after s in
    Placed-replace pagina (marcar_bloque_ocupado at pagina e padding) 0 before (m ∷ [])
      (ocupado e ∷ sobrante e m ∷ []) after (omega (arith, h)) s
      (λ i out. ocupado_around pagina at e m padding i read h small out)
      (ocupado-Placed pagina at e m padding read h small)

reserved-extent : (e : ℕ) (ms : List Metadata) → extent (reserved e ms) ≡ extent ms
unfolding reserved extent
reserved-extent e [] = refl
reserved-extent e (m ∷ ms) = elim (Bool-cases (fits e m)) [
  | inl y ↦ let h = fits_le e m y in rw y (omega (arith, h))
  | inr n ↦ let ih = reserved-extent e ms in rw (n, ih) refl
]

reserved-espacio :
    (e : ℕ) (ms : List Metadata)
    → has_fit e ms ≡ true
    → espacio (reserved e ms) + (e + header) ≡ espacio ms
unfolding reserved espacio has_fit
reserved-espacio e [] h = ground arith
reserved-espacio e (m ∷ ms) h = elim (Bool-cases (fits e m)) [
  | inl y ↦ let k = fits_le e m y in let f = fits_free e m y in rw (y, f) (omega (arith, k))
  | inr n ↦ let ih = reserved-espacio e ms (rw n at h) in rw n (omega (arith, ih))
]

-- On a page of less than 2^32 bytes whose blocks fill it and of which one fits,
-- marcar_bloque_ocupado at the first that fits leaves a page that is filled by the same
-- blocks, but that this one is cut into a used block of the size asked for and a free block
-- of the rest; the free space goes down by the size and a metadata.
pub marcar_bloque_ocupado-Tiles :
    (tamanio : ℕ) (pagina : Buffer) (espacio_pedido : ℕ) (padding : Buffer) (ms : List Metadata)
    → tamanio < 2 ^ 32
    → Tiles tamanio pagina ms
    → has_fit espacio_pedido ms ≡ true
    → Tiles tamanio
        (marcar_bloque_ocupado (first_fit espacio_pedido 0 ms) pagina espacio_pedido padding)
        (reserved espacio_pedido ms)
      × (espacio (reserved espacio_pedido ms) + (espacio_pedido + header) ≡ espacio ms)
marcar_bloque_ocupado-Tiles tamanio pagina e padding ms small tiles fit =
    let f = first e 0 ms fit in
    let le = middle_le f.before f.found f.after in
    let s : Placed pagina 0 (f.before ++ (f.found ∷ f.after)) = rw f.split at tiles.segment in
    let filled : extent (f.before ++ (f.found ∷ f.after)) ≡ tamanio = rw f.split at tiles.filled in
    (
      record {
        segment =
            rw (f.place, f.cut)
              (reserve_at pagina e padding f.before f.found f.after f.fitting
                (omega (arith, le, filled, small)) s);
        filled = reserved-extent e ms ∙ tiles.filled;
      },
      reserved-espacio e ms fit,
    )
