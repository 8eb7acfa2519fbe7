-- ===== src/Kernel/Heap/Blocks.antt =====
-- A page of heap as the list of its blocks.
use so_distribuido.Base.{
  ℕ, ◌+◌, ◌*◌, ◌/◌, ◌%◌, ◌^◌, ◌<◌, ◌≤◌, ◌≡◌, ◌⊎◌, inl, inr, refl, ◌∙◌, sym, List, [], ◌∷◌, ◌++◌,
  Bool, true, false, not, ◌&&◌, ◌==◌, leb, if◌then◌else◌, Buffer, memcpy, memcpy_inside,
  memcpy_before, memcpy_after, arith,
}
use so_distribuido.Kernel.Heap.{Metadata, header, leer_metadata, flag, bytes_of, poner_metadata}

-- The bytes that blocks take, metadata included.
unfoldable pub extent : List Metadata → ℕ
extent [] = 0
extent (m ∷ ms) = header + m.size + extent ms

-- The blocks stand one after the other from a place.
unfoldable pub Placed : Buffer → ℕ → List Metadata → Type 0
Placed pagina from [] = Unit
Placed pagina from (m ∷ ms) =
    (leer_metadata pagina from ≡ m) × Placed pagina (from + header + m.size) ms

-- The blocks fill the page.
pub record Tiles (tamanio : ℕ) (pagina : Buffer) (ms : List Metadata) : Type 0 where
  pub segment : Placed pagina 0 ms
  pub filled : extent ms ≡ tamanio

-- The sum of the sizes of the free blocks, which espacio_libre keeps.
unfoldable pub espacio : List Metadata → ℕ
espacio [] = 0
espacio (m ∷ ms) = (if m.is_free then m.size else 0) + espacio ms

-- The test of buscar_bloque_disponible.
abbrev pub fits : ℕ → Metadata → Bool
fits espacio_pedido m = m.is_free && leb (espacio_pedido + header) m.size

pub leer_same :
    (a b : Buffer) (at : ℕ)
    → ((i : ℕ) → at ≤ i → i < at + header → a i ≡ b i)
    → leer_metadata a at ≡ leer_metadata b at
unfolding leer_metadata
leer_same a b at same =
    let e0 = same at (omega arith) (omega arith) in
    let e1 = same (at + 1) (omega arith) (omega arith) in
    let e2 = same (at + 2) (omega arith) (omega arith) in
    let e3 = same (at + 3) (omega arith) (omega arith) in
    let e4 = same (at + 4) (omega arith) (omega arith) in rw (e0, e1, e2, e3, e4) refl

pub Placed-same :
    (a b : Buffer) (from : ℕ) (ms : List Metadata)
    → ((i : ℕ) → from ≤ i → i < from + extent ms → a i ≡ b i)
    → Placed a from ms
    → Placed b from ms
unfolding Placed extent
Placed-same a b from [] same s = tt
Placed-same a b from (m ∷ ms) same (e, s) = (
  sym (leer_same a b from (λ i h k. same i h (omega (arith, k)))) ∙ e,
  Placed-same a b (from + header + m.size) ms
      (λ i h k. same i (omega (arith, h)) (omega (arith, k))) s,
)

same_metadata :
    (m : Metadata) (s : ℕ) (b : Bool)
    → s ≡ m.size
    → b ≡ m.is_free
    → record { size = s; is_free = b } ≡ m
same_metadata m s b e f = rw (e, f) refl

word_of_bytes :
    (n : ℕ)
    → n < 2 ^ 32
    → n % 2 ^ 8
        + n / 2 ^ 8 % 2 ^ 8 * 2 ^ 8
        + n / 2 ^ 16 % 2 ^ 8 * 2 ^ 16
        + n / 2 ^ 24 % 2 ^ 8 * 2 ^ 24
      ≡ n
word_of_bytes n h = omega arith

flag_back : (b : Bool) → not (flag b == 0) ≡ b
flag_back true = refl
flag_back false = refl

pub leer-poner :
    (pagina : Buffer) (at : ℕ) (m : Metadata) (padding : Buffer)
    → m.size < 2 ^ 32
    → leer_metadata (poner_metadata pagina at m padding) at ≡ m
unfolding leer_metadata poner_metadata bytes_of
leer-poner pagina at m padding h =
    let source = bytes_of m padding in
    let z : at + 0 ≡ at = omega arith in
    let e0 : memcpy pagina at source header at ≡ m.size % 2 ^ 8 =
      rw z at (memcpy_inside pagina source at header 0 (omega arith)) in
    let e1 = memcpy_inside pagina source at header 1 (omega arith) in
    let e2 = memcpy_inside pagina source at header 2 (omega arith) in
    let e3 = memcpy_inside pagina source at header 3 (omega arith) in
    let e4 = memcpy_inside pagina source at header 4 (omega arith) in
    rw (e0, e1, e2, e3, e4) (same_metadata m _ _ (word_of_bytes m.size h) (flag_back m.is_free))

-- Bytes outside the metadata that is written.
pub poner_outside :
    (pagina : Buffer) (at : ℕ) (m : Metadata) (padding : Buffer) (i : ℕ)
    → (i < at) ⊎ (at + header ≤ i)
    → poner_metadata pagina at m padding i ≡ pagina i
unfolding poner_metadata
poner_outside pagina at m padding i (inl h) =
    memcpy_before pagina (bytes_of m padding) at header i h
poner_outside pagina at m padding i (inr h) = memcpy_after pagina (bytes_of m padding) at header i h

pub Placed-append :
    (pagina : Buffer) (from : ℕ) (xs ys : List Metadata)
    → Placed pagina from xs
    → Placed pagina (from + extent xs) ys
    → Placed pagina from (xs ++ ys)
unfolding Placed extent
Placed-append pagina from [] ys s t = let e : from + 0 ≡ from = omega arith in rw e at t
Placed-append pagina from (x ∷ xs) ys (h, s) t =
    let e : from + (header + x.size + extent xs) ≡ from + header + x.size + extent xs =
      omega arith in
    (h, Placed-append pagina (from + header + x.size) xs ys s (rw e at t))

pub Placed-split :
    (pagina : Buffer) (from : ℕ) (xs ys : List Metadata)
    → Placed pagina from (xs ++ ys)
    → Placed pagina from xs × Placed pagina (from + extent xs) ys
unfolding Placed extent
Placed-split pagina from [] ys s = let e : from + 0 ≡ from = omega arith in (tt, rw e s)
Placed-split pagina from (x ∷ xs) ys (h, s) =
    let e : from + (header + x.size + extent xs) ≡ from + header + x.size + extent xs =
      omega arith in
    let (a, b) = Placed-split pagina (from + header + x.size) xs ys s in ((h, a), rw e b)

pub extent_append : (xs ys : List Metadata) → extent (xs ++ ys) ≡ extent xs + extent ys
unfolding extent
extent_append [] ys = omega arith
extent_append (x ∷ xs) ys = let ih = extent_append xs ys in rw ih (omega arith)
