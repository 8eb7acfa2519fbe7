-- ===== src/Kernel/Heap/Change.antt =====
-- Blocks of a page that are replaced by others of the same extent.
use so_distribuido.Base.{ℕ, ◌+◌, ◌<◌, ◌≤◌, ◌≡◌, ◌⊎◌, inl, inr, List, ◌∷◌, ◌++◌, Buffer, arith}
use so_distribuido.Kernel.Heap.{Metadata, header, leer_metadata}
use so_distribuido.Kernel.Heap.Blocks.{
  extent, Placed, Placed-same, Placed-append, Placed-split, extent_append,
}

-- What stands outside some bytes is kept.
abbrev pub SameOutside : Buffer → Buffer → ℕ → ℕ → Type 0
SameOutside a b from to = (i : ℕ) → (i < from) ⊎ (to ≤ i) → a i ≡ b i

-- Blocks in the middle are replaced by blocks of the same extent.
pub Placed-replace :
    (a b : Buffer) (from : ℕ) (before old new after : List Metadata)
    → extent old ≡ extent new
    → Placed a from (before ++ (old ++ after))
    → SameOutside a b (from + extent before) (from + extent before + extent old)
    → Placed b (from + extent before) new
    → Placed b from (before ++ (new ++ after))
Placed-replace a b from before old new after same s kept t =
    let (left, right) = Placed-split a from before (old ++ after) s in
    let (_, last) = Placed-split a (from + extent before) old after right in
    let at = from + extent before in
    let moved : Placed b (at + extent old) after =
      Placed-same a b (at + extent old) after (λ i h k. kept i (inr h)) last in
    Placed-append b from before (new ++ after)
      (Placed-same a b from before (λ i h k. kept i (inl k)) left)
      (Placed-append b at new after t (rw same at moved))

pub middle_le :
    (before : List Metadata) (m : Metadata) (after : List Metadata)
    → extent before + (header + m.size) ≤ extent (before ++ (m ∷ after))
unfolding extent
middle_le before m after = rw (extent_append before (m ∷ after)) (omega arith)

pub read_middle :
    (pagina : Buffer) (from : ℕ) (before : List Metadata) (m : Metadata) (after : List Metadata)
    → Placed pagina from (before ++ (m ∷ after))
    → leer_metadata pagina (from + extent before) ≡ m
unfolding Placed
read_middle pagina from before m after s = (Placed-split pagina from before (m ∷ after) s).1.0
