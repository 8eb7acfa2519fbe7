-- ===== src/FileSystem/Owned.antt =====
-- How many files a block stands in, and what the changes of the metadata do to that.
use so_distribuido.Base.{
  ℕ, zero, suc, ◌+◌, ◌≤◌, ◌<◌, ◌≡◌, refl, ◌∙◌, ap, sym, List, [], ◌∷◌, Option, none, some, Bool,
  true, false, ◌==◌, if◌then◌else◌, inl, inr, arith, count, update, Bool-cases,
}
use native.Mathlib.Decide.{ℕ_discrete}
use so_distribuido.Base.{same_text}
use so_distribuido.FileSystem.{File, find, put, remove, clean_bits, available_from}

-- The places where a block stands in the BLOQUES of the files.
unfoldable pub owned : ℕ → List File → ℕ
owned b [] = 0
owned b (f ∷ fs) = count b f.bloques + owned b fs

-- The blocks of a path.
abbrev pub blocks_of : Option File → List ℕ
blocks_of none = []
blocks_of (some f) = f.bloques

pub owned-put :
    (b : ℕ) (g : File) (fs : List File)
    → owned b (put g fs) + count b (blocks_of (find g.path fs)) ≡ owned b fs + count b g.bloques
unfolding owned put find count
owned-put b g [] = omega arith
owned-put b g (f ∷ fs) =
    let ih = owned-put b g fs in
    elim (Bool-cases (same_text f.path g.path)) [
      | inl y ↦ rw y (omega arith)
      | inr n ↦ rw n (omega (arith, ih))
    ]

pub owned-remove :
    (b : ℕ) (path : List ℕ) (fs : List File)
    → owned b (remove path fs) + count b (blocks_of (find path fs)) ≡ owned b fs
unfolding owned remove find count
owned-remove b path [] = omega arith
owned-remove b path (f ∷ fs) =
    let ih = owned-remove b path fs in
    elim (Bool-cases (same_text f.path path)) [
      | inl y ↦ rw y (omega arith)
      | inr n ↦ rw n (omega (arith, ih))
    ]

-- A set bit.
abbrev pub bit : Bool → ℕ
bit b = if b then 1 else 0

-- A bit that no block of the list is is kept, and one that is is clean.
pub clean_bits-bit :
    (bs : List ℕ) (bitmap : ℕ → Bool) (b : ℕ)
    → clean_bits bs bitmap b ≡ (if count b bs == 0 then bitmap b else false)
unfolding clean_bits count
clean_bits-bit [] bitmap b = refl
clean_bits-bit (x ∷ bs) bitmap b = clean_bits-bit bs (update bitmap x false) b ∙ ground arith

pub available-some :
    (left pos : ℕ) (bitmap : ℕ → Bool) (b : ℕ) (after : ℕ → Bool)
    → available_from left pos bitmap ≡ some (b, after)
    → (b < pos + left) × (bitmap b ≡ false) × (after ≡ update bitmap b true)
unfolding available_from
available-some zero pos bitmap b after h = ground arith
available-some (suc left) pos bitmap b after h = elim (Bool-cases (bitmap pos)) [
  | inl y ↦
      let (lt, clean, same) = available-some left (pos + 1) bitmap b after (rw y at h) in
      (omega (arith, lt), clean, same)
  | inr n ↦
      let e : some (pos, update bitmap pos true) ≡ some (b, after) = rw n at h in
      let p : pos ≡ b = ap (λ o. elim o [ none ↦ 0 | some x ↦ x.0 ]) e in
      let q : update bitmap pos true ≡ after =
        ap (λ o. elim o [ none ↦ bitmap | some x ↦ x.1 ]) e in
      (omega (arith, p), rw p at n, sym q ∙ ap (λ x. update bitmap x true) p)
]

pub available-none :
    (left pos : ℕ) (bitmap : ℕ → Bool)
    → available_from left pos bitmap ≡ none
    → (b : ℕ) → pos ≤ b
    → b < pos + left
    → bitmap b ≡ true
unfolding available_from
available-none zero pos bitmap h b le lt = ground arith
available-none (suc left) pos bitmap h b le lt = elim (Bool-cases (bitmap pos)) [
  | inl y ↦ elim (ℕ_discrete pos b) [
    | yes e ↦ rw e at y
    | no n ↦
        available-none left (pos + 1) bitmap (rw y at h) b (omega (arith, le, n))
          (omega (arith, lt))
  ]
  | inr n ↦ let bad : some (pos, update bitmap pos true) ≡ none = rw n at h in ground arith
]
