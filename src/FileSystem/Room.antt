-- ===== src/FileSystem/Room.antt =====
-- The loop of write_file that adds blocks ends where the disk has blocks enough.
use so_distribuido.Base.{
  ℕ, zero, suc, ◌+◌, ◌-◌, ◌*◌, ◌≤◌, ◌<◌, ◌≡◌, refl, List, [], ◌∷◌, ◌++◌, none, some, Bool, true,
  false, ◌==◌, if◌then◌else◌, arith, update, Bool-cases, Option-cases, inl, inr,
}
use native.Mathlib.Decide.{ℕ_discrete}
use so_distribuido.FileSystem.{
  Disk, FileCode, available_from, get_available_block, with_block, expand_round, expand, block_size,
}
use so_distribuido.FileSystem.Owned.{available-some}

-- The clean bits among so many from a position on.
unfoldable pub free_from : ℕ → ℕ → (ℕ → Bool) → ℕ
free_from zero pos bitmap = 0
free_from (suc left) pos bitmap = (if bitmap pos then 0 else 1) + free_from left (pos + 1) bitmap

-- The blocks of the disk that belong to nobody.
abbrev pub free_blocks : Disk → ℕ
free_blocks d = free_from d.blocks 0 d.bitmap

free_from-none :
    (left pos : ℕ) (bitmap : ℕ → Bool)
    → available_from left pos bitmap ≡ none
    → free_from left pos bitmap ≡ 0
unfolding free_from available_from
free_from-none zero pos bitmap h = refl
free_from-none (suc left) pos bitmap h = elim (Bool-cases (bitmap pos)) [
  | inl y ↦ let ih = free_from-none left (pos + 1) bitmap (rw y at h) in rw y (omega (arith, ih))
  | inr n ↦ let bad : some (pos, update bitmap pos true) ≡ none = rw n at h in ground arith
]

free_from-before :
    (left pos x : ℕ) (bitmap : ℕ → Bool)
    → x < pos
    → free_from left pos (update bitmap x true) ≡ free_from left pos bitmap
unfolding free_from
free_from-before zero pos x bitmap h = refl
free_from-before (suc left) pos x bitmap h =
    let ih = free_from-before left (pos + 1) x bitmap (omega (arith, h)) in ground (arith, ih, h)

free_from-taken :
    (left pos x : ℕ) (bitmap : ℕ → Bool)
    → pos ≤ x
    → x < pos + left
    → bitmap x ≡ false
    → free_from left pos bitmap ≡ suc (free_from left pos (update bitmap x true))
unfolding free_from
free_from-taken zero pos x bitmap h k free = absurd (omega (arith, h, k))
free_from-taken (suc left) pos x bitmap h k free = elim (ℕ_discrete x pos) [
  | yes e ↦
      let same = free_from-before left (pos + 1) x bitmap (omega (arith, e)) in
      let free' : bitmap pos ≡ false = rw e at free in ground (arith, same, free', e)
  | no n ↦
      let ih =
        free_from-taken left (pos + 1) x bitmap (omega (arith, h, n)) (omega (arith, k)) free in
      ground (arith, ih, n)
]

-- The loop ends, with no more sent, where the free blocks have room for the bytes and the fuel has a
-- round for each byte, and one.
pub expand-ends :
    (fuel elements bytes : ℕ) (list : List ℕ) (d : Disk) (sent : List FileCode)
    → bytes < fuel
    → bytes ≤ free_blocks d * block_size
    → (list' : List ℕ) × (d' : Disk) × (expand fuel elements bytes list d sent
        ≡ some (list', d', sent))
unfolding expand expand_round with_block get_available_block
expand-ends zero elements bytes list d sent h room = absurd (omega (arith, h))
expand-ends (suc fuel) elements bytes list d sent h room = elim (Bool-cases (bytes == 0)) [
  | inl y ↦ (list, d, rw y refl)
  | inr n ↦
      let pos : 0 < bytes = ground (arith, n) in
      elim (Option-cases (available_from d.blocks 0 d.bitmap)) [
        | inl full ↦
            let z = free_from-none d.blocks 0 d.bitmap full in absurd (omega (arith, z, room, pos))
        | inr (p, found) ↦
            let (lt, free, same) = available-some d.blocks 0 d.bitmap p.0 p.1 found in
            let less =
              free_from-taken d.blocks 0 p.0 d.bitmap (omega arith) (omega (arith, lt)) free in
            let less' : free_from d.blocks 0 d.bitmap ≡ suc (free_from d.blocks 0 p.1) =
              rw same less in
            let (list', d', e) =
              expand-ends fuel elements (bytes - block_size) (list ++ (p.0 ∷ []))
                (with_block p.0 p.1 d) sent (omega (arith, h, pos)) (omega (arith, room, less')) in
            (list', d', rw (n, found) e)
      ]
]
