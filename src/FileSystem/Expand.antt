-- ===== src/FileSystem/Expand.antt =====
-- write_file keeps the disk sound, whatever blocks it adds and gives back.
use so_distribuido.Base.{
  ℕ, zero, suc, ◌+◌, ◌-◌, ◌*◌, ◌^◌, ◌≤◌, ◌<◌, ◌≡◌, refl, ◌∙◌, ap, sym, List, [], ◌∷◌, ◌++◌, none,
  some, Bool, true, false, ◌==◌, ltb, if◌then◌else◌, length, arith, Buffer, count, count-add,
  update, Bool-cases, Option-cases, inl, inr,
}
use native.Mathlib.Decide.{ℕ_discrete}
use so_distribuido.FileSystem.{
  File, Disk, FileCode, success, no_space, find, put, get_available_block, available_from,
  with_block, list_get, list_remove, give_back, Expanded, expand_round, expand, bytes_to_expand,
  close_write, write_file, block_size, Written, ended, still_running, outside_int, outside,
}
use so_distribuido.FileSystem.Owned.{owned, owned-put, blocks_of, bit, available-some}
use so_distribuido.FileSystem.Full.{outside_lem}
use so_distribuido.FileSystem.Room.{free_blocks, expand-ends}
use so_distribuido.FileSystem.Sound.{IsSound}

-- While blocks are added to a file whose blocks were `old`, and whose blocks are `list` now.
pub record IsGrowing (old list : List ℕ) (files : List File) (blocks : ℕ) (bitmap : ℕ → Bool)
    : Type 0 where
  pub once : (b : ℕ) → owned b files + count b list ≤ bit (bitmap b) + count b old
  pub within : (b : ℕ) → blocks ≤ b → owned b files + count b list ≤ count b old

count-list_remove :
    (b pos : ℕ) (list : List ℕ)
    → pos < length list
    → count b list ≡ count b (list_remove pos list) + (if b == list_get list pos then 1 else 0)
unfolding count list_remove list_get
count-list_remove b pos [] h = ground arith
count-list_remove b zero (x ∷ xs) h = omega arith
count-list_remove b (suc pos) (x ∷ xs) h =
    let ih = count-list_remove b pos xs (omega (arith, h)) in omega (arith, ih)

removed_le :
    (o c c' old b x : ℕ) (bitmap : ℕ → Bool)
    → o + c ≤ bit (bitmap b) + old
    → c ≡ c' + (if b == x then 1 else 0)
    → o + c' ≤ bit (if x == b then false else bitmap b) + old
removed_le o c c' old b x bitmap le same = elim (ℕ_discrete b x) [
  | yes e ↦
      let one : bit (bitmap b) ≤ 1 = ground arith in
      let s : c ≡ c' + (if x == x then 1 else 0) = rw e at same in
      let s' : c ≡ c' + 1 = s ∙ ground arith in
      let k : o + c' ≤ old = omega (arith, le, one, s') in omega (arith, k)
  | no n ↦ ground (arith, le, same, n)
]

give_back-IsGrowing :
    (left pos : ℕ) (old list : List ℕ) (files : List File) (blocks : ℕ) (bitmap : ℕ → Bool)
    → IsGrowing old list files blocks bitmap
    → IsGrowing old
        (give_back left pos list bitmap).0
        files
        blocks
        (give_back left pos list bitmap).1
unfolding give_back
give_back-IsGrowing zero pos old list files blocks bitmap g = g
give_back-IsGrowing (suc left) pos old list files blocks bitmap g =
    elim (Bool-cases (ltb pos (length list))) [
      | inl y ↦
          let lt : pos < length list = ground (arith, y) in
          let x = list_get list pos in
          rw y (
            give_back-IsGrowing left (pos + 1) old (list_remove pos list) files blocks
              (update bitmap x false)
              (record {
                once = λ b.
                    removed_le (owned b files) (count b list) (count b (list_remove pos list))
                      (count b old) b x bitmap (g.once b) (count-list_remove b pos list lt);
                within = λ b le.
                    let c = count-list_remove b pos list lt in
                    let w = g.within b le in omega (arith, c, w);
              }))
      | inr n ↦ rw n g
    ]

added_le :
    (o c c' old b x : ℕ) (bitmap : ℕ → Bool)
    → bitmap x ≡ false
    → o + c ≤ bit (bitmap b) + old
    → c' ≡ c + (if b == x then 1 else 0)
    → o + c' ≤ bit (if x == b then true else bitmap b) + old
added_le o c c' old b x bitmap free le same = elim (ℕ_discrete b x) [
  | yes e ↦
      let l : o + c ≤ bit (bitmap x) + old = rw e at le in
      let l' : o + c ≤ 0 + old = rw free at l in
      let s : c' ≡ c + (if x == x then 1 else 0) = rw e at same in rw e (ground (arith, l', s))
  | no n ↦ ground (arith, le, same, n)
]

-- Where the loop ends, the blocks are those of a file that grows, and the files are as before.
Grown : List ℕ → List File → Expanded → Type 0
Grown old files none = Unit
Grown old files (some (list, d, sent)) =
    IsGrowing old list files d.blocks d.bitmap × (d.files ≡ files)

added-IsGrowing :
    (old list : List ℕ) (files : List File) (blocks : ℕ) (bitmap : ℕ → Bool) (x : ℕ)
    (after : ℕ → Bool)
    → IsGrowing old list files blocks bitmap
    → available_from blocks 0 bitmap ≡ some (x, after)
    → IsGrowing old (list ++ (x ∷ [])) files blocks after
added-IsGrowing old list files blocks bitmap x after g found =
    let (lt, free, same) = available-some blocks 0 bitmap x after found in
    record {
      once = λ b. rw same (
          added_le (owned b files) (count b list) (count b (list ++ (x ∷ []))) (count b old) b x
            bitmap free (g.once b) (count-add b list x));
      within = λ b le.
          let c = count-add b list x in let w = g.within b le in ground (arith, c, w, lt, le);
    }

expand-Grown :
    (fuel elements bytes : ℕ) (old list : List ℕ) (d : Disk) (sent : List FileCode)
    → IsGrowing old list d.files d.blocks d.bitmap
    → Grown old d.files (expand fuel elements bytes list d sent)
unfolding expand expand_round with_block get_available_block Grown
expand-Grown zero elements bytes old list d sent g = tt
expand-Grown (suc fuel) elements bytes old list d sent g = elim (Bool-cases (bytes == 0)) [
  | inl y ↦ rw y (g, refl)
  | inr n ↦ elim (Option-cases (available_from d.blocks 0 d.bitmap)) [
    | inl full ↦
        let back = give_back (length list) elements list d.bitmap in
        rw (n, full)
          (expand-Grown fuel elements bytes old back.0 (record d { bitmap = back.1 })
            (sent ++ (no_space ∷ []))
            (give_back-IsGrowing (length list) elements old list d.files d.blocks d.bitmap g))
    | inr (p, found) ↦
        rw (n, found)
          (expand-Grown fuel elements (bytes - block_size) old (list ++ (p.0 ∷ []))
            (with_block p.0 p.1 d) sent
            (added-IsGrowing old list d.files d.blocks d.bitmap p.0 p.1 g found))
  ]
]

-- A disk that is sound, where there is one.
SoundAfter : Written → Type 0
SoundAfter (ended sent d) = IsSound d
SoundAfter still_running = Unit
SoundAfter outside_int = Unit

closed-IsSound :
    (path : List ℕ) (tamanio : ℕ) (list old : List ℕ) (files : List File) (d : Disk)
    → old ≡ blocks_of (find path files)
    → IsGrowing old list files d.blocks d.bitmap
    → IsSound
        (record d { files = put (record { path = path; tamanio = tamanio; bloques = list }) files })
closed-IsSound path tamanio list old files d same g =
    let file : File = record { path = path; tamanio = tamanio; bloques = list } in
    record {
      once = λ b.
          let p = owned-put b file files in let o = rw same at (g.once b) in omega (arith, p, o);
      within = λ b le.
          let p = owned-put b file files in
          let o = rw same at (g.within b le) in omega (arith, p, o);
    }

close_write-SoundAfter :
    (path : List ℕ) (offset size : ℕ) (buffer : Buffer) (f : File) (files : List File)
    (out : Expanded)
    → find path files ≡ some f
    → Grown f.bloques files out
    → SoundAfter (close_write path offset size buffer f out)
unfolding close_write Grown SoundAfter
close_write-SoundAfter path offset size buffer f files none found g = tt
close_write-SoundAfter path offset size buffer f files (some (list, d, sent)) found (g, e) =
    let tamanio = if ltb f.tamanio (offset + size) then offset + size else f.tamanio in
    let old : f.bloques ≡ blocks_of (find path files) = ap blocks_of (sym found) in
    let k = closed-IsSound path tamanio list f.bloques files d old g in
    rw e (record { once = k.once; within = k.within })

write_file-written :
    (fuel : ℕ) (path : List ℕ) (offset size : ℕ) (buffer : Buffer) (d : Disk) (f : File)
    → find path d.files ≡ some f
    → outside offset size f ≡ false
    → write_file fuel path offset size buffer d
      ≡ close_write path offset size buffer f
          (expand fuel (length f.bloques) (bytes_to_expand offset size f) f.bloques d [])
unfolding write_file
write_file-written fuel path offset size buffer d f found ints = rw (found, ints, write_file) refl

-- From a disk where no block belongs to two files or twice to one, and the blocks of the
-- files are blocks of the disk whose bits are set, a write to a regular file, whose numbers
-- are ints, where the free blocks have room for the bytes to add, ends with a fuel of more
-- rounds than there are bytes to add. It is answered SUCCESS alone, and it leaves such a
-- disk.
pub write_file-IsSound :
    (fuel : ℕ) (path : List ℕ) (offset size : ℕ) (buffer : Buffer) (d : Disk) (f : File)
    → IsSound d
    → find path d.files ≡ some f
    → offset + size < 2 ^ 31
    → f.tamanio < 2 ^ 31
    → length f.bloques * block_size < 2 ^ 31
    → bytes_to_expand offset size f ≤ free_blocks d * block_size
    → bytes_to_expand offset size f < fuel
    → (d' : Disk) × (write_file fuel path offset size buffer d ≡ ended (success ∷ []) d')
      × IsSound d'
unfolding SoundAfter close_write Grown
write_file-IsSound fuel path offset size buffer d f s found a b c room enough =
    let bytes = bytes_to_expand offset size f in
    let start : IsGrowing f.bloques f.bloques d.files d.blocks d.bitmap = record {
      once = λ b. let a = s.once b in omega (arith, a);
      within = λ b le. let a = s.within b le in omega (arith, a);
    } in
    let grown = expand-Grown fuel (length f.bloques) bytes f.bloques f.bloques d [] start in
    let (list, d₁, e) = expand-ends fuel (length f.bloques) bytes f.bloques d [] enough room in
    let g : Grown f.bloques d.files (some (list, d₁, [])) = rw e at grown in
    (
      _,
      rw
          (
            write_file-written fuel path offset size buffer d f found
                (outside_lem offset size f a b c),
            e,
          )
          refl,
      close_write-SoundAfter path offset size buffer f d.files (some (list, d₁, [])) found g,
    )
