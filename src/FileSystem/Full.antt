-- ===== src/FileSystem/Full.antt =====
-- write_file on a disk with no block left.
use so_distribuido.Base.{
  ℕ, zero, suc, ◌+◌, ◌*◌, ◌^◌, ◌≤◌, ◌<◌, ◌≡◌, refl, List, [], ◌∷◌, ◌++◌, none, some, Bool, false,
  ◌==◌, length, arith, Buffer, le→ltb_false,
}
use so_distribuido.FileSystem.{
  File, Disk, FileCode, no_space, find, get_available_block, give_back, expand_round, expand,
  bytes_to_expand, close_write, outside, write_file, still_running, block_size,
}

nothing_back :
    (left pos : ℕ) (list : List ℕ) (bitmap : ℕ → Bool)
    → length list ≤ pos
    → give_back left pos list bitmap ≡ (list, bitmap)
unfolding give_back
nothing_back zero pos list bitmap h = refl
nothing_back (suc left) pos list bitmap h = rw (le→ltb_false pos (length list) h) refl

full-expand :
    (fuel bytes : ℕ) (list : List ℕ) (d : Disk) (sent : List FileCode)
    → get_available_block d ≡ none
    → 0 < bytes
    → expand fuel (length list) bytes list d sent ≡ none
unfolding expand expand_round
full-expand zero bytes list d sent full pos = refl
full-expand (suc fuel) bytes list d sent full pos =
    let more : (bytes == 0) ≡ false = ground (arith, pos) in
    let same = nothing_back (length list) (length list) list d.bitmap (omega arith) in
    rw (more, full, same) (full-expand fuel bytes list d (sent ++ (no_space ∷ [])) full pos)

-- Where the numbers of a write are ints, those of the metadata too, the code computes with them.
pub outside_lem :
    (offset size : ℕ) (f : File)
    → offset + size < 2 ^ 31
    → f.tamanio < 2 ^ 31
    → length f.bloques * block_size < 2 ^ 31
    → outside offset size f ≡ false
unfolding outside
outside_lem offset size f a b c = ground (arith, a, b, c)

-- Writing past the room of the blocks of a regular file, where the numbers are ints, with no
-- block of the disk available, never ends, whatever the number of rounds: the loop that adds
-- blocks sends ENOSPC and goes on.
pub write_file-full :
    (fuel : ℕ) (path : List ℕ) (offset size : ℕ) (buffer : Buffer) (d : Disk) (f : File)
    → find path d.files ≡ some f
    → 0 < bytes_to_expand offset size f
    → get_available_block d ≡ none
    → offset + size < 2 ^ 31
    → f.tamanio < 2 ^ 31
    → length f.bloques * block_size < 2 ^ 31
    → write_file fuel path offset size buffer d ≡ still_running
unfolding write_file close_write
write_file-full fuel path offset size buffer d f found pos full a b c =
    rw
      (
        found,
        outside_lem offset size f a b c,
        full-expand fuel (bytes_to_expand offset size f) f.bloques d [] full pos,
        write_file,
      )
      refl
