-- ===== src/FileSystem/RoundTrip.antt =====
-- What write_file wrote, read_file answers.
use so_distribuido.Base.{
  ℕ, suc, ◌+◌, ◌-◌, ◌*◌, ◌/◌, ◌%◌, ◌^◌, ◌≤◌, ◌<◌, ◌≡◌, refl, ◌∙◌, List, [], ◌∷◌, some, true, false,
  ◌==◌, ltb, if◌then◌else◌, length, arith, Buffer, memcpy, memcpy_inside, Bool-cases, inl, inr, min,
}
use so_distribuido.Base.{same_text}
use so_distribuido.FileSystem.{
  File, Disk, success, block_size, find, put, expand, bytes_to_expand, close_write, write_blocks,
  write_file, bytes_read, read_file, ended, outside,
}
use so_distribuido.FileSystem.Full.{outside_lem}
use so_distribuido.FileSystem.Read.{bytes_of_file, read_file-bytes}
use so_distribuido.FileSystem.Write.{IsDistinct, write_blocks-memcpy}

same_text_self : (t : List ℕ) → same_text t t ≡ true
unfolding same_text
same_text_self [] = refl
same_text_self (x ∷ xs) =
    let e : (x == x) ≡ true = ground arith in let ih = same_text_self xs in rw (e, ih) refl

find-put : (g : File) (fs : List File) → find g.path (put g fs) ≡ some g
unfolding find put
find-put g [] = rw (same_text_self g.path) refl
find-put g (f ∷ fs) = elim (Bool-cases (same_text f.path g.path)) [
  | inl y ↦ rw (y, same_text_self g.path) refl
  | inr n ↦ let ih = find-put g fs in rw (n, ih, n) refl
]

-- The metadata after a write, with the blocks that the file has.
abbrev pub written : List ℕ → ℕ → ℕ → File → File
written path offset size f = record {
  path = path;
  tamanio = if ltb f.tamanio (offset + size) then offset + size else f.tamanio;
  bloques = f.bloques;
}

abbrev pub disk_after : List ℕ → ℕ → ℕ → Buffer → File → Disk → Disk
disk_after path offset size buffer f d = record d {
  contents =
      write_blocks size size (offset / block_size) (offset % block_size) buffer f.bloques
        d.contents;
  files = put (written path offset size f) d.files;
}

write_file-some :
    (fuel : ℕ) (path : List ℕ) (offset size : ℕ) (buffer : Buffer) (d : Disk) (f : File)
    → find path d.files ≡ some f
    → offset + size ≤ length f.bloques * block_size
    → outside offset size f ≡ false
    → write_file (suc fuel) path offset size buffer d
      ≡ ended (success ∷ []) (disk_after path offset size buffer f d)
unfolding write_file expand bytes_to_expand close_write
write_file-some fuel path offset size buffer d f found fits ints =
    let z : bytes_to_expand offset size f ≡ 0 = omega (arith, fits) in
    rw (found, ints, z, write_file, expand, close_write) refl

-- Writing two bytes or more of a regular file, which its blocks have room for, and whose
-- blocks are distinct, cover it and have less than 2^31 bytes, ends, with one round of the
-- loop that adds blocks or more, and is answered SUCCESS; reading the same bytes after it is
-- answered SUCCESS with the bytes that were written.
pub write_file-read_file :
    (fuel : ℕ) (path : List ℕ) (offset size : ℕ) (buffer memory : Buffer) (d : Disk) (f : File)
    → find path d.files ≡ some f
    → offset + size ≤ length f.bloques * block_size
    → f.tamanio ≤ length f.bloques * block_size
    → IsDistinct f.bloques
    → 1 < size
    → length f.bloques * block_size < 2 ^ 31
    → (d' : Disk) × (buff : Buffer) × (write_file (suc fuel) path offset size buffer d
        ≡ ended (success ∷ []) d')
      × (read_file path offset size memory d' ≡ some (bytes_read success size buff))
      × ((i : ℕ) → i < size → buff i ≡ buffer i)
write_file-read_file fuel path offset size buffer memory d f found fits covered distinct big room =
    let g = written path offset size f in
    let d' = disk_after path offset size buffer f d in
    let found' : find path d'.files ≡ some g = find-put g d.files in
    let more : offset + size ≤ g.tamanio = ground arith in
    let less : g.tamanio ≤ length f.bloques * block_size = ground (arith, fits, covered) in
    let start : offset / block_size * block_size + offset % block_size ≡ offset = omega arith in
    let (buff, read, same) =
      read_file-bytes path offset size memory d' g found' less (omega (arith, more, big))
        (omega (arith, less, room)) (omega (arith, fits, room)) in
    let whole : min size (g.tamanio - offset) ≡ size = omega (arith, more) in
    let wrote : (j : ℕ)
        → j < length f.bloques * block_size
        → bytes_of_file f.bloques d'.contents j
          ≡ memcpy (bytes_of_file f.bloques d.contents) offset buffer size j =
      λ j lt. rw start at (
        write_blocks-memcpy size size (offset / block_size) (offset % block_size) buffer f.bloques
          d.contents j (omega arith) (omega arith) (omega (arith, fits)) distinct lt) in
    (
      d',
      buff,
      write_file-some fuel path offset size buffer d f found fits (
          outside_lem offset size f (omega (arith, fits, room)) (omega (arith, covered, room))
            room),
      rw whole at read,
      λ i h.
          same i (omega (arith, whole, h))
          ∙ wrote (offset + i) (omega (arith, fits, h))
          ∙ memcpy_inside (bytes_of_file f.bloques d.contents) buffer offset size i h,
    )
