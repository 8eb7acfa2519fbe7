-- ===== src/FileSystem.antt =====
-- file-system.c: the bitmap of the blocks, the files and their blocks. A regular file is its
-- metadata, TAMANIO and BLOQUES; the directories of the path exist. The contents of a block file
-- are its bytes.
pub mod Owned
pub mod Sound
pub mod Room
pub mod Expand
pub mod Full
pub mod Read
pub mod Write
pub mod RoundTrip
pub mod Requests
mod Tests
use so_distribuido.Base.{
  ℕ, zero, suc, ◌+◌, ◌-◌, ◌*◌, ◌/◌, ◌%◌, ◌^◌, ◌||◌, List, [], ◌∷◌, ◌++◌, Option, none, some, Bool,
  true, false, ◌&&◌, ◌==◌, ltb, leb, if◌then◌else◌, length, update, Buffer, memcpy, shift,
}
use so_distribuido.Base.{same_text}

-- BLOCK_SIZE
abbrev pub block_size : ℕ
block_size = 64

-- The metadata of a regular file.
pub record File : Type 0 where
  pub path : List ℕ
  pub tamanio : ℕ
  pub bloques : List ℕ

-- The disk: the count of blocks of the configuration, the bitmap, the contents of the block files,
-- the regular files, and which other paths are directories.
pub record Disk : Type 0 where
  pub blocks : ℕ
  pub bitmap : ℕ → Bool
  pub contents : ℕ → Buffer
  pub files : List File
  pub is_dir : List ℕ → Bool

-- The codes of the answers.
pub data FileCode : Type 0 where
  success is_reg is_directory is_not_reg no_space : FileCode

-- config_create on the path of a regular file, and stat with S_ISREG
unfoldable pub find : List ℕ → List File → Option File
find path [] = none
find path (f ∷ fs) = let rest = find path fs in if same_text f.path path then some f else rest

-- The metadata file is written.
unfoldable pub put : File → List File → List File
put g [] = g ∷ []
put g (f ∷ fs) = let rest = put g fs in if same_text f.path g.path then g ∷ fs else f ∷ rest

-- remove
unfoldable pub remove : List ℕ → List File → List File
remove path [] = []
remove path (f ∷ fs) = let rest = remove path fs in if same_text f.path path then fs else f ∷ rest

unfoldable pub validate_file : List ℕ → Disk → FileCode
validate_file path d = elim (find path d.files) [ none ↦ is_not_reg | some f ↦ is_reg ]

-- The loop of get_available_block, and the bitmap after it.
unfoldable pub available_from : ℕ → ℕ → (ℕ → Bool) → Option (ℕ × (ℕ → Bool))
available_from zero pos bitmap = none
available_from (suc left) pos bitmap =
    let rest = available_from left (pos + 1) bitmap in
    if bitmap pos then rest else some (pos, update bitmap pos true)

unfoldable pub get_available_block : Disk → Option (ℕ × (ℕ → Bool))
get_available_block d = available_from d.blocks 0 d.bitmap

-- bitarray_clean_bit on each block
unfoldable pub clean_bits : List ℕ → (ℕ → Bool) → ℕ → Bool
clean_bits [] bitmap = bitmap
clean_bits (b ∷ bs) bitmap = clean_bits bs (update bitmap b false)

-- A block of spaces.
abbrev pub spaces : Buffer
spaces i = b' '

-- The block is set in the bitmap and its file is written with spaces.
unfoldable pub with_block : ℕ → (ℕ → Bool) → Disk → Disk
with_block b bitmap d = record d { bitmap = bitmap; contents = update d.contents b spaces }

-- create_file from get_available_block on
unfoldable pub create_block : List ℕ → Disk → Option (ℕ × (ℕ → Bool)) → FileCode × Disk
create_block path d none = (no_space, d)
create_block path d (some (b, bitmap)) =
    let made = with_block b bitmap d in
    (
      success,
      record made {
        files = put (record { path = path; tamanio = block_size; bloques = b ∷ [] }) d.files;
      },
    )

unfoldable pub create_file : List ℕ → Disk → FileCode × Disk
create_file path d = elim (find path d.files) [
  | none ↦
      let made = create_block path d (get_available_block d) in
      if d.is_dir path then (is_directory, d) else made
  | some f ↦
      let cleaned : Disk = record d { bitmap = clean_bits f.bloques d.bitmap } in
      create_block path cleaned (get_available_block cleaned)
]

unfoldable pub delete_file : List ℕ → Disk → FileCode × Disk
delete_file path d = elim (find path d.files) [
  | none ↦ (success, d)
  | some f ↦
      (success, record d { bitmap = clean_bits f.bloques d.bitmap; files = remove path d.files })
]

-- list_get of so-commons answers NULL past the end.
unfoldable pub list_get : List ℕ → ℕ → ℕ
list_get [] n = 0
list_get (x ∷ xs) zero = x
list_get (x ∷ xs) (suc n) = list_get xs n

-- list_remove at a position, past the end nothing.
unfoldable pub list_remove : ℕ → List ℕ → List ℕ
list_remove n [] = []
list_remove zero (x ∷ xs) = xs
list_remove (suc n) (x ∷ xs) = x ∷ list_remove n xs

-- The loop that gives the new blocks back: the position goes up while the list gets shorter.
unfoldable pub give_back : ℕ → ℕ → List ℕ → (ℕ → Bool) → List ℕ × (ℕ → Bool)
give_back zero pos list bitmap = (list, bitmap)
give_back (suc left) pos list bitmap =
    let rest =
      give_back left (pos + 1) (list_remove pos list) (update bitmap (list_get list pos) false) in
    if ltb pos (length list) then rest else (list, bitmap)

-- What the loop that adds blocks answers: the blocks of the file, the disk, and the codes that it
-- sent. `none` is a loop that the fuel does not reach the end of.
abbrev pub Expanded : Type 0
Expanded = Option (List ℕ × Disk × List FileCode)

-- A round of it; with no block available, ENOSPC is sent and the loop goes on.
unfoldable pub expand_round :
    (ℕ → List ℕ → Disk → List FileCode → Expanded)
    → ℕ
    → ℕ
    → List ℕ
    → Disk
    → List FileCode
    → Option (ℕ × (ℕ → Bool))
    → Expanded
expand_round next bytes elements list d sent (some (b, bitmap)) =
    next (bytes - block_size) (list ++ (b ∷ [])) (with_block b bitmap d) sent
expand_round next bytes elements list d sent none =
    let (list', bitmap) = give_back (length list) elements list d.bitmap in
    next bytes list' (record d { bitmap = bitmap }) (sent ++ (no_space ∷ []))

unfoldable pub expand : ℕ → ℕ → ℕ → List ℕ → Disk → List FileCode → Expanded
expand zero elements bytes list d sent = none
expand (suc fuel) elements bytes list d sent =
    let more =
      expand_round (expand fuel elements) bytes elements list d sent (get_available_block d) in
    if bytes == 0 then some (list, d, sent) else more

-- The loop that writes the blocks; `left` counts the bytes down.
unfoldable pub write_blocks : ℕ → ℕ → ℕ → ℕ → Buffer → List ℕ → (ℕ → Buffer) → ℕ → Buffer
write_blocks zero bytes block_n offset buffer list contents = contents
write_blocks (suc left) bytes block_n offset buffer list contents =
    let available = block_size - offset in
    let writing = if leb available bytes then available else bytes in
    let b = list_get list block_n in
    let written = update contents b (memcpy (contents b) offset buffer writing) in
    let rest =
      write_blocks left (bytes - writing) (block_n + 1) 0 (shift buffer writing) list written in
    if bytes == 0 then contents else rest

-- The bytes to add blocks for: those past the end, less the room in the last block where it is
-- positive.
unfoldable pub bytes_to_expand : ℕ → ℕ → File → ℕ
bytes_to_expand offset size f =
    offset + size - f.tamanio - (length f.bloques * block_size - f.tamanio)

-- The numbers that are outside int: the sum of offset and size, the size of the file, or the room of
-- its blocks where the file grows.
unfoldable pub outside : ℕ → ℕ → File → Bool
outside offset size f =
    leb (2 ^ 31) (offset + size)
    || leb (2 ^ 31) f.tamanio
    || (ltb f.tamanio (offset + size) && leb (2 ^ 31) (length f.bloques * block_size))

-- What becomes of write_file: it ends with the codes that it sent and the disk, its loop goes on
-- after the rounds of the fuel, or a number is outside int, which is not followed.
pub data Written : Type 0 where
  ended : List FileCode → Disk → Written
  still_running : Written
  outside_int : Written

-- The rest of write_file, with the blocks of the file, of which it has one at least.
unfoldable pub close_write : List ℕ → ℕ → ℕ → Buffer → File → Expanded → Written
close_write path offset size buffer f none = still_running
close_write path offset size buffer f (some (list, d, sent)) =
    let tamanio = if ltb f.tamanio (offset + size) then offset + size else f.tamanio in
    ended (sent ++ (success ∷ [])) (record d {
      contents =
          write_blocks size size (offset / block_size) (offset % block_size) buffer list d.contents;
      files = put (record { path = path; tamanio = tamanio; bloques = list }) d.files;
    })

-- The answers of write_file, and the disk.
unfoldable pub write_file : ℕ → List ℕ → ℕ → ℕ → Buffer → Disk → Written
write_file fuel path offset size buffer d = elim (find path d.files) [
  | none ↦ ended (is_not_reg ∷ []) d
  | some f ↦
      let written =
        close_write path offset size buffer f
          (expand fuel (length f.bloques) (bytes_to_expand offset size f) f.bloques d []) in
      if outside offset size f then outside_int else written
]

-- The loop of read_file, with the bytes that are read before those of the rest. A block past the
-- end has no file, which is read from NULL.
unfoldable pub read_blocks : ℕ → ℕ → ℕ → ℕ → List ℕ → (ℕ → Buffer) → Buffer → ℕ → Option Buffer
read_blocks zero bytes block_n offset list contents buff buff_pos = some buff
read_blocks (suc left) bytes block_n offset list contents buff buff_pos =
    let available = block_size - offset in
    let reading = if leb bytes available then bytes else available in
    let b = list_get list block_n in
    let rest =
      read_blocks left (bytes - reading) (block_n + 1) 0 list contents
        (memcpy buff buff_pos (shift (contents b) offset) reading) (buff_pos + reading) in
    if bytes == 0 then some buff else if ltb block_n (length list) then rest else none

-- What a client gets of read_file: a code with bytes, or no answer.
pub data FileAnswer : Type 0 where
  bytes_read : FileCode → ℕ → Buffer → FileAnswer
  no_answer : FileAnswer

unfoldable pub send_read : ℕ → Option Buffer → Option FileAnswer
send_read size none = none
send_read size (some buff) = some (bytes_read success size buff)

-- read_file; `memory` is what malloc left in the buffer. `none` is a read from NULL, or a number
-- outside int.
unfoldable pub read_file : List ℕ → ℕ → ℕ → Buffer → Disk → Option FileAnswer
read_file path offset size memory d = elim (find path d.files) [
  | none ↦ some (bytes_read is_not_reg 0 (λ i. 0))
  | some f ↦
      let read = if ltb f.tamanio (offset + size) then f.tamanio - offset else size in
      let answer = send_read read (
        read_blocks (suc read) read (offset / block_size) (offset % block_size) f.bloques d.contents
          memory 0) in
      if leb (2 ^ 31) offset || leb (2 ^ 31) f.tamanio
      then none
      else if ltb (offset + 1) f.tamanio
      then if leb (2 ^ 31) (offset + size) then none else answer
      else some no_answer
]
