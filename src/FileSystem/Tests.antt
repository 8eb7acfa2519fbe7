-- ===== src/FileSystem/Tests.antt =====
-- A disk with one file of one block.
use so_distribuido.Base.{
  ℕ, ◌+◌, ◌-◌, ◌*◌, ◌≤◌, ◌<◌, ◌≡◌, refl, List, [], ◌∷◌, none, some, false, ◌==◌, arith, Buffer,
  count, min,
}
use so_distribuido.Base.{same_text}
use so_distribuido.SharedLibrary.Stream.{All, all_none, all_next, put_all}
use so_distribuido.SharedLibrary.FileSystemProt.{FileRequest, a_create, a_write, a_read, a_delete}
use so_distribuido.SharedLibrary.FileSystemProt.RoundTrip.{sent, IsPath, FitsFile}
use so_distribuido.FileSystem.Requests.{serve_files}
use so_distribuido.FileSystem.Requests.Sequence.{handle_all, serve_files-sent}
use so_distribuido.FileSystem.{
  File, Disk, success, find, get_available_block, available_from, bytes_to_expand, create_file,
  delete_file, write_file, read_file, bytes_read, ended, still_running, block_size,
}
use so_distribuido.FileSystem.Owned.{owned}
use so_distribuido.FileSystem.Expand.{write_file-IsSound}
use so_distribuido.FileSystem.Room.{free_from, free_blocks}
use so_distribuido.FileSystem.Sound.{IsSound, files-IsSound}
use so_distribuido.FileSystem.Full.{write_file-full}
use so_distribuido.FileSystem.Read.{bytes_of_file, read_file-bytes}
use so_distribuido.FileSystem.Write.{IsDistinct}
use so_distribuido.FileSystem.RoundTrip.{write_file-read_file}

abbrev path_a : List ℕ
path_a = b'/' ∷ b'a' ∷ []

abbrev file_a : File
file_a = record { path = path_a; tamanio = 64; bloques = 0 ∷ [] }

-- A disk of so many blocks, the first of which is the file's.
abbrev disk : ℕ → Disk
disk n = record {
  blocks = n;
  bitmap = λ b. b == 0;
  contents = λ b i. b + i;
  files = file_a ∷ [];
  is_dir = λ p. false;
}

disk-IsSound : IsSound (disk 4)
unfolding owned count
disk-IsSound = record { once = λ b. ground arith; within = λ b h. ground (arith, h) }

found_a : (n : ℕ) → find path_a (disk n).files ≡ some file_a
unfolding find same_text
found_a n = refl

one-IsDistinct : IsDistinct (0 ∷ [])
one-IsDistinct a b h k e = omega (arith, h, k)

files-IsSound_example :
    IsSound (create_file path_a (disk 4)).1 × IsSound (delete_file path_a (disk 4)).1
files-IsSound_example = files-IsSound path_a (disk 4) disk-IsSound

full_1 : get_available_block (disk 1) ≡ none
unfolding get_available_block available_from
full_1 = refl

past_end : 0 < bytes_to_expand 60 10 file_a
unfolding bytes_to_expand
past_end = omega arith

write_file-full_example : write_file 5 path_a 60 10 (λ i. i) (disk 1) ≡ still_running
write_file-full_example =
    write_file-full 5 path_a 60 10 (λ i. i) (disk 1) file_a (found_a 1) past_end full_1
      (omega arith) (omega arith) (omega arith)

read_file-bytes_example :
    (buff : Buffer) × (read_file path_a 3 5 (λ i. 0) (disk 4)
      ≡ some (bytes_read success (min 5 (64 - 3)) buff))
    × ((i : ℕ) → i < min 5 (64 - 3) → buff i ≡ bytes_of_file (0 ∷ []) (disk 4).contents (3 + i))
read_file-bytes_example =
    read_file-bytes path_a 3 5 (λ i. 0) (disk 4) file_a (found_a 4) (omega arith) (omega arith)
      (omega arith) (omega arith)

write_file-read_file_example :
    (d' : Disk) × (buff : Buffer) × (write_file 1 path_a 3 5 (λ i. 9) (disk 4)
      ≡ ended (success ∷ []) d')
    × (read_file path_a 3 5 (λ i. 0) d' ≡ some (bytes_read success 5 buff))
    × ((i : ℕ) → i < 5 → buff i ≡ 9)
write_file-read_file_example =
    write_file-read_file 0 path_a 3 5 (λ i. 9) (λ i. 0) (disk 4) file_a (found_a 4) (omega arith)
      (omega arith) one-IsDistinct (omega arith) (omega arith)

abbrev four_requests : List FileRequest
four_requests =
    a_create path_a ∷ a_write path_a 3 2 (8 ∷ 9 ∷ []) ∷ a_read path_a 3 2 ∷ a_delete path_a ∷ []

path_a-IsPath : IsPath path_a
path_a-IsPath = (all_next _ _ (omega arith) (all_next _ _ (omega arith) all_none), omega arith)

four_requests-FitsFile : All FitsFile four_requests
unfolding FitsFile
four_requests-FitsFile = all_next _ _ path_a-IsPath (
    all_next _ _
      (
        path_a-IsPath,
        omega arith,
        omega arith,
        (
          omega arith,
          omega arith,
          all_next _ _ (omega arith) (all_next _ _ (omega arith) all_none),
        ),
      )
      (all_next _ _ (path_a-IsPath, omega arith, omega arith)
        (all_next _ _ path_a-IsPath all_none)))

serve_files-sent_example :
    serve_files 5 9 (λ i. 0) (put_all sent four_requests []) (disk 4)
    ≡ handle_all 9 (λ i. 0) four_requests (disk 4)
serve_files-sent_example = serve_files-sent 9 (λ i. 0) four_requests (disk 4) four_requests-FitsFile

three_free : bytes_to_expand 60 10 file_a ≤ free_blocks (disk 4) * block_size
unfolding bytes_to_expand free_from
three_free = omega arith

one_round : bytes_to_expand 60 10 file_a < 9
unfolding bytes_to_expand
one_round = omega arith

-- A write past the end, which adds block 1.
write_file-IsSound_example :
    (d' : Disk) × (write_file 9 path_a 60 10 (λ i. i) (disk 4) ≡ ended (success ∷ []) d')
    × IsSound d'
write_file-IsSound_example =
    write_file-IsSound 9 path_a 60 10 (λ i. i) (disk 4) file_a disk-IsSound (found_a 4)
      (omega arith) (omega arith) (omega arith) three_free one_round
