-- ===== src/FileSystem/Requests.antt =====
-- process_request of file-system.c over the bytes of a client.
pub mod Sequence
use so_distribuido.Base.{
  ℕ, zero, suc, List, [], ◌∷◌, Option, none, some, Buffer, ◌==◌, if◌then◌else◌, leb, length,
}
use so_distribuido.SharedLibrary.MemoryProt.{buffer_of, recv_operation_code}
use so_distribuido.SharedLibrary.FileSystemProt.{
  fs_handshake_oc, fs_validate_file_oc, fs_create_file_oc, fs_delete_file_oc, fs_read_file_oc,
  fs_write_file_oc, FileRequest, a_validate, a_create, a_delete, a_read, a_write, v_file_recv_req,
  c_file_recv_req, d_file_recv_req, fs_read_recv_req, fs_write_recv_req,
}
use so_distribuido.FileSystem.{
  Disk, FileCode, success, FileAnswer, validate_file, create_file, delete_file, read_file,
  write_file, Written, ended, still_running, outside_int, find,
}

-- The answers that a round sends: codes, or what read_file answers.
pub data FileResponse : Type 0 where
  codes : List FileCode → FileResponse
  answer_of : FileAnswer → FileResponse

-- What a round of the loop receives, and the bytes after it. The handlers do not look at exec_code.
pub data FileRound : Type 0 where
  closed : FileRound
  greeted : List ℕ → FileRound
  ignored : List ℕ → FileRound
  a_file_request : FileRequest → List ℕ → FileRound
  not_defined : FileRound

unfoldable pub got_request : Option (Option FileRequest × List ℕ) → FileRound
got_request none = not_defined
got_request (some (none, rest)) = not_defined
got_request (some (some q, rest)) = a_file_request q rest

unfoldable pub recv_file_request : ℕ → List ℕ → FileRound
recv_file_request ope_code bytes =
    if ope_code == fs_handshake_oc
    then greeted bytes
    else if ope_code == fs_validate_file_oc
    then got_request (v_file_recv_req bytes)
    else if ope_code == fs_create_file_oc
    then got_request (c_file_recv_req bytes)
    else if ope_code == fs_delete_file_oc
    then got_request (d_file_recv_req bytes)
    else if ope_code == fs_read_file_oc
    then got_request (fs_read_recv_req bytes)
    else if ope_code == fs_write_file_oc
    then got_request (fs_write_recv_req bytes)
    else ignored bytes

unfoldable pub file_round_of : Option (ℕ × List ℕ) → FileRound
file_round_of none = closed
file_round_of (some (ope_code, bytes)) = recv_file_request ope_code bytes

unfoldable pub recv_file_round : List ℕ → FileRound
recv_file_round bytes = file_round_of (recv_operation_code bytes)

unfoldable pub code_sent : FileCode × Disk → Option (FileResponse × Disk)
code_sent (c, d) = some (codes (c ∷ []), d)

unfoldable pub codes_sent : Written → Option (FileResponse × Disk)
codes_sent (ended cs d) = some (codes cs, d)
codes_sent still_running = none
codes_sent outside_int = none

unfoldable pub answer_sent : Disk → Option FileAnswer → Option (FileResponse × Disk)
answer_sent d none = none
answer_sent d (some a) = some (answer_of a, d)

-- The handlers; `rounds` is the fuel of write_file, and `memory` what malloc left in the buffer of
-- read_file. A write of more bytes than the buffer that was received has no defined result in C.
unfoldable pub handle : ℕ → Buffer → FileRequest → Disk → Option (FileResponse × Disk)
handle rounds memory (a_validate path) d = code_sent (validate_file path d, d)
handle rounds memory (a_create path) d = code_sent (create_file path d)
handle rounds memory (a_delete path) d = code_sent (delete_file path d)
handle rounds memory (a_read path offset size) d =
    answer_sent d (read_file path offset size memory d)
handle rounds memory (a_write path offset size buffer) d =
    let sent = codes_sent (write_file rounds path offset size (buffer_of buffer) d) in
    elim (find path d.files) [
      | none ↦ sent
      | some f ↦ if leb size (length buffer) then sent else none
    ]

-- The answers of the rounds, in order, and the last disk.
abbrev pub FileRun : Type 0
FileRun = Option (List FileResponse × Disk)

unfoldable pub then_sent : FileResponse → FileRun → FileRun
then_sent r none = none
then_sent r (some (rs, d)) = some (r ∷ rs, d)

unfoldable pub after_request : (Disk → FileRun) → Option (FileResponse × Disk) → FileRun
after_request next none = none
after_request next (some (r, d)) = then_sent r (next d)

unfoldable pub serve_file_round :
    (List ℕ → Disk → FileRun) → ℕ → Buffer → FileRound → Disk → FileRun
serve_file_round next rounds memory closed d = some ([], d)
serve_file_round next rounds memory not_defined d = none
serve_file_round next rounds memory (greeted rest) d =
    then_sent (codes (success ∷ [])) (next rest d)
serve_file_round next rounds memory (ignored rest) d = next rest d
serve_file_round next rounds memory (a_file_request q rest) d =
    after_request (next rest) (handle rounds memory q d)

-- The loop of process_request.
unfoldable pub serve_files : ℕ → ℕ → Buffer → List ℕ → Disk → FileRun
serve_files zero rounds memory bytes d = none
serve_files (suc fuel) rounds memory bytes d =
    serve_file_round (serve_files fuel rounds memory) rounds memory (recv_file_round bytes) d
