-- ===== src/FileSystem/Requests/Sequence.antt =====
-- The file system serves the requests that the kernel sends, one after the other.
use so_distribuido.Base.{ℕ, suc, ◌≡◌, refl, ◌∙◌, ap, fun_ext, List, [], ◌∷◌, some, Buffer, length}
use so_distribuido.SharedLibrary.Stream.{put_all, put8, get8, All, all_none, all_next, return}
use so_distribuido.SharedLibrary.MemoryProt.{recv_operation_code}
use so_distribuido.SharedLibrary.FileSystemProt.{
  send_request, fs_validate_file, fs_create_file, fs_delete_file, fs_read, fs_write, FileRequest,
  a_validate, a_create, a_delete, a_read, a_write, v_file_recv_req, c_file_recv_req,
  d_file_recv_req,
}
use so_distribuido.SharedLibrary.FileSystemProt.RoundTrip.{
  sent, FitsFile, recv_path-put_path, read_back, write_back,
}
use so_distribuido.FileSystem.{Disk}
use so_distribuido.FileSystem.Requests.{
  a_file_request, got_request, recv_file_request, file_round_of, recv_file_round, handle, FileRun,
  after_request, serve_file_round, serve_files,
}

-- The requests handled one after the other.
unfoldable pub handle_all : ℕ → Buffer → List FileRequest → Disk → FileRun
handle_all rounds memory [] d = some ([], d)
handle_all rounds memory (q ∷ qs) d =
    after_request (handle_all rounds memory qs) (handle rounds memory q d)

pub recv_file_round-sent :
    (q : FileRequest) (rest : List ℕ)
    → FitsFile q
    → recv_file_round (sent q rest) ≡ a_file_request q rest
unfolding recv_file_round file_round_of recv_operation_code get8 put8 recv_file_request sent
    FitsFile got_request send_request fs_validate_file fs_create_file fs_delete_file fs_read
    fs_write v_file_recv_req c_file_recv_req d_file_recv_req
recv_file_round-sent (a_validate path) rest p =
    ap got_request (recv_path-put_path (λ path. return (some (a_validate path))) path rest p)
recv_file_round-sent (a_create path) rest p =
    ap got_request (recv_path-put_path (λ path. return (some (a_create path))) path rest p)
recv_file_round-sent (a_delete path) rest p =
    ap got_request (recv_path-put_path (λ path. return (some (a_delete path))) path rest p)
recv_file_round-sent (a_read path offset size) rest f =
    ap got_request (read_back path offset size rest f)
recv_file_round-sent (a_write path offset size buffer) rest f =
    ap got_request (write_back path offset size buffer rest f)

-- A connection to the file system that gets the bytes of the requests of the kernel, one
-- after the other, whose numbers fit their fields, whose paths have no NUL and whose written
-- buffers have bytes, handles those requests in that order, with nothing lost or joined, and
-- stops at the end of the bytes: the answers and the last disk are those of the handlers on
-- the requests.
pub serve_files-sent :
    (rounds : ℕ) (memory : Buffer) (qs : List FileRequest) (d : Disk)
    → All FitsFile qs
    → serve_files (suc (length qs)) rounds memory (put_all sent qs []) d
      ≡ handle_all rounds memory qs d
unfolding serve_files serve_file_round handle_all put_all recv_file_round file_round_of
    recv_operation_code get8
serve_files-sent rounds memory [] d all_none = refl
serve_files-sent rounds memory (q ∷ qs) d (all_next _ _ f fs) =
    ap (λ r. serve_file_round (serve_files (suc (length qs)) rounds memory) rounds memory r d)
      (recv_file_round-sent q (put_all sent qs []) f)
    ∙ ap (λ next. after_request next (handle rounds memory q d))
        (fun_ext (λ d'. serve_files-sent rounds memory qs d' fs))
