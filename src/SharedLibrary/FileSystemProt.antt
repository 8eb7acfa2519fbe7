-- ===== src/SharedLibrary/FileSystemProt.antt =====
-- file_system_prot.c: the messages between the kernel and the file system. A path is its text
-- without the NUL that ends it; `none` of a reader is a socket that ends before the bytes asked
-- for, or a path without a NUL.
pub mod RoundTrip
use so_distribuido.Base.{
  ℕ, zero, suc, ◌+◌, List, [], ◌∷◌, Option, none, some, ◌==◌, if◌then◌else◌, length,
}
use so_distribuido.SharedLibrary.Stream.{
  Reader, return, ◌>>=◌, put8, put16, put32, get8, get32, put_all, get_all,
}
use so_distribuido.SharedLibrary.Serializar.{put_text, text_of}
use so_distribuido.SharedLibrary.MemoryProt.{
  Call, recv_code, ReadResponse, get_read_response, response_of, read_send_resp,
}

abbrev pub fs_handshake_oc : ℕ
fs_handshake_oc = 1

abbrev pub fs_validate_file_oc : ℕ
fs_validate_file_oc = 2

abbrev pub fs_create_file_oc : ℕ
fs_create_file_oc = 3

abbrev pub fs_delete_file_oc : ℕ
fs_delete_file_oc = 4

abbrev pub fs_read_file_oc : ℕ
fs_read_file_oc = 5

abbrev pub fs_write_file_oc : ℕ
fs_write_file_oc = 6

-- path_size and path
unfoldable pub put_path : List ℕ → List ℕ → List ℕ
put_path path rest = put32 (length path + 1) (put_text path rest)

unfoldable pub send_request : List ℕ → ℕ → Call ℕ
send_request path ope_cod = record {
  request = λ rest. put8 ope_cod (put_path path rest);
  response = recv_code;
}

unfoldable pub send_resp : ℕ → List ℕ → List ℕ
send_resp = put16

unfoldable pub fs_validate_file : List ℕ → Call ℕ
fs_validate_file path = send_request path fs_validate_file_oc

unfoldable pub fs_create_file : List ℕ → Call ℕ
fs_create_file path = send_request path fs_create_file_oc

unfoldable pub fs_delete_file : List ℕ → Call ℕ
fs_delete_file path = send_request path fs_delete_file_oc

-- The answer is read as that of memory_read is.
unfoldable pub fs_read : List ℕ → ℕ → ℕ → Call ReadResponse
fs_read path offset size = record {
  request = λ rest. put8 fs_read_file_oc (put32 offset (put32 size (put_path path rest)));
  response = λ bytes. response_of (get_read_response bytes);
}

unfoldable pub fs_write : List ℕ → ℕ → ℕ → List ℕ → Call ℕ
fs_write path offset size buffer = record {
  request = λ rest. put8 fs_write_file_oc (
      put32 offset (put32 size (put_path path (put32 (length buffer) (put_all put8 buffer rest)))));
  response = recv_code;
}

-- The requests as the file system receives them.
pub data FileRequest : Type 0 where
  a_validate : (path : List ℕ) → FileRequest
  a_create : (path : List ℕ) → FileRequest
  a_delete : (path : List ℕ) → FileRequest
  a_read : (path : List ℕ) → (offset : ℕ) → (size : ℕ) → FileRequest
  a_write : (path : List ℕ) → (offset : ℕ) → (size : ℕ) → (buffer : List ℕ) → FileRequest

unfoldable pub fs_recv_ope_cod : Reader ℕ
fs_recv_ope_cod = get8

-- The text in the bytes of a path.
unfoldable pub as_text : List ℕ → Reader (List ℕ)
as_text bytes rest = elim (text_of bytes) [ none ↦ none | some path ↦ some (path, rest) ]

-- recv answers 0 when it is asked for no bytes, which is taken for a disconnection: what follows
-- is not received.
unfoldable pub recv_bytes : {B : Type 0} → ℕ → (List ℕ → Reader (Option B)) → Reader (Option B)
recv_bytes zero f = return none
recv_bytes (suc n) f = do bytes ← get_all get8 (suc n); f bytes

unfoldable pub recv_path : {B : Type 0} → (List ℕ → Reader (Option B)) → Reader (Option B)
recv_path f = do path_size ← get32; recv_bytes path_size (λ bytes. as_text bytes >>= f)

unfoldable pub v_file_recv_req : Reader (Option FileRequest)
v_file_recv_req = recv_path (λ path. return (some (a_validate path)))

unfoldable pub c_file_recv_req : Reader (Option FileRequest)
c_file_recv_req = recv_path (λ path. return (some (a_create path)))

unfoldable pub d_file_recv_req : Reader (Option FileRequest)
d_file_recv_req = recv_path (λ path. return (some (a_delete path)))

unfoldable pub fs_read_recv_req : Reader (Option FileRequest)
fs_read_recv_req = do
  offset ← get32
  size ← get32
  recv_path (λ path. return (some (a_read path offset size)))

unfoldable pub fs_write_recv_req : Reader (Option FileRequest)
fs_write_recv_req = do
  offset ← get32
  size ← get32
  recv_path (λ path. do
    buffer_size ← get32
    recv_bytes buffer_size (λ buffer. return (some (a_write path offset size buffer))))

unfoldable pub fs_read_send_resp : ℕ → List ℕ → List ℕ → List ℕ
fs_read_send_resp = read_send_resp
