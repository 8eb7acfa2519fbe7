-- ===== src/SharedLibrary/FileSystemProt/RoundTrip.antt =====
-- What the kernel sends by file_system_prot.c, the file system reads back.
use so_distribuido.Base.{
  ℕ, suc, ◌+◌, ◌^◌, ◌<◌, ◌≡◌, ◌≢◌, refl, ◌∙◌, List, [], ◌∷◌, Option, some, arith, length,
}
use so_distribuido.SharedLibrary.Stream.{
  Reader, ◌>>=◌, bind_some, put8, put32, get8, get32, put_all, get_all, All, get32-put32,
}
use so_distribuido.SharedLibrary.Serializar.{put_text, text_of}
use so_distribuido.SharedLibrary.Serializar.RoundTrip.{text_back}
use so_distribuido.SharedLibrary.MemoryProt.RoundTrip.{IsWord, IsBuffer, buffer_back}
use so_distribuido.SharedLibrary.FileSystemProt.{
  put_path, fs_validate_file, fs_create_file, fs_delete_file, fs_read, fs_write, FileRequest,
  a_validate, a_create, a_delete, a_read, a_write, as_text, recv_bytes, recv_path, fs_read_recv_req,
  fs_write_recv_req,
}

-- A path has no NUL, and its length with the NUL is an uint32_t.
abbrev pub IsPath : List ℕ → Type 0
IsPath path = All (λ c. c ≢ 0) path × (length path + 1 < 2 ^ 32)

path_bytes :
    (path rest : List ℕ)
    → get_all get8 (suc (length path)) (put_text path rest) ≡ some (put_text path [], rest)
unfolding get_all put_text get8
path_bytes [] rest = refl
path_bytes (x ∷ xs) rest = rw (path_bytes xs rest, ◌>>=◌) refl

as_text-some :
    (bytes path rest : List ℕ) → text_of bytes ≡ some path → as_text bytes rest ≡ some (path, rest)
unfolding as_text
as_text-some bytes path rest e = rw (e, as_text) refl

pub recv_path-put_path :
    {B : Type 0} (f : List ℕ → Reader (Option B)) (path rest : List ℕ)
    → IsPath path
    → recv_path f (put_path path rest) ≡ f path rest
unfolding recv_path put_path recv_bytes
recv_path-put_path f path rest (text, few) =
    let e : length path + 1 ≡ suc (length path) = omega arith in
    bind_some get32 _ _ (length path + 1) _ (get32-put32 (length path + 1) _ few)
    ∙ rw e (
        bind_some (get_all get8 (suc (length path))) _ _ (put_text path []) rest
          (path_bytes path rest)
        ∙ bind_some (as_text (put_text path [])) _ rest path rest
            (as_text-some (put_text path []) path rest (text_back path [] text)))

recv_bytes-put_all :
    {B : Type 0} (f : List ℕ → Reader (Option B)) (buffer rest : List ℕ)
    → IsBuffer buffer
    → recv_bytes (length buffer) f (put_all put8 buffer rest) ≡ f buffer rest
unfolding recv_bytes
recv_bytes-put_all f [] rest (pos, few, bytes) = ground arith
recv_bytes-put_all f (x ∷ xs) rest (pos, few, bytes) =
    bind_some (get_all get8 (length (x ∷ xs))) _ _ (x ∷ xs) rest (buffer_back (x ∷ xs) rest bytes)

-- The bytes of the call of the kernel.
unfoldable pub sent : FileRequest → List ℕ → List ℕ
sent (a_validate path) = (fs_validate_file path).request
sent (a_create path) = (fs_create_file path).request
sent (a_delete path) = (fs_delete_file path).request
sent (a_read path offset size) = (fs_read path offset size).request
sent (a_write path offset size buffer) = (fs_write path offset size buffer).request

-- Requests whose numbers fit the fields of the message.
unfoldable pub FitsFile : FileRequest → Type 0
FitsFile (a_validate path) = IsPath path
FitsFile (a_create path) = IsPath path
FitsFile (a_delete path) = IsPath path
FitsFile (a_read path offset size) = IsPath path × IsWord offset × IsWord size
FitsFile (a_write path offset size buffer) =
    IsPath path × IsWord offset × IsWord size × IsBuffer buffer

pub read_back :
    (path : List ℕ) (offset size : ℕ) (rest : List ℕ)
    → FitsFile (a_read path offset size)
    → fs_read_recv_req (put32 offset (put32 size (put_path path rest)))
      ≡ some (some (a_read path offset size), rest)
unfolding fs_read_recv_req FitsFile
read_back path offset size rest (p, a, b) =
    bind_some get32 _ _ offset _ (get32-put32 offset _ a)
    ∙ bind_some get32 _ _ size _ (get32-put32 size _ b)
    ∙ recv_path-put_path _ path rest p

pub write_back :
    (path : List ℕ) (offset size : ℕ) (buffer rest : List ℕ)
    → FitsFile (a_write path offset size buffer)
    → fs_write_recv_req (
        put32 offset
          (put32 size (put_path path (put32 (length buffer) (put_all put8 buffer rest)))))
      ≡ some (some (a_write path offset size buffer), rest)
unfolding fs_write_recv_req FitsFile
write_back path offset size buffer rest (p, a, b, c) =
    bind_some get32 _ _ offset _ (get32-put32 offset _ a)
    ∙ bind_some get32 _ _ size _ (get32-put32 size _ b)
    ∙ recv_path-put_path _ path _ p
    ∙ bind_some get32 _ _ (length buffer) _ (get32-put32 (length buffer) _ c.1)
    ∙ recv_bytes-put_all _ buffer rest c
