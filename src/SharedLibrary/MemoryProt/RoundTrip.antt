-- ===== src/SharedLibrary/MemoryProt/RoundTrip.antt =====
-- What the clients of memory_prot.c send, its receiving functions read back, and the other way
-- round for the answers.
use so_distribuido.Base.{
  ℕ, ◌^◌, ◌<◌, ◌≡◌, ◌≢◌, ◌⊎◌, refl, ◌∙◌, List, [], ◌∷◌, some, arith, length, lt→ltb, false, ◌==◌,
}
use so_distribuido.SharedLibrary.Stream.{
  Reader, ◌>>=◌, bind_some, put8, put32, get8, get32, put_all, get_all, All, get8-put8, get32-put32,
  get_all-put_all,
}
use so_distribuido.SharedLibrary.MemoryProt.{
  handshake, memory_init_process, memory_write, memory_read, memory_assign_pages,
  memory_delete_page, memory_finalize_process, Message, a_handshake, an_init, an_assign, a_delete,
  a_read, a_write, an_end, handshake_recv_req, init_process_recv_req, recv_buffer, write_recv_req,
  read_recv_req, delete_page_recv_req, finalize_process_recv_req,
}

-- The bytes of the call of a client.
unfoldable pub send : Message → List ℕ → List ℕ
send (a_handshake kind stack_size) = (handshake kind stack_size).request
send (an_init pid pages) = (memory_init_process pid pages).request
send (an_assign pid pages) = (memory_assign_pages pid pages).request
send (a_delete pid page) = (memory_delete_page pid page).request
send (a_read pid page offset size) = (memory_read pid page offset size).request
send (a_write pid page offset size buffer) = (memory_write pid page offset size buffer).request
send (an_end pid) = (memory_finalize_process pid).request

abbrev pub IsByte : ℕ → Type 0
IsByte n = n < 2 ^ 8

abbrev pub IsWord : ℕ → Type 0
IsWord n = n < 2 ^ 32

-- The kernel's stack size is a byte and is not 0; the other clients send none.
abbrev pub IsHandshake : ℕ → ℕ → Type 0
IsHandshake kind stack_size =
    ((kind ≡ b'k') × (0 < stack_size) × IsByte stack_size)
    ⊎ ((kind ≢ b'k') × IsByte kind × (stack_size ≡ 0))

-- A buffer to write has bytes, which are not more than an int counts.
abbrev pub IsBuffer : List ℕ → Type 0
IsBuffer buffer = (0 < length buffer) × IsWord (length buffer) × All IsByte buffer

-- Requests whose numbers fit the fields of the message.
unfoldable pub Fits : Message → Type 0
Fits (a_handshake kind stack_size) = IsHandshake kind stack_size
Fits (an_init pid pages) = IsWord pid × IsWord pages
Fits (an_assign pid pages) = IsWord pid × IsWord pages
Fits (a_delete pid page) = IsWord pid × IsWord page
Fits (a_read pid page offset size) = IsWord pid × IsWord page × IsWord offset × IsWord size
Fits (a_write pid page offset size buffer) =
    IsWord pid × IsWord page × IsWord offset × IsWord size × IsBuffer buffer
Fits (an_end pid) = IsWord pid

not_eq : (a b : ℕ) → a ≢ b → (a == b) ≡ false
not_eq a b h = ground arith

pub buffer_back :
    (buffer rest : List ℕ)
    → All IsByte buffer
    → get_all get8 (length buffer) (put_all put8 buffer rest) ≡ some (buffer, rest)
buffer_back buffer rest bytes =
    get_all-put_all IsByte get8 put8 (λ n after h. get8-put8 n after h) buffer rest bytes

pub handshake-kernel :
    (stack_size : ℕ) (rest : List ℕ)
    → 0 < stack_size
    → IsByte stack_size
    → (handshake b'k' stack_size).request rest ≡ 1 ∷ b'k' ∷ put8 stack_size rest
unfolding handshake put8
handshake-kernel s rest pos small =
    rw (lt→ltb 0 s pos, lt→ltb s (2 ^ 31) (omega (arith, small))) refl

pub handshake_other :
    (kind : ℕ) (rest : List ℕ) → kind ≢ b'k' → (handshake kind 0).request rest ≡ 1 ∷ put8 kind rest
unfolding handshake put8
handshake_other kind rest other = rw (not_eq kind b'k' other) refl

pub kernel_back :
    (stack_size : ℕ) (rest : List ℕ)
    → IsByte stack_size
    → handshake_recv_req (b'k' ∷ put8 stack_size rest) ≡ some (a_handshake b'k' stack_size, rest)
unfolding handshake_recv_req get8
kernel_back s rest small = bind_some get8 _ _ s rest (get8-put8 s rest small)

pub other_back :
    (kind : ℕ) (rest : List ℕ)
    → kind ≢ b'k'
    → IsByte kind
    → handshake_recv_req (put8 kind rest) ≡ some (a_handshake kind 0, rest)
unfolding handshake_recv_req
other_back kind rest other byte =
    bind_some get8 _ _ kind rest (get8-put8 kind rest byte) ∙ rw (not_eq kind b'k' other) refl

pair_back :
    {A : Type 0} (f : ℕ → ℕ → A) (a b : ℕ) (rest : List ℕ)
    → IsWord a
    → IsWord b
    → (get32 >>= λ x. get32 >>= λ y bytes. some (f x y, bytes)) (put32 a (put32 b rest))
      ≡ some (f a b, rest)
pair_back f a b rest ha hb =
    bind_some get32 _ _ a _ (get32-put32 a _ ha) ∙ bind_some get32 _ _ b _ (get32-put32 b _ hb)

pub init_back :
    (pid pages : ℕ) (rest : List ℕ)
    → IsWord pid
    → IsWord pages
    → init_process_recv_req (put32 pid (put32 pages rest)) ≡ some (an_init pid pages, rest)
unfolding init_process_recv_req
init_back pid pages rest a b = pair_back an_init pid pages rest a b

pub delete_back :
    (pid page : ℕ) (rest : List ℕ)
    → IsWord pid
    → IsWord page
    → delete_page_recv_req (put32 pid (put32 page rest)) ≡ some (a_delete pid page, rest)
unfolding delete_page_recv_req
delete_back pid page rest a b = pair_back a_delete pid page rest a b

pub finalize_back :
    (pid : ℕ) (rest : List ℕ)
    → IsWord pid
    → finalize_process_recv_req (put32 pid rest) ≡ some (an_end pid, rest)
unfolding finalize_process_recv_req
finalize_back pid rest a = bind_some get32 _ _ pid _ (get32-put32 pid _ a)

pub four_back :
    {B : Type 0} (f : ℕ → ℕ → ℕ → ℕ → Reader B) (a b c d : ℕ) (rest : List ℕ)
    → IsWord a
    → IsWord b
    → IsWord c
    → IsWord d
    → (get32 >>= λ x. get32 >>= λ y. get32 >>= λ z. get32 >>= λ w. f x y z w)
        (put32 a (put32 b (put32 c (put32 d rest))))
      ≡ f a b c d rest
four_back f a b c d rest ha hb hc hd =
    bind_some get32 _ _ a _ (get32-put32 a _ ha)
    ∙ bind_some get32 _ _ b _ (get32-put32 b _ hb)
    ∙ bind_some get32 _ _ c _ (get32-put32 c _ hc)
    ∙ bind_some get32 _ _ d _ (get32-put32 d _ hd)

pub read_back :
    (pid page offset size : ℕ) (rest : List ℕ)
    → IsWord pid
    → IsWord page
    → IsWord offset
    → IsWord size
    → read_recv_req (put32 pid (put32 page (put32 offset (put32 size rest))))
      ≡ some (a_read pid page offset size, rest)
unfolding read_recv_req
read_back pid page offset size rest a b c d = four_back _ pid page offset size rest a b c d

recv_buffer_back :
    (buffer rest : List ℕ) (f : List ℕ → Message)
    → IsBuffer buffer
    → recv_buffer (length buffer) f (put_all put8 buffer rest) ≡ some (some (f buffer), rest)
unfolding recv_buffer
recv_buffer_back [] rest f (pos, few, bytes) = ground arith
recv_buffer_back (x ∷ xs) rest f (pos, few, bytes) =
    bind_some (get_all get8 (length (x ∷ xs))) _ _ (x ∷ xs) rest (buffer_back (x ∷ xs) rest bytes)

pub write_back :
    (pid page offset size : ℕ) (buffer rest : List ℕ)
    → Fits (a_write pid page offset size buffer)
    → write_recv_req (
        put32 pid (
          put32 page
            (put32 offset (put32 size (put32 (length buffer) (put_all put8 buffer rest))))))
      ≡ some (some (a_write pid page offset size buffer), rest)
unfolding write_recv_req Fits
write_back pid page offset size buffer rest (a, b, c, d, e) =
    four_back _ pid page offset size _ a b c d
    ∙ bind_some get32 _ _ (length buffer) _ (get32-put32 (length buffer) _ e.1)
    ∙ recv_buffer_back buffer rest _ e
