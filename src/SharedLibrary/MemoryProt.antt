-- ===== src/SharedLibrary/MemoryProt.antt =====
-- memory_prot.c: the messages between the memory and its clients. A call of a client is the bytes
-- that it sends and what it makes of the bytes that come back; a function of the server that
-- receives reads the bytes of the socket, in order. `none` is a socket that ends before the bytes
-- asked for: DISCONNECTED_CLIENT where no byte came. An int is its bit pattern, and a buffer the
-- list of its bytes.
pub mod RoundTrip
pub mod Responses
use so_distribuido.Base.{
  ℕ, zero, suc, Buffer, ◌+◌, ◌-◌, ◌^◌, List, [], ◌∷◌, Option, none, some, ◌&&◌, ◌==◌, ltb,
  if◌then◌else◌, length,
}
use so_distribuido.SharedLibrary.Stream.{
  Reader, return, ◌>>=◌, put8, put16, put32, get8, get16, get32, put_all, get_all,
}

abbrev pub handshake_oc : ℕ
handshake_oc = 1

abbrev pub init_process_oc : ℕ
init_process_oc = 2

abbrev pub assign_page_oc : ℕ
assign_page_oc = 3

abbrev pub delete_page_oc : ℕ
delete_page_oc = 4

abbrev pub read_oc : ℕ
read_oc = 5

abbrev pub write_oc : ℕ
write_oc = 6

abbrev pub end_process_oc : ℕ
end_process_oc = 7

-- A negative int.
abbrev pub negative : ℕ → ℕ
negative n = 2 ^ 32 - n

abbrev pub disconnected_server : ℕ
disconnected_server = negative 202

abbrev pub undefined_stack_size : ℕ
undefined_stack_size = negative 207

-- What a client sends, in front of the bytes of its later calls, and what it answers of the
-- bytes it receives.
pub record Call (A : Type 0) : Type 0 where
  pub request : List ℕ → List ℕ
  pub response : List ℕ → A

-- An int16_t as an int.
unfoldable pub int_of_int16 : ℕ → ℕ
int_of_int16 n = if ltb n (2 ^ 15) then n else 2 ^ 32 - 2 ^ 16 + n

-- The value received, or DISCONNECTED_SERVER.
unfoldable pub received : Reader ℕ → (ℕ → ℕ) → List ℕ → ℕ
received get f bytes = elim (get bytes) [ none ↦ disconnected_server | some (n, rest) ↦ f n ]

-- int16_t code
unfoldable pub recv_code : List ℕ → ℕ
recv_code = received get16 int_of_int16

-- A call with a request and an answer of two bytes.
abbrev coded : (List ℕ → List ℕ) → Call ℕ
coded request = record { request = request; response = recv_code }

-- handshake: a kernel without a stack size sends nothing, and the answer is
-- UNDEFINED_STACK_SIZE.
unfoldable pub handshake : ℕ → ℕ → Call ℕ
handshake kind stack_size =
    if kind == b'k'
    then if ltb 0 stack_size && ltb stack_size (2 ^ 31)
      then record {
        request = λ rest. put8 handshake_oc (put8 kind (put8 stack_size rest));
        response = received get32 (λ n. n);
      }
      else record { request = λ rest. rest; response = λ _. undefined_stack_size }
    else record {
      request = λ rest. put8 handshake_oc (put8 kind rest);
      response = received get32 (λ n. n);
    }

unfoldable pub memory_init_process : ℕ → ℕ → Call ℕ
memory_init_process pid pages = coded (λ rest. put8 init_process_oc (put32 pid (put32 pages rest)))

unfoldable pub memory_write : ℕ → ℕ → ℕ → ℕ → List ℕ → Call ℕ
memory_write pid page offset size buffer = coded (λ rest. put8 write_oc (
    put32 pid
      (put32 page (put32 offset (put32 size (put32 (length buffer) (put_all put8 buffer rest)))))))

-- t_read_response
pub record ReadResponse : Type 0 where
  pub exec_code : ℕ
  pub buffer : List ℕ

abbrev pub lost_server : ReadResponse
lost_server = record { exec_code = disconnected_server; buffer = [] }

unfoldable pub get_read_response : Reader ReadResponse
get_read_response = do
  code ← get16
  buffer_size ← get32
  buffer ← get_all get8 buffer_size
  return (record { exec_code = int_of_int16 code; buffer = buffer })

unfoldable pub response_of : Option (ReadResponse × List ℕ) → ReadResponse
response_of none = lost_server
response_of (some (r, rest)) = r

unfoldable pub memory_read : ℕ → ℕ → ℕ → ℕ → Call ReadResponse
memory_read pid page offset size = record {
  request = λ rest. put8 read_oc (put32 pid (put32 page (put32 offset (put32 size rest))));
  response = λ bytes. response_of (get_read_response bytes);
}

unfoldable pub memory_assign_pages : ℕ → ℕ → Call ℕ
memory_assign_pages pid pages = coded (λ rest. put8 assign_page_oc (put32 pid (put32 pages rest)))

unfoldable pub memory_delete_page : ℕ → ℕ → Call ℕ
memory_delete_page pid page = coded (λ rest. put8 delete_page_oc (put32 pid (put32 page rest)))

-- memory_finalize_process reads its code as a uint16_t.
unfoldable pub memory_finalize_process : ℕ → Call ℕ
memory_finalize_process pid = record {
  request = λ rest. put8 end_process_oc (put32 pid rest);
  response = received get16 (λ n. n);
}

-- The requests as the memory receives them.
pub data Message : Type 0 where
  a_handshake : (kind : ℕ) → (stack_size : ℕ) → Message
  an_init : (pid : ℕ) → (pages : ℕ) → Message
  an_assign : (pid : ℕ) → (pages : ℕ) → Message
  a_delete : (pid : ℕ) → (page : ℕ) → Message
  a_read : (pid : ℕ) → (page : ℕ) → (offset : ℕ) → (size : ℕ) → Message
  a_write : (pid : ℕ) → (page : ℕ) → (offset : ℕ) → (size : ℕ) → (buffer : List ℕ) → Message
  an_end : (pid : ℕ) → Message

-- The bytes of a buffer that was received. Reading past them has no defined result: who uses the
-- buffer tests its length.
unfoldable pub buffer_of : List ℕ → Buffer
buffer_of [] i = 0
buffer_of (x ∷ xs) zero = x
buffer_of (x ∷ xs) (suc i) = buffer_of xs i

unfoldable pub recv_operation_code : Reader ℕ
recv_operation_code = get8

unfoldable pub handshake_recv_req : Reader Message
handshake_recv_req = do
  kind ← get8
  stack_size ← (if kind == b'k' then get8 else return 0)
  return (a_handshake kind stack_size)

unfoldable pub init_process_recv_req : Reader Message
init_process_recv_req = do pid ← get32; pages ← get32; return (an_init pid pages)

unfoldable pub assign_pages_recv_req : Reader Message
assign_pages_recv_req = do pid ← get32; pages ← get32; return (an_assign pid pages)

-- recv answers 0 when it is asked for no bytes, which is taken for a disconnection: the request
-- with an empty buffer is not one.
unfoldable pub recv_buffer : ℕ → (List ℕ → Message) → Reader (Option Message)
recv_buffer zero f = return none
recv_buffer (suc n) f = do buffer ← get_all get8 (suc n); return (some (f buffer))

unfoldable pub write_recv_req : Reader (Option Message)
write_recv_req = do
  pid ← get32
  page ← get32
  offset ← get32
  size ← get32
  buffer_size ← get32
  recv_buffer buffer_size (λ buffer. a_write pid page offset size buffer)

unfoldable pub read_recv_req : Reader Message
read_recv_req = do
  pid ← get32
  page ← get32
  offset ← get32
  size ← get32
  return (a_read pid page offset size)

unfoldable pub delete_page_recv_req : Reader Message
delete_page_recv_req = do pid ← get32; page ← get32; return (a_delete pid page)

unfoldable pub finalize_process_recv_req : Reader Message
finalize_process_recv_req = do pid ← get32; return (an_end pid)

-- The answers of the server.
unfoldable pub handshake_resp : ℕ → List ℕ → List ℕ
handshake_resp = put32

unfoldable pub init_process_send_resp : ℕ → List ℕ → List ℕ
init_process_send_resp = put16

unfoldable pub write_send_resp : ℕ → List ℕ → List ℕ
write_send_resp = put16

unfoldable pub read_send_resp : ℕ → List ℕ → List ℕ → List ℕ
read_send_resp code buffer rest = put16 code (put32 (length buffer) (put_all put8 buffer rest))

unfoldable pub assign_pages_send_resp : ℕ → List ℕ → List ℕ
assign_pages_send_resp = put16

unfoldable pub delete_page_send_resp : ℕ → List ℕ → List ℕ
delete_page_send_resp = put16

unfoldable pub finalize_process_send_resp : ℕ → List ℕ → List ℕ
finalize_process_send_resp = put16
