-- ===== src/Memoria/Connection.antt =====
-- process_request of memoria.c over the bytes of a client: the memory process behind the messages
-- of memory_prot.c. `none` is a run with no defined result in C, or one that the fuel does not
-- reach the end of.
pub mod Sequence
pub mod Ends
pub mod Answers
use so_distribuido.Base.{
  ℕ, zero, suc, Buffer, List, [], ◌∷◌, Option, none, some, Bool, true, false, ◌&&◌, ◌==◌,
  if◌then◌else◌, ltb, length, ◌+◌,
}
use so_distribuido.SharedLibrary.MemoryProt.{
  handshake_oc, init_process_oc, assign_page_oc, delete_page_oc, read_oc, write_oc, end_process_oc,
  buffer_of, Message, a_handshake, an_init, an_assign, a_delete, a_read, a_write, an_end,
  recv_operation_code, handshake_recv_req, init_process_recv_req, write_recv_req, read_recv_req,
  delete_page_recv_req, finalize_process_recv_req,
}
use so_distribuido.Memoria.Types.{Text, success}
use so_distribuido.Memoria.Server.{
  Memory, Response, WriteRequest, ReadRequest, handshake, init_process, assign_page, delete, read,
  write, end_process, process_request, answer,
}
use so_distribuido.Memoria.Server as server

-- What a round of the loop receives, and the bytes after it.
pub data Received : Type 0 where
  disconnected : Received
  unserved : List ℕ → Received
  a_request : Message → List ℕ → Received
  undefined : Received

unfoldable pub got : Option (Message × List ℕ) → Received
got none = disconnected
got (some (q, rest)) = a_request q rest

-- mem_handshake does not look at exec_code.
unfoldable pub got_handshake : Option (Message × List ℕ) → Received
got_handshake none = undefined
got_handshake (some (q, rest)) = a_request q rest

unfoldable pub got_write : Option (Option Message × List ℕ) → Received
got_write none = disconnected
got_write (some (none, rest)) = unserved rest
got_write (some (some q, rest)) = a_request q rest

-- assign_page receives with init_process_recv_req.
unfoldable pub to_assign : Message → Message
to_assign (an_init pid pages) = an_assign pid pages
to_assign q = q

unfoldable pub assigned : Received → Received
assigned (a_request q rest) = a_request (to_assign q) rest
assigned r = r

-- The switch of process_request, up to the handlers' tests of exec_code.
unfoldable pub recv_request : ℕ → List ℕ → Received
recv_request ope_code bytes =
    if ope_code == handshake_oc
    then got_handshake (handshake_recv_req bytes)
    else if ope_code == init_process_oc
    then got (init_process_recv_req bytes)
    else if ope_code == read_oc
    then got (read_recv_req bytes)
    else if ope_code == write_oc
    then got_write (write_recv_req bytes)
    else if ope_code == assign_page_oc
    then assigned (got (init_process_recv_req bytes))
    else if ope_code == delete_page_oc
    then got (delete_page_recv_req bytes)
    else if ope_code == end_process_oc
    then got (finalize_process_recv_req bytes)
    else unserved bytes

unfoldable pub after_code : Option (ℕ × List ℕ) → Received
after_code none = disconnected
after_code (some (ope_code, bytes)) = recv_request ope_code bytes

unfoldable pub recv_round : List ℕ → Received
recv_round bytes = after_code (recv_operation_code bytes)

-- The handler's request.
unfoldable pub handled : Message → server.Request
handled (a_handshake kind stack_size) = handshake kind stack_size
handled (an_init pid pages) = init_process pid pages
handled (an_assign pid pages) = assign_page pid pages
handled (a_delete pid page) = delete pid page
handled (a_read pid page offset size) =
    read (record { pid = pid; page = page; offset = offset; size = size })
handled (a_write pid page offset size buffer) =
    write
      (record { pid = pid; page = page; offset = offset; size = size; buffer = buffer_of buffer })
handled (an_end pid) = end_process pid

-- The answers of the rounds, in order, and the last state.
abbrev pub Run : Type 0
Run = Option (List Response × Memory)

unfoldable pub answered : Response → Run → Run
answered r none = none
answered r (some (rs, m)) = some (r ∷ rs, m)

-- A write of more bytes than the buffer that was received.
unfoldable pub reads_past : Message → Bool
reads_past (a_write pid page offset size buffer) = ltb (length buffer) size
reads_past q = false

unfoldable pub is_success : Response → Bool
is_success (answer success) = true
is_success r = false

-- A granted write that reads past its buffer has no defined result in C.
unfoldable pub within_buffer : Message → Option (Response × Memory) → Option (Response × Memory)
within_buffer q none = none
within_buffer q (some (r, m)) = if reads_past q && is_success r then none else some (r, m)

-- The request of a message, served at a time.
unfoldable pub serve_message : ℕ → Text → Message → Memory → Option (Response × Memory)
serve_message client now q m = within_buffer q (process_request client now (handled q) m)

-- The times at which the later rounds ask for it.
abbrev pub later : (ℕ → Text) → ℕ → Text
later clock i = clock (i + 1)

-- A served request, and what the rest of the loop answers from the state after it.
unfoldable pub serve_rest : (Memory → Run) → Option (Response × Memory) → Run
serve_rest next none = none
serve_rest next (some (r, m)) = answered r (next m)

unfoldable pub serve_round : (List ℕ → Memory → Run) → ℕ → Text → Received → Memory → Run
serve_round next client now disconnected m = some ([], m)
serve_round next client now undefined m = none
serve_round next client now (unserved rest) m = next rest m
serve_round next client now (a_request q rest) m =
    serve_rest (next rest) (serve_message client now q m)

-- The loop of process_request; `clock` has the time that each round asks for.
unfoldable pub serve_connection : ℕ → ℕ → (ℕ → Text) → List ℕ → Memory → Run
serve_connection zero client clock bytes m = none
serve_connection (suc fuel) client clock bytes m =
    serve_round (serve_connection fuel client (later clock)) client (clock 0) (recv_round bytes) m
