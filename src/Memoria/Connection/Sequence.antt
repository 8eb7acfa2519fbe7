-- ===== src/Memoria/Connection/Sequence.antt =====
-- A connection serves the requests that its client sends, one after the other.
use so_distribuido.Base.{ℕ, suc, ◌≡◌, refl, ◌∙◌, ap, fun_ext, List, [], ◌∷◌, some, inl, inr, length}
use so_distribuido.SharedLibrary.Stream.{put_all, All, all_none, all_next, get8, put8}
use so_distribuido.SharedLibrary.MemoryProt.{
  Message, a_handshake, an_init, an_assign, a_delete, a_read, a_write, an_end, memory_init_process,
  memory_write, memory_read, memory_assign_pages, memory_delete_page, memory_finalize_process,
  recv_operation_code,
}
use so_distribuido.SharedLibrary.MemoryProt.RoundTrip.{
  send, Fits, handshake-kernel, handshake_other, kernel_back, other_back, init_back, read_back,
  delete_back, write_back, finalize_back,
}
use so_distribuido.Memoria.Types.{Text}
use so_distribuido.Memoria.Server.{Memory}
use so_distribuido.Memoria.Connection.{
  a_request, got, got_handshake, got_write, recv_request, recv_round, after_code, Run, serve_rest,
  serve_round, serve_connection, to_assign, assigned, serve_message, later,
}

-- The requests served one after the other.
unfoldable pub serve_all : ℕ → (ℕ → Text) → List Message → Memory → Run
serve_all client clock [] m = some ([], m)
serve_all client clock (q ∷ qs) m =
    serve_rest (serve_all client (later clock) qs) (serve_message client (clock 0) q m)

pub recv_round-send :
    (q : Message) (rest : List ℕ) → Fits q → recv_round (send q rest) ≡ a_request q rest
unfolding recv_round after_code recv_operation_code get8 recv_request send Fits memory_init_process
    memory_write memory_read memory_assign_pages memory_delete_page memory_finalize_process got
    got_handshake got_write assigned to_assign put8
recv_round-send (a_handshake kind stack) rest (inl (k, pos, small)) =
    rw (k, handshake-kernel stack rest pos small) (ap got_handshake (kernel_back stack rest small))
recv_round-send (a_handshake kind stack) rest (inr (k, byte, z)) =
    rw (z, handshake_other kind rest k) (ap got_handshake (other_back kind rest k byte))
recv_round-send (an_init pid pages) rest (a, b) = ap got (init_back pid pages rest a b)
recv_round-send (an_assign pid pages) rest (a, b) =
    ap (λ r. assigned (got r)) (init_back pid pages rest a b)
recv_round-send (a_delete pid page) rest (a, b) = ap got (delete_back pid page rest a b)
recv_round-send (a_read pid page offset size) rest (a, b, c, d) =
    ap got (read_back pid page offset size rest a b c d)
recv_round-send (a_write pid page offset size buffer) rest f =
    ap got_write (write_back pid page offset size buffer rest f)
recv_round-send (an_end pid) rest f = ap got (finalize_back pid rest f)

-- A connection that gets the bytes of the requests of a client, one after the other, whose
-- numbers fit their fields and whose written buffers have bytes, serves those requests in
-- that order, with nothing lost or joined, and stops at the end of the bytes: the answers
-- and the last state are those of the handlers on the requests.
pub serve_connection-send :
    (client : ℕ) (clock : ℕ → Text) (qs : List Message) (m : Memory)
    → All Fits qs
    → serve_connection (suc (length qs)) client clock (put_all send qs []) m
      ≡ serve_all client clock qs m
unfolding serve_connection serve_round serve_all put_all recv_round after_code recv_operation_code
    get8
serve_connection-send client clock [] m all_none = refl
serve_connection-send client clock (q ∷ qs) m (all_next _ _ f fs) =
    ap
      (λ r.
        serve_round (serve_connection (suc (length qs)) client (later clock)) client (clock 0) r m)
      (recv_round-send q (put_all send qs []) f)
    ∙ ap (λ next. serve_rest next (serve_message client (clock 0) q m))
        (fun_ext (λ m'. serve_connection-send client (later clock) qs m' fs))
