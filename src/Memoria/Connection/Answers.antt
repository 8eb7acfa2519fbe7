-- ===== src/Memoria/Connection/Answers.antt =====
-- What the clients of a connection get.
use so_distribuido.Base.{ℕ, suc, ◌≡◌, ◌∙◌, ap, List, [], ◌∷◌, none, some, false, length, arith}
use so_distribuido.SharedLibrary.Stream.{put_all, put32, put8, get8, get32, get32-put32, bind_some}
use so_distribuido.SharedLibrary.MemoryProt.{
  Message, memory_write, recv_operation_code, write_recv_req, recv_buffer,
}
use so_distribuido.SharedLibrary.MemoryProt.RoundTrip.{IsWord, four_back}
use so_distribuido.Memoria.Types.{Text}
use so_distribuido.Memoria.Server.{Memory, Response, process_request}
use so_distribuido.Memoria.Server.Invariant.{IsConsistent}
use so_distribuido.Memoria.Server.Step.{IsAdmissible}
use so_distribuido.Memoria.Connection.{
  Run, got_write, handled, serve_round, recv_round, recv_request, after_code, serve_connection,
  reads_past, later,
}

-- Each request is admissible in the state in which it is served, and no write is of more bytes than
-- its buffer has.
pub data AllAdmissible (client : ℕ) : (ℕ → Text) → Memory → List Message → Type 0 where
  no_requests : (clock : ℕ → Text) (m : Memory) → AllAdmissible client clock m []
  one_more :
      (clock : ℕ → Text) (m : Memory) (q : Message) (qs : List Message)
      → IsAdmissible m (handled q)
      → reads_past q ≡ false
      → ((r : Response) (m' : Memory)
          → process_request client (clock 0) (handled q) m ≡ some (r, m')
          → AllAdmissible client (later clock) m' qs)
      → AllAdmissible client clock m (q ∷ qs)

-- The run has n answers and leaves a consistent state.
unfoldable pub IsAnswered : ℕ → Run → Type 0
IsAnswered n run =
    (rs : List Response) × (m : Memory) × (run ≡ some (rs, m)) × (length rs ≡ n) × IsConsistent m

empty_write :
    (pid page offset size : ℕ) (rest : List ℕ)
    → IsWord pid
    → IsWord page
    → IsWord offset
    → IsWord size
    → write_recv_req (put32 pid (put32 page (put32 offset (put32 size (put32 0 rest)))))
      ≡ some (none, rest)
unfolding write_recv_req recv_buffer
empty_write pid page offset size rest a b c d =
    four_back _ pid page offset size _ a b c d
    ∙ bind_some get32 _ _ 0 _ (get32-put32 0 rest (omega arith))

-- A request to write an empty buffer, whose numbers fit their fields, is dropped: it changes
-- nothing and has no answer, and the connection goes on with the next bytes.
pub serve_connection-empty :
    (fuel client : ℕ) (clock : ℕ → Text) (pid page offset size : ℕ) (rest : List ℕ) (m : Memory)
    → IsWord pid
    → IsWord page
    → IsWord offset
    → IsWord size
    → serve_connection
        (suc fuel)
        client
        clock
        ((memory_write pid page offset size []).request rest)
        m
      ≡ serve_connection fuel client (later clock) rest m
unfolding serve_connection memory_write put_all put8 recv_round after_code recv_operation_code get8
    recv_request serve_round got_write
serve_connection-empty fuel client clock pid page offset size rest m a b c d =
    ap
      (λ o.
        serve_round (serve_connection fuel client (later clock)) client (clock 0) (got_write o) m)
      (empty_write pid page offset size rest a b c d)
