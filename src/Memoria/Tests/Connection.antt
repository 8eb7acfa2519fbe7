-- ===== src/Memoria/Tests/Connection.antt =====
-- The theorems of Connection on a running process.
use so_distribuido.Base.{ℕ, ◌≡◌, List, [], ◌∷◌, arith}
use so_distribuido.SharedLibrary.Stream.{All, all_none, all_next, put_all}
use so_distribuido.SharedLibrary.MemoryProt.{Message, a_write, an_end, memory_write}
use so_distribuido.SharedLibrary.MemoryProt.RoundTrip.{send, Fits}
use so_distribuido.Memoria.Types.{Text}
use so_distribuido.Memoria.Connection.{serve_connection, later}
use so_distribuido.Memoria.Connection.Sequence.{serve_all, serve_connection-send}
use so_distribuido.Memoria.Connection.Answers.{serve_connection-empty}
use so_distribuido.Memoria.Tests.{running}

abbrev times : ℕ → Text
times i = i ∷ []

abbrev two_requests : List Message
two_requests = a_write 1 1 4 2 (8 ∷ 9 ∷ []) ∷ an_end 1 ∷ []

two_requests-Fits : All Fits two_requests
unfolding Fits
two_requests-Fits =
    all_next _ _
      (
        omega arith,
        omega arith,
        omega arith,
        omega arith,
        (
          omega arith,
          omega arith,
          all_next _ _ (omega arith) (all_next _ _ (omega arith) all_none),
        ),
      )
      (all_next _ _ (omega arith) all_none)

serve_connection-send_example :
    serve_connection 3 0 times (put_all send two_requests []) running
    ≡ serve_all 0 times two_requests running
serve_connection-send_example = serve_connection-send 0 times two_requests running two_requests-Fits

serve_connection-empty_example :
    serve_connection 3 0 times ((memory_write 1 1 4 0 []).request (7 ∷ 1 ∷ 0 ∷ 0 ∷ 0 ∷ [])) running
    ≡ serve_connection 2 0 (later times) (7 ∷ 1 ∷ 0 ∷ 0 ∷ 0 ∷ []) running
serve_connection-empty_example =
    serve_connection-empty 2 0 times 1 1 4 0 (7 ∷ 1 ∷ 0 ∷ 0 ∷ 0 ∷ []) running (omega arith)
      (omega arith) (omega arith) (omega arith)
