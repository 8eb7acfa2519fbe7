-- ===== src/SharedLibrary/Tests/Messages.antt =====
-- Messages between a client and the memory.
use so_distribuido.Base.{◌-◌, ◌^◌, ◌≡◌, inr, refl, [], ◌∷◌, arith}
use so_distribuido.SharedLibrary.Stream.{all_none, all_next, put8}
use so_distribuido.SharedLibrary.MemoryProt.{
  memory_init_process, memory_assign_pages, memory_delete_page, memory_write, memory_read,
  memory_finalize_process, init_process_send_resp, assign_pages_send_resp, delete_page_send_resp,
  write_send_resp, read_send_resp, finalize_process_send_resp, negative, handshake,
}
use so_distribuido.SharedLibrary.MemoryProt.Responses.{IsCode, response-send_resp}

page_fault-IsCode : IsCode (negative 205)
unfolding IsCode
page_fault-IsCode = inr (omega arith, omega arith)

response-send_resp_example :
    ((memory_init_process 1 2).response (init_process_send_resp (negative 205) []) ≡ negative 205)
    × ((memory_assign_pages 1 2).response (assign_pages_send_resp (negative 205) []) ≡ negative 205)
    × ((memory_delete_page 1 0).response (delete_page_send_resp (negative 205) []) ≡ negative 205)
    × ((memory_write 1 0 3 4 (9 ∷ [])).response (write_send_resp (negative 205) []) ≡ negative 205)
    × ((memory_read 1 0 3 4).response (read_send_resp (negative 205) (7 ∷ []) [])
        ≡ record { exec_code = negative 205; buffer = 7 ∷ [] })
    × ((memory_finalize_process 1).response (finalize_process_send_resp (negative 205) [])
        ≡ 2 ^ 16 - 205)
response-send_resp_example =
    response-send_resp 1 0 2 3 4 (negative 205) (9 ∷ []) (7 ∷ []) [] page_fault-IsCode (omega arith)
      (all_next 7 [] (omega arith) all_none)

-- A kernel with a stack of 256 pages sends 0.
handshake_256 : (handshake b'k' 256).request [] ≡ 1 ∷ b'k' ∷ 0 ∷ []
unfolding handshake put8
handshake_256 = refl
