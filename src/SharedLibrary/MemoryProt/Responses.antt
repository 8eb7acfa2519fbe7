-- ===== src/SharedLibrary/MemoryProt/Responses.antt =====
-- What the memory answers, the clients of memory_prot.c read.
use so_distribuido.Base.{
  ℕ, ◌+◌, ◌^◌, ◌<◌, ◌≤◌, ◌-◌, ◌*◌, ◌/◌, ◌%◌, ◌≡◌, ◌⊎◌, inl, inr, refl, ◌∙◌, ap, List, some, arith,
  length,
}
use so_distribuido.SharedLibrary.Stream.{
  Reader, bind_some, put16, get8, get16, get32, get_all, All, get32-put32,
}
use so_distribuido.SharedLibrary.MemoryProt.{
  response_of, memory_init_process, memory_write, memory_read, memory_assign_pages,
  memory_delete_page, memory_finalize_process, int_of_int16, recv_code, received,
  init_process_send_resp, negative, assign_pages_send_resp, delete_page_send_resp, write_send_resp,
  finalize_process_send_resp, get_read_response, read_send_resp,
}
use so_distribuido.SharedLibrary.MemoryProt.RoundTrip.{IsByte, IsWord, buffer_back}

-- A code between -2 ^ 15 and 2 ^ 15 - 1, as an int.
unfoldable pub IsCode : ℕ → Type 0
IsCode code = (code < 2 ^ 15) ⊎ ((negative (2 ^ 15) ≤ code) × (code < 2 ^ 32))

int_back : (code : ℕ) → IsCode code → int_of_int16 (code % 2 ^ 16) ≡ code
unfolding IsCode int_of_int16
int_back code (inl h) = let e : code % 2 ^ 16 ≡ code = omega arith in rw e (ground arith)
int_back code (inr (a, b)) =
    let e : code % 2 ^ 16 ≡ code - (2 ^ 32 - 2 ^ 16) = omega arith in rw e (ground arith)

get16-put16_mod : (n : ℕ) (rest : List ℕ) → get16 (put16 n rest) ≡ some (n % 2 ^ 16, rest)
unfolding get16 put16
get16-put16_mod n rest =
    let e : n % 2 ^ 8 + n / 2 ^ 8 % 2 ^ 8 * 2 ^ 8 ≡ n % 2 ^ 16 = omega arith in rw e refl

received-some :
    (get : Reader ℕ) (f : ℕ → ℕ) (bytes rest : List ℕ) (n : ℕ)
    → get bytes ≡ some (n, rest)
    → received get f bytes ≡ f n
unfolding received
received-some get f bytes rest n e = rw (e, received) refl

pub recv_code-put16 : (code : ℕ) (rest : List ℕ) → IsCode code → recv_code (put16 code rest) ≡ code
unfolding recv_code
recv_code-put16 code rest ok =
    received-some get16 int_of_int16 _ rest (code % 2 ^ 16) (get16-put16_mod code rest)
    ∙ int_back code ok

pub get_read_response-read_send_resp :
    (code : ℕ) (buffer rest : List ℕ)
    → IsCode code
    → IsWord (length buffer)
    → All IsByte buffer
    → get_read_response (read_send_resp code buffer rest)
      ≡ some (record { exec_code = code; buffer = buffer }, rest)
unfolding get_read_response read_send_resp
get_read_response-read_send_resp code buffer rest ok few bytes =
    bind_some get16 _ _ (code % 2 ^ 16) _ (get16-put16_mod code _)
    ∙ bind_some get32 _ _ (length buffer) _ (get32-put32 (length buffer) _ few)
    ∙ bind_some (get_all get8 (length buffer)) _ _ buffer rest (buffer_back buffer rest bytes)
    ∙ rw (int_back code ok) refl

-- A client reads the code that the memory sends, a number of 16 bits with its sign, for a
-- request to start a process, to assign or delete pages, or to write; with the bytes, which
-- fit in an int32_t, for a request to read; and without its sign for the end of a process.
pub response-send_resp :
    (pid page pages offset size code : ℕ) (buffer bytes rest : List ℕ)
    → IsCode code
    → IsWord (length bytes)
    → All IsByte bytes
    → ((memory_init_process pid pages).response (init_process_send_resp code rest) ≡ code)
      × ((memory_assign_pages pid pages).response (assign_pages_send_resp code rest) ≡ code)
      × ((memory_delete_page pid page).response (delete_page_send_resp code rest) ≡ code)
      × ((memory_write pid page offset size buffer).response (write_send_resp code rest) ≡ code)
      × ((memory_read pid page offset size).response (read_send_resp code bytes rest)
          ≡ record { exec_code = code; buffer = bytes })
      × ((memory_finalize_process pid).response (finalize_process_send_resp code rest)
          ≡ code % 2 ^ 16)
unfolding assign_pages_send_resp response_of memory_init_process memory_assign_pages
    memory_delete_page memory_write memory_read memory_finalize_process init_process_send_resp
    delete_page_send_resp write_send_resp finalize_process_send_resp
response-send_resp pid page pages offset size code buffer bytes rest ok few small =
    let same = recv_code-put16 code rest ok in
    (
      same,
      same,
      same,
      same,
      ap response_of (get_read_response-read_send_resp code bytes rest ok few small),
      received-some get16 (λ n. n) _ rest (code % 2 ^ 16) (get16-put16_mod code rest),
    )
