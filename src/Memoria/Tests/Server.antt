-- ===== src/Memoria/Tests/Server.antt =====
-- The theorems of Server on a running process.
use so_distribuido.Base.{
  ℕ, ◌+◌, ◌*◌, ◌^◌, ◌≤◌, ◌<◌, ◌≡◌, ◌≢◌, ◌⊎◌, refl, [], some, false, arith, Buffer, inl, inr,
}
use so_distribuido.Memoria.Types.{Code, success}
use so_distribuido.Memoria.Frames.Invariant.{get_frame-sound, get_frame-finds}
use so_distribuido.Memoria.Cache.Locks.{Caches}
use so_distribuido.Memoria.Server.{
  Memory, WriteRequest, ReadRequest, address, answer, bytes_read, no_bytes, write_page, read_page,
  is_out_of_frame,
}
use so_distribuido.Memoria.Server.Invariant.{IsConsistent, IsCoherent}
use so_distribuido.Memoria.Server.Write.{IsGranted, write_page-denied}
use so_distribuido.Memoria.Server.Keep.{Stored, write_page-Stored, write_page-IsCoherent}
use so_distribuido.Memoria.Server.Read.{IsReadable}
use so_distribuido.Memoria.Server.Answer.{read_page-bytes, read_page-denied}
use so_distribuido.Memoria.Server.RoundTrip.{reading, write_page-read_page, write_page-stale}
use so_distribuido.Memoria.Tests.{
  running, IsProper-1, running-IsConsistent, running-IsCoherent, page_1, page_7, conf_of, client_0,
  nothing_cached,
}

abbrev abc : WriteRequest
abc = record { pid = 1; page = 1; offset = 4; size = 3; buffer = λ i. b'a' + i }

running_room : running.tables.frames * running.tables.frame_size < 2 ^ 32
running_room = rw (conf_of.0) (omega arith)

abc_within : is_out_of_frame running.tables.frame_size abc.offset abc.size ≡ false
unfolding is_out_of_frame
abc_within = rw (conf_of.0) refl

abc-IsGranted : IsGranted abc 0 running 2
abc-IsGranted = record { within = abc_within; found = page_1; allowed = inl client_0 }

abbrev whole : WriteRequest
whole = record { pid = 1; page = 1; offset = 0; size = 256; buffer = λ i. i }

whole_within : is_out_of_frame running.tables.frame_size whole.offset whole.size ≡ false
unfolding is_out_of_frame
whole_within = rw (conf_of.0) refl

whole-IsGranted : IsGranted whole 0 running 2
whole-IsGranted = record { within = whole_within; found = page_1; allowed = inl client_0 }

write_page-read_page_example :
    (m' m'' : Memory) × (b : Buffer) × (write_page abc 0 [] running ≡ some (answer success, m'))
    × (read_page (reading abc) [] m' ≡ some (bytes_read success 3 b, m''))
    × ((i : ℕ) → i < 3 → b i ≡ b'a' + i)
write_page-read_page_example =
    write_page-read_page abc 0 [] [] running 2 (omega arith) running-IsConsistent.0 IsProper-1
      abc-IsGranted

read_page-bytes_example :
    (m' : Memory) × (b : Buffer) × (read_page (reading abc) [] running
      ≡ some (bytes_read success 3 b, m'))
    × ((i : ℕ) → i < 3 → b i ≡ running.bytes (address running.tables.conf 2 (4 + i)))
    × IsConsistent m'
    × IsCoherent m'
    × (m'.tables ≡ running.tables)
    × (m'.bytes ≡ running.bytes)
read_page-bytes_example =
    read_page-bytes (reading abc) [] running 2 running-IsConsistent.0 running-IsCoherent IsProper-1
      (omega arith)
      (record {
        within = abc_within;
        holds = get_frame-sound running.tables 1 1 2 running-IsConsistent.0.valid page_1;
      })

write_page-Stored_example :
    (m' : Memory) × (write_page abc 0 [] running ≡ some (answer success, m'))
    × IsConsistent m'
    × Stored abc running m' 2
write_page-Stored_example =
    write_page-Stored abc 0 [] running 2 running-IsConsistent.0 IsProper-1 (omega arith)
      abc-IsGranted running_room

write_page-IsCoherent_example :
    (m' : Memory) × (write_page whole 0 [] running ≡ some (answer success, m'))
    × IsConsistent m'
    × IsCoherent m'
    × Stored whole running m' 2
write_page-IsCoherent_example =
    write_page-IsCoherent whole 0 [] running 2 running-IsConsistent.0 running-IsCoherent IsProper-1
      (omega arith) whole-IsGranted running_room (inr (refl, rw (conf_of.0) refl))

abbrev far : WriteRequest
far = record { pid = 1; page = 7; offset = 4; size = 3; buffer = λ i. b'a' + i }

far-denied : (f : ℕ) → ¬ IsGranted far 8 running f
far-denied f g = ground (arith, page_7, g.found)

write_page-denied_example :
    (c : Code) × (c ≢ success) × (write_page far 8 [] running ≡ some (answer c, running))
write_page-denied_example = write_page-denied far 8 [] running far-denied

far-unreadable : (f : ℕ) → ¬ IsReadable (reading far) running f
far-unreadable f g =
    let found =
      get_frame-finds running.tables 1 7 f running-IsConsistent.0.valid IsProper-1.0 (omega arith)
        g.holds in
    ground (arith, page_7, found)

read_page-denied_example :
    (c : Code) × (m' : Memory) × (c ≢ success)
    × (read_page (reading far) [] running ≡ some (bytes_read c 0 no_bytes, m'))
    × IsConsistent m'
    × (m'.tables ≡ running.tables)
    × (m'.bytes ≡ running.bytes)
    × (m'.cache.slots ≡ running.cache.slots)
read_page-denied_example =
    read_page-denied (reading far) [] running running-IsConsistent.0 IsProper-1 far-unreadable

abbrev end : ReadRequest
end = record { pid = 1; page = 1; offset = 100; size = 5 }

end_within : is_out_of_frame running.tables.frame_size end.offset end.size ≡ false
unfolding is_out_of_frame
end_within = rw (conf_of.0) refl

write_page-stale_example :
    (m' m'' : Memory) × (e : ℕ) × (b : Buffer) × (write_page abc 0 [] running
      ≡ some (answer success, m'))
    × (read_page end [] m' ≡ some (bytes_read success 5 b, m''))
    × ¬ Caches running.cache 1 1 e
    × ((i : ℕ)
        → i < 5
        → (100 + i < 4) ⊎ (7 ≤ 100 + i)
        → b i ≡ (running.cache.slots e).content (100 + i))
write_page-stale_example =
    write_page-stale abc 0 [] [] running 2 end refl refl (omega arith) end_within
      running-IsConsistent.0 IsProper-1 abc-IsGranted nothing_cached
