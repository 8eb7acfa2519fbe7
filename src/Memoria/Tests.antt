-- ===== src/Memoria/Tests.antt =====
-- Concrete runs of the memory process: ten frames of 256 bytes, four entries of cache.
mod Connection
mod Server
mod Frames
mod Cache
use so_distribuido.Base.{
  ℕ, ◌+◌, ◌-◌, ◌≤◌, ◌<◌, ◌≡◌, ◌≢◌, refl, List, [], ◌∷◌, none, some, Option, Bool, true, false,
  arith, Buffer, inl, inr, length, ◌^◌,
}
use so_distribuido.Memoria.Types.{
  Conf, Reg, Entry, blank, code, Text, minus_one, is_negative, word, success,
}
use so_distribuido.Memoria.Hash.{hashing, print_int, atoi, digits, read_digits}
use so_distribuido.Memoria.Frames.{
  load, load_frame, load_frames, empty_frames, first_free_frame, get_frame, page_is_right,
  searching_on_overflow, search_frames, assign_pages_to_process, assign_loop, assign_one,
  inicialize_page, locate_process, find_pages, bump_pages, count_of, rounds, frame_is_available,
  get_available_frame, add_to_overflow,
}
use so_distribuido.Memoria.Frames.Invariant.{IsValid}
use so_distribuido.Memoria.Frames.Load.{load-IsValid}
use so_distribuido.Memoria.Server.{Memory, load_memory, assign_pages, answer}
use so_distribuido.Memoria.Cache.Locks.{Caches}
use so_distribuido.Memoria.Server.Invariant.{IsProper, IsConsistent, IsCoherent}
use so_distribuido.Memoria.Server.Start.{load_memory-IsConsistent}
use so_distribuido.Memoria.Server.Serve.{assign_pages-IsConsistent}
use so_distribuido.Memoria.Cache.{load_cache, load_entries}

abbrev pub small_conf : Conf
small_conf = record {
  frames = 10;
  frame_size = 256;
  cache_entries = 4;
  cache_x_process = 2;
  long_max = 2 ^ 63 - 1;
}

abbrev pub any_regs : ℕ → Reg
any_regs i = record { pid = 77; page = i; segment = blank }

abbrev pub any_entries : ℕ → Entry
any_entries i = record { pid = 5; page = 5; content = λ x. 90; last_used = [] }

abbrev pub any_bytes : Buffer
any_bytes i = 46

abbrev pub fresh : Memory
fresh = load_memory small_conf any_regs any_entries any_bytes

-- Process 1 has three pages of code: page 0 in frame 1, page 1 in frame 2 and page 2 in frame 3.
abbrev pub running : Memory
running = (assign_pages 1 3 true fresh).1

pub IsProper-1 : IsProper 1
IsProper-1 = ground arith

pub fresh-IsConsistent : IsConsistent fresh × IsCoherent fresh
fresh-IsConsistent =
    load_memory-IsConsistent small_conf any_regs any_entries any_bytes (omega arith) (omega arith)
      (omega arith) (omega arith)

fresh_fits : count_of 1 fresh.tables.pages_per_process + rounds 3 < word
unfolding load_memory assign_pages load load_frame load_frames empty_frames first_free_frame
    get_frame page_is_right searching_on_overflow search_frames assign_pages_to_process assign_loop
    assign_one inicialize_page locate_process find_pages bump_pages count_of rounds
    frame_is_available get_available_frame add_to_overflow hashing print_int atoi digits read_digits
fresh_fits = omega arith

pub running-IsConsistent : IsConsistent running × (IsCoherent fresh → IsCoherent running)
running-IsConsistent =
    assign_pages-IsConsistent fresh fresh-IsConsistent.0 1 IsProper-1 3 true fresh_fits

pub running-IsCoherent : IsCoherent running
running-IsCoherent = running-IsConsistent.1 fresh-IsConsistent.1

pub page_1 : get_frame 1 1 running.tables ≡ some 2
unfolding load_memory assign_pages load load_frame load_frames empty_frames first_free_frame
    get_frame page_is_right searching_on_overflow search_frames assign_pages_to_process assign_loop
    assign_one inicialize_page locate_process find_pages bump_pages count_of rounds
    frame_is_available get_available_frame add_to_overflow hashing print_int atoi digits read_digits
page_1 = refl

pub page_7 : get_frame 1 7 running.tables ≡ none
unfolding load_memory assign_pages load load_frame load_frames empty_frames first_free_frame
    get_frame page_is_right searching_on_overflow search_frames assign_pages_to_process assign_loop
    assign_one inicialize_page locate_process find_pages bump_pages count_of rounds
    frame_is_available get_available_frame add_to_overflow hashing print_int atoi digits read_digits
page_7 = refl

pub reg_2 : running.tables.table 2 ≡ record { pid = 1; page = 1; segment = code }
unfolding load_memory assign_pages load load_frame load_frames empty_frames first_free_frame
    get_frame page_is_right searching_on_overflow search_frames assign_pages_to_process assign_loop
    assign_one inicialize_page locate_process find_pages bump_pages count_of rounds
    frame_is_available get_available_frame add_to_overflow hashing print_int atoi digits read_digits
reg_2 = refl

pub conf_of : (running.tables.conf ≡ small_conf) × (running.cache.conf ≡ small_conf)
unfolding load_memory assign_pages load load_frame load_frames empty_frames first_free_frame
    get_frame page_is_right searching_on_overflow search_frames assign_pages_to_process assign_loop
    assign_one inicialize_page locate_process find_pages bump_pages count_of rounds
    frame_is_available get_available_frame add_to_overflow hashing print_int atoi digits read_digits
    load_cache load_entries
conf_of = (refl, refl)

pub client_0 : running.kernel_client ≡ 0
unfolding load_memory assign_pages load load_frame load_frames empty_frames first_free_frame
    get_frame page_is_right searching_on_overflow search_frames assign_pages_to_process assign_loop
    assign_one inicialize_page locate_process find_pages bump_pages count_of rounds
    frame_is_available get_available_frame add_to_overflow hashing print_int atoi digits read_digits
client_0 = refl

pub empty_slots : (x : ℕ) → x < 4 → (running.cache.slots x).pid ≡ minus_one
unfolding load_memory assign_pages load load_frame load_frames empty_frames first_free_frame
    get_frame page_is_right searching_on_overflow search_frames assign_pages_to_process assign_loop
    assign_one inicialize_page locate_process find_pages bump_pages count_of rounds
    frame_is_available get_available_frame add_to_overflow hashing print_int atoi digits read_digits
    load_cache load_entries
empty_slots x b = ground arith

pub nothing_cached : (x : ℕ) → x < running.cache.cache_entries → ¬ Caches running.cache 1 1 x
nothing_cached x = rw conf_of.1 (λ b k. ground (arith, empty_slots x))

pub page_30 :
    (get_frame 3 0 running.tables ≡ none)
    × (running.tables.overflow (hashing running.tables.conf 3 0) ≡ 1 ∷ [])
unfolding load_memory assign_pages load load_frame load_frames empty_frames first_free_frame
    get_frame page_is_right searching_on_overflow search_frames assign_pages_to_process assign_loop
    assign_one inicialize_page locate_process find_pages bump_pages count_of rounds
    frame_is_available get_available_frame add_to_overflow hashing print_int atoi digits read_digits
page_30 = (refl, refl)

pub page_37 :
    (get_frame 3 7 running.tables ≡ none)
    × (running.tables.overflow (hashing running.tables.conf 3 7) ≡ [])
unfolding load_memory assign_pages load load_frame load_frames empty_frames first_free_frame
    get_frame page_is_right searching_on_overflow search_frames assign_pages_to_process assign_loop
    assign_one inicialize_page locate_process find_pages bump_pages count_of rounds
    frame_is_available get_available_frame add_to_overflow hashing print_int atoi digits read_digits
page_37 = (refl, refl)

pub room_1 :
    (count_of 2 running.tables.pages_per_process + rounds 2 < word)
    × (rounds 2 ≤ length running.tables.available)
unfolding load_memory assign_pages load load_frame load_frames empty_frames first_free_frame
    get_frame page_is_right searching_on_overflow search_frames assign_pages_to_process assign_loop
    assign_one inicialize_page locate_process find_pages bump_pages count_of rounds
    frame_is_available get_available_frame add_to_overflow hashing print_int atoi digits read_digits
    length
room_1 = (omega arith, omega arith)

pub room_2 :
    (length running.tables.available ≡ 6) × (count_of 1 running.tables.pages_per_process ≡ 3)
unfolding load_memory assign_pages load load_frame load_frames empty_frames first_free_frame
    get_frame page_is_right searching_on_overflow search_frames assign_pages_to_process assign_loop
    assign_one inicialize_page locate_process find_pages bump_pages count_of rounds
    frame_is_available get_available_frame add_to_overflow hashing print_int atoi digits read_digits
    length
room_2 = (refl, refl)

-- Process 1 gets one more page, page 3, in frame 4.
abbrev pub grown : Memory
grown = (assign_pages 1 1 false running).1

pub grown_page :
    ((assign_pages 1 1 false running).0 ≡ answer success)
    × (get_frame 1 3 grown.tables ≡ some 4)
    × (grown.tables.frame_size ≡ 256)
unfolding load_memory assign_pages load load_frame load_frames empty_frames first_free_frame
    get_frame page_is_right searching_on_overflow search_frames assign_pages_to_process assign_loop
    assign_one inicialize_page locate_process find_pages bump_pages count_of rounds
    frame_is_available get_available_frame add_to_overflow hashing print_int atoi digits read_digits
grown_page = (refl, refl, refl)

grown_fits : count_of 1 running.tables.pages_per_process + rounds 1 < word
unfolding rounds
grown_fits = let e = room_2.1 in omega (arith, e)

pub grown-IsConsistent : IsConsistent grown
grown-IsConsistent =
    (assign_pages-IsConsistent running running-IsConsistent.0 1 IsProper-1 1 false grown_fits).0
