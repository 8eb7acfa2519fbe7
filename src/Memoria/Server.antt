-- ===== src/Memoria/Server.antt =====
-- The requests that memoria.c serves. One request is one step here; the mutex and the locks of the
-- frames, which each handler takes and gives back in pairs, are left out. A result `none` is a
-- call with no defined result in C.
pub mod Invariant
pub mod Start
pub mod Kept
pub mod Forget
pub mod ForgetPage
pub mod Serve
pub mod Step
pub mod Given
pub mod Write
pub mod Keep
pub mod Read
pub mod Answer
pub mod RoundTrip
use so_distribuido.Base.{
  ℕ, zero, suc, ◌+◌, ◌-◌, ◌*◌, ◌%◌, ◌^◌, List, [], ◌∷◌, Option, none, some, Bool, true, false, ◌&&◌,
  ◌||◌, not, ◌==◌, ltb, leb, if◌then◌else◌, update, Buffer, shift, memcpy,
}
use so_distribuido.Memoria.Types.{
  Conf, Reg, Frames, Segment, code, Cache, Entry, ProcessEntries, Text, Code, success, out_of_frame,
  page_fault, segmentation_fault, word, minus_one,
}
use so_distribuido.Memoria.Frames.{
  load, get_frame, assign_pages_to_process, delete_page_process, clean_tables,
}
use so_distribuido.Memoria.Cache.{
  load_cache, get_cache_entry, assign_cache_entry, update_cache, entry_to_write, lock, unlock,
}

-- The globals of the process.
pub record Memory : Type 0 where
  pub tables : Frames
  pub bytes : Buffer
  pub cache : Cache
  pub kernel_client : ℕ

-- t_write_request
pub record WriteRequest : Type 0 where
  pub pid : ℕ
  pub page : ℕ
  pub offset : ℕ
  pub size : ℕ
  pub buffer : Buffer

-- t_read_request
pub record ReadRequest : Type 0 where
  pub pid : ℕ
  pub page : ℕ
  pub offset : ℕ
  pub size : ℕ

-- What a client gets: the page size, a code, or a code with bytes.
pub data Response : Type 0 where
  frame_size_is : ℕ → Response
  answer : Code → Response
  bytes_read : Code → ℕ → Buffer → Response

-- The process after load.
unfoldable pub load_memory : Conf → (ℕ → Reg) → (ℕ → Entry) → Buffer → Memory
load_memory conf regs entries bytes = record {
  tables = load conf regs;
  bytes = bytes;
  cache = load_cache conf entries;
  kernel_client = 0;
}

-- NULL
abbrev pub no_bytes : Buffer
no_bytes _ = 0

-- The address of a byte of a frame: the product of two uint32_t wraps, and the offset is added to the
-- pointer.
abbrev pub address : Conf → ℕ → ℕ → ℕ
address conf frame offset = frame * conf.frame_size % word + offset

-- The test of read_page and write_page; the sum of two uint32_t wraps.
unfoldable pub is_out_of_frame : ℕ → ℕ → ℕ → Bool
is_out_of_frame frame_size offset size =
    leb frame_size offset || ltb frame_size ((offset + size) % word)

unfoldable pub is_code : Segment → Bool
is_code code = true
is_code _ = false

unfoldable pub writing_memory : WriteRequest → ℕ → Memory → Code × Memory
writing_memory w client m = elim (get_frame w.pid w.page m.tables) [
  | none ↦ (page_fault, m)
  | some f ↦
      if not (m.kernel_client == client) && is_code (m.tables.table f).segment
      then (segmentation_fault, m)
      else (
        success,
        record m { bytes = memcpy m.bytes (address m.tables.conf f w.offset) w.buffer w.size },
      )
]

unfoldable pub writing_cache : WriteRequest → Text → Cache → Option Cache
writing_cache w now c =
    let (entry, c') = entry_to_write w.pid w.page c in
    elim entry [
      | none ↦ none
      | some e ↦ some (update_cache e w.pid w.page w.offset w.size w.buffer now c')
    ]

-- The rest of write_page, after writing_memory.
unfoldable pub finish_write : WriteRequest → Text → Code × Memory → Option (Response × Memory)
finish_write w now (success, m) = elim (writing_cache w now m.cache) [
  | none ↦ none
  | some c ↦ some (answer success, record m { cache = c })
]
finish_write w now (other, m) = some (answer other, m)

unfoldable pub write_page : WriteRequest → ℕ → Text → Memory → Option (Response × Memory)
unfolding finish_write
write_page w client now m =
    if is_out_of_frame m.tables.frame_size w.offset w.size
    then some (answer out_of_frame, m)
    else finish_write w now (writing_memory w client m)

-- read_cache_entry_and_send
unfoldable pub read_cache_entry_and_send : ReadRequest → ℕ → Text → Cache → Response × Cache
read_cache_entry_and_send r e now c =
    let entry = c.slots e in
    (
      bytes_read success r.size (shift entry.content r.offset),
      unlock e (record c { slots = update c.slots e (record entry { last_used = now }) }),
    )

-- The rest of readind_memory, with the entry that the page gets.
unfoldable pub fill_entry :
    ReadRequest → Text → Buffer → Memory → Option ℕ × Cache → Option (Response × Memory)
fill_entry r now page_bytes m (none, c) = none
fill_entry r now page_bytes m (some e, c) = some (
  bytes_read success r.size (shift page_bytes r.offset),
  record m { cache = update_cache e r.pid r.page 0 m.tables.frame_size page_bytes now c },
)

unfoldable pub readind_memory : ReadRequest → Text → Memory → Option (Response × Memory)
readind_memory r now m = elim (get_frame r.pid r.page m.tables) [
  | none ↦ some (bytes_read page_fault 0 no_bytes, m)
  | some f ↦
      fill_entry r now (shift m.bytes (address m.tables.conf f 0)) m
        (assign_cache_entry r.pid m.cache)
]

-- The rest of read_page, after get_cache_entry.
unfoldable pub finish_read :
    ReadRequest → Text → Memory → Option ℕ × Cache → Option (Response × Memory)
finish_read r now m (none, c) = readind_memory r now (record m { cache = c })
finish_read r now m (some e, c) =
    let (response, c') = read_cache_entry_and_send r e now c in
    some (response, record m { cache = c' })

unfoldable pub read_page : ReadRequest → Text → Memory → Option (Response × Memory)
read_page r now m =
    if is_out_of_frame m.tables.frame_size r.offset r.size
    then some (bytes_read out_of_frame 0 no_bytes, m)
    else finish_read r now m (get_cache_entry r.pid r.page m.cache)

-- The page of an entry is forgotten.
abbrev pub forgotten : Entry → Entry
forgotten entry = record entry { pid = minus_one; page = minus_one }

-- The loop over cache_x_process_list in delete_page_process.
unfoldable pub count_down : ℕ → List ProcessEntries → List ProcessEntries
count_down pid [] = []
count_down pid (p ∷ ps) =
    let left = (p.entries + 2 ^ 16 - 1) % 2 ^ 16 in
    let rest = count_down pid ps in
    if p.pid == pid
    then (if left == 0 || leb (2 ^ 15) left then ps else record p { entries = left } ∷ ps)
    else p ∷ rest

-- The second half of delete_page_process: the first entry of the page is emptied.
unfoldable pub forget_page : ℕ → ℕ → ℕ → ℕ → Cache → Cache
forget_page zero entry pid page c = c
forget_page (suc left) entry pid page c =
    let locked = lock entry c in
    let slot = c.slots entry in
    let more = forget_page left (entry + 1) pid page (unlock entry locked) in
    if slot.pid == pid && slot.page == page
    then record (unlock entry locked) {
      slots = update c.slots entry (forgotten slot);
      processes = count_down pid c.processes;
    }
    else more

unfoldable pub delete_page : ℕ → ℕ → Memory → Option (Response × Memory)
delete_page pid page m = elim (delete_page_process pid page m.tables) [
  | none ↦ none
  | some t ↦ some (
    answer success,
    record m { tables = t; cache = forget_page m.cache.cache_entries 0 pid page m.cache },
  )
]

-- The loop that takes the node of a process out of cache_x_process_list.
unfoldable pub drop_entries : ℕ → List ProcessEntries → List ProcessEntries
drop_entries pid [] = []
drop_entries pid (p ∷ ps) = if p.pid == pid then ps else p ∷ drop_entries pid ps

-- The loop of cleaning_process_entries over the cache.
unfoldable pub forget_process : ℕ → ℕ → ℕ → Cache → Cache
forget_process zero entry pid c = c
forget_process (suc left) entry pid c =
    let locked = lock entry c in
    let slot = c.slots entry in
    forget_process left (entry + 1) pid (
      unlock entry (
        if slot.pid == pid
        then record locked { slots = update c.slots entry (forgotten slot) }
        else locked))

unfoldable pub cleaning_process_entries : ℕ → Memory → Memory
cleaning_process_entries pid m = record m {
  tables = clean_tables pid m.tables;
  cache =
      forget_process m.cache.cache_entries 0 pid
        (record m.cache { processes = drop_entries pid m.cache.processes });
}

-- mem_handshake; `kind` is the type of the client, 'k' the kernel.
unfoldable pub mem_handshake : ℕ → ℕ → ℕ → Memory → Response × Memory
mem_handshake client kind stack_size m = (
  frame_size_is m.tables.frame_size,
  (if kind == b'k'
      then record m { kernel_client = client; tables = record m.tables { stack_size = stack_size } }
      else m),
)

-- inicialize_process, and assign_page with `init` false
unfoldable pub assign_pages : ℕ → ℕ → Bool → Memory → Response × Memory
assign_pages pid pages init m =
    let (res, t) = assign_pages_to_process pid pages init m.tables in
    (answer res, record m { tables = t })

-- A request, after its operation code.
pub data Request : Type 0 where
  handshake : ℕ → ℕ → Request
  init_process assign_page : ℕ → ℕ → Request
  delete : ℕ → ℕ → Request
  read : ReadRequest → Request
  write : WriteRequest → Request
  end_process : ℕ → Request

-- One round of the loop of process_request.
unfoldable pub process_request : ℕ → Text → Request → Memory → Option (Response × Memory)
process_request client now (handshake kind stack) m = some (mem_handshake client kind stack m)
process_request client now (init_process pid pages) m = some (assign_pages pid pages true m)
process_request client now (assign_page pid pages) m = some (assign_pages pid pages false m)
process_request client now (delete pid page) m = delete_page pid page m
process_request client now (read r) m = read_page r now m
process_request client now (write w) m = write_page w client now m
process_request client now (end_process pid) m =
    some (answer success, cleaning_process_entries pid m)
