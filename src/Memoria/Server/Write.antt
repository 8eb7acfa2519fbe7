-- ===== src/Memoria/Server/Write.antt =====
-- write_page: what it does on each of its branches, and what it keeps.
use so_distribuido.Base.{
  ℕ, ◌≡◌, ◌≢◌, refl, ◌⊎◌, inl, inr, none, some, true, false, not, ◌&&◌, arith, ◌==◌, if◌then◌else◌,
  memcpy, Bool-cases, Option-cases,
}
use so_distribuido.Memoria.Types.{
  Cache, Text, Code, success, out_of_frame, page_fault, segmentation_fault, is_negative,
}
use so_distribuido.Memoria.Frames.{get_frame}
use so_distribuido.Memoria.Cache.{update_cache, entry_to_write}
use so_distribuido.Memoria.Cache.Give.{IsSound, entry_to_write-Gives, update_cache-IsSound}
use so_distribuido.Memoria.Server.{
  Memory, WriteRequest, answer, address, is_out_of_frame, is_code, writing_memory, writing_cache,
  finish_write, write_page,
}
use so_distribuido.Memoria.Server.Given.{Given}

-- The request names bytes of a frame that holds the page, and the client may write there.
pub record IsGranted (w : WriteRequest) (client : ℕ) (m : Memory) (f : ℕ) : Type 0 where
  pub within : is_out_of_frame m.tables.frame_size w.offset w.size ≡ false
  pub found : get_frame w.pid w.page m.tables ≡ some f
  pub allowed : (m.kernel_client ≡ client) ⊎ (is_code (m.tables.table f).segment ≡ false)

-- A write that was done, through entry `e` of the cache.
pub record Written (w : WriteRequest) (now : Text) (m m' : Memory) (f e : ℕ) : Type 0 where
  pub bytes : m'.bytes ≡ memcpy m.bytes (address m.tables.conf f w.offset) w.buffer w.size
  pub given :
      Given m m' w.pid w.page e (memcpy (m.cache.slots e).content w.offset w.buffer w.size) now

module _ (w : WriteRequest) (client : ℕ) (m : Memory) where
  writing_memory-missing :
      get_frame w.pid w.page m.tables ≡ none → writing_memory w client m ≡ (page_fault, m)
  unfolding writing_memory
  writing_memory-missing e = rw (e, writing_memory)

  writing_memory-found :
      (f : ℕ)
      → get_frame w.pid w.page m.tables ≡ some f
      → writing_memory w client m ≡ (
          if not (m.kernel_client == client) && is_code (m.tables.table f).segment
          then (segmentation_fault, m)
          else (
            success,
            record m { bytes = memcpy m.bytes (address m.tables.conf f w.offset) w.buffer w.size },
          ))
  unfolding writing_memory
  writing_memory-found f e = rw (e, writing_memory)

writing_cache-entry :
    (w : WriteRequest) (now : Text) (c : Cache) (e : ℕ)
    → (entry_to_write w.pid w.page c).0 ≡ some e
    → writing_cache w now c
      ≡ some (
          update_cache e w.pid w.page w.offset w.size w.buffer now
            (entry_to_write w.pid w.page c).1)
unfolding writing_cache
writing_cache-entry w now c e at = rw (at, writing_cache)

-- The rest of write_page, after the bytes were written.
finish_write-done :
    (w : WriteRequest) (now : Text) (m : Memory) (e : ℕ)
    → (entry_to_write w.pid w.page m.cache).0 ≡ some e
    → finish_write w now (success, m)
      ≡ some (
        answer success,
        record m {
          cache =
              update_cache e w.pid w.page w.offset w.size w.buffer now
                (entry_to_write w.pid w.page m.cache).1;
        },
      )
unfolding finish_write
finish_write-done w now m e at = rw (writing_cache-entry w now m.cache e at, finish_write)

writing_memory-done :
    (w : WriteRequest) (client : ℕ) (m : Memory) (f : ℕ)
    → get_frame w.pid w.page m.tables ≡ some f
    → (not (m.kernel_client == client) && is_code (m.tables.table f).segment) ≡ false
    → writing_memory w client m ≡ (
      success,
      record m { bytes = memcpy m.bytes (address m.tables.conf f w.offset) w.buffer w.size },
    )
writing_memory-done w client m f found pass = rw (writing_memory-found w client m f found, pass)

-- A granted request is done.
pub write_page-Written :
    (w : WriteRequest) (client f : ℕ) (now : Text) (m : Memory)
    → IsSound m.cache
    → is_negative w.pid ≡ false
    → IsGranted w client m f
    → (m' : Memory) × (e : ℕ) × (write_page w client now m ≡ some (answer success, m'))
      × Written w now m m' f e
unfolding write_page
write_page-Written w client f now m s nonneg granted =
    let (e, at, g) = entry_to_write-Gives w.pid w.page m.cache s nonneg in
    let c = (entry_to_write w.pid w.page m.cache).1 in
    let (sound, locks, conf, slots) =
      update_cache-IsSound w.pid w.page e w.offset w.size w.buffer now m.cache c s g in
    let pass : (not (m.kernel_client == client) && is_code (m.tables.table f).segment) ≡ false =
      ground (arith, granted.allowed) in
    (
      record m {
        bytes = memcpy m.bytes (address m.tables.conf f w.offset) w.buffer w.size;
        cache = update_cache e w.pid w.page w.offset w.size w.buffer now c;
      },
      e,
      rw (
        granted.within,
        writing_memory-done w client m f granted.found pass,
        finish_write-done w now
            (record m { bytes = memcpy m.bytes (address m.tables.conf f w.offset) w.buffer w.size })
            e at,
      ),
      record {
        bytes = refl;
        given = record {
          tables = refl;
          client = refl;
          sound = sound;
          locks = locks;
          conf = conf;
          slots = slots;
          inside = g.inside;
          only = g.only;
        };
      },
    )

-- A request that is refused changes nothing, and the code says why: the bytes are outside the
-- frame, no frame holds the page, or a client other than the kernel writes to a page of code.
pub write_page-refused :
    (w : WriteRequest) (client : ℕ) (now : Text) (m : Memory)
    → (is_out_of_frame m.tables.frame_size w.offset w.size ≡ true
        → write_page w client now m ≡ some (answer out_of_frame, m))
      × (is_out_of_frame m.tables.frame_size w.offset w.size ≡ false
          → get_frame w.pid w.page m.tables ≡ none
          → write_page w client now m ≡ some (answer page_fault, m))
      × ((f : ℕ)
          → is_out_of_frame m.tables.frame_size w.offset w.size ≡ false
          → get_frame w.pid w.page m.tables ≡ some f
          → m.kernel_client ≢ client
          → is_code (m.tables.table f).segment ≡ true
          → write_page w client now m ≡ some (answer segmentation_fault, m))
unfolding write_page
write_page-refused w client now m = (
  λ out. rw out,
  λ within missing. rw (within, writing_memory-missing w client m missing),
  λ f within found other text.
      let stop : (not (m.kernel_client == client) && is_code (m.tables.table f).segment) ≡ true =
        ground arith in
      rw (within, writing_memory-found w client m f found, stop),
)

-- A write that is not granted for any frame, because its bytes are outside the frame, no
-- frame holds the page, or a client other than the kernel writes to a page of code, is
-- answered with a code other than SUCCESS, and nothing changes: neither the memory nor the
-- tables nor the cache.
pub write_page-denied :
    (w : WriteRequest) (client : ℕ) (now : Text) (m : Memory)
    → ((f : ℕ) → ¬ IsGranted w client m f)
    → (code : Code) × (code ≢ success) × (write_page w client now m ≡ some (answer code, m))
write_page-denied w client now m denied =
    let (out_of, missing, not_allowed) = write_page-refused w client now m in
    elim (Bool-cases (is_out_of_frame m.tables.frame_size w.offset w.size)) [
      | inl out ↦ (out_of_frame, λ e. cc, out_of out)
      | inr within ↦ elim (Option-cases (get_frame w.pid w.page m.tables)) [
        | inl nowhere ↦ (page_fault, λ e. cc, missing within nowhere)
        | inr (f, found) ↦
            elim (Bool-cases
              (not (m.kernel_client == client) && is_code (m.tables.table f).segment)) [
                | inl stop ↦ (
                  segmentation_fault,
                  λ e. cc,
                  not_allowed f within found (ground arith) (ground arith),
                )
                | inr pass ↦
                    absurd
                      (denied f (record { within = within; found = found; allowed = ground arith }))
              ]
      ]
    ]
