-- ===== src/Memoria/Server/Read.antt =====
-- read_page: what it answers on each of its branches, and what it keeps.
use so_distribuido.Base.{ℕ, ◌≡◌, refl, ◌∙◌, none, some, false, arith, shift, memcpy}
use so_distribuido.Memoria.Types.{Text, success, page_fault}
use so_distribuido.Memoria.Frames.{get_frame}
use so_distribuido.Memoria.Frames.Invariant.{Holds}
use so_distribuido.Memoria.Cache.{get_cache_entry, assign_cache_entry, update_cache, unlock}
use so_distribuido.Memoria.Cache.Locks.{get_cache_entry-Holding}
use so_distribuido.Memoria.Cache.Give.{
  entry_to_write-miss, entry_to_write-Gives, same_pages-IsSound, update_cache-IsSound,
  get_cache_entry-Gives,
}
use so_distribuido.Memoria.Server.{
  Memory, ReadRequest, bytes_read, no_bytes, address, is_out_of_frame, read_cache_entry_and_send,
  fill_entry, readind_memory, finish_read, read_page,
}
use so_distribuido.Memoria.Server.Invariant.{IsProper, IsConsistent}
use so_distribuido.Memoria.Server.Given.{Given}

-- The request names bytes of the frame that holds the page.
pub record IsReadable (r : ReadRequest) (m : Memory) (f : ℕ) : Type 0 where
  pub within : is_out_of_frame m.tables.frame_size r.offset r.size ≡ false
  pub holds : Holds m.tables r.pid r.page f

readind_memory-found :
    (r : ReadRequest) (now : Text) (m : Memory) (f : ℕ)
    → get_frame r.pid r.page m.tables ≡ some f
    → readind_memory r now m
      ≡ fill_entry r now
          (shift m.bytes (address m.tables.conf f 0))
          m
          (assign_cache_entry r.pid m.cache)
unfolding readind_memory
readind_memory-found r now m f found = rw (found, readind_memory)

readind_memory-missing :
    (r : ReadRequest) (now : Text) (m : Memory)
    → get_frame r.pid r.page m.tables ≡ none
    → readind_memory r now m ≡ some (bytes_read page_fault 0 no_bytes, m)
unfolding readind_memory
readind_memory-missing r now m nowhere = rw (nowhere, readind_memory)

module _ (r : ReadRequest) (now : Text) (m : Memory) where
  -- A hit: the bytes of the entry.
  pub hit-Given :
      (e : ℕ)
      → IsConsistent m
      → IsProper r.pid
      → (get_cache_entry r.pid r.page m.cache).0 ≡ some e
      → let c = (get_cache_entry r.pid r.page m.cache).1 in
        let c' = (read_cache_entry_and_send r e now c).1 in
        Given m (record m { cache = c' }) r.pid r.page e (m.cache.slots e).content now
  unfolding read_cache_entry_and_send unlock
  hit-Given e k proper at =
      let (holding, hit, miss) = get_cache_entry-Holding r.pid r.page m.cache in
      let h = rw at at holding in
      let (inside, mine) = hit e at in
      let g = get_cache_entry-Gives r.pid r.page e m.cache k.sound proper.1 at in
      record {
        tables = refl;
        client = refl;
        sound =
            same_pages-IsSound m.cache _ h.same_conf h.same_processes
              (λ x. ground (arith, h.same_slots)) (λ x. ground (arith, h.same_slots)) k.sound;
        locks = λ x. ground (arith, h.locked x, h.locked e);
        conf = h.same_conf;
        slots = rw (h.same_slots, mine.0, mine.1);
        inside = inside;
        only = g.only;
      }

  -- A miss: an entry is given to the page, and gets the whole frame.
  pub miss-Given :
      (f : ℕ)
      → IsConsistent m
      → IsProper r.pid
      → (get_cache_entry r.pid r.page m.cache).0 ≡ none
      → (e : ℕ) × let c = (get_cache_entry r.pid r.page m.cache).1 in
          let c' = (assign_cache_entry r.pid c).1 in
          let page_bytes = shift m.bytes (address m.tables.conf f 0) in
          ((assign_cache_entry r.pid c).0 ≡ some e)
          × Given m
              (record m {
                cache = update_cache e r.pid r.page 0 m.tables.frame_size page_bytes now c';
              })
              r.pid
              r.page
              e
              (memcpy (m.cache.slots e).content 0 page_bytes m.tables.frame_size)
              now
  miss-Given f k proper at =
      let (e, found, g) = entry_to_write-Gives r.pid r.page m.cache k.sound proper.1 in
      let miss = entry_to_write-miss r.pid r.page m.cache at in
      let c' = (assign_cache_entry r.pid (get_cache_entry r.pid r.page m.cache).1).1 in
      let (sound, locks, conf, slots) =
        update_cache-IsSound r.pid r.page e 0 m.tables.frame_size
          (shift m.bytes (address m.tables.conf f 0)) now m.cache c' k.sound (rw miss at g) in
      (
        e,
        (
          rw miss at found,
          record {
            tables = refl;
            client = refl;
            sound = sound;
            locks = locks;
            conf = conf;
            slots = slots;
            inside = g.inside;
            only = g.only;
          },
        ),
      )

  read_page-finish :
      is_out_of_frame m.tables.frame_size r.offset r.size ≡ false
      → read_page r now m ≡ finish_read r now m (get_cache_entry r.pid r.page m.cache)
  unfolding read_page
  read_page-finish within = rw (within, read_page)

  pub read_page-hit :
      (e : ℕ)
      → is_out_of_frame m.tables.frame_size r.offset r.size ≡ false
      → (get_cache_entry r.pid r.page m.cache).0 ≡ some e
      → let c = (get_cache_entry r.pid r.page m.cache).1 in
        read_page r now m
        ≡ some (
          bytes_read success r.size (shift (m.cache.slots e).content r.offset),
          record m { cache = (read_cache_entry_and_send r e now c).1 },
        )
  unfolding read_cache_entry_and_send finish_read
  read_page-hit e within at =
      let (h, _, _) = get_cache_entry-Holding r.pid r.page m.cache in
      read_page-finish within ∙ rw at (rw h.same_slots refl)

  pub read_page-miss :
      (e f : ℕ)
      → is_out_of_frame m.tables.frame_size r.offset r.size ≡ false
      → (get_cache_entry r.pid r.page m.cache).0 ≡ none
      → get_frame r.pid r.page m.tables ≡ some f
      → let c = (get_cache_entry r.pid r.page m.cache).1 in
        let page_bytes = shift m.bytes (address m.tables.conf f 0) in
        (assign_cache_entry r.pid c).0 ≡ some e
        → read_page r now m
          ≡ some (
            bytes_read success r.size (shift page_bytes r.offset),
            record m {
              cache =
                  update_cache e r.pid r.page 0 m.tables.frame_size page_bytes now
                    (assign_cache_entry r.pid c).1;
            },
          )
  unfolding finish_read fill_entry
  read_page-miss e f within at found given =
      read_page-finish within
      ∙ rw at (
          readind_memory-found r now (record m { cache = (get_cache_entry r.pid r.page m.cache).1 })
            f found
          ∙ rw given refl)

  pub read_page-fault :
      is_out_of_frame m.tables.frame_size r.offset r.size ≡ false
      → (get_cache_entry r.pid r.page m.cache).0 ≡ none
      → get_frame r.pid r.page m.tables ≡ none
      → read_page r now m
        ≡ some (
          bytes_read page_fault 0 no_bytes,
          record m { cache = (get_cache_entry r.pid r.page m.cache).1 },
        )
  unfolding finish_read
  read_page-fault within at nowhere =
      read_page-finish within
      ∙ rw at (
          readind_memory-missing r now
            (record m { cache = (get_cache_entry r.pid r.page m.cache).1 }) nowhere)
