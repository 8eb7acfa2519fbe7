-- ===== src/Memoria/Server/Answer.antt =====
-- read_page as a whole: the bytes that a client gets, from the cache or from the memory.
use so_distribuido.Base.{
  ℕ, ◌+◌, ◌^◌, ◌<◌, ◌≡◌, ◌≢◌, refl, ap, sym, ◌∙◌, ◌⊎◌, inl, inr, none, some, true, false, arith,
  Buffer, shift, memcpy, memcpy_start, Option-cases, Bool-cases,
}
use so_distribuido.Memoria.Types.{Code, Cache, Text, success, page_fault, out_of_frame}
use so_distribuido.Memoria.Frames.Invariant.{Holds, get_frame-finds, get_frame-none}
use so_distribuido.Memoria.Cache.{get_cache_entry}
use so_distribuido.Memoria.Cache.Locks.{Holding, Caches, get_cache_entry-Holding}
use so_distribuido.Memoria.Cache.Give.{Holding-IsSound}
use so_distribuido.Memoria.Server.{
  Memory, ReadRequest, bytes_read, no_bytes, address, is_out_of_frame, read_page,
}
use so_distribuido.Memoria.Server.Invariant.{IsProper, IsConsistent, IsCoherent}
use so_distribuido.Memoria.Server.Given.{Given, Given-IsConsistent, Given-IsCoherent}
use so_distribuido.Memoria.Server.Keep.{is_out_of_frame-exact}
use so_distribuido.Memoria.Server.Read.{
  IsReadable, hit-Given, miss-Given, read_page-hit, read_page-miss, read_page-fault,
}

module _ (r : ReadRequest) (now : Text) (m : Memory) (f : ℕ) where
  -- Through entry `e`, whose content was `content`, the client got the bytes.
  pub record Answered (m' : Memory) (e : ℕ) (b content : Buffer) : Type 0 where
    pub answered : read_page r now m ≡ some (bytes_read success r.size b, m')
    pub given : Given m m' r.pid r.page e content now
    pub same_bytes : m'.bytes ≡ m.bytes
    pub from_content : (i : ℕ) → i < r.size → b i ≡ content (r.offset + i)
    pub source :
        (content ≡ (m.cache.slots e).content) × Caches m.cache r.pid r.page e
        ⊎ (((x : ℕ) → x < m.cache.cache_entries → ¬ Caches m.cache r.pid r.page x)
            × ((i : ℕ) → i < m.tables.frame_size → content i ≡ m.bytes (address m.tables.conf f i)))

  pub read_page-Answered :
      IsConsistent m
      → IsProper r.pid
      → r.offset + r.size < 2 ^ 32
      → IsReadable r m f
      → (m' : Memory) × (e : ℕ) × (b content : Buffer) × Answered m' e b content
  read_page-Answered k proper small readable =
      let exact = is_out_of_frame-exact m.tables.frame_size r.offset r.size small readable.within in
      let size = m.tables.frame_size in
      let page_bytes = shift m.bytes (address m.tables.conf f 0) in
      elim (Option-cases (get_cache_entry r.pid r.page m.cache).0) [
        | inr (e, at) ↦
            let g = hit-Given r now m e k proper at in
            (
              _,
              e,
              shift (m.cache.slots e).content r.offset,
              (m.cache.slots e).content,
              record {
                answered = read_page-hit r now m e readable.within at;
                given = g;
                same_bytes = refl;
                from_content = λ i b. refl;
                source = inl (refl, ((get_cache_entry-Holding r.pid r.page m.cache).1 e at).1);
              },
            )
        | inl at ↦
            let (e, filled) = miss-Given r now m f k proper at in
            let found =
              get_frame-finds m.tables r.pid r.page f k.valid proper.0 (ground arith)
                readable.holds in
            let copied : (i : ℕ)
                → i < size
                → memcpy (m.cache.slots e).content 0 page_bytes size i ≡ page_bytes i =
              λ i b. memcpy_start (m.cache.slots e).content page_bytes size i b in
            (
              _,
              e,
              shift page_bytes r.offset,
              memcpy (m.cache.slots e).content 0 page_bytes size,
              record {
                answered = read_page-miss r now m e f readable.within at found filled.0;
                given = filled.1;
                same_bytes = refl;
                from_content = λ i b. sym (copied (r.offset + i) (omega (arith, exact.1)));
                source = inr (
                  (get_cache_entry-Holding r.pid r.page m.cache).2 at,
                  λ i b. copied i b ∙ ap m.bytes (omega arith),
                );
              },
            )
      ]

  -- In a consistent state whose cache agrees with the memory, a read of a proper process
  -- whose offset and size do not wrap, of bytes of a page that frame f holds, is answered
  -- SUCCESS with the bytes of that frame, on a hit and on a miss alike. The state stays
  -- consistent, the cache agrees with the memory again, and neither the tables nor the
  -- memory change.
  pub read_page-bytes :
      IsConsistent m
      → IsCoherent m
      → IsProper r.pid
      → r.offset + r.size < 2 ^ 32
      → IsReadable r m f
      → (m' : Memory) × (b : Buffer) × (read_page r now m ≡ some (bytes_read success r.size b, m'))
        × ((i : ℕ) → i < r.size → b i ≡ m.bytes (address m.tables.conf f (r.offset + i)))
        × IsConsistent m'
        × IsCoherent m'
        × (m'.tables ≡ m.tables)
        × (m'.bytes ≡ m.bytes)
  read_page-bytes k o proper small readable =
      let (m', e, b, content, a) = read_page-Answered k proper small readable in
      let exact = is_out_of_frame-exact m.tables.frame_size r.offset r.size small readable.within in
      let same : (i : ℕ)
          → i < m.tables.frame_size
          → content i ≡ m.bytes (address m.tables.conf f i) =
        λ i lt. elim a.source [
          | inl (eq, mine) ↦
              ap (λ c. c i) eq
              ∙ o.mirrored e f i a.given.inside (ground arith) (ground (arith, readable.holds)) lt
          | inr (_, all) ↦ all i lt
        ] in
      (
        m',
        b,
        a.answered,
        λ i lt. a.from_content i lt ∙ same (r.offset + i) (omega (arith, exact.1)),
        Given-IsConsistent m m' r.pid r.page e f content now k a.given proper readable.holds,
        Given-IsCoherent m m' r.pid r.page e f content now k o a.given proper readable.holds
            (λ i lt. rw a.same_bytes (same i lt)) (λ g i ne inside lt. rw a.same_bytes refl),
        a.given.tables,
        a.same_bytes,
      )

-- A search of the cache that found nothing.
searched-IsConsistent :
    (m : Memory) (c : Cache)
    → Holding m.cache c none
    → IsConsistent m
    → IsConsistent (record m { cache = c })
searched-IsConsistent m c h k = record {
  valid = k.valid;
  reserved = k.reserved;
  same_conf = h.same_conf ∙ k.same_conf;
  sound = Holding-IsSound m.cache c none h k.sound;
  unlocked = λ x. ground (arith, h.locked x, k.unlocked x);
  resident = λ x. rw (h.same_conf, h.same_slots) (k.resident x);
}

-- A request that is refused.
pub read_page-refused :
    (r : ReadRequest) (now : Text) (m : Memory)
    → (is_out_of_frame m.tables.frame_size r.offset r.size ≡ true
        → read_page r now m ≡ some (bytes_read out_of_frame 0 no_bytes, m))
      × (IsConsistent m
          → IsProper r.pid
          → is_out_of_frame m.tables.frame_size r.offset r.size ≡ false
          → ((x : ℕ) → ¬ Holds m.tables r.pid r.page x)
          → (m' : Memory) × (read_page r now m ≡ some (bytes_read page_fault 0 no_bytes, m'))
            × IsConsistent m'
            × (m'.tables ≡ m.tables)
            × (m'.bytes ≡ m.bytes)
            × (m'.cache.slots ≡ m.cache.slots))
unfolding read_page
read_page-refused r now m = (
  λ out. rw out,
  λ k proper within nowhere. elim (Option-cases (get_cache_entry r.pid r.page m.cache).0) [
    | inr (e, at) ↦
        let (inside, mine) = (get_cache_entry-Holding r.pid r.page m.cache).1 e at in
        let (_, holder) = k.resident e inside (ground arith) in
        absurd (nowhere holder.0 (ground (arith, holder.1)))
    | inl at ↦
        let c = (get_cache_entry r.pid r.page m.cache).1 in
        let h : Holding m.cache c none =
          rw at at ((get_cache_entry-Holding r.pid r.page m.cache).0) in
        (
          record m { cache = c },
          read_page-fault r now m within at (get_frame-none m.tables r.pid r.page k.valid nowhere),
          searched-IsConsistent m c h k,
          refl,
          refl,
          h.same_slots,
        )
  ],
)

-- In a consistent state, a read of a proper process that does not name bytes of a page in
-- some frame is answered with a code other than SUCCESS and no bytes. The state stays
-- consistent, and the memory, the tables and the entries of the cache are as before.
pub read_page-denied :
    (r : ReadRequest) (now : Text) (m : Memory)
    → IsConsistent m
    → IsProper r.pid
    → ((f : ℕ) → ¬ IsReadable r m f)
    → (code : Code) × (m' : Memory) × (code ≢ success)
      × (read_page r now m ≡ some (bytes_read code 0 no_bytes, m'))
      × IsConsistent m'
      × (m'.tables ≡ m.tables)
      × (m'.bytes ≡ m.bytes)
      × (m'.cache.slots ≡ m.cache.slots)
read_page-denied r now m k proper denied =
    elim (Bool-cases (is_out_of_frame m.tables.frame_size r.offset r.size)) [
      | inl out ↦ (out_of_frame, m, λ e. cc, (read_page-refused r now m).0 out, k, refl, refl, refl)
      | inr within ↦
          let (m', done, k', tables, bytes, slots) =
            (read_page-refused r now m).1 k proper within
              (λ f holds. denied f (record { within = within; holds = holds })) in
          (page_fault, m', λ e. cc, done, k', tables, bytes, slots)
    ]
