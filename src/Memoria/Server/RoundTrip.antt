-- ===== src/Memoria/Server/RoundTrip.antt =====
-- A write and a read of the same page, one after the other.
use so_distribuido.Base.{
  ℕ, ◌+◌, ◌^◌, ◌≤◌, ◌<◌, ◌≡◌, refl, ap, sym, ◌∙◌, ◌⊎◌, inl, inr, some, false, arith, Buffer, memcpy,
  memcpy_inside, memcpy_before, memcpy_after,
}
use so_distribuido.Memoria.Types.{Text, success}
use so_distribuido.Memoria.Frames.Invariant.{get_frame-sound}
use so_distribuido.Memoria.Cache.Locks.{Caches}
use so_distribuido.Memoria.Server.{
  Memory, WriteRequest, ReadRequest, answer, bytes_read, is_out_of_frame, write_page, read_page,
}
use so_distribuido.Memoria.Server.Invariant.{IsProper, IsConsistent}
use so_distribuido.Memoria.Server.Given.{Given-IsConsistent}
use so_distribuido.Memoria.Server.Write.{Written, IsGranted, write_page-Written}
use so_distribuido.Memoria.Server.Read.{IsReadable}
use so_distribuido.Memoria.Server.Answer.{read_page-Answered}

-- The request that reads what the other wrote.
abbrev pub reading : WriteRequest → ReadRequest
reading w = record { pid = w.pid; page = w.page; offset = w.offset; size = w.size }

module _ (w : WriteRequest) (client : ℕ) (now later : Text) (m : Memory) (f : ℕ) where
  -- After a granted write, any read of the page is answered from the entry that the write gave it.
  pub read_page-entry :
      (r : ReadRequest)
      → r.pid ≡ w.pid
      → r.page ≡ w.page
      → r.offset + r.size < 2 ^ 32
      → is_out_of_frame m.tables.frame_size r.offset r.size ≡ false
      → IsConsistent m
      → IsProper w.pid
      → IsGranted w client m f
      → (m' m'' : Memory) × (e : ℕ) × (b : Buffer) × Written w now m m' f e
        × (write_page w client now m ≡ some (answer success, m'))
        × (read_page r later m' ≡ some (bytes_read success r.size b, m''))
        × ((i : ℕ)
            → i < r.size
            → b i ≡ memcpy (m.cache.slots e).content w.offset w.buffer w.size (r.offset + i))
  read_page-entry r pid page small within k proper granted =
      let (m', e, done, written) = write_page-Written w client f now m k.sound proper.1 granted in
      let g = written.given in
      let holds = get_frame-sound m.tables w.pid w.page f k.valid granted.found in
      let k' = Given-IsConsistent m m' w.pid w.page e f _ now k g proper holds in
      let readable : IsReadable r m' f = record {
        within = rw g.tables within;
        holds = rw (g.tables, pid, page) holds;
      } in
      let proper' : IsProper r.pid = rw pid proper in
      let (m'', e', b, content, a) = read_page-Answered r later m' f k' proper' small readable in
      let inside : e < m'.cache.cache_entries = rw g.conf g.inside in
      let mine : Caches m'.cache r.pid r.page e = rw (g.slots, pid, page) (ground arith) in
      let same : e ≡ e' = a.given.only e inside mine in
      let entry : (m'.cache.slots e).content
          ≡ memcpy (m.cache.slots e).content w.offset w.buffer w.size =
        rw g.slots (ground arith) in
      (
        m',
        m'',
        e,
        b,
        written,
        done,
        a.answered,
        λ i lt. a.from_content i lt ∙ elim a.source [
          | inl (eq, _) ↦
              ap (λ c. c (r.offset + i))
                (eq ∙ ap (λ x. (m'.cache.slots x).content) (sym same) ∙ entry)
          | inr (missing, _) ↦ absurd (missing e inside mine)
        ],
      )

  -- In a consistent state, after a granted write of a proper process whose offset and size
  -- do not wrap, which is answered SUCCESS, a read of the same bytes is answered SUCCESS
  -- with the bytes that were written, through the cache or not.
  pub write_page-read_page :
      w.offset + w.size < 2 ^ 32
      → IsConsistent m
      → IsProper w.pid
      → IsGranted w client m f
      → (m' m'' : Memory) × (b : Buffer) × (write_page w client now m ≡ some (answer success, m'))
        × (read_page (reading w) later m' ≡ some (bytes_read success w.size b, m''))
        × ((i : ℕ) → i < w.size → b i ≡ w.buffer i)
  write_page-read_page small k proper granted =
      let (m', m'', e, b, written, done, answered, same) =
        read_page-entry (reading w) refl refl small granted.within k proper granted in
      (
        m',
        m'',
        b,
        done,
        answered,
        λ i lt. same i lt ∙ memcpy_inside (m.cache.slots e).content w.buffer w.offset w.size i lt,
      )

  -- In a consistent state, after a granted write of a proper process to a page that is not
  -- in the cache, a read of the same page, whose bounds are right and do not wrap, is
  -- answered SUCCESS from an entry that was another page's or nobody's. The bytes that the
  -- write did not cover are those that the entry had before, whatever the memory holds.
  pub write_page-stale :
      (r : ReadRequest)
      → r.pid ≡ w.pid
      → r.page ≡ w.page
      → r.offset + r.size < 2 ^ 32
      → is_out_of_frame m.tables.frame_size r.offset r.size ≡ false
      → IsConsistent m
      → IsProper w.pid
      → IsGranted w client m f
      → ((x : ℕ) → x < m.cache.cache_entries → ¬ Caches m.cache w.pid w.page x)
      → (m' m'' : Memory) × (e : ℕ) × (b : Buffer) × (write_page w client now m
          ≡ some (answer success, m'))
        × (read_page r later m' ≡ some (bytes_read success r.size b, m''))
        × ¬ Caches m.cache w.pid w.page e
        × ((i : ℕ)
            → i < r.size
            → (r.offset + i < w.offset) ⊎ (w.offset + w.size ≤ r.offset + i)
            → b i ≡ (m.cache.slots e).content (r.offset + i))
  write_page-stale r pid page small within k proper granted missing =
      let (m', m'', e, b, written, done, answered, same) =
        read_page-entry r pid page small within k proper granted in
      (
        m',
        m'',
        e,
        b,
        done,
        answered,
        missing e written.given.inside,
        λ i lt out. same i lt ∙ elim out [
          | inl l ↦
              memcpy_before (m.cache.slots e).content w.buffer w.offset w.size (r.offset + i) l
          | inr g ↦ memcpy_after (m.cache.slots e).content w.buffer w.offset w.size (r.offset + i) g
        ],
      )
