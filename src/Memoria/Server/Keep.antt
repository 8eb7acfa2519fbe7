-- ===== src/Memoria/Server/Keep.antt =====
-- What a granted write keeps: the bytes it does not name, the invariants, and the agreement of the
-- cache with the memory.
use so_distribuido.Base.{
  ℕ, ◌+◌, ◌-◌, ◌*◌, ◌%◌, ◌^◌, ◌≤◌, ◌<◌, ◌≡◌, ◌≢◌, sym, ap, ◌⊎◌, inl, inr, some, false, ◌&&◌, arith,
  leb, ltb, Buffer, memcpy, memcpy_inside, memcpy_before, memcpy_after, Bool-cases,
}
use native.Mathlib.Nat.{mod-eq_of_lt, mul-le-mul_right}
use so_distribuido.Memoria.Types.{Text, success}
use so_distribuido.Memoria.Frames.Invariant.{get_frame-sound}
use so_distribuido.Memoria.Cache.Locks.{Caches}
use so_distribuido.Memoria.Server.{
  Memory, WriteRequest, address, is_out_of_frame, answer, write_page,
}
use so_distribuido.Memoria.Server.Invariant.{IsProper, IsConsistent, IsCoherent, address-apart}
use so_distribuido.Memoria.Server.Given.{Given-IsConsistent, Given-IsCoherent}
use so_distribuido.Memoria.Server.Write.{Written, IsGranted, write_page-Written}

-- Where the sum of two uint32_t does not wrap, the test of the bounds is exact.
pub is_out_of_frame-exact :
    (frame_size offset size : ℕ)
    → offset + size < 2 ^ 32
    → is_out_of_frame frame_size offset size ≡ false
    → (offset < frame_size) × (offset + size ≤ frame_size)
unfolding is_out_of_frame
is_out_of_frame-exact frame_size offset size small e = ground arith

-- Where the memory has an address for every byte, that of a frame does not wrap.
frame-address :
    (frames size f : ℕ) → f < frames → frames * size < 2 ^ 32 → f * size % 2 ^ 32 ≡ f * size
frame-address frames size f h k =
    let le : f * size ≤ frames * size = mul-le-mul_right size (omega (arith, h)) in
    mod-eq_of_lt (omega (arith, le, k))

-- A copy into one frame, inside it, leaves the other frames alone.
memcpy-other :
    (size f g offset len i : ℕ) (target source : Buffer)
    → offset + len ≤ size
    → i < size
    → g ≢ f
    → memcpy target (f * size + offset) source len (g * size + i) ≡ target (g * size + i)
unfolding memcpy
memcpy-other size f g offset len i target source a b ne =
    let apart = address-apart size f g (g * size + i - f * size) i in
    elim (Bool-cases
      (leb (f * size + offset) (g * size + i) && ltb (g * size + i) (f * size + offset + len))) [
        | inl e ↦ absurd (
            ne (
              sym (
                address-apart size f g (g * size + i - f * size) i (ground arith) b
                  (ground arith))))
        | inr e ↦ rw e
      ]

-- The same copy into a buffer that agrees with the frame, where the copy does not reach.
memcpy-mirror :
    (start offset len i : ℕ) (old target source : Buffer)
    → ((i < offset) ⊎ (offset + len ≤ i) → old i ≡ target (start + i))
    → memcpy old offset source len i ≡ memcpy target (start + offset) source len (start + i)
unfolding memcpy
memcpy-mirror start offset len i old target source same = ground (arith, same)

-- The bytes of the request are in their place of frame `f`, and every other byte of a frame is as
-- it was.
pub record Stored (w : WriteRequest) (m m' : Memory) (f : ℕ) : Type 0 where
  pub put : (i : ℕ) → i < w.size → m'.bytes (address m.tables.conf f (w.offset + i)) ≡ w.buffer i
  pub around :
      (i : ℕ)
      → i < m.tables.frame_size
      → (i < w.offset) ⊎ (w.offset + w.size ≤ i)
      → m'.bytes (address m.tables.conf f i) ≡ m.bytes (address m.tables.conf f i)
  pub elsewhere :
      (g i : ℕ)
      → g ≢ f
      → g < m.tables.frames
      → i < m.tables.frame_size
      → m'.bytes (address m.tables.conf g i) ≡ m.bytes (address m.tables.conf g i)

module _ (w : WriteRequest) (client : ℕ) (now : Text) (m : Memory) (f : ℕ) where
  Written-Stored :
      (m' : Memory) (e : ℕ)
      → Written w now m m' f e
      → w.offset + w.size ≤ m.tables.frame_size
      → f < m.tables.frames
      → m.tables.frames * m.tables.frame_size < 2 ^ 32
      → Stored w m m' f
  Written-Stored m' e k fits mine room =
      let start = address m.tables.conf f w.offset in
      record {
        put = λ i b.
            let eq : address m.tables.conf f (w.offset + i) ≡ start + i = omega arith in
            rw (k.bytes, eq) (memcpy_inside m.bytes w.buffer start w.size i b);
        around = λ i b out. rw k.bytes (elim out [
          | inl lt ↦ memcpy_before m.bytes w.buffer start w.size _ (omega arith)
          | inr ge ↦ memcpy_after m.bytes w.buffer start w.size _ (omega arith)
        ]);
        elsewhere = λ g i ne inside b.
            let at_f : address m.tables.conf f w.offset ≡ f * m.tables.frame_size + w.offset =
              ap (λ x. x + w.offset)
                (frame-address m.tables.frames m.tables.frame_size f mine room) in
            let at_g : address m.tables.conf g i ≡ g * m.tables.frame_size + i =
              ap (λ x. x + i) (frame-address m.tables.frames m.tables.frame_size g inside room) in
            rw (k.bytes, at_f, at_g)
              (memcpy-other m.tables.frame_size f g w.offset w.size i m.bytes w.buffer fits b ne);
      }

  -- A granted write is answered SUCCESS and keeps the state consistent, whatever the addresses are.
  pub write_page-IsConsistent :
      IsConsistent m
      → IsProper w.pid
      → IsGranted w client m f
      → (m' : Memory) × (write_page w client now m ≡ some (answer success, m')) × IsConsistent m'
  write_page-IsConsistent k proper granted =
      let (m', e, done, written) = write_page-Written w client f now m k.sound proper.1 granted in
      let holds = get_frame-sound m.tables w.pid w.page f k.valid granted.found in
      (m', done, Given-IsConsistent m m' w.pid w.page e f _ now k written.given proper holds)

  -- In a consistent state, where the frames have less than 2^32 bytes together, a granted
  -- write of a proper process whose offset and size do not wrap is answered SUCCESS. The
  -- state stays consistent, the bytes of the request are in their place of the frame, and
  -- the other bytes of that frame and of every other frame, those of the invert table too,
  -- are as before.
  pub write_page-Stored :
      IsConsistent m
      → IsProper w.pid
      → w.offset + w.size < 2 ^ 32
      → IsGranted w client m f
      → m.tables.frames * m.tables.frame_size < 2 ^ 32
      → (m' : Memory) × (write_page w client now m ≡ some (answer success, m'))
        × IsConsistent m'
        × Stored w m m' f
  write_page-Stored k proper small granted room =
      let (m', e, done, written) = write_page-Written w client f now m k.sound proper.1 granted in
      let holds = get_frame-sound m.tables w.pid w.page f k.valid granted.found in
      let exact = is_out_of_frame-exact m.tables.frame_size w.offset w.size small granted.within in
      (
        m',
        done,
        Given-IsConsistent m m' w.pid w.page e f _ now k written.given proper holds,
        Written-Stored m' e written exact.1 holds.0 room,
      )

  -- In a consistent state whose cache agrees with the memory, and where the frames have less
  -- than 2^32 bytes together, a granted write of a proper process whose offset and size do
  -- not wrap, to a page that is in the cache or of a whole page, is answered SUCCESS. The
  -- state stays consistent, the cache agrees with the memory, the bytes of the request are
  -- in their place, and every other byte of a frame is as before.
  pub write_page-IsCoherent :
      IsConsistent m
      → IsCoherent m
      → IsProper w.pid
      → w.offset + w.size < 2 ^ 32
      → IsGranted w client m f
      → m.tables.frames * m.tables.frame_size < 2 ^ 32
      → ((x : ℕ) × (x < m.cache.cache_entries) × Caches m.cache w.pid w.page x)
        ⊎ ((w.offset ≡ 0) × (w.size ≡ m.tables.frame_size))
      → (m' : Memory) × (write_page w client now m ≡ some (answer success, m'))
        × IsConsistent m'
        × IsCoherent m'
        × Stored w m m' f
  write_page-IsCoherent k o proper small granted room whole =
      let (m', e, done, written) = write_page-Written w client f now m k.sound proper.1 granted in
      let holds = get_frame-sound m.tables w.pid w.page f k.valid granted.found in
      let exact = is_out_of_frame-exact m.tables.frame_size w.offset w.size small granted.within in
      let stored = Written-Stored m' e written exact.1 holds.0 room in
      (
        m',
        done,
        Given-IsConsistent m m' w.pid w.page e f _ now k written.given proper holds,
        Given-IsCoherent m m' w.pid w.page e f _ now k o written.given proper holds
            (λ i b. rw written.bytes (
              memcpy-mirror (f * m.tables.frame_size % 2 ^ 32) w.offset w.size i
                (m.cache.slots e).content m.bytes w.buffer
                (λ out. elim whole [
                  | inl (x, inside, mine) ↦
                      let eq = written.given.only x inside mine in
                      o.mirrored e f i written.given.inside (ground arith) (ground arith) b
                  | inr all ↦ absurd (ground arith)
                ])))
            stored.elsewhere,
        stored,
      )
