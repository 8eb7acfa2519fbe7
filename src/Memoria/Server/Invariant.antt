-- ===== src/Memoria/Server/Invariant.antt =====
-- The invariant of the whole memory process, and what it means that the cache agrees with the
-- memory.
use so_distribuido.Base.{ℕ, ◌+◌, ◌*◌, ◌<◌, ◌≡◌, ◌≢◌, false, arith}
use native.Mathlib.Decide.{dec_lt}
use so_distribuido.Memoria.Types.{minus_one, is_negative}
use so_distribuido.Memoria.Frames.{first_free_frame}
use so_distribuido.Memoria.Frames.Invariant.{IsValid, Holds}
use so_distribuido.Memoria.Cache.Give.{IsSound}
use so_distribuido.Memoria.Server.{Memory, address}

-- A pid that a process can have: the kernel numbers them from 1.
abbrev pub IsProper : ℕ → Type 0
IsProper pid = (pid ≢ 0) × (is_negative pid ≡ false)

-- Between two requests: the tables are valid, the frames of the invert table are reserved, the
-- cache is sound and nobody holds a lock of it, and each cached page is in memory.
pub record IsConsistent (m : Memory) : Type 0 where
  pub valid : IsValid m.tables
  pub reserved :
      (x : ℕ)
      → x < m.tables.frames
      → x < first_free_frame m.tables.conf
      → (m.tables.table x).pid ≡ minus_one
  pub same_conf : m.cache.conf ≡ m.tables.conf
  pub sound : IsSound m.cache
  pub unlocked : (x : ℕ) → m.cache.locks x ≡ 0
  pub resident :
      (e : ℕ)
      → e < m.cache.cache_entries
      → is_negative (m.cache.slots e).pid ≡ false
      → ((m.cache.slots e).pid ≢ 0)
        × ((f : ℕ) × Holds m.tables (m.cache.slots e).pid (m.cache.slots e).page f)

-- Each cached page has the bytes of its frame.
pub record IsCoherent (m : Memory) : Type 0 where
  pub mirrored :
      (e f i : ℕ)
      → e < m.cache.cache_entries
      → is_negative (m.cache.slots e).pid ≡ false
      → Holds m.tables (m.cache.slots e).pid (m.cache.slots e).page f
      → i < m.tables.frame_size
      → (m.cache.slots e).content i ≡ m.bytes (address m.tables.conf f i)

-- Bytes of different frames have different addresses.
pub address-apart : (size f g i j : ℕ) → i < size → j < size → f * size + i ≡ g * size + j → f ≡ g
address-apart size f g i j a b e = elim (dec_lt f g) [
  | yes p ↦ absurd (grind arith)
  | no p ↦ elim (dec_lt g f) [ yes q ↦ absurd (grind arith) | no q ↦ omega arith ]
]
