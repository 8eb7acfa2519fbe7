-- ===== src/Memoria/Server/Kept.antt =====
-- Requests that change which pages are in memory: what they keep.
use so_distribuido.Base.{ℕ, ◌<◌, ◌≡◌, ◌≢◌, sym, ◌∙◌, false, arith}
use so_distribuido.Memoria.Types.{is_negative, minus_one}
use so_distribuido.Memoria.Frames.{first_free_frame}
use so_distribuido.Memoria.Frames.Invariant.{IsValid, Holds}
use so_distribuido.Memoria.Cache.Give.{IsSound}
use so_distribuido.Memoria.Server.{Memory}
use so_distribuido.Memoria.Server.Invariant.{IsConsistent, IsCoherent}

-- Each page that is in the cache after a request was there before, and is in memory where it was.
pub record Kept (m m' : Memory) : Type 0 where
  pub valid : IsValid m'.tables
  pub conf : m'.tables.conf ≡ m.tables.conf
  pub cache_conf : m'.cache.conf ≡ m.cache.conf
  pub sound : IsSound m'.cache
  pub unlocked : (x : ℕ) → m'.cache.locks x ≡ 0
  pub bytes : m'.bytes ≡ m.bytes
  pub reserved :
      (x : ℕ)
      → x < m.tables.frames
      → x < first_free_frame m.tables.conf
      → (m'.tables.table x).pid ≡ minus_one
  pub slots :
      (e : ℕ)
      → e < m.cache.cache_entries
      → is_negative (m'.cache.slots e).pid ≡ false
      → m'.cache.slots e ≡ m.cache.slots e
  pub pages :
      (e f : ℕ)
      → e < m.cache.cache_entries
      → is_negative (m'.cache.slots e).pid ≡ false
      → Holds m.tables (m.cache.slots e).pid (m.cache.slots e).page f
      → (m.cache.slots e).pid ≢ 0
      → m'.tables.table f ≡ m.tables.table f

module _ (m m' : Memory) (k : IsConsistent m) (s : Kept m m') where
  still :
      (e : ℕ)
      → e < m.cache.cache_entries
      → is_negative (m'.cache.slots e).pid ≡ false
      → ((m'.cache.slots e).pid ≢ 0)
        × ((f : ℕ) × Holds m.tables (m'.cache.slots e).pid (m'.cache.slots e).page f
            × Holds m'.tables (m'.cache.slots e).pid (m'.cache.slots e).page f)
  still e b n =
      let (real, holder) = k.resident e b (rw (← s.slots e b n) n) in
      let same = s.pages e holder.0 b n holder.1 real in
      rw (s.slots e b n) (real, (holder.0, holder.1, rw (s.conf, same) holder.1))

  pub Kept-IsConsistent : IsConsistent m'
  Kept-IsConsistent = record {
    valid = s.valid;
    reserved = λ x. rw s.conf (s.reserved x);
    same_conf = s.cache_conf ∙ k.same_conf ∙ sym s.conf;
    sound = s.sound;
    unlocked = s.unlocked;
    resident =
        λ e. rw s.cache_conf (λ b n. let (real, held) = still e b n in (real, (held.0, held.2)));
  }

  pub Kept-IsCoherent : IsCoherent m → IsCoherent m'
  Kept-IsCoherent o = record {
    mirrored = λ e f i.
        rw (s.cache_conf, s.conf, s.bytes)
          (λ b n at lt.
            let (real, held) = still e b n in
            let eq : held.0 ≡ f =
              s.valid.unique held.0 f held.2.0 (rw s.conf at.0) (ground (arith, held.2))
                (ground (arith, held.2)) (ground (arith, held.2)) (ground (arith, held.2)) in
            let was : Holds m.tables (m'.cache.slots e).pid (m'.cache.slots e).page f =
              rw eq at held.1 in
            rw (s.slots e b n)
              (o.mirrored e f i b (rw (s.slots e b n) at n) (rw (s.slots e b n) at was) lt));
  }
