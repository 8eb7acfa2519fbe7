-- ===== src/Memoria/Server/Given.antt =====
-- An entry of the cache given to a page by a request, and what that keeps.
use so_distribuido.Base.{ℕ, ◌<◌, ◌≡◌, ◌≢◌, ◌∙◌, arith, update, Buffer}
use native.Mathlib.Decide.{ℕ_discrete}
use so_distribuido.Memoria.Types.{Text}
use so_distribuido.Memoria.Frames.Invariant.{Holds}
use so_distribuido.Memoria.Cache.Locks.{Caches}
use so_distribuido.Memoria.Cache.Give.{IsSound}
use so_distribuido.Memoria.Server.{Memory, address}
use so_distribuido.Memoria.Server.Invariant.{IsProper, IsConsistent, IsCoherent}

-- Entry `e`, the only one that could be the page's, now is the page's and has the content.
pub record Given (m m' : Memory) (pid page e : ℕ) (content : Buffer) (now : Text) : Type 0 where
  pub tables : m'.tables ≡ m.tables
  pub client : m'.kernel_client ≡ m.kernel_client
  pub sound : IsSound m'.cache
  pub locks : (x : ℕ) → m'.cache.locks x ≡ m.cache.locks x
  pub conf : m'.cache.conf ≡ m.cache.conf
  pub slots :
      m'.cache.slots
      ≡ update m.cache.slots e
          (record { pid = pid; page = page; content = content; last_used = now })
  pub inside : e < m.cache.cache_entries
  pub only : (x : ℕ) → x < m.cache.cache_entries → Caches m.cache pid page x → x ≡ e

module _ (m m' : Memory) (pid page e f : ℕ) (content : Buffer) (now : Text) where
  pub Given-IsConsistent :
      IsConsistent m
      → Given m m' pid page e content now
      → IsProper pid
      → Holds m.tables pid page f
      → IsConsistent m'
  Given-IsConsistent k g proper holds = record {
    valid = rw g.tables k.valid;
    reserved = λ x. rw g.tables (k.reserved x);
    same_conf = rw (g.conf, g.tables) k.same_conf;
    sound = g.sound;
    unlocked = λ x. g.locks x ∙ k.unlocked x;
    resident = λ x.
        rw (g.conf, g.slots, g.tables)
          (λ b n. elim (ℕ_discrete e x) [
            | yes same ↦ (ground arith, (f, ground arith))
            | no other ↦
                let (p, holder) = k.resident x b (ground arith) in
                (ground arith, (holder.0, ground (arith, holder.1)))
          ]);
  }

  -- The content agrees with the frame of the page, and the bytes of the other frames are kept.
  pub Given-IsCoherent :
      IsConsistent m
      → IsCoherent m
      → Given m m' pid page e content now
      → IsProper pid
      → Holds m.tables pid page f
      → ((i : ℕ) → i < m.tables.frame_size → content i ≡ m'.bytes (address m.tables.conf f i))
      → ((x i : ℕ)
          → x ≢ f
          → x < m.tables.frames
          → i < m.tables.frame_size
          → m'.bytes (address m.tables.conf x i) ≡ m.bytes (address m.tables.conf x i))
      → IsCoherent m'
  Given-IsCoherent k o g proper holds same kept = record {
    mirrored = λ x h i.
        rw (g.conf, g.slots, g.tables)
          (λ b n at lt. elim (ℕ_discrete e x) [
            | yes eq ↦ ground (arith, same i, k.valid.unique h f)
            | no other ↦ ground (arith, o.mirrored x h i, kept h i, g.only x)
          ]);
  }
