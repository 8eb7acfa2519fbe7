-- ===== src/Memoria/Server/Start.antt =====
-- The memory process after load, and the requests for pages.
use so_distribuido.Base.{ℕ, zero, suc, ◌+◌, ◌^◌, ◌<◌, ◌≡◌, refl, sym, ◌∙◌, false, arith, Buffer, []}
use native.Mathlib.Decide.{dec_lt}
use so_distribuido.Memoria.Types.{Conf, Reg, Entry, Cache, is_negative, minus_one}
use so_distribuido.Memoria.Frames.Load.{load-IsValid, load-same_conf}
use so_distribuido.Memoria.Cache.{load_entries, load_cache}
use so_distribuido.Memoria.Cache.Accounting.{
  slots_of, entries_of, nodes, slots_of-pos, find_entries,
}
use so_distribuido.Memoria.Cache.Give.{IsSound}
use so_distribuido.Memoria.Server.{load_memory}
use so_distribuido.Memoria.Server.Invariant.{IsConsistent, IsCoherent}

-- A cache of which the first `n` entries are empty.
record Emptied (conf : Conf) (c : Cache) (n : ℕ) : Type 0 where
  same_conf : c.conf ≡ conf
  no_process : c.processes ≡ []
  unlocked : (x : ℕ) → c.locks x ≡ 0
  emptied : (x : ℕ) → x < n → (c.slots x).pid ≡ minus_one

load_entries-Emptied :
    (left n : ℕ) (conf : Conf) (c : Cache)
    → Emptied conf c n
    → Emptied conf (load_entries left n c) (n + left)
unfolding load_entries
load_entries-Emptied zero n conf c h = let e : n + 0 ≡ n = omega arith in rw e h
load_entries-Emptied (suc left) n conf c h =
    let e : n + suc left ≡ n + 1 + left = omega arith in
    rw e (
      load_entries-Emptied left (n + 1) conf _ (record {
        same_conf = h.same_conf;
        no_process = h.no_process;
        unlocked = h.unlocked;
        emptied = λ x b. ground (arith, h.emptied x);
      }))

load_cache-Emptied :
    (conf : Conf) (garbage : ℕ → Entry) → Emptied conf (load_cache conf garbage) conf.cache_entries
unfolding load_cache
load_cache-Emptied conf garbage =
    let e : 0 + conf.cache_entries ≡ conf.cache_entries = omega arith in
    rw e at (
      load_entries-Emptied conf.cache_entries 0 conf
        (record { conf = conf; slots = garbage; processes = []; locks = λ _. 0 })
        (record {
          same_conf = refl;
          no_process = refl;
          unlocked = λ x. refl;
          emptied = λ x b. absurd (omega arith);
        }))

Emptied-IsSound :
    (conf : Conf) (c : Cache)
    → Emptied conf c conf.cache_entries
    → 0 < conf.cache_entries
    → conf.cache_entries < 2 ^ 15
    → 0 < conf.cache_x_process
    → IsSound c
Emptied-IsSound conf c h some_entries few limited =
    let none_of : (q : ℕ) → is_negative q ≡ false → slots_of q c.cache_entries c.slots ≡ 0 = λ q k.
      elim (dec_lt 0 (slots_of q c.cache_entries c.slots)) [
        | no n ↦ omega arith
        | yes p ↦
            let (x, b, at) = slots_of-pos q c.cache_entries c.slots p in
            absurd (ground (arith, h.emptied x, h.same_conf))
      ] in
    record {
      accounted = record {
        some_entries = rw h.same_conf some_entries;
        few_entries = rw h.same_conf few;
        once = λ q. rw h.no_process (unfold nodes in omega arith);
        counted = λ q k. rw (h.no_process, none_of q k) (unfold entries_of find_entries in refl);
      };
      limited = rw h.same_conf limited;
      within = λ q k. omega (arith, none_of q k);
      distinct = λ x y a b n. absurd (ground (arith, h.emptied x, h.same_conf));
    }

-- With some frames, between 1 and 2^15 - 1 entries of cache and a positive limit of entries
-- for a process, the state after load is consistent and the cache agrees with the memory,
-- whatever malloc left in it.
pub load_memory-IsConsistent :
    (conf : Conf) (regs : ℕ → Reg) (entries : ℕ → Entry) (bytes : Buffer)
    → 0 < conf.frames
    → 0 < conf.cache_entries
    → conf.cache_entries < 2 ^ 15
    → 0 < conf.cache_x_process
    → IsConsistent (load_memory conf regs entries bytes)
      × IsCoherent (load_memory conf regs entries bytes)
unfolding load_memory
load_memory-IsConsistent conf regs entries bytes some_frames some_entries few limited =
    let h = load_cache-Emptied conf entries in
    let (valid, reserved, _) = load-IsValid conf regs some_frames in
    let same = load-same_conf conf regs in
    let nothing : (e : ℕ)
        → e < (load_cache conf entries).cache_entries
        → is_negative ((load_cache conf entries).slots e).pid ≡ false
        → ⊥ =
      λ e b n. ground (arith, h.emptied e, h.same_conf) in
    (
      record {
        valid = valid;
        reserved = λ x. rw same (reserved x);
        same_conf = h.same_conf ∙ sym same;
        sound = Emptied-IsSound conf _ h some_entries few limited;
        unlocked = h.unlocked;
        resident = λ e b n. absurd (nothing e b n);
      },
      record { mirrored = λ e f i b n. absurd (nothing e b n) },
    )
