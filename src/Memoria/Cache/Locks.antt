-- ===== src/Memoria/Cache/Locks.antt =====
-- The locks of the cache's entries: a lookup ends with the lock of the entry that it answers, and
-- with no other one that it took.
use so_distribuido.Base.{
  ℕ, zero, suc, ◌+◌, ◌≤◌, ◌<◌, ◌≡◌, refl, Option, none, some, arith, ◌==◌, if◌then◌else◌,
}
use so_distribuido.Memoria.Types.{Cache}
use so_distribuido.Memoria.Cache.{lock, unlock, scan_cache, get_cache_entry}

-- One lock on the entry, if there is one.
abbrev pub held : Option ℕ → ℕ → ℕ
held none x = 0
held (some e) x = if e == x then 1 else 0

-- The cache is as before but for one lock.
pub record Holding (c c' : Cache) (o : Option ℕ) : Type 0 where
  pub same_conf : c'.conf ≡ c.conf
  pub same_slots : c'.slots ≡ c.slots
  pub same_processes : c'.processes ≡ c.processes
  pub locked : (x : ℕ) → c'.locks x ≡ c.locks x + held o x

-- The entry is the page's; no entry from `lo` below `hi` is, where none is answered.
abbrev pub Caches : Cache → ℕ → ℕ → ℕ → Type 0
Caches c pid page e = ((c.slots e).pid ≡ pid) × ((c.slots e).page ≡ page)

scan_cache-Holding :
    (left lo pid page : ℕ) (c : Cache)
    → Holding c (scan_cache left lo pid page c).1 (scan_cache left lo pid page c).0
unfolding scan_cache lock unlock
scan_cache-Holding zero lo pid page c = record {
  same_conf = refl;
  same_slots = refl;
  same_processes = refl;
  locked = λ x. omega arith;
}
scan_cache-Holding (suc left) lo pid page c =
    let s = scan_cache-Holding left (lo + 1) pid page (unlock lo (lock lo c)) in
    record {
      same_conf = ground (arith, s.same_conf);
      same_slots = ground (arith, s.same_slots);
      same_processes = ground (arith, s.same_processes);
      locked = λ x. ground (arith, s.locked x);
    }

scan_cache-hit :
    (left lo pid page e : ℕ) (c : Cache)
    → (scan_cache left lo pid page c).0 ≡ some e
    → (lo ≤ e) × (e < lo + left) × Caches c pid page e
unfolding scan_cache lock unlock
scan_cache-hit zero lo pid page e c h = cc
scan_cache-hit (suc left) lo pid page e c h =
    ground (arith, scan_cache-hit left (lo + 1) pid page e (unlock lo (lock lo c)))

scan_cache-miss :
    (left lo pid page x : ℕ) (c : Cache)
    → (scan_cache left lo pid page c).0 ≡ none
    → lo ≤ x
    → x < lo + left
    → ¬ Caches c pid page x
unfolding scan_cache lock unlock
scan_cache-miss zero lo pid page x c h a b = absurd (omega arith)
scan_cache-miss (suc left) lo pid page x c h a b =
    ground (arith, scan_cache-miss left (lo + 1) pid page x (unlock lo (lock lo c)))

-- The lookup in the cache answers an entry of the page, and CACHE_MISS only if no entry is
-- the page's. It leaves the cache as it was, with one lock more on the entry that it answers
-- and none else.
pub get_cache_entry-Holding :
    (pid page : ℕ) (c : Cache)
    → let r = get_cache_entry pid page c in
      Holding c r.1 r.0
      × ((e : ℕ) → r.0 ≡ some e → (e < c.cache_entries) × Caches c pid page e)
      × (r.0 ≡ none → (x : ℕ) → x < c.cache_entries → ¬ Caches c pid page x)
unfolding get_cache_entry
get_cache_entry-Holding pid page c = (
  scan_cache-Holding c.cache_entries 0 pid page c,
  λ e h. ground (arith, scan_cache-hit c.cache_entries 0 pid page e c),
  λ h x k. scan_cache-miss c.cache_entries 0 pid page x c h (omega arith) (omega arith),
)
