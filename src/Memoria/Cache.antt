-- ===== src/Memoria/Cache.antt =====
-- The cache of memoria.c: one entry for a page, at most cache_x_process entries for a process, and
-- the least recently used entry given away. `now` is what temporal_get_string_time returned.
pub mod Locks
pub mod Lru
pub mod Accounting
pub mod Limit
pub mod Give
use so_distribuido.Base.{
  ℕ, zero, suc, ◌+◌, ◌-◌, ◌%◌, ◌^◌, List, [], ◌∷◌, ◌++◌, Option, none, some, Bool, true, false,
  ◌&&◌, ◌||◌, not, ◌==◌, ltb, leb, if◌then◌else◌, update, Buffer, memcpy,
}
use so_distribuido.Memoria.Types.{
  Conf, Text, Entry, ProcessEntries, Cache, word, minus_one, is_negative,
}

-- The loop of load over the cache; the content and the time stay what malloc left there.
unfoldable pub load_entries : ℕ → ℕ → Cache → Cache
load_entries zero entry c = c
load_entries (suc left) entry c = load_entries left (entry + 1) (record c {
  slots = update c.slots entry (record (c.slots entry) { pid = minus_one; page = minus_one });
})

-- load, from the cache on. `garbage` is what malloc left in the memory.
unfoldable pub load_cache : Conf → (ℕ → Entry) → Cache
load_cache conf garbage =
    load_entries conf.cache_entries 0
      (record { conf = conf; slots = garbage; processes = []; locks = λ _. 0 })

-- `strcmp(a, b) < 0`
unfoldable pub text_lt : Text → Text → Bool
text_lt a [] = false
text_lt [] (y ∷ ys) = true
text_lt (x ∷ xs) (y ∷ ys) = let rest = text_lt xs ys in if x == y then rest else ltb x y

-- rw_lock_unlock(cache_memory_locks, LOCK_READ or LOCK_WRITE, entry), and with UNLOCK
unfoldable pub lock : ℕ → Cache → Cache
lock entry c = record c { locks = update c.locks entry (c.locks entry + 1) }

unfoldable pub unlock : ℕ → Cache → Cache
unlock entry c = record c { locks = update c.locks entry (c.locks entry - 1) }

-- get_cache_entry: the first entry of the page, whose lock is held then; CACHE_MISS is `none`.
unfoldable pub scan_cache : ℕ → ℕ → ℕ → ℕ → Cache → Option ℕ × Cache
scan_cache zero entry pid page c = (none, c)
scan_cache (suc left) entry pid page c =
    let locked = lock entry c in
    let more = scan_cache left (entry + 1) pid page (unlock entry locked) in
    if (c.slots entry).pid == pid && (c.slots entry).page == page
    then (some entry, locked)
    else more

unfoldable pub get_cache_entry : ℕ → ℕ → Cache → Option ℕ × Cache
get_cache_entry pid page c = scan_cache c.cache_entries 0 pid page c

-- An int16_t converted to uint32_t.
unfoldable pub widen16 : ℕ → ℕ
widen16 e = if ltb e (2 ^ 15) then e else e + word - 2 ^ 16

-- Whether the process has as many entries as one may have.
unfoldable pub max_entries_exceeded : ℕ → ℕ → List ProcessEntries → Bool
max_entries_exceeded limit pid [] = false
max_entries_exceeded limit pid (p ∷ ps) =
    if p.pid == pid then leb limit (widen16 p.entries) else max_entries_exceeded limit pid ps

-- least_recently_used: keeps the lock of the older one of two entries, and gives up the other's.
unfoldable pub least_recently_used : ℕ → Option ℕ → Cache → Option ℕ × Cache
least_recently_used entry none c = (some entry, c)
least_recently_used entry (some lru) c =
    if text_lt (c.slots entry).last_used (c.slots lru).last_used
    then (some entry, unlock lru c)
    else (some lru, unlock entry c)

-- One round of the loop of assign_cache_entry; true if the function returns in it.
unfoldable pub assign_round : ℕ → Option ℕ → ℕ → Bool → Cache → Bool × (Option ℕ × Cache)
assign_round entry lru pid true c =
    let locked = lock entry c in
    if (c.slots entry).pid == pid
    then (false, least_recently_used entry lru locked)
    else (false, (lru, unlock entry locked))
assign_round entry lru pid false c =
    let locked = lock entry c in
    if is_negative (c.slots entry).pid
    then (true, (some entry, elim lru [ none ↦ locked | some l ↦ unlock l locked ]))
    else (false, least_recently_used entry lru locked)

unfoldable pub assign_scan : ℕ → ℕ → Option ℕ → ℕ → Bool → Cache → Option ℕ × Cache
assign_scan zero entry lru pid exceeded c = (lru, c)
assign_scan (suc left) entry lru pid exceeded c =
    let round = assign_round entry lru pid exceeded c in
    let more = assign_scan left (entry + 1) round.1.0 pid exceeded round.1.1 in
    if round.0 then round.1 else more

-- -1 is `none`.
unfoldable pub assign_cache_entry : ℕ → Cache → Option ℕ × Cache
assign_cache_entry pid c =
    assign_scan c.cache_entries 0 none pid (max_entries_exceeded c.cache_x_process pid c.processes)
      c

-- The loop of update_cache over cache_x_process_list where the entry was empty; true if it found
-- the process.
unfoldable pub count_up : ℕ → List ProcessEntries → Bool × List ProcessEntries
count_up pid [] = (false, [])
count_up pid (p ∷ ps) =
    let (updated, rest) = count_up pid ps in
    if p.pid == pid
    then (true, record p { entries = (p.entries + 1) % 2 ^ 16 } ∷ ps)
    else (updated, p ∷ rest)

-- The same loop where the entry was of `previous`. A node whose count falls to 0 stays: the code
-- removes at the position `index`, which no variable declares and is the address of a function
-- of libc, and no list is that long.
unfoldable pub count_over : ℕ → ℕ → Bool → Bool → List ProcessEntries → Bool × List ProcessEntries
count_over previous pid updated previous_updated [] = (updated, [])
count_over previous pid updated previous_updated (p ∷ ps) =
    let was = p.pid == previous in
    let is = p.pid == pid in
    let p' = record p {
      entries =
          if was
          then (p.entries + 2 ^ 16 - 1) % 2 ^ 16
          else (if is then (p.entries + 1) % 2 ^ 16 else p.entries);
    } in
    let stop = (if was then updated else is && previous_updated) in
    let rest = count_over previous pid (updated || (not was && is)) (previous_updated || was) ps in
    if stop then (true, p' ∷ ps) else (rest.0, p' ∷ rest.1)

unfoldable pub update_processes : ℕ → ℕ → List ProcessEntries → List ProcessEntries
update_processes previous pid ps =
    let counted =
      (if is_negative previous then count_up pid ps else count_over previous pid false false ps) in
    if is_negative previous || not (previous == pid)
    then (if counted.0 then counted.1 else counted.1 ++ record { pid = pid; entries = 1 } ∷ [])
    else ps

unfoldable pub update_cache : ℕ → ℕ → ℕ → ℕ → ℕ → Buffer → Text → Cache → Cache
update_cache entry pid page offset size buffer now c =
    let old = c.slots entry in
    let new : Entry = record {
      pid = pid;
      page = page;
      content = memcpy old.content offset buffer size;
      last_used = now;
    } in
    unlock entry (record c {
      slots = update c.slots entry new;
      processes = update_processes old.pid pid c.processes;
    })

-- The first lines of writing_cache: the entry of the page, or one that is given to it.
unfoldable pub entry_to_write : ℕ → ℕ → Cache → Option ℕ × Cache
entry_to_write pid page c =
    let (hit, c') = get_cache_entry pid page c in
    elim hit [ some e ↦ (some e, c') | none ↦ assign_cache_entry pid c' ]
