-- ===== src/Memoria/Cache/Limit.antt =====
-- cache_x_process_list agrees with the cache, no process has more entries than cache_x_process,
-- and so a page always gets an entry.
use so_distribuido.Base.{
  ℕ, ◌+◌, ◌^◌, ◌≤◌, ◌<◌, ◌≡◌, refl, inl, inr, List, [], ◌∷◌, ◌++◌, none, some, Bool, false, arith,
  ◌==◌, leb, if◌then◌else◌, update, Buffer, Bool-cases, Option-cases,
}
use native.Mathlib.Decide.{ℕ_discrete}
use so_distribuido.Memoria.Types.{Cache, Entry, ProcessEntries, Text, is_negative}
use so_distribuido.Memoria.Cache.{
  count_up, count_over, update_processes, update_cache, unlock, widen16, max_entries_exceeded,
  assign_cache_entry,
}
use so_distribuido.Memoria.Cache.Lru.{assign_cache_entry-Choice}
use so_distribuido.Memoria.Cache.Accounting.{
  find_entries, entries_of, nodes, slots_of, slots_of-le, slots_of-pos, slots_of-own,
  slots_of-update, count_up-find, count_up-nodes, count_over-find, count_over-nodes,
  count_over-found, find_entries-absent,
}

-- Each process has one node at most, and its count is the number of entries that it has. The
-- cache has fewer entries than an int16_t counts.
pub record IsAccounted (c : Cache) : Type 0 where
  pub some_entries : 0 < c.cache_entries
  pub few_entries : c.cache_entries < 2 ^ 15
  pub once : (q : ℕ) → nodes q c.processes ≤ 1
  pub counted :
      (q : ℕ)
      → is_negative q ≡ false
      → entries_of q c.processes ≡ slots_of q c.cache_entries c.slots

find_entries-add :
    (q pid : ℕ) (ps : List ProcessEntries)
    → nodes pid ps ≡ 0
    → find_entries q (ps ++ record { pid = pid; entries = 1 } ∷ [])
      ≡ (if pid == q then some 1 else find_entries q ps)
unfolding find_entries nodes
find_entries-add q pid [] h = ground arith
find_entries-add q pid (p ∷ ps) h = ground (arith, find_entries-add q pid ps)

nodes-add :
    (q pid : ℕ) (ps : List ProcessEntries)
    → nodes q (ps ++ record { pid = pid; entries = 1 } ∷ [])
      ≡ nodes q ps + (if pid == q then 1 else 0)
unfolding nodes
nodes-add q pid [] = ground arith
nodes-add q pid (p ∷ ps) = omega (arith, nodes-add q pid ps)

find_entries-present :
    (q : ℕ) (ps : List ProcessEntries) → find_entries q ps ≡ none → nodes q ps ≡ 0
unfolding find_entries nodes
find_entries-present q [] h = refl
find_entries-present q (p ∷ ps) h = ground (arith, find_entries-present q ps)

module _ (previous pid : ℕ) (ps : List ProcessEntries) (once : (q : ℕ) → nodes q ps ≤ 1) where
  update_processes-once : (q : ℕ) → nodes q (update_processes previous pid ps) ≤ 1
  unfolding update_processes
  update_processes-once q = ground (
    arith,
    once q,
    once pid,
    count_up-nodes pid q ps,
    count_over-nodes previous pid q false false ps,
    count_over-found previous pid false false ps,
    nodes-add q pid (count_up pid ps).1,
    nodes-add q pid (count_over previous pid false false ps).1,
  )

  -- The counts after an entry passed from `previous`, or from nobody, to `pid`.
  update_processes-entries :
      (q : ℕ)
      → is_negative q ≡ false
      → entries_of q ps < 2 ^ 15
      → (previous ≡ q → 0 < entries_of q ps)
      → entries_of q (update_processes previous pid ps) + (if previous == q then 1 else 0)
        ≡ entries_of q ps + (if pid == q then 1 else 0)
  unfolding update_processes entries_of
  update_processes-entries q nonneg small had = elim (Bool-cases (is_negative previous)) [
    | inl empty ↦ rw empty (
        ground (
          arith,
          count_up-find pid q ps,
          count_up-nodes pid pid ps,
          find_entries-absent pid ps,
          find_entries-present pid ps,
          find_entries-add q pid (count_up pid ps).1,
        ))
    | inr busy ↦ elim (ℕ_discrete previous pid) [
      | yes same ↦ ground arith
      | no other ↦ rw busy (
          ground (
            arith,
            once pid,
            once previous,
            count_over-find previous pid q false false ps,
            count_over-found previous pid false false ps,
            count_over-nodes previous pid pid false false ps,
            find_entries-absent pid ps,
            find_entries-present pid ps,
            find_entries-add q pid (count_over previous pid false false ps).1,
          ))
    ]
  ]

-- Giving an entry of the cache to a page keeps the counts right: each process has one node
-- at most in cache_x_process_list, and its count is the number of entries that it has.
pub update_cache-IsAccounted :
    (e pid page offset size : ℕ) (buffer : Buffer) (now : Text) (c : Cache)
    → IsAccounted c
    → e < c.cache_entries
    → IsAccounted (update_cache e pid page offset size buffer now c)
unfolding update_cache unlock
update_cache-IsAccounted e pid page offset size buffer now c a inside =
    let previous = (c.slots e).pid in
    let had : (q : ℕ) → is_negative q ≡ false → previous ≡ q → 0 < entries_of q c.processes =
      λ q k same.
        ground (arith, a.counted q, slots_of-own q c.cache_entries e c.slots inside same) in
    record {
      some_entries = a.some_entries;
      few_entries = a.few_entries;
      once = update_processes-once previous pid c.processes a.once;
      counted = λ q k. omega (
        arith,
        a.counted q k,
        slots_of-le q c.cache_entries c.slots,
        a.few_entries,
        update_processes-entries previous pid c.processes a.once q k
            (omega (arith, a.counted q k, slots_of-le q c.cache_entries c.slots, a.few_entries))
            (had q k),
        slots_of-update q c.cache_entries e c.slots _ inside,
      );
    }

-- What the test on the count says of it.
exceeded-limit :
    (limit pid : ℕ) (ps : List ProcessEntries)
    → entries_of pid ps < 2 ^ 15
    → 0 < limit
    → max_entries_exceeded limit pid ps ≡ leb limit (entries_of pid ps)
unfolding max_entries_exceeded entries_of find_entries widen16
exceeded-limit limit pid [] h k = ground arith
exceeded-limit limit pid (p ∷ ps) h k = ground (arith, exceeded-limit limit pid ps)

-- The choice of an entry, in terms of the entries that the process has.
module _ (pid : ℕ) (c : Cache) (a : IsAccounted c) (limited : 0 < c.cache_x_process)
    (nonneg : is_negative pid ≡ false) where
  test : Bool
  test = max_entries_exceeded c.cache_x_process pid c.processes

  test-eq : test ≡ leb c.cache_x_process (slots_of pid c.cache_entries c.slots)
  unfolding test
  test-eq =
      let e = a.counted pid nonneg in
      rw (
        exceeded-limit c.cache_x_process pid c.processes
            (omega (arith, e, slots_of-le pid c.cache_entries c.slots, a.few_entries)) limited,
        e,
      )

  -- With right counts, a positive limit and a pid that is not negative, an entry of the
  -- cache is always found.
  pub assign_cache_entry-some :
      (e : ℕ) × ((assign_cache_entry pid c).0 ≡ some e) × (e < c.cache_entries)
  unfolding test
  assign_cache_entry-some = elim (assign_cache_entry-Choice pid c).1 [
    | inr (_, (e, at, inside, _)) ↦ (e, at, inside)
    | inl (old, _) ↦ elim (Option-cases (assign_cache_entry pid c).0) [
      | inr (e, at) ↦ (e, at, (old.inside e at).0)
      | inl at ↦ elim (Bool-cases (test)) [
        | inl own ↦
            let (x, b, mine) = slots_of-pos pid c.cache_entries c.slots (ground (arith, test-eq)) in
            absurd (old.none_left at x b (λ _. mine))
        | inr room ↦ absurd (old.none_left at 0 a.some_entries (λ k. ground arith))
      ]
    ]
  ]

  -- No process goes over the limit by it.
  pub assign_cache_entry-limit :
      (e : ℕ) (new : Entry)
      → (assign_cache_entry pid c).0 ≡ some e
      → new.pid ≡ pid
      → (q : ℕ) → slots_of q c.cache_entries c.slots ≤ c.cache_x_process
      → slots_of q c.cache_entries (update c.slots e new) ≤ c.cache_x_process
  unfolding test
  assign_cache_entry-limit e new at mine q below =
      let (k, at', inside) = assign_cache_entry-some in
      let moved = slots_of-update q c.cache_entries e c.slots new (ground arith) in
      elim (assign_cache_entry-Choice pid c).1 [
        | inr (room, _) ↦ ground (arith, test-eq, moved)
        | inl (old, _) ↦ ground (arith, test-eq, moved, old.inside e)
      ]
