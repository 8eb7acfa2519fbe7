-- ===== src/Memoria/Cache/Give.antt =====
-- An entry given to a page: by a lookup that hits, or by the choice of an entry on a miss, and then
-- update_cache.
use so_distribuido.Base.{
  ℕ, ◌≤◌, ◌<◌, ◌≡◌, refl, ◌∙◌, inl, inr, Option, none, some, false, arith, update, Buffer, memcpy,
  Option-cases,
}
use so_distribuido.Memoria.Types.{Cache, Entry, Text, is_negative}
use so_distribuido.Memoria.Cache.{
  get_cache_entry, assign_cache_entry, update_cache, unlock, entry_to_write,
}
use so_distribuido.Memoria.Cache.Locks.{Holding, Caches, get_cache_entry-Holding}
use so_distribuido.Memoria.Cache.Lru.{assign_cache_entry-Choice}
use so_distribuido.Memoria.Cache.Accounting.{slots_of, slots_of-same, slots_of-update}
use so_distribuido.Memoria.Cache.Limit.{
  IsAccounted, update_cache-IsAccounted, assign_cache_entry-some, assign_cache_entry-limit,
}

-- The counts are right, no process is over the limit, and no page has two entries.
pub record IsSound (c : Cache) : Type 0 where
  pub accounted : IsAccounted c
  pub limited : 0 < c.cache_x_process
  pub within :
      (q : ℕ) → is_negative q ≡ false → slots_of q c.cache_entries c.slots ≤ c.cache_x_process
  pub distinct :
      (x y : ℕ)
      → x < c.cache_entries
      → y < c.cache_entries
      → is_negative (c.slots x).pid ≡ false
      → (c.slots x).pid ≡ (c.slots y).pid
      → (c.slots x).page ≡ (c.slots y).page
      → x ≡ y

-- It is a matter of the counts and of the pages of the entries, not of their contents and locks.
pub same_pages-IsSound :
    (c c' : Cache)
    → c'.conf ≡ c.conf
    → c'.processes ≡ c.processes
    → ((x : ℕ) → (c'.slots x).pid ≡ (c.slots x).pid)
    → ((x : ℕ) → (c'.slots x).page ≡ (c.slots x).page)
    → IsSound c
    → IsSound c'
same_pages-IsSound c c' conf processes pids pages s = record {
  accounted = record {
    some_entries = rw conf s.accounted.some_entries;
    few_entries = rw conf s.accounted.few_entries;
    once = λ q. rw processes (s.accounted.once q);
    counted = λ q k.
        rw (processes, conf, slots_of-same q c.cache_entries c.slots c'.slots pids)
          (s.accounted.counted q k);
  };
  limited = rw conf s.limited;
  within = λ q k. rw (conf, slots_of-same q c.cache_entries c.slots c'.slots pids) (s.within q k);
  distinct = λ x y. rw (conf, pids x, pids y, pages x, pages y) (s.distinct x y);
}

pub Holding-IsSound : (c c' : Cache) (o : Option ℕ) → Holding c c' o → IsSound c → IsSound c'
Holding-IsSound c c' o h s =
    same_pages-IsSound c c' h.same_conf h.same_processes (λ x. rw h.same_slots)
      (λ x. rw h.same_slots) s

-- An entry that may be given to the page: the only one that can be the page's, and one by which
-- no process goes over the limit.
pub record Gives (c c' : Cache) (pid page e : ℕ) : Type 0 where
  pub inside : e < c.cache_entries
  pub holding : Holding c c' (some e)
  pub only : (x : ℕ) → x < c.cache_entries → Caches c pid page x → x ≡ e
  pub keeps_limit :
      (new : Entry)
      → new.pid ≡ pid
      → (q : ℕ) → is_negative q ≡ false
      → slots_of q c.cache_entries (update c.slots e new) ≤ c.cache_x_process

pub assign_cache_entry-Gives :
    (pid page : ℕ) (c : Cache)
    → IsSound c
    → is_negative pid ≡ false
    → ((x : ℕ) → x < c.cache_entries → ¬ Caches c pid page x)
    → (e : ℕ) × ((assign_cache_entry pid c).0 ≡ some e)
      × Gives c (assign_cache_entry pid c).1 pid page e
assign_cache_entry-Gives pid page c s nonneg missing =
    let (e, at, inside) = assign_cache_entry-some pid c s.accounted s.limited nonneg in
    (
      e,
      at,
      record {
        inside = inside;
        holding = rw at at ((assign_cache_entry-Choice pid c).0);
        only = λ x b k. absurd (missing x b k);
        keeps_limit = λ new mine q k.
            assign_cache_entry-limit pid c s.accounted s.limited nonneg e new at mine q
              (s.within q k);
      },
    )

pub get_cache_entry-Gives :
    (pid page e : ℕ) (c : Cache)
    → IsSound c
    → is_negative pid ≡ false
    → (get_cache_entry pid page c).0 ≡ some e
    → Gives c (get_cache_entry pid page c).1 pid page e
get_cache_entry-Gives pid page e c s nonneg at =
    let (holding, hit, miss) = get_cache_entry-Holding pid page c in
    let (inside, mine) = hit e at in
    record {
      inside = inside;
      holding = rw at at holding;
      only = λ x b k. ground (arith, s.distinct x e);
      keeps_limit = λ new same q k.
          ground (arith, slots_of-update q c.cache_entries e c.slots new, s.within q);
    }

-- A cache taken from one holder to the next.
pub Holding-none :
    (c c' : Cache) (e : ℕ) (c'' : Cache)
    → Holding c c' none
    → Holding c' c'' (some e)
    → Holding c c'' (some e)
Holding-none c c' e c'' h k = record {
  same_conf = k.same_conf ∙ h.same_conf;
  same_slots = k.same_slots ∙ h.same_slots;
  same_processes = k.same_processes ∙ h.same_processes;
  locked = λ x. omega (arith, k.locked x, h.locked x);
}

pub entry_to_write-miss :
    (pid page : ℕ) (c : Cache)
    → (get_cache_entry pid page c).0 ≡ none
    → entry_to_write pid page c ≡ assign_cache_entry pid (get_cache_entry pid page c).1
unfolding entry_to_write
entry_to_write-miss pid page c at = rw (at, entry_to_write)

-- On a hit and on a miss alike, the page gets an entry.
pub entry_to_write-Gives :
    (pid page : ℕ) (c : Cache)
    → IsSound c
    → is_negative pid ≡ false
    → (e : ℕ) × ((entry_to_write pid page c).0 ≡ some e)
      × Gives c (entry_to_write pid page c).1 pid page e
unfolding entry_to_write
entry_to_write-Gives pid page c s nonneg = elim (Option-cases (get_cache_entry pid page c).0) [
  | inr (e, at) ↦ (
    e,
    rw (at, entry_to_write),
    rw (at, entry_to_write) (get_cache_entry-Gives pid page e c s nonneg at),
  )
  | inl at ↦
      let (h, _, miss) = get_cache_entry-Holding pid page c in
      let c' = (get_cache_entry pid page c).1 in
      let h' = rw at at h in
      let (e, found, g) =
        assign_cache_entry-Gives pid page c' (Holding-IsSound c c' none h' s) nonneg
          (λ x b k. miss at x (rw h.same_conf at b) (rw h.same_slots at k)) in
      (
        e,
        rw (at, entry_to_write) found,
        rw (at, entry_to_write)
            (record {
              inside = rw h.same_conf at g.inside;
              holding = Holding-none c c' e _ h' g.holding;
              only = λ x b k. g.only x (rw h.same_conf b) (rw h.same_slots k);
              keeps_limit =
                  λ new same q k. rw (h.same_conf, h.same_slots) at (g.keeps_limit new same q k);
            }),
      )
]

-- From a sound cache, with an entry that a lookup or a choice gave to the page, the update
-- leaves a sound cache: the counts are right, no process is over the limit, and no page has
-- two entries. The lock of the entry is given back, and the entry alone changes, with the
-- bytes written into its content.
pub update_cache-IsSound :
    (pid page e offset size : ℕ) (buffer : Buffer) (now : Text) (c c' : Cache)
    → IsSound c
    → Gives c c' pid page e
    → let c'' = update_cache e pid page offset size buffer now c' in
      IsSound c''
      × ((x : ℕ) → c''.locks x ≡ c.locks x)
      × (c''.conf ≡ c.conf)
      × (c''.slots
          ≡ update c.slots e (record {
            pid = pid;
            page = page;
            content = memcpy (c.slots e).content offset buffer size;
            last_used = now;
          }))
unfolding update_cache unlock
update_cache-IsSound pid page e offset size buffer now c c' s g =
    let h = g.holding in
    let sound = Holding-IsSound c c' (some e) h s in
    (
      record {
        accounted =
            update_cache-IsAccounted e pid page offset size buffer now c' sound.accounted
              (rw h.same_conf g.inside);
        limited = sound.limited;
        within = λ q k. rw (h.same_slots, h.same_conf) (g.keeps_limit _ refl q k);
        distinct = λ x y a b n p k.
            ground (arith, h.same_conf, h.same_slots, s.distinct x y, g.only x, g.only y);
      },
      λ x. ground (arith, h.locked x, h.locked e),
      h.same_conf,
      rw h.same_slots,
    )
