-- ===== src/Memoria/Server/Forget.antt =====
-- The cache after a page is deleted or a process ends.
use so_distribuido.Base.{
  ℕ, zero, suc, ◌+◌, ◌≤◌, ◌<◌, ◌≡◌, ◌≢◌, refl, ◌⊎◌, inl, inr, none, List, [], ◌∷◌, false, arith,
  ◌==◌, if◌then◌else◌, update, Bool-cases,
}
use native.Mathlib.Decide.{ℕ_discrete, dec_lt}
use so_distribuido.Memoria.Types.{Entry, Cache, ProcessEntries, is_negative}
use so_distribuido.Memoria.Cache.{lock, unlock}
use so_distribuido.Memoria.Cache.Accounting.{
  slots_of, entries_of, nodes, slots_of-pos, slots_of-alike, find_entries, find_entries-absent,
}
use so_distribuido.Memoria.Cache.Give.{IsSound}
use so_distribuido.Memoria.Server.{forgotten, forget_process, drop_entries}

-- The entries from `lo` below `hi` that were the process's are empty, and the others as before.
record Forgets (pid lo hi : ℕ) (c c' : Cache) : Type 0 where
  same_conf : c'.conf ≡ c.conf
  same_processes : c'.processes ≡ c.processes
  same_locks : (x : ℕ) → c'.locks x ≡ c.locks x
  emptied : (x : ℕ) → lo ≤ x → x < hi → (c.slots x).pid ≡ pid → c'.slots x ≡ forgotten (c.slots x)
  kept : (x : ℕ) → (x < lo) ⊎ ((c.slots x).pid ≢ pid) → c'.slots x ≡ c.slots x

forget_process-Forgets :
    (left lo pid : ℕ) (c : Cache) → Forgets pid lo (lo + left) c (forget_process left lo pid c)
unfolding forget_process lock unlock
forget_process-Forgets zero lo pid c = record {
  same_conf = refl;
  same_processes = refl;
  same_locks = λ x. refl;
  emptied = λ x a b. absurd (omega arith);
  kept = λ x h. refl;
}
forget_process-Forgets (suc left) lo pid c = elim (Bool-cases ((c.slots lo).pid == pid)) [
  | inl e ↦
      let ih =
        forget_process-Forgets left (lo + 1) pid
          (unlock lo (record (lock lo c) { slots = update c.slots lo (forgotten (c.slots lo)) })) in
      rw e (record {
        same_conf = ih.same_conf;
        same_processes = ih.same_processes;
        same_locks = λ x. ground (arith, ih.same_locks x);
        emptied = λ x a b own. ground (arith, ih.emptied x, ih.kept x);
        kept = λ x h. ground (arith, ih.kept x);
      })
  | inr e ↦
      let ih = forget_process-Forgets left (lo + 1) pid (unlock lo (lock lo c)) in
      rw e (record {
        same_conf = ih.same_conf;
        same_processes = ih.same_processes;
        same_locks = λ x. ground (arith, ih.same_locks x);
        emptied = λ x a b own. ground (arith, ih.emptied x, ih.kept x);
        kept = λ x h. ground (arith, ih.kept x);
      })
]

drop_entries-nodes :
    (pid q : ℕ) (ps : List ProcessEntries) → nodes q (drop_entries pid ps) ≤ nodes q ps
unfolding drop_entries nodes
drop_entries-nodes pid q [] = omega arith
drop_entries-nodes pid q (p ∷ ps) = ground (arith, drop_entries-nodes pid q ps)

drop_entries-find :
    (pid q : ℕ) (ps : List ProcessEntries)
    → nodes pid ps ≤ 1
    → find_entries q (drop_entries pid ps) ≡ (if q == pid then none else find_entries q ps)
unfolding drop_entries find_entries nodes
drop_entries-find pid q [] h = ground arith
drop_entries-find pid q (p ∷ ps) h =
    ground (arith, drop_entries-find pid q ps, find_entries-absent pid ps)

drop_entries-entries :
    (pid q : ℕ) (ps : List ProcessEntries)
    → nodes pid ps ≤ 1
    → entries_of q (drop_entries pid ps) ≡ (if q == pid then 0 else entries_of q ps)
unfolding entries_of
drop_entries-entries pid q ps h = ground (arith, drop_entries-find pid q ps h)

slots_of-fewer :
    (q n : ℕ) (slots other : ℕ → Entry)
    → ((x : ℕ) → x < n → (other x).pid ≡ q → (slots x).pid ≡ q)
    → slots_of q n other ≤ slots_of q n slots
unfolding slots_of
slots_of-fewer q zero slots other same = omega arith
slots_of-fewer q (suc n) slots other same =
    let ih = slots_of-fewer q n slots other (λ x b. same x (omega arith)) in
    ground (arith, same n, ih)

slots_of-none :
    (q n : ℕ) (slots : ℕ → Entry) → ((x : ℕ) → x < n → (slots x).pid ≢ q) → slots_of q n slots ≡ 0
slots_of-none q n slots none_is = elim (dec_lt 0 (slots_of q n slots)) [
  | no z ↦ omega arith
  | yes p ↦ let (x, b, at) = slots_of-pos q n slots p in absurd (none_is x b at)
]

-- A cache that lost entries, and whose counts are right, is sound.
pub fewer-IsSound :
    (c c' : Cache)
    → IsSound c
    → c'.conf ≡ c.conf
    → ((q : ℕ) → nodes q c'.processes ≤ 1)
    → ((q : ℕ)
        → is_negative q ≡ false
        → entries_of q c'.processes ≡ slots_of q c.cache_entries c'.slots)
    → ((x : ℕ)
        → x < c.cache_entries
        → is_negative (c'.slots x).pid ≡ false
        → c'.slots x ≡ c.slots x)
    → IsSound c'
fewer-IsSound c c' s conf once counted same = record {
  accounted = record {
    some_entries = rw conf s.accounted.some_entries;
    few_entries = rw conf s.accounted.few_entries;
    once = once;
    counted = λ q k. rw conf (counted q k);
  };
  limited = rw conf s.limited;
  within = λ q k. rw conf (
      omega (
        arith,
        s.within q k,
        slots_of-fewer q c.cache_entries c.slots c'.slots (λ x b at. ground (arith, same x)),
      ));
  distinct = λ x y. rw conf (λ a b n p g. ground (arith, same x, same y, s.distinct x y));
}

pub forget_process-IsSound :
    (pid : ℕ) (c : Cache)
    → IsSound c
    → is_negative pid ≡ false
    → let c' =
        forget_process c.cache_entries 0 pid
          (record c { processes = drop_entries pid c.processes }) in
      IsSound c'
      × (c'.conf ≡ c.conf)
      × ((x : ℕ) → c'.locks x ≡ c.locks x)
      × ((x : ℕ)
          → x < c.cache_entries
          → is_negative (c'.slots x).pid ≡ false
          → (c'.slots x ≡ c.slots x) × ((c.slots x).pid ≢ pid))
forget_process-IsSound pid c s nonneg =
    let dropped = record c { processes = drop_entries pid c.processes } in
    let c' = forget_process c.cache_entries 0 pid dropped in
    let f : Forgets pid 0 (0 + c.cache_entries) dropped c' =
      forget_process-Forgets c.cache_entries 0 pid dropped in
    let remains : (x : ℕ)
        → x < c.cache_entries
        → is_negative (c'.slots x).pid ≡ false
        → (c'.slots x ≡ c.slots x) × ((c.slots x).pid ≢ pid) =
      λ x b n. elim (ℕ_discrete (c.slots x).pid pid) [
        | yes own ↦ absurd (ground (arith, f.emptied x))
        | no other ↦ (f.kept x (inr other), other)
      ] in
    (
      fewer-IsSound c c' s f.same_conf
          (λ q.
            rw f.same_processes
              (omega (arith, drop_entries-nodes pid q c.processes, s.accounted.once q)))
          (λ q k. elim (ℕ_discrete q pid) [
            | yes own ↦
                rw
                  (
                    f.same_processes,
                    slots_of-none q c.cache_entries c'.slots (λ x b. ground (arith, remains x b)),
                  )
                  (ground (arith, drop_entries-entries pid q c.processes (s.accounted.once pid)))
            | no other ↦
                rw
                  (
                    f.same_processes,
                    slots_of-alike q c.cache_entries c.slots c'.slots (λ x b.
                        elim (ℕ_discrete (c.slots x).pid pid) [
                          | yes own ↦ ground (arith, f.emptied x)
                          | no ne ↦ rw (f.kept x (inr ne)) refl
                        ]),
                  )
                  (ground (
                    arith,
                    drop_entries-entries pid q c.processes (s.accounted.once pid),
                    s.accounted.counted q,
                  ))
          ])
          (λ x b n. (remains x b n).0),
      f.same_conf,
      f.same_locks,
      remains,
    )
