-- ===== src/Memoria/Server/ForgetPage.antt =====
-- The cache after a page is deleted: the entry of the page is empty, and the count of its process
-- is one less.
use so_distribuido.Base.{
  ℕ, zero, suc, ◌+◌, ◌-◌, ◌%◌, ◌^◌, ◌≤◌, ◌<◌, ◌≡◌, refl, ap, ◌⊎◌, inl, inr, List, [], ◌∷◌, false,
  ◌&&◌, arith, ◌==◌, if◌then◌else◌, update, Bool-cases,
}
use so_distribuido.Memoria.Types.{Cache, ProcessEntries, is_negative}
use so_distribuido.Memoria.Cache.{lock, unlock}
use so_distribuido.Memoria.Cache.Locks.{Caches}
use so_distribuido.Memoria.Cache.Accounting.{
  entries_of, nodes, slots_of-update, slots_of-own, slots_of-le, find_entries, find_entries-absent,
}
use so_distribuido.Memoria.Cache.Give.{IsSound}
use so_distribuido.Memoria.Server.{forgotten, forget_page, count_down}
use so_distribuido.Memoria.Server.Forget.{fewer-IsSound}

-- The loop found the page at `e` and emptied the entry.
record Emptied (pid page lo hi : ℕ) (c c' : Cache) (e : ℕ) : Type 0 where
  from : lo ≤ e
  below : e < hi
  mine : Caches c pid page e
  slots : c'.slots ≡ update c.slots e (forgotten (c.slots e))
  processes : c'.processes ≡ count_down pid c.processes

record Untouched (pid page lo hi : ℕ) (c c' : Cache) : Type 0 where
  slots : c'.slots ≡ c.slots
  processes : c'.processes ≡ c.processes
  missing : (x : ℕ) → lo ≤ x → x < hi → ¬ Caches c pid page x

forget_page-cases :
    (left lo pid page : ℕ) (c : Cache)
    → let c' = forget_page left lo pid page c in
      (c'.conf ≡ c.conf)
      × ((x : ℕ) → c'.locks x ≡ c.locks x)
      × (Untouched pid page lo (lo + left) c c'
          ⊎ ((e : ℕ) × Emptied pid page lo (lo + left) c c' e))
unfolding forget_page lock unlock
forget_page-cases zero lo pid page c = (
  refl,
  λ x. refl,
  inl (record { slots = refl; processes = refl; missing = λ x a b. absurd (omega arith) }),
)
forget_page-cases (suc left) lo pid page c =
    let (conf, locks, rest) = forget_page-cases left (lo + 1) pid page (unlock lo (lock lo c)) in
    elim (Bool-cases ((c.slots lo).pid == pid && (c.slots lo).page == page)) [
      | inl e ↦ rw e (
        refl,
        λ x. ground arith,
        inr (
          lo,
          record {
            from = omega arith;
            below = omega arith;
            mine = ground arith;
            slots = refl;
            processes = refl;
          },
        ),
      )
      | inr e ↦ rw e (
        conf,
        λ x. ground (arith, locks x),
        elim rest [
          | inl u ↦ inl (record {
            slots = u.slots;
            processes = u.processes;
            missing = λ x a b. ground (arith, u.missing x);
          })
          | inr (x, u) ↦ inr (
            x,
            record {
              from = omega (arith, u.from);
              below = omega (arith, u.below);
              mine = u.mine;
              slots = u.slots;
              processes = u.processes;
            },
          )
        ],
      )
    ]

count_down-nodes : (pid q : ℕ) (ps : List ProcessEntries) → nodes q (count_down pid ps) ≤ nodes q ps
unfolding count_down nodes
count_down-nodes pid q [] = omega arith
count_down-nodes pid q (p ∷ ps) = ground (arith, count_down-nodes pid q ps)

-- In a list with one node for the process.
count_down-find :
    (pid q : ℕ) (ps : List ProcessEntries)
    → nodes pid ps ≤ 1
    → entries_of pid ps < 2 ^ 15
    → 0 < entries_of pid ps
    → entries_of q (count_down pid ps)
      ≡ (if q == pid then entries_of pid ps - 1 else entries_of q ps)
unfolding count_down find_entries nodes entries_of
count_down-find pid q [] h few pos = absurd (omega arith)
count_down-find pid q (p ∷ ps) h few pos =
    let ih = count_down-find pid q ps in
    let gone = find_entries-absent pid ps in
    elim (Bool-cases (p.pid == pid)) [
      | inl e ↦
          let size : p.entries < 2 ^ 15 = ground arith in
          let some_left : 0 < p.entries = ground arith in
          let less : (p.entries + 2 ^ 16 - 1) % 2 ^ 16 ≡ p.entries - 1 = omega arith in
          rw (e, less) (ground (arith, gone))
      | inr e ↦ rw e (ground (arith, ih))
    ]

pub forget_page-IsSound :
    (pid page : ℕ) (c : Cache)
    → IsSound c
    → is_negative pid ≡ false
    → let c' = forget_page c.cache_entries 0 pid page c in
      IsSound c'
      × (c'.conf ≡ c.conf)
      × ((x : ℕ) → c'.locks x ≡ c.locks x)
      × ((x : ℕ)
          → x < c.cache_entries
          → is_negative (c'.slots x).pid ≡ false
          → (c'.slots x ≡ c.slots x) × ¬ Caches c pid page x)
forget_page-IsSound pid page c s nonneg =
    let c' = forget_page c.cache_entries 0 pid page c in
    let (conf, locks, rest) = forget_page-cases c.cache_entries 0 pid page c in
    elim rest [
      | inl u ↦
          let same : (x : ℕ) → c'.slots x ≡ c.slots x = λ x. ap (λ f. f x) u.slots in
          (
            fewer-IsSound c c' s conf (λ q. rw u.processes (s.accounted.once q))
                (λ q k. rw (u.processes, u.slots) (s.accounted.counted q k)) (λ x b n. same x),
            conf,
            locks,
            λ x b n. (same x, u.missing x (omega arith) (omega arith)),
          )
      | inr (e, u) ↦
          let same : (x : ℕ)
              → x < c.cache_entries
              → is_negative (c'.slots x).pid ≡ false
              → (c'.slots x ≡ c.slots x) × ¬ Caches c pid page x =
            λ x. rw u.slots (λ b n. ground (arith, u.mine, u.below, s.distinct x e)) in
          let inside : e < c.cache_entries = omega (arith, u.below) in
          let own = slots_of-own pid c.cache_entries e c.slots inside u.mine.0 in
          let few : entries_of pid c.processes < 2 ^ 15 = omega (
            arith,
            s.accounted.counted pid nonneg,
            slots_of-le pid c.cache_entries c.slots,
            s.accounted.few_entries,
          ) in
          let some_left : 0 < entries_of pid c.processes =
            omega (arith, s.accounted.counted pid nonneg, own) in
          (
            fewer-IsSound c c' s conf
                (λ q.
                  rw u.processes
                    (omega (arith, count_down-nodes pid q c.processes, s.accounted.once q)))
                (λ q k.
                  rw
                    (
                      u.processes,
                      u.slots,
                      count_down-find pid q c.processes (s.accounted.once pid) few some_left,
                    )
                    (ground (
                      arith,
                      s.accounted.counted q,
                      s.accounted.counted pid,
                      own,
                      u.mine,
                      slots_of-update q c.cache_entries e c.slots (forgotten (c.slots e)) inside,
                    )))
                (λ x b n. (same x b n).0),
            conf,
            locks,
            same,
          )
    ]
