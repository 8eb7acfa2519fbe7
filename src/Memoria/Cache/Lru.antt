-- ===== src/Memoria/Cache/Lru.antt =====
-- assign_cache_entry: which entry is given away, and which locks are held then.
use so_distribuido.Base.{
  ℕ, zero, suc, ◌+◌, ◌<◌, ◌≡◌, refl, ◌⊎◌, inl, inr, [], ◌∷◌, Option, none, some, Bool, true, false,
  arith, ◌==◌, Bool-cases,
}
use so_distribuido.Memoria.Types.{Cache, Text, is_negative}
use so_distribuido.Memoria.Cache.{
  text_lt, lock, unlock, least_recently_used, assign_round, assign_scan, assign_cache_entry,
  max_entries_exceeded,
}
use so_distribuido.Memoria.Cache.Locks.{Holding}

-- strcmp orders the texts: if `b` is not before `a`, and `c` is before `a`, then `b` is not before `c`.
pub text_lt_trans : (a b c : Text) → text_lt a b ≡ true → text_lt b c ≡ true → text_lt a c ≡ true
unfolding text_lt
text_lt_trans a b [] h k = k
text_lt_trans a [] (z ∷ zs) h k = cc
text_lt_trans [] (y ∷ ys) (z ∷ zs) h k = refl
text_lt_trans (x ∷ xs) (y ∷ ys) (z ∷ zs) h k = ground (arith, text_lt_trans xs ys zs)

text_lt_irrefl : (a : Text) → text_lt a a ≡ false
unfolding text_lt
text_lt_irrefl [] = refl
text_lt_irrefl (x ∷ xs) = ground (arith, text_lt_irrefl xs)

-- The entries among which the choice is made: those of the process, if it has all that it may
-- have, and all of them otherwise.
abbrev pub IsCandidate : Cache → ℕ → Bool → ℕ → Type 0
IsCandidate c pid exceeded x = exceeded ≡ true → (c.slots x).pid ≡ pid

-- What the loop has found below `hi`: the oldest candidate, whose lock it holds.
pub record Oldest (c : Cache) (pid : ℕ) (exceeded : Bool) (o : Option ℕ) (hi : ℕ) : Type 0 where
  pub inside : (e : ℕ) → o ≡ some e → (e < hi) × IsCandidate c pid exceeded e
  pub oldest :
      (e x : ℕ)
      → o ≡ some e
      → x < hi
      → IsCandidate c pid exceeded x
      → text_lt (c.slots x).last_used (c.slots e).last_used ≡ false
  pub none_left : o ≡ none → (x : ℕ) → x < hi → ¬ IsCandidate c pid exceeded x

-- Adding the entry `hi` as a candidate.
least_recently_used-Holding :
    (hi : ℕ) (o : Option ℕ) (c₀ c : Cache)
    → Holding c₀ c o
    → ((e : ℕ) → o ≡ some e → e < hi)
    → Holding c₀ (least_recently_used hi o (lock hi c)).1 (least_recently_used hi o (lock hi c)).0
unfolding least_recently_used lock unlock
least_recently_used-Holding hi none c₀ c h below = record {
  same_conf = h.same_conf;
  same_slots = h.same_slots;
  same_processes = h.same_processes;
  locked = λ x. ground (arith, h.locked x);
}
least_recently_used-Holding hi (some e) c₀ c h below = record {
  same_conf = ground (arith, h.same_conf);
  same_slots = ground (arith, h.same_slots);
  same_processes = ground (arith, h.same_processes);
  locked = λ x. ground (arith, h.locked x, h.locked e, below e);
}

least_recently_used-Oldest :
    (hi pid : ℕ) (exceeded : Bool) (o : Option ℕ) (c₀ c : Cache)
    → c.slots ≡ c₀.slots
    → Oldest c₀ pid exceeded o hi
    → IsCandidate c₀ pid exceeded hi
    → Oldest c₀ pid exceeded (least_recently_used hi o (lock hi c)).0 (hi + 1)
unfolding least_recently_used lock
least_recently_used-Oldest hi pid exceeded none c₀ c same h cand = record {
  inside = λ e k. ground arith;
  oldest = λ e x k b w. ground (arith, h.none_left refl x, text_lt_irrefl (c₀.slots x).last_used);
  none_left = λ k. cc;
}
least_recently_used-Oldest hi pid exceeded (some l) c₀ c same h cand = record {
  inside = λ e k. ground (arith, h.inside l);
  oldest = λ e x k b w. ground (
    arith,
    same,
    h.oldest l x,
    text_lt_irrefl (c₀.slots x).last_used,
    text_lt_trans (c₀.slots x).last_used (c₀.slots hi).last_used (c₀.slots l).last_used,
  );
  none_left = λ k. ground arith;
}

-- What the function answers: the oldest candidate where no entry is empty or the process has all
-- that it may have, and an empty entry otherwise.
abbrev pub Choice : Cache → ℕ → Bool → Option ℕ → ℕ → Type 0
Choice c pid exceeded o hi =
    (Oldest c pid exceeded o hi
      × (exceeded ≡ false → (x : ℕ) → x < hi → is_negative (c.slots x).pid ≡ false))
    ⊎ ((exceeded ≡ false)
        × ((e : ℕ) × (o ≡ some e) × (e < hi) × (is_negative (c.slots e).pid ≡ true)))

-- A round that goes on.
abbrev Continues : Cache → ℕ → Bool → ℕ → Option ℕ → Cache → Type 0
Continues c₀ pid exceeded hi o c =
    Holding c₀ c o
    × Oldest c₀ pid exceeded o hi
    × (exceeded ≡ false → (x : ℕ) → x < hi → is_negative (c₀.slots x).pid ≡ false)

assign_round-Continues :
    (lo pid : ℕ) (exceeded : Bool) (o : Option ℕ) (c₀ c : Cache)
    → Continues c₀ pid exceeded lo o c
    → (assign_round lo o pid exceeded c).0 ≡ false
    → Continues c₀ pid exceeded
        (lo + 1)
        (assign_round lo o pid exceeded c).1.0
        (assign_round lo o pid exceeded c).1.1
unfolding assign_round
assign_round-Continues lo pid true o c₀ c (h, old, full) go =
    elim (Bool-cases ((c.slots lo).pid == pid)) [
      | inl mine ↦ rw mine (
        least_recently_used-Holding lo o c₀ c h (λ e k. (old.inside e k).0),
        least_recently_used-Oldest lo pid true o c₀ c h.same_slots old
            (ground (arith, h.same_slots)),
        λ k. cc,
      )
      | inr other ↦ rw other (
        unfold lock unlock in
            record {
              same_conf = h.same_conf;
              same_slots = h.same_slots;
              same_processes = h.same_processes;
              locked = λ x. ground (arith, h.locked x);
            },
        record {
          inside = λ e k. ground (arith, old.inside e);
          oldest = λ e x k b w. ground (arith, old.oldest e x, h.same_slots);
          none_left = λ k x b. ground (arith, old.none_left k x, h.same_slots);
        },
        λ k. cc,
      )
    ]
assign_round-Continues lo pid false o c₀ c (h, old, full) go =
    elim (Bool-cases (is_negative (c.slots lo).pid)) [
      | inl empty ↦ absurd (ground arith)
      | inr busy ↦ rw busy (
        least_recently_used-Holding lo o c₀ c h (λ e k. (old.inside e k).0),
        least_recently_used-Oldest lo pid false o c₀ c h.same_slots old (λ k. cc),
        λ k x b. ground (arith, full refl x, h.same_slots),
      )
    ]

assign_round-stops :
    (lo pid : ℕ) (exceeded : Bool) (o : Option ℕ) (c₀ c : Cache)
    → Continues c₀ pid exceeded lo o c
    → (assign_round lo o pid exceeded c).0 ≡ true
    → Holding c₀ (assign_round lo o pid exceeded c).1.1 (some lo)
      × ((assign_round lo o pid exceeded c).1.0 ≡ some lo)
      × (exceeded ≡ false)
      × (is_negative (c₀.slots lo).pid ≡ true)
unfolding assign_round lock unlock
assign_round-stops lo pid true o c₀ c (h, old, full) stop = ground arith
assign_round-stops lo pid false none c₀ c (h, old, full) stop =
    let empty : is_negative (c.slots lo).pid ≡ true = ground arith in
    rw empty (
      record {
        same_conf = h.same_conf;
        same_slots = h.same_slots;
        same_processes = h.same_processes;
        locked = λ x. ground (arith, h.locked x);
      },
      refl,
      refl,
      ground (arith, h.same_slots),
    )
assign_round-stops lo pid false (some l) c₀ c (h, old, full) stop =
    let empty : is_negative (c.slots lo).pid ≡ true = ground arith in
    rw empty (
      record {
        same_conf = h.same_conf;
        same_slots = h.same_slots;
        same_processes = h.same_processes;
        locked = λ x. ground (arith, h.locked x, h.locked l, old.inside l);
      },
      refl,
      refl,
      ground (arith, h.same_slots),
    )

assign_scan-Choice :
    (left lo pid : ℕ) (exceeded : Bool) (o : Option ℕ) (c₀ c : Cache)
    → Continues c₀ pid exceeded lo o c
    → let r = assign_scan left lo o pid exceeded c in
      Holding c₀ r.1 r.0 × Choice c₀ pid exceeded r.0 (lo + left)
unfolding assign_scan
assign_scan-Choice zero lo pid exceeded o c₀ c k =
    let e : lo + 0 ≡ lo = omega arith in rw e (k.0, inl (k.1, k.2))
assign_scan-Choice (suc left) lo pid exceeded o c₀ c k =
    let e : lo + suc left ≡ lo + 1 + left = omega arith in
    let round = assign_round lo o pid exceeded c in
    let more = assign_scan-Choice left (lo + 1) pid exceeded round.1.0 c₀ round.1.1 in
    elim (Bool-cases round.0) [
      | inl stop ↦
          let (h, at, room, empty) = assign_round-stops lo pid exceeded o c₀ c k stop in
          rw stop (rw at h, inr (room, (lo, at, omega arith, empty)))
      | inr go ↦ rw (go, e) (more (assign_round-Continues lo pid exceeded o c₀ c k go))
    ]

-- The entry that is given away is, if the process has all the entries that it may have, the
-- least recently used one of its own; else an empty entry where there is one, and else the
-- least recently used of all. Nothing else changes, and of the locks that were taken on the
-- way that of the answered entry alone is still held.
pub assign_cache_entry-Choice :
    (pid : ℕ) (c : Cache)
    → let r = assign_cache_entry pid c in
      Holding c r.1 r.0
      × Choice c pid (max_entries_exceeded c.cache_x_process pid c.processes) r.0 c.cache_entries
unfolding assign_cache_entry
assign_cache_entry-Choice pid c =
    let exceeded = max_entries_exceeded c.cache_x_process pid c.processes in
    let e : 0 + c.cache_entries ≡ c.cache_entries = omega arith in
    rw e at (
      assign_scan-Choice c.cache_entries 0 pid exceeded none c c (
        record {
          same_conf = refl;
          same_slots = refl;
          same_processes = refl;
          locked = λ x. omega arith;
        },
        record {
          inside = λ x k. cc;
          oldest = λ x y k. cc;
          none_left = λ k x b. absurd (omega arith);
        },
        λ k x b. absurd (omega arith),
      ))
