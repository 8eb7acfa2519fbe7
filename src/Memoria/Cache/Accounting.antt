-- ===== src/Memoria/Cache/Accounting.antt =====
-- cache_x_process_list counts the entries of each process: update_cache keeps it so.
use so_distribuido.Base.{
  ℕ, zero, suc, ◌+◌, ◌-◌, ◌%◌, ◌^◌, ◌≤◌, ◌<◌, ◌≡◌, ◌≢◌, refl, List, [], ◌∷◌, Option, none, some,
  Bool, true, not, ◌&&◌, ◌||◌, arith, ◌==◌, ltb, if◌then◌else◌, update,
}
use native.Mathlib.Decide.{ℕ_discrete}
use so_distribuido.Memoria.Types.{Entry, ProcessEntries}
use so_distribuido.Memoria.Cache.{count_up, count_over}

unfoldable pub find_entries : ℕ → List ProcessEntries → Option ℕ
find_entries q [] = none
find_entries q (p ∷ ps) = if p.pid == q then some p.entries else find_entries q ps

-- The count of a process, 0 where it has no node.
unfoldable pub entries_of : ℕ → List ProcessEntries → ℕ
entries_of q ps = elim (find_entries q ps) [ some n ↦ n | none ↦ 0 ]

-- How many nodes a process has.
unfoldable pub nodes : ℕ → List ProcessEntries → ℕ
nodes q [] = 0
nodes q (p ∷ ps) = (if p.pid == q then 1 else 0) + nodes q ps

-- How many of the first `n` entries are the process's.
unfoldable pub slots_of : ℕ → ℕ → (ℕ → Entry) → ℕ
slots_of q zero slots = 0
slots_of q (suc n) slots = (if (slots n).pid == q then 1 else 0) + slots_of q n slots

pub slots_of-le : (q n : ℕ) (slots : ℕ → Entry) → slots_of q n slots ≤ n
unfolding slots_of
slots_of-le q zero slots = omega arith
slots_of-le q (suc n) slots = ground (arith, slots_of-le q n slots)

pub slots_of-pos :
    (q n : ℕ) (slots : ℕ → Entry) → 0 < slots_of q n slots → (x : ℕ) × (x < n) × ((slots x).pid ≡ q)
unfolding slots_of
slots_of-pos q zero slots h = absurd (omega arith)
slots_of-pos q (suc n) slots h = elim (ℕ_discrete (slots n).pid q) [
  | yes e ↦ (n, omega arith, e)
  | no ne ↦ let (x, b, e) = slots_of-pos q n slots (ground arith) in (x, omega arith, e)
]

pub slots_of-own :
    (q n e : ℕ) (slots : ℕ → Entry) → e < n → (slots e).pid ≡ q → 0 < slots_of q n slots
unfolding slots_of
slots_of-own q zero e slots h same = absurd (omega arith)
slots_of-own q (suc n) e slots h same = elim (ℕ_discrete e n) [
  | yes eq ↦ ground arith
  | no other ↦ ground (arith, slots_of-own q n e slots)
]

pub slots_of-alike :
    (q n : ℕ) (slots other : ℕ → Entry)
    → ((x : ℕ) → x < n → ((other x).pid == q) ≡ ((slots x).pid == q))
    → slots_of q n other ≡ slots_of q n slots
unfolding slots_of
slots_of-alike q zero slots other same = refl
slots_of-alike q (suc n) slots other same =
    rw (same n (omega arith), slots_of-alike q n slots other (λ x b. same x (omega arith))) refl

pub slots_of-same :
    (q n : ℕ) (slots other : ℕ → Entry)
    → ((x : ℕ) → (other x).pid ≡ (slots x).pid)
    → slots_of q n other ≡ slots_of q n slots
slots_of-same q n slots other same = slots_of-alike q n slots other (λ x b. rw (same x) refl)

slots_of-outside :
    (q n e : ℕ) (slots : ℕ → Entry) (new : Entry)
    → n ≤ e
    → slots_of q n (update slots e new) ≡ slots_of q n slots
unfolding slots_of
slots_of-outside q zero e slots new h = refl
slots_of-outside q (suc n) e slots new h = ground (arith, slots_of-outside q n e slots new)

-- One entry given from a process to another.
pub slots_of-update :
    (q n e : ℕ) (slots : ℕ → Entry) (new : Entry)
    → e < n
    → slots_of q n (update slots e new) + (if (slots e).pid == q then 1 else 0)
      ≡ slots_of q n slots + (if new.pid == q then 1 else 0)
unfolding slots_of
slots_of-update q zero e slots new h = absurd (omega arith)
slots_of-update q (suc n) e slots new h = elim (ℕ_discrete e n) [
  | yes same ↦ ground (arith, slots_of-outside q n e slots new)
  | no other ↦ ground (arith, slots_of-update q n e slots new)
]

pub count_up-find :
    (pid q : ℕ) (ps : List ProcessEntries)
    → find_entries q (count_up pid ps).1 ≡ (elim (find_entries q ps) [
      | none ↦ none
      | some n ↦ some (if q == pid then (n + 1) % 2 ^ 16 else n)
    ])
unfolding count_up find_entries
count_up-find pid q [] = refl
count_up-find pid q (p ∷ ps) = ground (arith, count_up-find pid q ps)

pub count_up-nodes :
    (pid q : ℕ) (ps : List ProcessEntries)
    → (nodes q (count_up pid ps).1 ≡ nodes q ps) × ((count_up pid ps).0 ≡ ltb 0 (nodes pid ps))
unfolding count_up nodes
count_up-nodes pid q [] = (refl, refl)
count_up-nodes pid q (p ∷ ps) = ground (arith, count_up-nodes pid q ps)

-- What the count of `q` becomes when an entry passes from `previous` to `pid`.
abbrev adjusted : ℕ → ℕ → ℕ → ℕ → ℕ
adjusted previous pid q n =
    if q == previous then (n + 2 ^ 16 - 1) % 2 ^ 16 else (if q == pid then (n + 1) % 2 ^ 16 else n)

pub find_entries-absent :
    (q : ℕ) (ps : List ProcessEntries) → nodes q ps ≡ 0 → find_entries q ps ≡ none
unfolding find_entries nodes
find_entries-absent q [] h = refl
find_entries-absent q (p ∷ ps) h = ground (arith, find_entries-absent q ps)

pub count_over-nodes :
    (previous pid q : ℕ) (u v : Bool) (ps : List ProcessEntries)
    → nodes q (count_over previous pid u v ps).1 ≡ nodes q ps
unfolding count_over nodes
count_over-nodes previous pid q u v [] = refl
count_over-nodes previous pid q u v (p ∷ ps) =
    let was = p.pid == previous in
    let is = p.pid == pid in
    let ih = count_over-nodes previous pid q (u || (not was && is)) (v || was) ps in
    ground (arith, ih)

-- In a list with one node for a process, where `u` and `v` say that the node of `pid` and that of
-- `previous` are passed, the loop adjusts each count.
pub count_over-find :
    (previous pid q : ℕ) (u v : Bool) (ps : List ProcessEntries)
    → previous ≢ pid
    → nodes pid ps ≤ 1
    → nodes previous ps ≤ 1
    → (u ≡ true → nodes pid ps ≡ 0)
    → (v ≡ true → nodes previous ps ≡ 0)
    → find_entries q (count_over previous pid u v ps).1
      ≡ (elim (find_entries q ps) [ none ↦ none | some n ↦ some (adjusted previous pid q n) ])
unfolding count_over find_entries nodes
count_over-find previous pid q u v [] ne a b c d = refl
count_over-find previous pid q u v (p ∷ ps) ne a b c d =
    let was = p.pid == previous in
    let is = p.pid == pid in
    let ih = count_over-find previous pid q (u || (not was && is)) (v || was) ps ne in
    ground (
      arith,
      ih,
      find_entries-absent q ps,
      find_entries-absent pid ps,
      find_entries-absent previous ps,
    )

pub count_over-found :
    (previous pid : ℕ) (u v : Bool) (ps : List ProcessEntries)
    → previous ≢ pid
    → nodes pid ps ≤ 1
    → (u ≡ true → nodes pid ps ≡ 0)
    → (count_over previous pid u v ps).0 ≡ (u || ltb 0 (nodes pid ps))
unfolding count_over nodes
count_over-found previous pid u v [] ne a c = ground arith
count_over-found previous pid u v (p ∷ ps) ne a c =
    let was = p.pid == previous in
    let is = p.pid == pid in
    let ih = count_over-found previous pid (u || (not was && is)) (v || was) ps ne in
    ground (arith, ih)
