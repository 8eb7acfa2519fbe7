-- ===== src/Memoria/Frames/Pages.antt =====
-- The nodes of pages_per_process_list, by what find_pages reads.
use so_distribuido.Base.{
  ℕ, ◌+◌, ◌≤◌, ◌<◌, ◌≡◌, ◌≢◌, refl, List, [], ◌∷◌, ◌++◌, none, some, arith, ◌==◌, if◌then◌else◌,
  Option-cases, inl, inr,
}
use so_distribuido.Memoria.Types.{Frames, ProcessPages, word}
use so_distribuido.Memoria.Frames.{count_of, find_pages, bump_pages, locate_process}
use so_distribuido.Memoria.Frames.Invariant.{IsValid}

pub find_pages-bump :
    (pid c : ℕ) (ps : List ProcessPages)
    → find_pages pid ps ≡ some c
    → c + 1 < word
    → find_pages pid (bump_pages pid ps) ≡ some (c + 1)
unfolding find_pages bump_pages
find_pages-bump pid c [] e h = cc
find_pages-bump pid c (p ∷ ps) e h = ground (arith, find_pages-bump pid c ps)

pub find_pages-bump_ne :
    (pid q : ℕ) (ps : List ProcessPages)
    → q ≢ pid
    → find_pages q (bump_pages pid ps) ≡ find_pages q ps
unfolding find_pages bump_pages
find_pages-bump_ne pid q [] n = refl
find_pages-bump_ne pid q (p ∷ ps) n = ground (arith, find_pages-bump_ne pid q ps)

find_pages-add :
    (q pid : ℕ) (ps : List ProcessPages)
    → find_pages pid ps ≡ none
    → find_pages q (ps ++ record { pid = pid; pages_count = 0 } ∷ [])
      ≡ (if q == pid then some 0 else find_pages q ps)
unfolding find_pages
find_pages-add q pid [] e = ground arith
find_pages-add q pid (p ∷ ps) e = ground (arith, find_pages-add q pid ps)

pub count_of-find :
    (pid c : ℕ) (ps : List ProcessPages) → find_pages pid ps ≡ some c → count_of pid ps ≡ c
unfolding count_of
count_of-find pid c ps e = ground arith

pub count_of-congr :
    (pid : ℕ) (ps qs : List ProcessPages)
    → find_pages pid ps ≡ find_pages pid qs
    → count_of pid ps ≡ count_of pid qs
unfolding count_of
count_of-congr pid ps qs e = ground arith

-- Looking for a process adds its node where it had none, and changes no count.
pub locate_process-find :
    (pid : ℕ) (ps : List ProcessPages)
    → find_pages pid (locate_process pid ps) ≡ some (count_of pid ps)
unfolding locate_process count_of
locate_process-find pid ps = elim (Option-cases (find_pages pid ps)) [
  | inl e ↦ rw (e, locate_process, count_of) (ground (arith, find_pages-add pid pid ps))
  | inr (n, e) ↦ rw (e, locate_process, count_of) e
]

pub locate_process-ne :
    (pid q : ℕ) (ps : List ProcessPages)
    → q ≢ pid
    → find_pages q (locate_process pid ps) ≡ find_pages q ps
unfolding locate_process
locate_process-ne pid q ps n = elim (Option-cases (find_pages pid ps)) [
  | inl e ↦ rw (e, locate_process) (ground (arith, find_pages-add q pid ps))
  | inr (c, e) ↦ rw (e, locate_process)
]

-- Counts may grow under the invariant.
pub recount-IsValid :
    (m : Frames) (ps : List ProcessPages)
    → IsValid m
    → ((q : ℕ) → count_of q m.pages_per_process ≤ count_of q ps)
    → IsValid (record m { pages_per_process = ps })
recount-IsValid m ps v grows = record {
  frames_pos = v.frames_pos;
  avail_once = v.avail_once;
  avail_free = v.avail_free;
  free_avail = v.free_avail;
  chain_once = v.chain_once;
  chained = v.chained;
  placed = v.placed;
  unique = v.unique;
  numbered = λ x h r p. omega (arith, v.numbered x h r p, grows (m.table x).pid);
}
