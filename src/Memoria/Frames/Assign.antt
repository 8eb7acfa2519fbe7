-- ===== src/Memoria/Frames/Assign.antt =====
-- assign_pages_to_process: all the pages or none, numbered on from the count of the process.
use so_distribuido.Base.{
  ℕ, zero, suc, ◌+◌, ◌-◌, ◌%◌, ◌≤◌, ◌<◌, ◌≡◌, ◌≢◌, refl, ap, ◌∙◌, ◌⊎◌, inl, some, fun_ext, Bool,
  arith, ltb, le→ltb_false, if◌then◌else◌, length,
}
use native.Mathlib.Decide.{ℕ_discrete}
use so_distribuido.Memoria.Types.{
  Frames, Segment, code, stack, heap, success, no_space, word, minus_one,
}
use so_distribuido.Memoria.Frames.{
  count_of, find_pages, bump_pages, inicialize_page, segment_of, assign_one, assign_loop, rounds,
  locate_process, assign_pages_to_process,
}
use so_distribuido.Memoria.Frames.Invariant.{IsValid, Holds}
use so_distribuido.Memoria.Frames.Occupy.{inicialize_page-Assignment, inicialize_page-IsValid}
use so_distribuido.Memoria.Frames.Pages.{
  count_of-find, count_of-congr, find_pages-bump, find_pages-bump_ne, locate_process-find,
  locate_process-ne, recount-IsValid,
}

-- `n` pages, numbered from `c`, were given to a process; page `c + i` lies in segment `seg i`.
pub record Grown (m m' : Frames) (pid c n : ℕ) (seg : ℕ → Segment) : Type 0 where
  pub valid : IsValid m'
  pub same_conf : m'.conf ≡ m.conf
  pub same_stack : m'.stack_size ≡ m.stack_size
  pub kept : (x : ℕ) → (m.table x).pid ≢ 0 → m'.table x ≡ m.table x
  pub added :
      (x : ℕ)
      → (m'.table x ≡ m.table x)
        ⊎ (((m.table x).pid ≡ 0)
            × ((m'.table x).pid ≡ pid)
            × (c ≤ (m'.table x).page)
            × ((m'.table x).page < c + n))
  pub total : length m'.available + n ≡ length m.available
  pub counted : find_pages pid m'.pages_per_process ≡ some (c + n)
  pub others :
      (q : ℕ) → q ≢ pid → find_pages q m'.pages_per_process ≡ find_pages q m.pages_per_process
  pub held : (i : ℕ) → i < n → (x : ℕ) × Holds m' pid (c + i) x × ((m'.table x).segment ≡ seg i)

module _ (m : Frames) (v : IsValid m) (pid c : ℕ) (real : pid ≢ 0) (proper : pid ≢ minus_one)
    (known : find_pages pid m.pages_per_process ≡ some c) (fits : c + 1 < word)
    (room : 0 < length m.available) (segment : Segment) where
  abbrev bumped : Frames
  bumped = record m { pages_per_process = bump_pages pid m.pages_per_process }

  bumped-find : find_pages pid bumped.pages_per_process ≡ some (c + 1)
  bumped-find = find_pages-bump pid c m.pages_per_process known fits

  bumped-grows :
      (q : ℕ) → count_of q m.pages_per_process ≤ count_of q (bump_pages pid m.pages_per_process)
  bumped-grows q = elim (ℕ_discrete q pid) [
    | yes e ↦ rw e (
        omega (
          arith,
          count_of-find pid c m.pages_per_process known,
          count_of-find pid (c + 1) bumped.pages_per_process bumped-find,
        ))
    | no n ↦ omega (
      arith,
      count_of-congr q bumped.pages_per_process m.pages_per_process
          (find_pages-bump_ne pid q m.pages_per_process n),
    )
  ]

  assign_one-eq : assign_one pid segment m ≡ inicialize_page pid c segment bumped
  unfolding assign_one
  assign_one-eq =
      let e : (c + 1 + word - 1) % word ≡ c = omega arith in
      rw (count_of-find pid (c + 1) bumped.pages_per_process bumped-find, e)

  assign_one-IsValid : IsValid (inicialize_page pid c segment bumped)
  assign_one-IsValid =
      inicialize_page-IsValid pid c segment bumped (recount-IsValid m _ v bumped-grows) room real
        proper
        (λ x h e. ground (arith, v.numbered x h, count_of-find pid c m.pages_per_process known))
        (omega (arith, count_of-find pid (c + 1) bumped.pages_per_process bumped-find))

  assign_one-Grown : Grown m (assign_one pid segment m) pid c 1 (λ _. segment)
  assign_one-Grown =
      let a = inicialize_page-Assignment pid c segment bumped room in
      let held : (a.frame < m.frames) × ((m.table a.frame).pid ≡ 0) =
        ground (arith, a.taken a.frame, v.avail_free a.frame) in
      rw (assign_one-eq) (record {
        valid = assign_one-IsValid;
        same_conf = rw a.result;
        same_stack = rw a.result;
        kept = λ x used. rw a.result (ground (arith, held));
        added = λ x. rw a.result (ground (arith, held));
        total = rw a.result a.shorter;
        counted = rw a.result bumped-find;
        others = λ q ne. rw a.result (find_pages-bump_ne pid q m.pages_per_process ne);
        held = λ i h. rw a.result (a.frame, ground (arith, held), ground arith);
      })

-- One page, and then the others.
Grown-trans :
    (m m₁ m₂ : Frames) (pid c n : ℕ) (first : Segment) (seg : ℕ → Segment)
    → pid ≢ 0
    → Grown m m₁ pid c 1 (λ _. first)
    → Grown m₁ m₂ pid (c + 1) n (λ i. seg (suc i))
    → seg 0 ≡ first
    → Grown m m₂ pid c (suc n) seg
Grown-trans m m₁ m₂ pid c n first seg real g h at = record {
  valid = h.valid;
  same_conf = h.same_conf ∙ g.same_conf;
  same_stack = h.same_stack ∙ g.same_stack;
  kept = λ x used. h.kept x (λ e. used (ground (arith, g.kept x used))) ∙ g.kept x used;
  added = λ x. ground (arith, g.added x, h.added x, g.kept x, h.kept x);
  total = omega (arith, g.total, h.total);
  counted = let e : c + suc n ≡ c + 1 + n = omega arith in rw e h.counted;
  others = λ q ne. h.others q ne ∙ g.others q ne;
  held = elim [
    | zero ↦ λ k.
        let (x, at_x, s) = g.held 0 (omega arith) in
        (x, ground (arith, h.kept x, h.same_conf, g.same_conf), ground (arith, h.kept x))
    | suc i ↦ λ k. let (x, at_x, s) = h.held i (omega arith) in (x, ground (arith, g.same_conf), s)
  ];
}

assign_loop-Grown :
    (left pid c code_pages : ℕ) (init : Bool) (m : Frames)
    → IsValid m
    → pid ≢ 0
    → pid ≢ minus_one
    → find_pages pid m.pages_per_process ≡ some c
    → c + left < word
    → left ≤ length m.available
    → Grown m
        (assign_loop left pid init code_pages m)
        pid
        c
        left
        (λ i. segment_of init (code_pages - i))
unfolding assign_loop
assign_loop-Grown zero pid c code_pages init m v real proper known fits room = record {
  valid = v;
  same_conf = refl;
  same_stack = refl;
  kept = λ x used. refl;
  added = λ x. inl refl;
  total = omega arith;
  counted = let e : c + 0 ≡ c = omega arith in rw e known;
  others = λ q ne. refl;
  held = λ i h. absurd (omega arith);
}
assign_loop-Grown (suc left) pid c code_pages init m v real proper known fits room =
    let seg = segment_of init code_pages in
    let g = assign_one-Grown m v pid c real proper known (omega arith) (omega arith) seg in
    let h =
      assign_loop-Grown left pid (c + 1) (code_pages - 1) init (assign_one pid seg m) g.valid real
        proper g.counted (omega arith) (omega (arith, g.total)) in
    let steps : (i : ℕ) → code_pages - 1 - i ≡ code_pages - suc i = λ i. omega arith in
    let shifted = fun_ext (λ i. ap (segment_of init) (steps i)) in
    Grown-trans m (assign_one pid seg m) _ pid c left seg (λ i. segment_of init (code_pages - i))
      real g (rw shifted at h) (ap (segment_of init) (omega arith))

-- The tables with the node of the process looked for and added.
located-IsValid :
    (m : Frames) (pid : ℕ)
    → IsValid m
    → IsValid (record m { pages_per_process = locate_process pid m.pages_per_process })
located-IsValid m pid v = recount-IsValid m _ v λ q. elim (ℕ_discrete q pid) [
  | yes e ↦
      rw e (omega (arith, count_of-find pid _ _ (locate_process-find pid m.pages_per_process)))
  | no n ↦ omega (arith, count_of-congr q _ _ (locate_process-ne pid q m.pages_per_process n))
]

-- The loop from the located node, as a change of the tables before.
located-Grown :
    (m m' : Frames) (pid c n : ℕ) (seg : ℕ → Segment)
    → Grown (record m { pages_per_process = locate_process pid m.pages_per_process }) m' pid c n seg
    → Grown m m' pid c n seg
located-Grown m m' pid c n seg g = record {
  valid = g.valid;
  same_conf = g.same_conf;
  same_stack = g.same_stack;
  kept = g.kept;
  added = g.added;
  total = g.total;
  counted = g.counted;
  others = λ q ne. g.others q ne ∙ locate_process-ne pid q m.pages_per_process ne;
  held = g.held;
}

-- The segment of page `i` of a request.
abbrev pub segment_at : Bool → ℕ → ℕ → ℕ → Segment
segment_at init required stack_size i =
    if init then (if ltb (i + stack_size) required then code else stack) else heap

-- In valid tables, a request for pages of a process whose pid is not 0 or -1, whose count of
-- pages does not wrap and which no more pages than free frames, succeeds. The process has
-- that many more pages, numbered on from its count; the first of an initial request are
-- code, as many as exceed the stack size, and the other ones stack, and those of a later
-- request heap. All else is as before, and the tables are valid.
pub assign_pages-Grown :
    (pid required : ℕ) (init : Bool) (m : Frames)
    → IsValid m
    → pid ≢ 0
    → pid ≢ minus_one
    → count_of pid m.pages_per_process + rounds required < word
    → rounds required ≤ length m.available
    → ((assign_pages_to_process pid required init m).0 ≡ success)
      × Grown m
          (assign_pages_to_process pid required init m).1
          pid
          (count_of pid m.pages_per_process)
          (rounds required)
          (segment_at init required m.stack_size)
unfolding assign_pages_to_process
assign_pages-Grown pid required init m v real proper fits room =
    let segments : (λ (i : ℕ). segment_of init (required - m.stack_size - i))
        ≡ segment_at init required m.stack_size =
      fun_ext (λ i. ground arith) in
    let found = locate_process-find pid m.pages_per_process in
    let located = located-IsValid m pid v in
    let grown = located-Grown m _ pid (count_of pid m.pages_per_process) (rounds required) _ (
      assign_loop-Grown (rounds required) pid (count_of pid m.pages_per_process)
        (required - m.stack_size) init
        (record m { pages_per_process = locate_process pid m.pages_per_process }) located real
        proper found fits room) in
    rw (le→ltb_false (length m.available) (rounds required) room) (refl, rw segments at grown)

-- A request for more pages than there are free frames is answered ENOSPC and changes
-- nothing; and only such a request is answered so.
pub assign_pages-no_space :
    (pid required : ℕ) (init : Bool) (m : Frames)
    → (length m.available < rounds required
        → assign_pages_to_process pid required init m ≡ (no_space, m))
      × ((assign_pages_to_process pid required init m).0 ≡ no_space
          → length m.available < rounds required)
unfolding assign_pages_to_process
assign_pages-no_space pid required init m = (λ h. ground arith, λ e. ground arith)
