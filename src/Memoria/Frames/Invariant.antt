-- ===== src/Memoria/Frames/Invariant.antt =====
-- The invariant of the page tables of memoria.c, and the lookup get_frame under it.
use so_distribuido.Base.{
  ℕ, ◌≤◌, ◌<◌, ◌≡◌, ◌≢◌, ap, sym, ◌∙◌, inl, inr, List, [], ◌∷◌, none, some, arith, count,
  Bool-cases, Option-cases,
}
use so_distribuido.Memoria.Types.{Frames, Reg, minus_one}
use so_distribuido.Memoria.Hash.{hashing, hashing-lt}
use so_distribuido.Memoria.Frames.{count_of, page_is_right, search_frames, get_frame}

-- A frame that holds a page of a process: neither free nor part of the invert table.
abbrev pub IsUsed : Reg → Type 0
IsUsed r = (r.pid ≢ 0) × (r.pid ≢ minus_one)

-- The frame at which a page is looked for first.
abbrev pub home : Frames → Reg → ℕ
home m r = hashing m.conf r.pid r.page

pub record IsValid (m : Frames) : Type 0 where
  pub frames_pos : 0 < m.frames
  pub avail_once : (f : ℕ) → count f m.available ≤ 1
  pub avail_free : (f : ℕ) → 0 < count f m.available → (f < m.frames) × ((m.table f).pid ≡ 0)
  pub free_avail : (f : ℕ) → f < m.frames → (m.table f).pid ≡ 0 → 0 < count f m.available
  pub chain_once : (h f : ℕ) → count f (m.overflow h) ≤ 1
  pub chained :
      (h f : ℕ)
      → 0 < count f (m.overflow h)
      → (f < m.frames)
        × ((m.table f).pid ≢ 0)
        × ((m.table f).pid ≢ minus_one)
        × (home m (m.table f) ≡ h)
        × (f ≢ h)
  pub placed :
      (f : ℕ)
      → f < m.frames
      → (m.table f).pid ≢ 0
      → (m.table f).pid ≢ minus_one
      → f ≢ home m (m.table f)
      → 0 < count f (m.overflow (home m (m.table f)))
  pub unique :
      (f g : ℕ)
      → f < m.frames
      → g < m.frames
      → (m.table f).pid ≢ 0
      → (m.table f).pid ≢ minus_one
      → (m.table f).pid ≡ (m.table g).pid
      → (m.table f).page ≡ (m.table g).page
      → f ≡ g
  pub numbered :
      (f : ℕ)
      → f < m.frames
      → (m.table f).pid ≢ 0
      → (m.table f).pid ≢ minus_one
      → (m.table f).page < count_of (m.table f).pid m.pages_per_process

-- Frame `f` holds the page of the process.
abbrev pub Holds : Frames → ℕ → ℕ → ℕ → Type 0
Holds m pid page f = (f < m.frames) × ((m.table f).pid ≡ pid) × ((m.table f).page ≡ page)

pub search_frames_sound :
    (xs : List ℕ) (pid page : ℕ) (m : Frames) (f : ℕ)
    → search_frames xs pid page m ≡ some f
    → (0 < count f xs) × ((m.table f).pid ≡ pid) × ((m.table f).page ≡ page)
unfolding search_frames page_is_right count
search_frames_sound [] pid page m f e = cc
search_frames_sound (x ∷ xs) pid page m f e = ground (arith, search_frames_sound xs pid page m f)

pub search_frames-finds :
    (xs : List ℕ) (m : Frames) (f : ℕ)
    → 0 < count f xs
    → (g : ℕ) × (search_frames xs (m.table f).pid (m.table f).page m ≡ some g)
unfolding search_frames page_is_right count
search_frames-finds [] m f h = absurd (omega arith)
search_frames-finds (x ∷ xs) m f h =
    elim (Bool-cases (page_is_right x (m.table f).pid (m.table f).page m)) [
      | inl e ↦ (x, rw (e))
      | inr e ↦ let (g, s) = search_frames-finds xs m f (ground arith) in (g, rw (e) s)
    ]

-- What get_frame answers is the frame of the page, and a page that some frame holds is found.
pub get_frame-sound :
    (m : Frames) (pid page f : ℕ) → IsValid m → get_frame pid page m ≡ some f → Holds m pid page f
unfolding get_frame page_is_right
get_frame-sound m pid page f v e = ground (
  arith,
  search_frames_sound (m.overflow (hashing m.conf pid page)) pid page m f,
  v.chained (hashing m.conf pid page) f,
  hashing-lt m.conf pid page v.frames_pos,
)

-- The same for the page that a frame holds.
pub get_frame_self :
    (m : Frames) (f : ℕ)
    → IsValid m
    → f < m.frames
    → (m.table f).pid ≢ 0
    → (m.table f).pid ≢ minus_one
    → get_frame (m.table f).pid (m.table f).page m ≡ some f
unfolding get_frame page_is_right
get_frame_self m f v inside real proper =
    let h = home m (m.table f) in
    elim (Bool-cases (page_is_right h (m.table f).pid (m.table f).page m)) [
      | inl e ↦ rw e (
          ap some (
            sym (ground (arith, v.unique f h, hashing-lt m.conf (m.table f).pid (m.table f).page))))
      | inr e ↦
          let (g, s) = search_frames-finds (m.overflow h) m f (ground (arith, v.placed f)) in
          rw e (
            s
            ∙ ap some (
                sym (
                  ground (
                    arith,
                    search_frames_sound (m.overflow h) (m.table f).pid (m.table f).page m g s,
                    v.chained h g,
                    v.unique f g,
                  ))))
    ]

-- In valid tables, a page of a process whose pid is not 0 or -1 that frame f holds is found
-- there, at its home frame or on the chain of that frame.
pub get_frame-finds :
    (m : Frames) (pid page f : ℕ)
    → IsValid m
    → pid ≢ 0
    → pid ≢ minus_one
    → Holds m pid page f
    → get_frame pid page m ≡ some f
get_frame-finds m pid page f v real proper h = ground (arith, get_frame_self m f v)

-- Where the same frames hold a page, the lookup answers the same.
pub get_frame-congr :
    (m m' : Frames) (pid page : ℕ)
    → IsValid m
    → IsValid m'
    → pid ≢ 0
    → pid ≢ minus_one
    → ((x : ℕ) → Holds m pid page x → Holds m' pid page x)
    → ((x : ℕ) → Holds m' pid page x → Holds m pid page x)
    → get_frame pid page m' ≡ get_frame pid page m
get_frame-congr m m' pid page v v' real proper to from =
    elim (Option-cases (get_frame pid page m)) [
      | inr (f, e) ↦
          get_frame-finds m' pid page f v' real proper (to f (get_frame-sound m pid page f v e))
          ∙ sym e
      | inl e ↦ elim (Option-cases (get_frame pid page m')) [
        | inl e' ↦ e' ∙ sym e
        | inr (g, e') ↦
            e'
            ∙ sym (
                get_frame-finds m pid page g v real proper
                  (from g (get_frame-sound m' pid page g v' e')))
      ]
    ]

-- A page that no frame holds is not found.
pub get_frame-none :
    (m : Frames) (pid page : ℕ)
    → IsValid m
    → ((x : ℕ) → ¬ Holds m pid page x)
    → get_frame pid page m ≡ none
get_frame-none m pid page v nowhere = elim (Option-cases (get_frame pid page m)) [
  | inl e ↦ e
  | inr (f, e) ↦ absurd (nowhere f (get_frame-sound m pid page f v e))
]
