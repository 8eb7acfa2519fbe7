-- ===== src/Memoria/Frames/Delete.antt =====
-- delete_page_process on the page tables: right for a page that the process has, and what it does
-- for any other.
use so_distribuido.Base.{
  ℕ, ◌+◌, ◌<◌, ◌≡◌, ◌≢◌, ◌⊎◌, ap, inl, inr, List, [], ◌∷◌, ◌++◌, Option, none, some, false, arith,
  ◌==◌, if◌then◌else◌, count, count-add, update, Bool-cases, length,
}
use so_distribuido.Memoria.Types.{Frames, minus_one}
use native.Mathlib.Decide.{ℕ_discrete}
use so_distribuido.Memoria.Hash.{hashing}
use so_distribuido.Memoria.Frames.{
  free_reg, page_is_right, delete_search, release_frame, delete_page_process, search_frames,
  get_frame, searching_on_overflow,
}
use so_distribuido.Memoria.Frames.Invariant.{
  IsValid, home, search_frames_sound, get_frame-sound, get_frame-congr, get_frame_self,
  get_frame-none,
}
use so_distribuido.Memoria.Frames.Release.{Deleted, released-Deleted}

-- The loop over a chain does what the lookup over it does, and takes out what it finds.
delete_search-found :
    (xs : List ℕ) (last : Option ℕ) (pid page : ℕ) (m : Frames) (f : ℕ)
    → search_frames xs pid page m ≡ some f
    → ((delete_search xs last pid page m).0 ≡ some f)
      × ((x : ℕ)
          → count x xs ≡ count x (delete_search xs last pid page m).1 + (if x == f then 1 else 0))
unfolding search_frames delete_search count
delete_search-found [] last pid page m f e = cc
delete_search-found (x ∷ xs) last pid page m f e = elim (Bool-cases (page_is_right x pid page m)) [
  | inl r ↦ rw r (ground arith, λ y. ground arith)
  | inr r ↦
      let (g, c) = delete_search-found xs (some x) pid page m f (ground arith) in
      rw r (g, λ y. omega (arith, c y))
]

-- Where the page is not in the chain, the frame is the last one of the chain, and stays in it.
delete_search-missing :
    (xs : List ℕ) (g : ℕ) (last : Option ℕ) (pid page : ℕ) (m : Frames)
    → search_frames (xs ++ g ∷ []) pid page m ≡ none
    → delete_search (xs ++ g ∷ []) last pid page m ≡ (some g, xs ++ g ∷ [])
unfolding search_frames delete_search
delete_search-missing [] g last pid page m e = ground arith
delete_search-missing (x ∷ xs) g last pid page m e =
    ground (arith, delete_search-missing xs g (some x) pid page m)

pub delete-Deleted :
    (m : Frames) (pid page f : ℕ)
    → IsValid m
    → pid ≢ 0
    → pid ≢ minus_one
    → get_frame pid page m ≡ some f
    → (m' : Frames) × (delete_page_process pid page m ≡ some m') × Deleted m m' f
unfolding delete_page_process get_frame searching_on_overflow
delete-Deleted m pid page f v real proper e =
    let h = hashing m.conf pid page in
    let at = get_frame-sound m pid page f v e in
    let home_eq : home m (m.table f) ≡ h = rw (at.1, at.2) in
    elim (Bool-cases (page_is_right h pid page m)) [
      | inl r ↦
          let eq : f ≡ h = ground arith in
          (
            release_frame h m,
            rw r,
            rw (← eq) (
                released-Deleted m v f m.overflow at.0 (ground arith) (ground arith)
                  (λ k x. ground (arith, home_eq, eq))),
          )
      | inr r ↦
          let (found, taken) =
            delete_search-found (m.overflow h) none pid page m f (ground arith) in
          let rest = (delete_search (m.overflow h) none pid page m).1 in
          (
            release_frame f (record m { overflow = update m.overflow h rest }),
            rw (r, delete_page_process, found),
            released-Deleted m v f (update m.overflow h rest) at.0 (ground arith) (ground arith)
                (λ k x. ground (
                  arith,
                  home_eq,
                  taken x,
                  search_frames_sound (m.overflow h) pid page m f,
                  v.chained h f,
                )),
          )
    ]

-- In valid tables, deleting a page, of a process whose pid is not 0 or -1, that get_frame
-- finds succeeds and keeps the tables valid. One frame more is free, the page is not found
-- any more, and every other page is found where it was.
pub delete_page-resident :
    (m : Frames) (pid page f : ℕ)
    → IsValid m
    → pid ≢ 0
    → pid ≢ minus_one
    → get_frame pid page m ≡ some f
    → (m' : Frames) × (delete_page_process pid page m ≡ some m')
      × IsValid m'
      × (get_frame pid page m' ≡ none)
      × (length m'.available ≡ length m.available + 1)
      × ((q p : ℕ)
          → q ≢ 0
          → q ≢ minus_one
          → (q ≢ pid) ⊎ (p ≢ page)
          → get_frame q p m' ≡ get_frame q p m)
delete_page-resident m pid page f v real proper e =
    let (m', done, d) = delete-Deleted m pid page f v real proper e in
    let at = get_frame-sound m pid page f v e in
    (
      m',
      done,
      d.valid,
      get_frame-none m' pid page d.valid λ x h.
          ground (arith, at, h, d.cleared, d.kept x, d.same_conf, v.unique x f, ℕ_discrete x f),
      d.total,
      λ q p r n other.
          get_frame-congr m m' q p v d.valid r n
            (λ x h. ground (arith, at, h, d.kept x, d.same_conf))
            (λ x h. ground (arith, at, h, d.cleared, d.kept x, d.same_conf, ℕ_discrete x f)),
    )

-- In valid tables, deleting a page that get_frame does not find, where the chain of its home
-- frame is not empty, frees the last frame g of that chain. Frame g held a page that
-- get_frame found, and the tables are not valid any more.
pub delete_page-steals :
    (m : Frames) (pid page : ℕ) (xs : List ℕ) (g : ℕ)
    → IsValid m
    → get_frame pid page m ≡ none
    → m.overflow (hashing m.conf pid page) ≡ xs ++ g ∷ []
    → (m' : Frames) × (delete_page_process pid page m ≡ some m')
      × (get_frame (m.table g).pid (m.table g).page m ≡ some g)
      × (m'.table g ≡ free_reg)
      × (¬ IsValid m')
unfolding delete_page_process get_frame searching_on_overflow count release_frame
delete_page-steals m pid page xs g v missing chain =
    let h = hashing m.conf pid page in
    let on_chain : 0 < count g (xs ++ g ∷ []) = ground (arith, count-add g xs g) in
    let held = v.chained h g (rw chain on_chain) in
    let missed : page_is_right h pid page m ≡ false = ground arith in
    let unfound : search_frames (m.overflow h) pid page m ≡ none = ground arith in
    let lost : delete_search (m.overflow h) none pid page m ≡ (some g, xs ++ g ∷ []) =
      rw chain (delete_search-missing xs g none pid page m (rw chain at unfound)) in
    let m' = release_frame g (record m { overflow = update m.overflow h (xs ++ g ∷ []) }) in
    (
      m',
      rw (missed, delete_page_process, ap (λ r. r.0) lost, ap (λ r. r.1) lost),
      get_frame_self m g v held.0 held.1 held.2,
      ground arith,
      λ v'. ground (arith, v'.chained h g),
    )
