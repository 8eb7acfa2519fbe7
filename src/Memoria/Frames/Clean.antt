-- ===== src/Memoria/Frames/Clean.antt =====
-- cleaning_process_entries on the page tables: every frame of the process is free, and nothing of
-- another process has changed.
use so_distribuido.Base.{
  ℕ, zero, suc, ◌+◌, ◌≤◌, ◌<◌, ◌≡◌, ◌≢◌, refl, ◌∙◌, ◌⊎◌, inl, inr, List, [], ◌∷◌, none, true, arith,
  ◌==◌, count, Bool-cases,
}
use native.Mathlib.Decide.{ℕ_discrete}
use so_distribuido.Memoria.Types.{Frames, ProcessPages, minus_one}
use so_distribuido.Memoria.Frames.{
  find_pages, free_reg, remove_from_overflow, remove_process, clean_frame, clean_frames,
  clean_tables, get_frame,
}
use so_distribuido.Memoria.Frames.Invariant.{IsValid, home, get_frame-congr, get_frame-none}
use so_distribuido.Memoria.Frames.Pages.{count_of-congr}
use so_distribuido.Memoria.Frames.Release.{Deleted, released-Deleted, count-remove_frame}

-- The frames from `lo` below `hi` that the process had are free; the other ones are as before.
pub record Cleaned (m m' : Frames) (pid lo hi : ℕ) : Type 0 where
  pub valid : IsValid m'
  pub same_conf : m'.conf ≡ m.conf
  pub counts : m'.pages_per_process ≡ m.pages_per_process
  pub cleared : (x : ℕ) → lo ≤ x → x < hi → (m.table x).pid ≡ pid → m'.table x ≡ free_reg
  pub kept : (x : ℕ) → (m.table x).pid ≢ pid → m'.table x ≡ m.table x
  pub untouched : (x : ℕ) → (x < lo) ⊎ (hi ≤ x) → m'.table x ≡ m.table x

clean_frame-Deleted :
    (m : Frames) (pid f : ℕ)
    → IsValid m
    → pid ≢ 0
    → pid ≢ minus_one
    → f < m.frames
    → (m.table f).pid ≡ pid
    → Deleted m (clean_frame pid f m) f
unfolding clean_frame
clean_frame-Deleted m pid f v real proper inside mine =
    let h = home m (m.table f) in
    let test : ((m.table f).pid == pid) ≡ true = ground arith in
    elim (Bool-cases (f == h)) [
      | inl e ↦
          rw (test, e)
            (released-Deleted m v f m.overflow inside (ground arith) (ground arith)
              (λ k x. ground arith))
      | inr e ↦
          rw (test, e)
            (released-Deleted m v f (remove_from_overflow h f m.overflow) inside (ground arith)
              (ground arith)
              (λ k x.
                unfold remove_from_overflow in
                ground (arith, count-remove_frame f x (m.overflow h), v.placed f)))
    ]

clean_frames-Cleaned :
    (left lo pid : ℕ) (m : Frames)
    → IsValid m
    → pid ≢ 0
    → pid ≢ minus_one
    → lo + left ≤ m.frames
    → Cleaned m (clean_frames left lo pid m) pid lo (lo + left)
unfolding clean_frames
clean_frames-Cleaned zero lo pid m v real proper fits = record {
  valid = v;
  same_conf = refl;
  counts = refl;
  cleared = λ x a b e. absurd (omega arith);
  kept = λ x n. refl;
  untouched = λ x n. refl;
}
clean_frames-Cleaned (suc left) lo pid m v real proper fits =
    elim (ℕ_discrete (m.table lo).pid pid) [
      | yes mine ↦
          let d = clean_frame-Deleted m pid lo v real proper (omega arith) mine in
          let c =
            clean_frames-Cleaned left (lo + 1) pid (clean_frame pid lo m) d.valid real proper
              (rw d.same_conf (omega arith)) in
          record {
            valid = c.valid;
            same_conf = c.same_conf ∙ d.same_conf;
            counts = c.counts ∙ d.counts;
            cleared = λ x a b e.
                ground (arith, ℕ_discrete x lo, c.cleared x, c.untouched x, d.kept x, d.cleared);
            kept = λ x n. ground (arith, c.kept x, d.kept x);
            untouched = λ x n. ground (arith, c.untouched x, d.kept x);
          }
      | no other ↦
          let skip : clean_frame pid lo m ≡ m = unfold clean_frame in ground arith in
          let c = clean_frames-Cleaned left (lo + 1) pid m v real proper (omega arith) in
          rw skip (record {
            valid = c.valid;
            same_conf = c.same_conf;
            counts = c.counts;
            cleared = λ x a b e. ground (arith, c.cleared x);
            kept = c.kept;
            untouched = λ x n. ground (arith, c.untouched x);
          })
    ]

find_pages-remove_ne :
    (pid q : ℕ) (ps : List ProcessPages)
    → q ≢ pid
    → find_pages q (remove_process pid ps) ≡ find_pages q ps
unfolding find_pages remove_process
find_pages-remove_ne pid q [] n = refl
find_pages-remove_ne pid q (p ∷ ps) n = ground (arith, find_pages-remove_ne pid q ps)

-- In valid tables, ending a process whose pid is not 0 or -1 keeps the tables valid. None of
-- its pages is found any more, each frame that it had is in the available list, and the
-- pages of the other processes are found where they were.
pub clean_tables-ends :
    (m : Frames) (pid : ℕ)
    → IsValid m
    → pid ≢ 0
    → pid ≢ minus_one
    → IsValid (clean_tables pid m)
      × ((page : ℕ) → get_frame pid page (clean_tables pid m) ≡ none)
      × ((x : ℕ)
          → x < m.frames
          → (m.table x).pid ≡ pid
          → 0 < count x (clean_tables pid m).available)
      × ((q page : ℕ)
          → q ≢ 0
          → q ≢ minus_one
          → q ≢ pid
          → get_frame q page (clean_tables pid m) ≡ get_frame q page m)
unfolding clean_tables
clean_tables-ends m pid v real proper =
    let m₁ = clean_frames m.frames 0 pid m in
    let m₂ = clean_tables pid m in
    let c = clean_frames-Cleaned m.frames 0 pid m v real proper (omega arith) in
    let gone : (x : ℕ) → x < m.frames → (m₁.table x).pid ≢ pid =
      λ x h. ground (arith, ℕ_discrete (m.table x).pid pid, c.cleared x, c.kept x) in
    let valid : IsValid m₂ = record {
      frames_pos = c.valid.frames_pos;
      avail_once = c.valid.avail_once;
      avail_free = c.valid.avail_free;
      free_avail = c.valid.free_avail;
      chain_once = c.valid.chain_once;
      chained = c.valid.chained;
      placed = c.valid.placed;
      unique = c.valid.unique;
      numbered = λ x h r p.
          rw
            (count_of-congr (m₁.table x).pid _ _ (
              find_pages-remove_ne pid (m₁.table x).pid m₁.pages_per_process
                (gone x (rw c.same_conf at h))))
            (c.valid.numbered x h r p);
    } in
    (
      valid,
      λ page. get_frame-none m₂ pid page valid λ x h. gone x (rw c.same_conf at h.0) h.1,
      λ x h e.
          c.valid.free_avail x (rw c.same_conf h) (rw (c.cleared x (omega arith) (omega arith) e)),
      λ q page r p n.
          get_frame-congr m m₂ q page v valid r p (λ x h. ground (arith, c.same_conf, c.kept x))
            (λ x h.
              ground (arith, c.same_conf, c.kept x, c.cleared x, ℕ_discrete (m.table x).pid pid)),
    )

-- The registers of the other frames.
pub clean_tables-kept :
    (m : Frames) (pid : ℕ)
    → IsValid m
    → pid ≢ 0
    → pid ≢ minus_one
    → ((clean_tables pid m).conf ≡ m.conf)
      × ((x : ℕ) → (m.table x).pid ≢ pid → (clean_tables pid m).table x ≡ m.table x)
unfolding clean_tables
clean_tables-kept m pid v real proper =
    let c = clean_frames-Cleaned m.frames 0 pid m v real proper (omega arith) in
    (c.same_conf, c.kept)
