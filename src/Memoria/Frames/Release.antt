-- ===== src/Memoria/Frames/Release.antt =====
-- A frame that held a page is free again, and out of the chain that it stood in: what deleting a
-- page and cleaning up a process have in common.
use so_distribuido.Base.{
  ℕ, ◌+◌, ◌<◌, ◌≡◌, ◌≢◌, refl, List, [], ◌∷◌, ◌&&◌, not, arith, ◌==◌, if◌then◌else◌, count,
  count-add, length-append, length,
}
use so_distribuido.Memoria.Types.{Frames, minus_one}
use so_distribuido.Memoria.Frames.{free_reg, remove_frame, release_frame}
use so_distribuido.Memoria.Frames.Invariant.{IsValid, home}

-- What is left when the page in frame `f` is gone.
pub record Deleted (m m' : Frames) (f : ℕ) : Type 0 where
  pub valid : IsValid m'
  pub same_conf : m'.conf ≡ m.conf
  pub cleared : m'.table f ≡ free_reg
  pub kept : (x : ℕ) → x ≢ f → m'.table x ≡ m.table x
  pub total : length m'.available ≡ length m.available + 1
  pub counts : m'.pages_per_process ≡ m.pages_per_process

module _ (m : Frames) (v : IsValid m) (f : ℕ) (over : ℕ → List ℕ) (inside : f < m.frames)
    (real : (m.table f).pid ≢ 0) (proper : (m.table f).pid ≢ minus_one)
    (unlinked : (h x : ℕ)
      → count x (m.overflow h)
        ≡ count x (over h)
          + (if (h == home m (m.table f)) && (x == f) && not (f == home m (m.table f))
              then 1
              else 0)) where
  abbrev pub released : Frames
  released = release_frame f (record m { overflow = over })

  not_free : count f m.available ≡ 0
  not_free = ground (arith, v.avail_free f)

  gone : (h : ℕ) → count f (over h) ≡ 0
  gone h = ground (arith, unlinked h f, v.chained h f, v.chain_once h f)

  pub released-IsValid : IsValid released
  unfolding release_frame
  released-IsValid = record {
    frames_pos = v.frames_pos;
    avail_once = λ x. ground (arith, count-add x m.available f, v.avail_once x, not_free);
    avail_free = λ x h. ground (arith, count-add x m.available f, v.avail_free x);
    free_avail = λ x h e. ground (arith, count-add x m.available f, v.free_avail x);
    chain_once = λ h x. omega (arith, unlinked h x, v.chain_once h x);
    chained = λ h x e. ground (arith, unlinked h x, gone h, v.chained h x);
    placed = λ x h r p n. ground (arith, unlinked (home m (m.table x)) x, v.placed x);
    unique = λ x y hx hy r p e g. ground (arith, v.unique x y);
    numbered = λ x h r p. ground (arith, v.numbered x);
  }

  pub released-Deleted : Deleted m released f
  unfolding release_frame
  released-Deleted = record {
    valid = released-IsValid;
    same_conf = refl;
    cleared = ground arith;
    kept = λ x ne. ground arith;
    total = omega (arith, length-append m.available (f ∷ []));
    counts = refl;
  }

pub count-remove_frame :
    (f x : ℕ) (xs : List ℕ)
    → 0 < count f xs
    → count x xs ≡ count x (remove_frame f xs) + (if x == f then 1 else 0)
unfolding remove_frame count
count-remove_frame f x [] h = absurd (omega arith)
count-remove_frame f x (y ∷ ys) h = ground (arith, count-remove_frame f x ys)
