-- ===== src/Memoria/Frames/Occupy.antt =====
-- inicialize_page keeps the invariant: a page that nobody holds gets a free frame, in its home
-- frame or in the chain of it.
use so_distribuido.Base.{
  ℕ, ◌+◌, ◌<◌, ◌≡◌, ◌≢◌, refl, List, [], ◌∷◌, true, false, ◌&&◌, not, arith, ◌==◌, if◌then◌else◌,
  count, count-add, length, update, Bool-cases, inl, inr,
}
use so_distribuido.Memoria.Types.{Frames, Reg, Segment, minus_one}
use so_distribuido.Memoria.Hash.{hashing}
use so_distribuido.Memoria.Frames.{
  count_of, frame_is_available, get_available_frame, add_to_overflow, inicialize_page,
}
use so_distribuido.Memoria.Frames.Invariant.{IsValid, home}

-- Taking a frame out of the available list takes that frame only.
pub count-frame_is_available :
    (f x : ℕ) (xs : List ℕ)
    → count x xs
      ≡ count x (frame_is_available f xs).1
        + (if (frame_is_available f xs).0 && x == f then 1 else 0)
unfolding frame_is_available count
count-frame_is_available f x [] = omega arith
count-frame_is_available f x (y ∷ ys) = ground (arith, count-frame_is_available f x ys)

pub frame_is_available-false :
    (f : ℕ) (xs : List ℕ) → (frame_is_available f xs).0 ≡ false → count f xs ≡ 0
unfolding frame_is_available count
frame_is_available-false f [] e = refl
frame_is_available-false f (y ∷ ys) e = ground (arith, frame_is_available-false f ys)

pub count-get_available_frame :
    (x : ℕ) (xs : List ℕ)
    → 0 < length xs
    → count x xs
      ≡ count x (get_available_frame xs).1 + (if x == (get_available_frame xs).0 then 1 else 0)
unfolding get_available_frame count
count-get_available_frame x [] h = absurd (omega arith)
count-get_available_frame x (y ∷ ys) h = omega arith

-- The tables with frame `f` given to the page of `reg`.
module _ (m : Frames) (v : IsValid m) (f : ℕ) (reg : Reg) (rest : List ℕ) (over : ℕ → List ℕ)
    (real : reg.pid ≢ 0) (proper : reg.pid ≢ minus_one)
    (taken : (x : ℕ) → count x m.available ≡ count x rest + (if x == f then 1 else 0))
    (linked : (h x : ℕ)
      → count x (over h)
        ≡ count x (m.overflow h)
          + (if (h == home m reg) && (x == f) && not (f == home m reg) then 1 else 0))
    (fresh : (x : ℕ) → x < m.frames → (m.table x).pid ≡ reg.pid → (m.table x).page ≢ reg.page)
    (counted : reg.page < count_of reg.pid m.pages_per_process) where
  abbrev occupied : Frames
  occupied = record m { table = update m.table f reg; available = rest; overflow = over }

  was_free : (f < m.frames) × ((m.table f).pid ≡ 0) × (count f rest ≡ 0)
  was_free = ground (arith, taken f, v.avail_once f, v.avail_free f)

  unchained : (h : ℕ) → count f (m.overflow h) ≡ 0
  unchained h = ground (arith, was_free, v.chained h f)

  pub occupied-IsValid : IsValid occupied
  occupied-IsValid = record {
    frames_pos = v.frames_pos;
    avail_once = λ x. omega (arith, taken x, v.avail_once x);
    avail_free = λ x h. ground (arith, taken x, was_free, v.avail_free x);
    free_avail = λ x h e. ground (arith, taken x, v.free_avail x);
    chain_once = λ h x. ground (arith, linked h x, unchained h, v.chain_once h x);
    chained = λ h x e. ground (arith, linked h x, unchained h, was_free, v.chained h x);
    placed = λ x h r p n. ground (arith, linked (home m (update m.table f reg x)) x, v.placed x);
    unique = λ x y hx hy r p e g. ground (arith, fresh x, fresh y, v.unique x y);
    numbered = λ x h r p. ground (arith, v.numbered x);
  }

length-frame_is_available :
    (f : ℕ) (xs : List ℕ)
    → (frame_is_available f xs).0 ≡ true
    → length (frame_is_available f xs).1 + 1 ≡ length xs
unfolding frame_is_available
length-frame_is_available f [] e = cc
length-frame_is_available f (y ∷ ys) e = ground (arith, length-frame_is_available f ys)

length-get_available_frame :
    (xs : List ℕ) → 0 < length xs → length (get_available_frame xs).1 + 1 ≡ length xs
unfolding get_available_frame
length-get_available_frame [] h = absurd (omega arith)
length-get_available_frame (y ∷ ys) h = omega arith

get_available_frame-ne :
    (h : ℕ) (xs : List ℕ) → 0 < length xs → count h xs ≡ 0 → (get_available_frame xs).0 ≢ h
unfolding get_available_frame count
get_available_frame-ne h [] p e = absurd (omega arith)
get_available_frame-ne h (y ∷ ys) p e = ground arith

-- Which frame a page gets, and what the lists are then.
pub record Assignment (m m' : Frames) (reg : Reg) : Type 0 where
  pub frame : ℕ
  pub rest : List ℕ
  pub over : ℕ → List ℕ
  pub result : m' ≡ record m { table = update m.table frame reg; available = rest; overflow = over }
  pub taken : (x : ℕ) → count x m.available ≡ count x rest + (if x == frame then 1 else 0)
  pub shorter : length rest + 1 ≡ length m.available
  pub linked :
      (h x : ℕ)
      → count x (over h)
        ≡ count x (m.overflow h)
          + (if (h == home m reg) && (x == frame) && not (frame == home m reg) then 1 else 0)

pub inicialize_page-Assignment :
    (pid page : ℕ) (segment : Segment) (m : Frames)
    → 0 < length m.available
    → Assignment m
        (inicialize_page pid page segment m)
        (record { pid = pid; page = page; segment = segment })
unfolding inicialize_page
inicialize_page-Assignment pid page segment m room =
    let h = hashing m.conf pid page in
    let f = (get_available_frame m.available).0 in
    elim (Bool-cases (frame_is_available h m.available).0) [
      | inl e ↦ record {
        frame = h;
        rest = (frame_is_available h m.available).1;
        over = m.overflow;
        result = rw (e, inicialize_page);
        taken = λ x. ground (arith, count-frame_is_available h x m.available);
        shorter = length-frame_is_available h m.available e;
        linked = λ k x. ground arith;
      }
      | inr e ↦ record {
        frame = f;
        rest = (get_available_frame m.available).1;
        over = add_to_overflow h f m.overflow;
        result = rw (e, inicialize_page);
        taken = λ x. count-get_available_frame x m.available room;
        shorter = length-get_available_frame m.available room;
        linked = λ k x.
            unfold add_to_overflow in
            ground (
              arith,
              count-add x (m.overflow h) f,
              get_available_frame-ne h m.available room (frame_is_available-false h m.available e),
            );
      }
    ]

-- A new page of a process keeps the invariant.
pub inicialize_page-IsValid :
    (pid page : ℕ) (segment : Segment) (m : Frames)
    → IsValid m
    → 0 < length m.available
    → pid ≢ 0
    → pid ≢ minus_one
    → ((x : ℕ) → x < m.frames → (m.table x).pid ≡ pid → (m.table x).page ≢ page)
    → page < count_of pid m.pages_per_process
    → IsValid (inicialize_page pid page segment m)
inicialize_page-IsValid pid page segment m v room real proper fresh counted =
    let a = inicialize_page-Assignment pid page segment m room in
    rw a.result (
      occupied-IsValid m v a.frame (record { pid = pid; page = page; segment = segment }) a.rest
        a.over real proper a.taken a.linked fresh counted)
