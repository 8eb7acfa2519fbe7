-- ===== src/Memoria/Frames/Load.antt =====
-- load builds valid tables: the frames that hold the invert table are reserved, the others free.
use so_distribuido.Base.{
  ℕ, zero, suc, ◌+◌, ◌≤◌, ◌<◌, ◌≡◌, ◌≢◌, refl, [], arith, leb, ltb, if◌then◌else◌, count, count-add,
  ◌&&◌,
}
use so_distribuido.Memoria.Types.{Conf, Frames, Reg, minus_one}
use so_distribuido.Memoria.Frames.{
  free_reg, first_free_frame, load_frame, load_frames, empty_frames, load,
}
use so_distribuido.Memoria.Frames.Invariant.{IsValid}

-- The tables after the rounds below `n`.
record Loaded (conf : Conf) (m : Frames) (n : ℕ) : Type 0 where
  same_conf : m.conf ≡ conf
  chains : m.overflow ≡ (λ _. [])
  reserved : (x : ℕ) → x < n → x < first_free_frame conf → (m.table x).pid ≡ minus_one
  free : (x : ℕ) → x < n → first_free_frame conf ≤ x → m.table x ≡ free_reg
  listed :
      (x : ℕ) → count x m.available ≡ (if ltb x n && leb (first_free_frame conf) x then 1 else 0)

load_frame-Loaded :
    (n : ℕ) (conf : Conf) (m : Frames) → Loaded conf m n → Loaded conf (load_frame n m) (n + 1)
unfolding load_frame
load_frame-Loaded n conf m l = record {
  same_conf = ground (arith, l.same_conf);
  chains = ground (arith, l.chains);
  reserved = λ x h r. ground (arith, l.same_conf, l.reserved x);
  free = λ x h r. ground (arith, l.same_conf, l.free x);
  listed = λ x. ground (arith, l.same_conf, l.listed x, count-add x m.available n);
}

load_frames-Loaded :
    (left n : ℕ) (conf : Conf) (m : Frames)
    → Loaded conf m n
    → Loaded conf (load_frames left n m) (n + left)
unfolding load_frames
load_frames-Loaded zero n conf m l = let e : n + 0 ≡ n = omega arith in rw e l
load_frames-Loaded (suc left) n conf m l =
    let e : n + suc left ≡ n + 1 + left = omega arith in
    rw e (load_frames-Loaded left (n + 1) conf (load_frame n m) (load_frame-Loaded n conf m l))

load-Loaded : (conf : Conf) (garbage : ℕ → Reg) → Loaded conf (load conf garbage) conf.frames
unfolding load empty_frames count
load-Loaded conf garbage =
    let start : Loaded conf (empty_frames conf garbage) 0 = record {
      same_conf = refl;
      chains = refl;
      reserved = λ x h r. absurd (omega arith);
      free = λ x h r. absurd (omega arith);
      listed = λ x. ground arith;
    } in
    let e : 0 + conf.frames ≡ conf.frames = omega arith in
    rw e at (load_frames-Loaded conf.frames 0 conf (empty_frames conf garbage) start)

-- With some frames, the tables after load are valid, whatever the memory held before. The
-- frames at the start that hold the invert table are reserved, and exactly the other ones
-- are available, each once.
pub load-IsValid :
    (conf : Conf) (garbage : ℕ → Reg)
    → 0 < conf.frames
    → IsValid (load conf garbage)
      × ((x : ℕ)
          → x < conf.frames
          → x < first_free_frame conf
          → ((load conf garbage).table x).pid ≡ minus_one)
      × ((x : ℕ)
          → count x (load conf garbage).available
            ≡ (if ltb x conf.frames && leb (first_free_frame conf) x then 1 else 0))
load-IsValid conf garbage h =
    let l = load-Loaded conf garbage in
    let empty : (k x : ℕ) → count x ((load conf garbage).overflow k) ≡ 0 =
      λ k x. rw l.chains (unfold count in refl) in
    let unused : (x : ℕ)
        → x < (load conf garbage).frames
        → ((load conf garbage).table x).pid ≢ 0
        → ((load conf garbage).table x).pid ≢ minus_one
        → ⊥ =
      λ x k r p. ground (arith, l.same_conf, l.reserved x, l.free x) in
    (
      record {
        frames_pos = rw l.same_conf h;
        avail_once = λ x. ground (arith, l.listed x);
        avail_free = λ x k. ground (arith, l.listed x, l.free x, l.same_conf);
        free_avail = λ x k e. ground (arith, l.listed x, l.reserved x, l.same_conf);
        chain_once = λ k x. omega (arith, empty k x);
        chained = λ k x e. absurd (omega (arith, empty k x));
        placed = λ x k r p n. absurd (unused x k r p);
        unique = λ x y k j r p. absurd (unused x k r p);
        numbered = λ x k r p. absurd (unused x k r p);
      },
      l.reserved,
      l.listed,
    )

pub load-same_conf : (conf : Conf) (garbage : ℕ → Reg) → (load conf garbage).conf ≡ conf
load-same_conf conf garbage = (load-Loaded conf garbage).same_conf
