-- ===== src/Memoria/Server/Serve.antt =====
-- Each request that the memory process serves keeps its invariants.
use so_distribuido.Base.{ℕ, ◌+◌, ◌<◌, ◌≡◌, ◌≢◌, refl, ◌∙◌, none, some, Bool, arith, length}
use native.Mathlib.Decide.{dec_lt}
use so_distribuido.Memoria.Types.{success, minus_one, word}
use so_distribuido.Memoria.Frames.{free_reg, rounds, count_of, get_frame}
use so_distribuido.Memoria.Frames.Invariant.{get_frame-sound}
use so_distribuido.Memoria.Frames.Assign.{assign_pages-Grown, assign_pages-no_space}
use so_distribuido.Memoria.Frames.Delete.{delete-Deleted}
use so_distribuido.Memoria.Frames.Clean.{clean_tables-ends, clean_tables-kept}
use so_distribuido.Memoria.Cache.Locks.{Caches}
use so_distribuido.Memoria.Server.{
  Memory, answer, assign_pages, delete_page, cleaning_process_entries, forget_page,
}
use so_distribuido.Memoria.Server.Invariant.{IsProper, IsConsistent, IsCoherent}
use so_distribuido.Memoria.Server.Kept.{Kept, Kept-IsConsistent, Kept-IsCoherent}
use so_distribuido.Memoria.Server.Forget.{forget_process-IsSound}
use so_distribuido.Memoria.Server.ForgetPage.{forget_page-IsSound}

module _ (m : Memory) (k : IsConsistent m) (pid : ℕ) (proper : IsProper pid) where
  -- A request for pages.
  pub assign_pages-IsConsistent :
      (pages : ℕ) (init : Bool)
      → count_of pid m.tables.pages_per_process + rounds pages < word
      → let r = assign_pages pid pages init m in IsConsistent r.1 × (IsCoherent m → IsCoherent r.1)
  unfolding assign_pages
  assign_pages-IsConsistent pages init fits =
      elim (dec_lt (length m.tables.available) (rounds pages)) [
        | yes short ↦ rw ((assign_pages-no_space pid pages init m.tables).0 short) (k, λ o. o)
        | no room ↦
            let (done, g) =
              assign_pages-Grown pid pages init m.tables k.valid proper.0 (ground (arith, proper.1))
                fits (omega arith) in
            let m' = (assign_pages pid pages init m).1 in
            let kept : Kept m m' = record {
              valid = g.valid;
              conf = g.same_conf;
              cache_conf = refl;
              sound = k.sound;
              unlocked = k.unlocked;
              bytes = refl;
              reserved = λ x a b. ground (arith, k.reserved x, g.kept x);
              slots = λ e b n. refl;
              pages = λ e f b n at real. ground (arith, at, g.kept f);
            } in
            (Kept-IsConsistent m m' k kept, Kept-IsCoherent m m' k kept)
      ]

  -- The end of the process.
  pub cleaning-IsConsistent :
      let m' = cleaning_process_entries pid m in
      IsConsistent m'
      × (IsCoherent m → IsCoherent m')
      × ((page : ℕ) → get_frame pid page m'.tables ≡ none)
      × ((e : ℕ) → e < m.cache.cache_entries → (m'.cache.slots e).pid ≢ pid)
  unfolding cleaning_process_entries
  cleaning-IsConsistent =
      let m' = cleaning_process_entries pid m in
      let real : pid ≢ minus_one = ground (arith, proper.1) in
      let (valid, gone, _, _) = clean_tables-ends m.tables pid k.valid proper.0 real in
      let (conf, tables) = clean_tables-kept m.tables pid k.valid proper.0 real in
      let (sound, cache_conf, locks, left) = forget_process-IsSound pid m.cache k.sound proper.1 in
      let kept : Kept m m' = record {
        valid = valid;
        conf = conf;
        cache_conf = cache_conf;
        sound = sound;
        unlocked = λ x. locks x ∙ k.unlocked x;
        bytes = refl;
        reserved = λ x a b. ground (arith, k.reserved x, tables x);
        slots = λ e b n. (left e b n).0;
        pages = λ e f b n at some_pid. ground (arith, left e b n, at, tables f);
      } in
      (
        Kept-IsConsistent m m' k kept,
        Kept-IsCoherent m m' k kept,
        gone,
        λ e b own. ground (arith, left e b),
      )

  -- The deletion of a page that is in memory.
  pub delete_page-IsConsistent :
      (page f : ℕ)
      → get_frame pid page m.tables ≡ some f
      → (m' : Memory) × (delete_page pid page m ≡ some (answer success, m'))
        × IsConsistent m'
        × (IsCoherent m → IsCoherent m')
        × (m'.tables.table f ≡ free_reg)
        × ((e : ℕ) → e < m.cache.cache_entries → ¬ Caches m'.cache pid page e)
  unfolding delete_page
  delete_page-IsConsistent page f found =
      let real : pid ≢ minus_one = ground (arith, proper.1) in
      let (t, done, d) = delete-Deleted m.tables pid page f k.valid proper.0 real found in
      let at = get_frame-sound m.tables pid page f k.valid found in
      let (sound, cache_conf, locks, left) =
        forget_page-IsSound pid page m.cache k.sound proper.1 in
      let m' : Memory = record m {
        tables = t;
        cache = forget_page m.cache.cache_entries 0 pid page m.cache;
      } in
      let kept : Kept m m' = record {
        valid = d.valid;
        conf = d.same_conf;
        cache_conf = cache_conf;
        sound = sound;
        unlocked = λ x. locks x ∙ k.unlocked x;
        bytes = refl;
        reserved = λ x a b. ground (arith, k.reserved x, d.kept x, at);
        slots = λ e b n. (left e b n).0;
        pages = λ e g b n here some_pid. ground (arith, left e b n, here, at, d.kept g);
      } in
      (
        m',
        rw (done, delete_page),
        Kept-IsConsistent m m' k kept,
        Kept-IsCoherent m m' k kept,
        d.cleared,
        λ e b own. ground (arith, left e b, own),
      )

module _ (m : Memory) (k : IsConsistent m) (o : IsCoherent m) (pid : ℕ)
    (proper : IsProper pid) where
  -- In a consistent state whose cache agrees with the memory, a request for pages of a
  -- proper process whose count of pages does not wrap leaves a consistent state whose cache
  -- agrees with the memory, whether there is space or not.
  pub assign_pages-serves :
      (pages : ℕ) (init : Bool)
      → count_of pid m.tables.pages_per_process + rounds pages < word
      → IsConsistent (assign_pages pid pages init m).1
        × IsCoherent (assign_pages pid pages init m).1
  assign_pages-serves pages init fits =
      let (k', o') = assign_pages-IsConsistent m k pid proper pages init fits in (k', o' o)
