-- ===== src/Kernel/Files/Counts.antt =====
-- The global table counts for each file how many descriptors of processes it has.
use so_distribuido.Base.{
  ℕ, ◌+◌, ◌^◌, ◌≤◌, ◌<◌, ◌≡◌, refl, List, [], ◌∷◌, ◌++◌, some, Bool, true, false, ◌&&◌, ◌||◌, ◌==◌,
  ltb, if◌then◌else◌, arith, Option-cases, inl, inr, Bool-cases,
}
use so_distribuido.Kernel.Files.{
  GlobalFile, Flags, ProcessFile, TableFile, FileTables, buscar_archivo, find_tabla, get_tabla,
  cargar_archivo,
}
use so_distribuido.Base.{same_text}

-- How often a descriptor stands in the global table, and its count there.
unfoldable pub nodes : ℕ → List GlobalFile → ℕ
nodes q [] = 0
nodes q (g ∷ gs) = (if g.global_fd == q then 1 else 0) + nodes q gs

unfoldable pub opens : ℕ → List GlobalFile → ℕ
opens q [] = 0
opens q (g ∷ gs) = (if g.global_fd == q then g.open_count else 0) + opens q gs

-- How many descriptors of processes refer to it.
unfoldable pub refs_in : ℕ → List ProcessFile → ℕ
refs_in q [] = 0
refs_in q (f ∷ fs) = (if f.global_fd == q then 1 else 0) + refs_in q fs

unfoldable pub refs : ℕ → List TableFile → ℕ
refs q [] = 0
refs q (t ∷ ts) = refs_in q t.tabla_archivos + refs q ts

-- Each file of the global table is open at least once.
unfoldable pub all_open : List GlobalFile → Bool
all_open [] = true
all_open (g ∷ gs) = ltb 0 g.open_count && all_open gs

pub record IsCounted (s : FileTables) : Type 0 where
  pub once : (q : ℕ) → nodes q s.global ≤ 1
  pub counted : (q : ℕ) → opens q s.global ≡ refs q s.tablas
  pub positive : all_open s.global ≡ true
  pub fresh : (q : ℕ) → s.contador_fd_global ≤ q → nodes q s.global ≡ 0

pub opens-absent : (q : ℕ) (gs : List GlobalFile) → nodes q gs ≡ 0 → opens q gs ≡ 0
unfolding nodes opens
opens-absent q [] h = refl
opens-absent q (g ∷ gs) h = ground (arith, opens-absent q gs)

pub refs_in-add :
    (q : ℕ) (fs : List ProcessFile) (f : ProcessFile)
    → refs_in q (fs ++ f ∷ []) ≡ refs_in q fs + (if f.global_fd == q then 1 else 0)
unfolding refs_in
refs_in-add q [] f = omega arith
refs_in-add q (x ∷ fs) f = omega (arith, refs_in-add q fs f)

refs-new :
    (q pid : ℕ) (ts : List TableFile)
    → refs q (ts ++ record { pid = pid; tabla_archivos = []; contador_fd = 10 } ∷ []) ≡ refs q ts
unfolding refs refs_in
refs-new q pid [] = refl
refs-new q pid (t ∷ ts) = omega (arith, refs-new q pid ts)

pub refs-get_tabla : (q pid : ℕ) (ts : List TableFile) → refs q (get_tabla pid ts) ≡ refs q ts
unfolding get_tabla
refs-get_tabla q pid ts = elim (Option-cases (find_tabla pid ts)) [
  | inr (t, e) ↦ rw (e, get_tabla) refl
  | inl e ↦ rw (e, get_tabla) (refs-new q pid ts)
]

-- The process has a table.
unfoldable pub has_tabla : ℕ → List TableFile → Bool
has_tabla pid [] = false
has_tabla pid (t ∷ ts) = t.pid == pid || has_tabla pid ts

has_tabla-new :
    (pid : ℕ) (ts : List TableFile) (t : TableFile)
    → t.pid ≡ pid
    → has_tabla pid (ts ++ t ∷ []) ≡ true
unfolding has_tabla
has_tabla-new pid [] t e = ground arith
has_tabla-new pid (x ∷ ts) t e = ground (arith, has_tabla-new pid ts t e)

has_tabla-find :
    (pid : ℕ) (ts : List TableFile) (t : TableFile)
    → find_tabla pid ts ≡ some t
    → has_tabla pid ts ≡ true
unfolding has_tabla find_tabla
has_tabla-find pid [] t e = cc
has_tabla-find pid (x ∷ ts) t e = ground (arith, has_tabla-find pid ts t)

pub has_tabla-get_tabla : (pid : ℕ) (ts : List TableFile) → has_tabla pid (get_tabla pid ts) ≡ true
unfolding get_tabla
has_tabla-get_tabla pid ts = elim (Option-cases (find_tabla pid ts)) [
  | inr (t, e) ↦ rw (e, get_tabla) (has_tabla-find pid ts t e)
  | inl e ↦ rw (e, get_tabla) (has_tabla-new pid ts _ refl)
]

pub refs-cargar_archivo :
    (q pid fd : ℕ) (flags : Flags) (ts : List TableFile)
    → has_tabla pid ts ≡ true
    → refs q (cargar_archivo pid fd flags ts).1 ≡ refs q ts + (if fd == q then 1 else 0)
unfolding refs cargar_archivo has_tabla
refs-cargar_archivo q pid fd flags [] h = cc
refs-cargar_archivo q pid fd flags (t ∷ ts) h = elim (Bool-cases (t.pid == pid)) [
  | inl e ↦ rw e (
      omega (
        arith,
        refs_in-add q t.tabla_archivos (record {
          proceso_fd = t.contador_fd;
          global_fd = fd;
          flags = flags;
          offset_cursor = 0;
        }),
      ))
  | inr e ↦ let ih = refs-cargar_archivo q pid fd flags ts (rw e at h) in rw e (omega (arith, ih))
]

pub opens-buscar :
    (q : ℕ) (direccion : List ℕ) (gs : List GlobalFile) (fd : ℕ)
    → ((x : ℕ) → opens x gs + 1 < 2 ^ 32)
    → (buscar_archivo direccion gs).0 ≡ some fd
    → (opens q (buscar_archivo direccion gs).1 ≡ opens q gs + (if fd == q then 1 else 0))
unfolding opens buscar_archivo
opens-buscar q direccion [] fd small e = cc
opens-buscar q direccion (g ∷ gs) fd small e = elim (Bool-cases (same_text g.file direccion)) [
  | inl same ↦ rw same (ground (arith, small g.global_fd))
  | inr other ↦
      let ih = opens-buscar q direccion gs fd (λ x. omega (arith, small x)) (rw other at e) in
      rw other (omega (arith, ih))
]

pub nodes-buscar :
    (q : ℕ) (direccion : List ℕ) (gs : List GlobalFile)
    → nodes q (buscar_archivo direccion gs).1 ≡ nodes q gs
unfolding nodes buscar_archivo
nodes-buscar q direccion [] = refl
nodes-buscar q direccion (g ∷ gs) = ground (arith, nodes-buscar q direccion gs)

pub all_open-buscar :
    (direccion : List ℕ) (gs : List GlobalFile)
    → ((x : ℕ) → opens x gs + 1 < 2 ^ 32)
    → all_open gs ≡ true
    → all_open (buscar_archivo direccion gs).1 ≡ true
unfolding all_open buscar_archivo opens
all_open-buscar direccion [] small h = refl
all_open-buscar direccion (g ∷ gs) small h =
    let ih = all_open-buscar direccion gs (λ x. omega (arith, small x)) in
    ground (arith, small g.global_fd, ih)
