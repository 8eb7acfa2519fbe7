-- ===== src/Kernel/Files/Balance.antt =====
-- Opening and closing a file keep the counts of the global table.
use so_distribuido.Base.{
  ℕ, ◌+◌, ◌^◌, ◌<◌, ◌≡◌, refl, ◌∙◌, ap, List, [], ◌∷◌, ◌++◌, Bool, true, ◌&&◌, ◌||◌, ◌==◌,
  if◌then◌else◌, arith, Option-cases, inl, inr, Bool-cases,
}
use so_distribuido.Kernel.Files.{
  GlobalFile, Flags, FileTables, buscar_archivo, crear_archivo, get_tabla, cargar, abrir_nuevo,
  abrir_archivo,
}
use so_distribuido.Kernel.Files.Counts.{
  nodes, opens, refs, all_open, IsCounted, refs-get_tabla, has_tabla-get_tabla, refs-cargar_archivo,
  opens-buscar, nodes-buscar, all_open-buscar,
}

-- A file added at the end of the global table.
added :
    (q : ℕ) (gs : List GlobalFile) (g : GlobalFile)
    → (nodes q (gs ++ g ∷ []) ≡ nodes q gs + (if g.global_fd == q then 1 else 0))
      × (opens q (gs ++ g ∷ []) ≡ opens q gs + (if g.global_fd == q then g.open_count else 0))
unfolding nodes opens
added q [] g = (omega arith, omega arith)
added q (x ∷ gs) g = let (a, b) = added q gs g in (omega (arith, a), omega (arith, b))

all_open-add :
    (gs : List GlobalFile) (g : GlobalFile)
    → all_open gs ≡ true
    → 0 < g.open_count
    → all_open (gs ++ g ∷ []) ≡ true
unfolding all_open
all_open-add [] g h k = ground arith
all_open-add (x ∷ gs) g h k = ground (arith, all_open-add gs g)

refs-cargar :
    (q pid fd : ℕ) (flags : Flags) (s : FileTables)
    → refs q (cargar pid fd flags s).1.tablas ≡ refs q s.tablas + (if fd == q then 1 else 0)
unfolding cargar
refs-cargar q pid fd flags s =
    refs-cargar_archivo q pid fd flags (get_tabla pid s.tablas) (has_tabla-get_tabla pid s.tablas)
    ∙ ap (λ n. n + (if fd == q then 1 else 0)) (refs-get_tabla q pid s.tablas)

same_global :
    (pid fd : ℕ) (flags : Flags) (s : FileTables)
    → ((cargar pid fd flags s).1.global ≡ s.global)
      × ((cargar pid fd flags s).1.contador_fd_global ≡ s.contador_fd_global)
unfolding cargar
same_global pid fd flags s = (refl, refl)

-- A new file, with one descriptor.
nuevo-IsCounted :
    (pid : ℕ) (direccion : List ℕ) (flags : Flags) (s : FileTables)
    → IsCounted s
    → s.contador_fd_global + 1 < 2 ^ 8
    → IsCounted (cargar pid (crear_archivo direccion s).0 flags (crear_archivo direccion s).1).1
unfolding crear_archivo
nuevo-IsCounted pid direccion flags s k room =
    let fd = s.contador_fd_global in
    let s' = (crear_archivo direccion s).1 in
    let (global, contador) = same_global pid fd flags s' in
    let new : GlobalFile = record { file = direccion; open_count = 1; global_fd = fd } in
    record {
      once = λ q. rw global (ground (arith, (added q s.global new).0, k.once q, k.fresh q));
      counted = λ q.
          rw (global, refs-cargar q pid fd flags s')
            (ground (arith, (added q s.global new).1, k.counted q));
      positive = rw global (all_open-add s.global new k.positive (omega arith));
      fresh =
          λ q h. rw global (ground (arith, (added q s.global new).0, k.fresh q, rw contador at h));
    }

abrir_nuevo-IsCounted :
    (pid : ℕ) (direccion : List ℕ) (flags : Flags) (is_reg created : Bool) (s : FileTables)
    → IsCounted s
    → s.contador_fd_global + 1 < 2 ^ 8
    → IsCounted (abrir_nuevo pid direccion flags is_reg created s).1
unfolding abrir_nuevo
abrir_nuevo-IsCounted pid direccion flags is_reg created s k room =
    elim (Bool-cases
      (((flags.lectura || flags.escritura) && is_reg) || (flags.creacion && created))) [
        | inl yes_ ↦ rw yes_ (nuevo-IsCounted pid direccion flags s k room)
        | inr no_ ↦ rw no_ k
      ]

-- Opening a file, with fewer than 2^8 - 1 descriptors given before and counts that do not
-- wrap, keeps the tables counted, whatever the file system answers: each file of the global
-- table has its own descriptor and is open at least once, its count is the number of
-- descriptors of processes that refer to it, and the descriptors to come are fresh.
pub abrir_archivo-IsCounted :
    (pid : ℕ) (direccion : List ℕ) (flags : Flags) (is_reg created : Bool) (s : FileTables)
    → IsCounted s
    → s.contador_fd_global + 1 < 2 ^ 8
    → ((q : ℕ) → opens q s.global + 1 < 2 ^ 32)
    → IsCounted (abrir_archivo pid direccion flags is_reg created s).1
unfolding abrir_archivo
abrir_archivo-IsCounted pid direccion flags is_reg created s k room small =
    elim (Option-cases (buscar_archivo direccion s.global).0) [
      | inl e ↦
          rw (e, abrir_archivo) (abrir_nuevo-IsCounted pid direccion flags is_reg created s k room)
      | inr (fd, e) ↦
          let s' = record s { global = (buscar_archivo direccion s.global).1 } in
          let (global, contador) = same_global pid fd flags s' in
          rw (e, abrir_archivo)
            (record {
              once = λ q. rw global (omega (arith, nodes-buscar q direccion s.global, k.once q));
              counted = λ q.
                  rw (global, refs-cargar q pid fd flags s')
                    (omega (arith, opens-buscar q direccion s.global fd small e, k.counted q));
              positive = rw global (all_open-buscar direccion s.global small k.positive);
              fresh = λ q h.
                  rw global (
                    omega (arith, nodes-buscar q direccion s.global, k.fresh q (rw contador at h)));
            })
    ]
