-- ===== src/Kernel/Files/Close.antt =====
-- Closing a file.
use so_distribuido.Base.{
  ℕ, ◌+◌, ◌-◌, ◌≤◌, ◌<◌, ◌≡◌, refl, ◌∙◌, sym, List, [], ◌∷◌, some, Bool, true, false, ◌==◌, ltb,
  if◌then◌else◌, arith, Option-cases, inl, inr, Bool-cases,
}
use native.Mathlib.Decide.{dec_lt}
use so_distribuido.Kernel.Files.{
  GlobalFile, ProcessFile, TableFile, FileTables, get_tabla, buscar_proceso, descontar, quitar,
  quitar_archivo, buscar_en_tablas, cerrar, cerrar_archivo,
}
use so_distribuido.Kernel.Files.Counts.{
  nodes, opens, refs_in, refs, all_open, IsCounted, opens-absent, refs-get_tabla,
}

-- One descriptor less, in the list of a process and in all the tables.
refs_in-quitar :
    (q fd : ℕ) (fs : List ProcessFile) (f : ProcessFile)
    → buscar_proceso fd fs ≡ some f
    → refs_in q fs ≡ refs_in q (quitar fd fs) + (if f.global_fd == q then 1 else 0)
unfolding refs_in quitar buscar_proceso
refs_in-quitar q fd [] f e = cc
refs_in-quitar q fd (x ∷ fs) f e = elim (Bool-cases (x.proceso_fd == fd)) [
  | inl same ↦ ground arith
  | inr other ↦ ground (arith, refs_in-quitar q fd fs f)
]

refs-quitar :
    (q pid fd : ℕ) (ts : List TableFile) (f : ProcessFile)
    → buscar_en_tablas pid fd ts ≡ some f
    → refs q ts ≡ refs q (quitar_archivo pid fd ts) + (if f.global_fd == q then 1 else 0)
unfolding refs quitar_archivo buscar_en_tablas
refs-quitar q pid fd [] f e = cc
refs-quitar q pid fd (t ∷ ts) f e = elim (Bool-cases (t.pid == pid)) [
  | inl same ↦
      let held = refs_in-quitar q fd t.tabla_archivos f (rw same at e) in
      rw same (omega (arith, held))
  | inr other ↦ let ih = refs-quitar q pid fd ts f (rw other at e) in rw other (omega (arith, ih))
]

-- One less in the count of the file, which is taken out of the table at 0.
record Descontado (fd : ℕ) (gs gs' : List GlobalFile) : Type 0 where
  done : descontar fd gs ≡ some gs'
  fewer : (q : ℕ) → opens q gs ≡ opens q gs' + (if fd == q then 1 else 0)
  at_most : (q : ℕ) → nodes q gs' ≤ nodes q gs
  positive : all_open gs' ≡ true

descontar-Descontado :
    (fd : ℕ) (gs : List GlobalFile)
    → all_open gs ≡ true
    → 0 < nodes fd gs
    → (gs' : List GlobalFile) × Descontado fd gs gs'
unfolding descontar nodes opens all_open
descontar-Descontado fd [] h k = absurd (omega arith)
descontar-Descontado fd (g ∷ gs) h k = elim (Bool-cases (g.global_fd == fd)) [
  | inl same ↦ elim (Bool-cases (ltb 1 g.open_count)) [
    | inl many ↦ (
      record g { open_count = g.open_count - 1 } ∷ gs,
      record {
        done = rw (same, many, descontar) refl;
        fewer = λ q. ground arith;
        at_most = λ q. ground arith;
        positive = ground arith;
      },
    )
    | inr last ↦ (
      gs,
      record {
        done = rw (same, last, descontar) refl;
        fewer = λ q. ground arith;
        at_most = λ q. omega arith;
        positive = ground arith;
      },
    )
  ]
  | inr other ↦
      let (gs', d) = descontar-Descontado fd gs (ground arith) (ground arith) in
      (
        g ∷ gs',
        record {
          done = rw (other, d.done, descontar) refl;
          fewer = λ q. omega (arith, d.fewer q);
          at_most = λ q. omega (arith, d.at_most q);
          positive = ground (arith, d.positive);
        },
      )
]

cerrar-done :
    (pid fd : ℕ) (tablas : List TableFile) (s : FileTables) (global_fd : ℕ) (gs' : List GlobalFile)
    → descontar global_fd s.global ≡ some gs'
    → cerrar pid fd tablas s (descontar global_fd s.global)
      ≡ some (true, record s { global = gs'; tablas = quitar_archivo pid fd tablas })
unfolding cerrar
cerrar-done pid fd tablas s global_fd gs' e = rw (e, cerrar) refl

-- On counted tables, closing a descriptor, open or not, has a defined result: the file that
-- it refers to is in the global table. The tables stay counted, so a file leaves the global
-- table just when its last descriptor is closed.
pub cerrar_archivo-IsCounted :
    (pid fd : ℕ) (s : FileTables)
    → IsCounted s
    → (found : Bool) × (s' : FileTables) × (cerrar_archivo pid fd s ≡ some (found, s'))
      × IsCounted s'
unfolding cerrar_archivo cerrar
cerrar_archivo-IsCounted pid fd s k =
    let tablas = get_tabla pid s.tablas in
    elim (Option-cases (buscar_en_tablas pid fd tablas)) [
      | inl e ↦ (
        false,
        record s { tablas = tablas },
        rw (e, cerrar_archivo),
        record {
          once = k.once;
          counted = λ q. omega (arith, k.counted q, refs-get_tabla q pid s.tablas);
          positive = k.positive;
          fresh = k.fresh;
        },
      )
      | inr (f, e) ↦
          let less : (q : ℕ)
              → refs q s.tablas
                ≡ refs q (quitar_archivo pid fd tablas) + (if f.global_fd == q then 1 else 0) =
            λ q. sym (refs-get_tabla q pid s.tablas) ∙ refs-quitar q pid fd tablas f e in
          let there : 0 < nodes f.global_fd s.global =
            elim (dec_lt 0 (nodes f.global_fd s.global)) [
              | yes p ↦ p
              | no n ↦ absurd (
                  ground (
                    arith,
                    less f.global_fd,
                    k.counted f.global_fd,
                    opens-absent f.global_fd s.global,
                  ))
            ] in
          let (gs', d) = descontar-Descontado f.global_fd s.global k.positive there in
          (
            true,
            record s { global = gs'; tablas = quitar_archivo pid fd tablas },
            rw (e, cerrar_archivo) (cerrar-done pid fd tablas s f.global_fd gs' d.done),
            record {
              once = λ q. omega (arith, d.at_most q, k.once q);
              counted = λ q. omega (arith, d.fewer q, less q, k.counted q);
              positive = d.positive;
              fresh = λ q h. omega (arith, d.at_most q, k.fresh q h);
            },
          )
    ]
