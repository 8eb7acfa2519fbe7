-- ===== src/Kernel/Tests.antt =====
-- A file that one process opens and closes.
pub mod Heap
mod Requests
use so_distribuido.Base.{ℕ, ◌+◌, ◌^◌, ◌<◌, ◌≡◌, refl, [], ◌∷◌, some, Bool, true, false, arith}
use so_distribuido.Kernel.Files.{Flags, FileTables, abrir_archivo, cerrar_archivo}
use so_distribuido.Kernel.Files.Counts.{IsCounted, nodes, opens, refs, all_open}
use so_distribuido.Kernel.Files.Balance.{abrir_archivo-IsCounted}
use so_distribuido.Kernel.Files.Close.{cerrar_archivo-IsCounted}

abbrev start : FileTables
start = record { global = []; contador_fd_global = 10; tablas = [] }

start-IsCounted : IsCounted start
unfolding nodes opens refs all_open
start-IsCounted = record {
  once = λ q. omega arith;
  counted = λ q. refl;
  positive = refl;
  fresh = λ q h. refl;
}

abbrev lectura : Flags
lectura = record { lectura = true; escritura = false; creacion = false }

few_opens : (q : ℕ) → opens q start.global + 1 < 2 ^ 32
unfolding opens
few_opens q = omega arith

abrir_archivo-IsCounted_example :
    IsCounted (abrir_archivo 1 (b'/' ∷ b'a' ∷ []) lectura true false start).1
abrir_archivo-IsCounted_example =
    abrir_archivo-IsCounted 1 (b'/' ∷ b'a' ∷ []) lectura true false start start-IsCounted
      (omega arith) few_opens

-- Process 1 has the file open at its descriptor 10.
abbrev opened : FileTables
opened = (abrir_archivo 1 (b'/' ∷ b'a' ∷ []) lectura true false start).1

opened-IsCounted : IsCounted opened
opened-IsCounted =
    abrir_archivo-IsCounted 1 (b'/' ∷ b'a' ∷ []) lectura true false start start-IsCounted
      (omega arith) few_opens

cerrar_archivo-IsCounted_example :
    (found : Bool) × (s' : FileTables) × (cerrar_archivo 1 10 opened ≡ some (found, s'))
    × IsCounted s'
cerrar_archivo-IsCounted_example = cerrar_archivo-IsCounted 1 10 opened opened-IsCounted
