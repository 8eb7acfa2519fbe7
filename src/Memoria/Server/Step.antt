-- ===== src/Memoria/Server/Step.antt =====
-- The loop of process_request over the requests of all clients: what holds between two of them.
use so_distribuido.Base.{ℕ, ◌+◌, ◌^◌, ◌<◌, ◌≡◌, some, Buffer}
use so_distribuido.Memoria.Types.{Frames, Conf, Reg, Entry, Text, word}
use so_distribuido.Memoria.Frames.{rounds, count_of, get_frame}
use so_distribuido.Memoria.Server.{
  Memory, Response, Request, handshake, init_process, assign_page, delete, read, write, end_process,
  process_request, load_memory,
}
use so_distribuido.Memoria.Server.Invariant.{IsProper, IsConsistent}

-- A request that the kernel and the CPUs may make: a real process, offsets whose sum does not
-- wrap, a count of pages that does not wrap, and only a page that is in memory is deleted.
unfoldable pub IsAdmissible : Memory → Request → Type 0
IsAdmissible m (handshake kind stack) = Unit
IsAdmissible m (init_process pid pages) =
    IsProper pid × (count_of pid m.tables.pages_per_process + rounds pages < word)
IsAdmissible m (assign_page pid pages) =
    IsProper pid × (count_of pid m.tables.pages_per_process + rounds pages < word)
IsAdmissible m (delete pid page) = IsProper pid × ((f : ℕ) × (get_frame pid page m.tables ≡ some f))
IsAdmissible m (read r) = IsProper r.pid × (r.offset + r.size < 2 ^ 32)
IsAdmissible m (write w) = IsProper w.pid × (w.offset + w.size < 2 ^ 32)
IsAdmissible m (end_process pid) = IsProper pid

-- One request served.
pub data Step (m m' : Memory) : Type 0 where
  served :
      (client : ℕ) (now : Text) (q : Request) (answered : Response)
      → IsAdmissible m q
      → process_request client now q m ≡ some (answered, m')
      → Step m m'

-- The states that the process reaches from load.
pub data Reachable (conf : Conf) : Memory → Type 0 where
  loaded :
      (regs : ℕ → Reg) (entries : ℕ → Entry) (bytes : Buffer)
      → Reachable conf (load_memory conf regs entries bytes)
  next : (m m' : Memory) → Reachable conf m → Step m m' → Reachable conf m'

-- A request has a result, and keeps the invariant.
unfoldable pub Served : (client : ℕ) (now : Text) (q : Request) (m : Memory) → Type 0
Served client now q m =
    (r : Response) × (m' : Memory) × (process_request client now q m ≡ some (r, m'))
    × IsConsistent m'
