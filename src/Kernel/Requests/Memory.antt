-- ===== src/Kernel/Requests/Memory.antt =====
-- The memory process of memoria.c as the kernel calls it: each call of memory_prot.h is one request,
-- which the process serves for the client that is the kernel.
use so_distribuido.Base.{
  ℕ, ◌+◌, ◌^◌, ◌≤◌, ◌<◌, ◌≡◌, refl, ◌∙◌, inl, some, none, Option, false, arith, Buffer,
  memcpy_start,
}
use so_distribuido.SharedLibrary.MemoryProt.{negative}
use so_distribuido.Memoria.Types.{
  Text, success, no_space, out_of_frame, page_fault, segmentation_fault,
}
use so_distribuido.Memoria.Frames.{get_frame}
use so_distribuido.Memoria.Frames.Invariant.{get_frame-sound}
use so_distribuido.Memoria.Server.{
  Memory, Request, Response, ReadRequest, WriteRequest, answer, bytes_read, frame_size_is, no_bytes,
  read, write, delete, assign_page, end_process, process_request, is_out_of_frame,
}
use so_distribuido.Memoria.Server.Invariant.{IsProper, IsConsistent}
use so_distribuido.Memoria.Server.Given.{Given-IsConsistent}
use so_distribuido.Memoria.Server.Write.{IsGranted, write_page-Written}
use so_distribuido.Memoria.Server.Read.{IsReadable}
use so_distribuido.Memoria.Server.Answer.{read_page-Answered}
use so_distribuido.Memoria.Server.RoundTrip.{read_page-entry}
use so_distribuido.Kernel.Requests.{MemoryCalls}
use so_distribuido.Kernel.Requests.Reserve.{IsMemory}

-- The process, and the times at which its next requests ask for it; `none` is the process after a
-- request with no defined result in C.
abbrev pub Process : Type 0
Process = Option ((ℕ → Text) × Memory)

-- The int that the kernel gets for a code.
unfoldable pub status : Option Response → ℕ
status none = 0
status (some (answer success)) = 1
status (some (answer no_space)) = negative 203
status (some (answer out_of_frame)) = negative 204
status (some (answer page_fault)) = negative 205
status (some (answer segmentation_fault)) = negative 206
status (some (bytes_read c n b)) = 1
status (some (frame_size_is n)) = n

unfoldable pub received : Option Response → Buffer
received (some (bytes_read c n b)) = b
received (some (answer c)) = no_bytes
received (some (frame_size_is n)) = no_bytes
received none = no_bytes

-- The answer and the process after a call.
unfoldable pub called : (ℕ → Text) → Option (Response × Memory) → Option Response × Process
called clock none = (none, none)
called clock (some (r, m)) = (some r, some (λ i. clock (i + 1), m))

unfoldable pub call : Request → Process → Option Response × Process
call q none = (none, none)
call q (some (clock, m)) = called clock (process_request m.kernel_client (clock 0) q m)

abbrev pub reading_page : ℕ → ℕ → ℕ → ReadRequest
reading_page tamanio pid page = record { pid = pid; page = page; offset = 0; size = tamanio }

abbrev pub writing_page : ℕ → ℕ → ℕ → Buffer → WriteRequest
writing_page pid page size bytes = record {
  pid = pid;
  page = page;
  offset = 0;
  size = size;
  buffer = bytes;
}

-- The contents of a page are what a read of it answers.
abbrev pub memory_process : ℕ → MemoryCalls Process
memory_process tamanio = record {
  contents = λ s pid page. received (call (read (reading_page tamanio pid page)) s).0;
  assign_pages = λ pid pages s. let (r, s') = call (assign_page pid pages) s in (status r, s');
  write = λ pid page size bytes s. (call (write (writing_page pid page size bytes)) s).1;
  read_page =
      λ pid page s. let (r, s') = call (read (reading_page tamanio pid page)) s in (received r, s');
  delete_page = λ pid page s. (call (delete pid page) s).1;
  finalize_process = λ pid s. (call (end_process pid) s).1;
}

-- A page that the memory holds in a frame, in a consistent state, for a process of the kernel.
pub record Held (tamanio : ℕ) (m : Memory) (pid page : ℕ) : Type 0 where
  pub consistent : IsConsistent m
  pub proper : IsProper pid
  pub size : m.tables.frame_size ≡ tamanio
  pub frame : ℕ
  pub found : get_frame pid page m.tables ≡ some frame

unfoldable pub IsReady : ℕ → Process → ℕ → ℕ → Type 0
IsReady tamanio none pid page = ⊥
IsReady tamanio (some (clock, m)) pid page = Held tamanio m pid page

page_within :
    (tamanio size : ℕ)
    → 0 < tamanio
    → tamanio < 2 ^ 32
    → size ≤ tamanio
    → is_out_of_frame tamanio 0 size ≡ false
unfolding is_out_of_frame
page_within tamanio size pos small fits = ground (arith, pos, small, fits)

module _ (tamanio : ℕ) (pos : 0 < tamanio) (small : tamanio < 2 ^ 32) (pid page : ℕ) where
  read_ready :
      (s : Process)
      → IsReady tamanio s pid page
      → IsReady tamanio (call (read (reading_page tamanio pid page)) s).1 pid page
  unfolding IsReady call called process_request
  read_ready none k = absurd k
  read_ready (some (clock, m)) k =
      let r = reading_page tamanio pid page in
      let holds = get_frame-sound m.tables pid page k.frame k.consistent.valid k.found in
      let readable : IsReadable r m k.frame = record {
        within = rw k.size (page_within tamanio tamanio pos small (omega arith));
        holds = holds;
      } in
      let (m', e, b, content, a) =
        read_page-Answered r (clock 0) m k.frame k.consistent k.proper (omega (arith, small))
          readable in
      rw a.answered (record {
        consistent =
            Given-IsConsistent m m' pid page e k.frame content (clock 0) k.consistent a.given
              k.proper holds;
        proper = k.proper;
        size = rw a.given.tables k.size;
        frame = k.frame;
        found = rw a.given.tables k.found;
      })

  module _ (size : ℕ) (bytes : Buffer) (fits : size ≤ tamanio) where
    page-IsGranted :
        (m : Memory) (k : Held tamanio m pid page)
        → IsGranted (writing_page pid page size bytes) m.kernel_client m k.frame
    page-IsGranted m k = record {
      within = rw k.size (page_within tamanio size pos small fits);
      found = k.found;
      allowed = inl refl;
    }

    write_ready :
        (s : Process)
        → IsReady tamanio s pid page
        → IsReady tamanio (call (write (writing_page pid page size bytes)) s).1 pid page
    unfolding IsReady call called process_request
    write_ready none k = absurd k
    write_ready (some (clock, m)) k =
        let w = writing_page pid page size bytes in
        let (m', e, done, written) =
          write_page-Written w m.kernel_client k.frame (clock 0) m k.consistent.sound k.proper.1
            (page-IsGranted m k) in
        let holds = get_frame-sound m.tables pid page k.frame k.consistent.valid k.found in
        rw done (record {
          consistent =
              Given-IsConsistent m m' pid page e k.frame _ (clock 0) k.consistent written.given
                k.proper holds;
          proper = k.proper;
          size = rw written.given.tables k.size;
          frame = k.frame;
          found = rw written.given.tables k.found;
        })

    write_inside :
        (s : Process)
        → IsReady tamanio s pid page
        → (i : ℕ) → i < size
        → received
            (call
              (read (reading_page tamanio pid page))
              (call (write (writing_page pid page size bytes)) s).1).0
            i
          ≡ bytes i
    unfolding IsReady call called process_request received
    write_inside none k i h = absurd k
    write_inside (some (clock, m)) k i h =
        let (m', m'', e, b, written, done, answered, same) =
          read_page-entry (writing_page pid page size bytes) m.kernel_client (clock 0)
            (clock (0 + 1)) m k.frame (reading_page tamanio pid page) refl refl
            (omega (arith, small)) (rw k.size (page_within tamanio tamanio pos small (omega arith)))
            k.consistent k.proper (page-IsGranted m k) in
        let z : 0 + i ≡ i = omega arith in
        let stored = rw z at (same i (omega (arith, h, fits))) in
        rw (done, answered) (stored ∙ memcpy_start (m.cache.slots e).content bytes size i h)

pub memory_process-IsMemory :
    (tamanio : ℕ)
    → 0 < tamanio
    → tamanio < 2 ^ 32
    → IsMemory (memory_process tamanio) tamanio (IsReady tamanio)
memory_process-IsMemory tamanio pos small = record {
  read = λ pid page s k i h. refl;
  read_ready = λ pid page s k. read_ready tamanio pos small pid page s k;
  write_inside = λ pid page size bytes s k fits i h.
      write_inside tamanio pos small pid page size bytes fits s k i h;
  write_ready =
      λ pid page size bytes s k fits. write_ready tamanio pos small pid page size bytes fits s k;
}
