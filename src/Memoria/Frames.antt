-- ===== src/Memoria/Frames.antt =====
-- The page tables of memoria.c: which frame holds which page of which process. The functions run
-- under mutex_lock, so each is one step on the tables.
pub mod Invariant
pub mod Occupy
pub mod Pages
pub mod Assign
pub mod Release
pub mod Delete
pub mod Clean
pub mod Load
use so_distribuido.Base.{
  ℕ, zero, suc, ◌+◌, ◌-◌, ◌*◌, ◌/◌, ◌%◌, List, [], ◌∷◌, ◌++◌, Option, none, some, Bool, true, false,
  ◌&&◌, not, ◌==◌, ltb, if◌then◌else◌, length, update,
}
use so_distribuido.Memoria.Types.{
  Conf, Frames, Reg, ProcessPages, Segment, blank, code, stack, heap, Code, success, no_space, word,
  minus_one, is_negative,
}
use so_distribuido.Memoria.Hash.{hashing}

-- What the code writes into the register of a frame that nobody holds.
abbrev pub free_reg : Reg
free_reg = record { pid = 0; page = 0; segment = blank }

-- sizeof(t_reg_invert_table)
abbrev pub reg_size : ℕ
reg_size = 16

-- The frames at the start of the memory, which hold the invert table itself.
unfoldable pub first_free_frame : Conf → ℕ
first_free_frame conf =
    let size = reg_size * conf.frames in
    size / conf.frame_size + (if ltb 0 (size % conf.frame_size) then 1 else 0)

-- One round of the loop of load.
unfoldable pub load_frame : ℕ → Frames → Frames
load_frame frame m =
    if ltb frame (first_free_frame m.conf)
    then record m {
      table = update m.table frame (record { pid = minus_one; page = frame; segment = blank });
    }
    else record m { table = update m.table frame free_reg; available = m.available ++ frame ∷ [] }

-- The loop of load, `left` rounds from `frame`.
unfoldable pub load_frames : ℕ → ℕ → Frames → Frames
load_frames zero frame m = m
load_frames (suc left) frame m = load_frames left (frame + 1) (load_frame frame m)

-- The tables before that loop. `garbage` is what malloc left in the memory.
unfoldable pub empty_frames : Conf → (ℕ → Reg) → Frames
empty_frames conf garbage = record {
  conf = conf;
  table = garbage;
  available = [];
  overflow = λ _. [];
  pages_per_process = [];
  stack_size = 0;
}

-- load, up to the cache.
unfoldable pub load : Conf → (ℕ → Reg) → Frames
load conf garbage = load_frames conf.frames 0 (empty_frames conf garbage)

-- frame_is_available: takes the frame out of the list if it is there.
unfoldable pub frame_is_available : ℕ → List ℕ → Bool × List ℕ
frame_is_available frame [] = (false, [])
frame_is_available frame (x ∷ xs) =
    let (found, rest) = frame_is_available frame xs in
    if frame == x then (true, xs) else (found, x ∷ rest)

-- get_available_frame: the head of the list, NULL on an empty one.
unfoldable pub get_available_frame : List ℕ → ℕ × List ℕ
get_available_frame [] = (0, [])
get_available_frame (x ∷ xs) = (x, xs)

unfoldable pub add_to_overflow : ℕ → ℕ → (ℕ → List ℕ) → ℕ → List ℕ
add_to_overflow o_frame frame overflow = update overflow o_frame (overflow o_frame ++ frame ∷ [])

-- The loop that takes the first occurrence of a frame out of a list.
unfoldable pub remove_frame : ℕ → List ℕ → List ℕ
remove_frame frame [] = []
remove_frame frame (x ∷ xs) = if frame == x then xs else x ∷ remove_frame frame xs

unfoldable pub remove_from_overflow : ℕ → ℕ → (ℕ → List ℕ) → ℕ → List ℕ
unfolding remove_frame
remove_from_overflow o_frame frame overflow =
    update overflow o_frame (remove_frame frame (overflow o_frame))

unfoldable pub inicialize_page : ℕ → ℕ → Segment → Frames → Frames
unfolding frame_is_available get_available_frame add_to_overflow
inicialize_page pid page segment m =
    let h_frame = hashing m.conf pid page in
    let reg : Reg = record { pid = pid; page = page; segment = segment } in
    let (found, rest) = frame_is_available h_frame m.available in
    if found
    then record m { table = update m.table h_frame reg; available = rest }
    else let (assigned, others) = get_available_frame m.available in
      record m {
        table = update m.table assigned reg;
        available = others;
        overflow = add_to_overflow h_frame assigned m.overflow;
      }

-- The node of a process in pages_per_process_list, by its count of pages.
unfoldable pub find_pages : ℕ → List ProcessPages → Option ℕ
find_pages pid [] = none
find_pages pid (p ∷ ps) = if p.pid == pid then some p.pages_count else find_pages pid ps

-- `(pages_per_process->pages_count)++` through the pointer to that node.
unfoldable pub bump_pages : ℕ → List ProcessPages → List ProcessPages
bump_pages pid [] = []
bump_pages pid (p ∷ ps) =
    if p.pid == pid
    then record p { pages_count = (p.pages_count + 1) % word } ∷ ps
    else p ∷ bump_pages pid ps

-- Finds the node, and adds one with no pages where there is none.
unfoldable pub locate_process : ℕ → List ProcessPages → List ProcessPages
unfolding find_pages
locate_process pid ps = elim (find_pages pid ps) [
  | some n ↦ ps
  | none ↦ ps ++ record { pid = pid; pages_count = 0 } ∷ []
]

unfoldable pub count_of : ℕ → List ProcessPages → ℕ
count_of pid ps = elim (find_pages pid ps) [ some n ↦ n | none ↦ 0 ]

-- `init ? (code_pages > 0 ? CODE_SEGMENT : STACK_SEGMENT) : HEAP_SEGMENT`
abbrev pub segment_of : Bool → ℕ → Segment
segment_of init code_pages = if init then (if ltb 0 code_pages then code else stack) else heap

-- One round of the loop of assign_pages_to_process.
unfoldable pub assign_one : ℕ → Segment → Frames → Frames
assign_one pid segment m =
    let bumped = bump_pages pid m.pages_per_process in
    inicialize_page pid ((count_of pid bumped + word - 1) % word) segment
      (record m { pages_per_process = bumped })

-- The loop. Of `code_pages` only the test `code_pages > 0` is read, so stopping at 0 is the same.
unfoldable pub assign_loop : ℕ → ℕ → Bool → ℕ → Frames → Frames
assign_loop zero pid init code_pages m = m
assign_loop (suc left) pid init code_pages m =
    assign_loop left pid init (code_pages - 1) (assign_one pid (segment_of init code_pages) m)

-- The rounds of `for (i = 0; i < w; i++)`, none if the int is negative.
unfoldable pub rounds : ℕ → ℕ
rounds w = if is_negative w then 0 else w

unfoldable pub assign_pages_to_process : ℕ → ℕ → Bool → Frames → Code × Frames
assign_pages_to_process pid required_pages init m =
    if ltb (length m.available) (rounds required_pages) then (no_space, m) else (
      success,
      assign_loop (rounds required_pages) pid init (required_pages - m.stack_size)
          (record m { pages_per_process = locate_process pid m.pages_per_process }),
    )

unfoldable pub page_is_right : ℕ → ℕ → ℕ → Frames → Bool
page_is_right frame pid page m = let reg = m.table frame in reg.pid == pid && reg.page == page

-- The loop of searching_on_overflow; -1 is `none`.
unfoldable pub search_frames : List ℕ → ℕ → ℕ → Frames → Option ℕ
unfolding page_is_right
search_frames [] pid page m = none
search_frames (x ∷ xs) pid page m =
    if page_is_right x pid page m then some x else search_frames xs pid page m

unfoldable pub searching_on_overflow : ℕ → ℕ → ℕ → Frames → Option ℕ
searching_on_overflow o_frame pid page m = search_frames (m.overflow o_frame) pid page m

unfoldable pub get_frame : ℕ → ℕ → Frames → Option ℕ
unfolding searching_on_overflow
get_frame pid page m =
    let h_frame = hashing m.conf pid page in
    if page_is_right h_frame pid page m
    then some h_frame
    else searching_on_overflow h_frame pid page m

-- The loop of delete_page_process over a chain: the last frame that it read, and the chain
-- without the frame that is right, if one is.
unfoldable pub delete_search : List ℕ → Option ℕ → ℕ → ℕ → Frames → Option ℕ × List ℕ
unfolding page_is_right
delete_search [] last pid page m = (last, [])
delete_search (x ∷ xs) last pid page m =
    let (frame, rest) = delete_search xs (some x) pid page m in
    if page_is_right x pid page m then (some x, xs) else (frame, x ∷ rest)

-- The register is cleared and the frame is free again.
unfoldable pub release_frame : ℕ → Frames → Frames
release_frame frame m = record m {
  table = update m.table frame free_reg;
  available = m.available ++ frame ∷ [];
}

-- The first half of delete_page_process, up to the cache. `none` where the code reads `frame`
-- before anything was stored in it.
unfoldable pub delete_page_process : ℕ → ℕ → Frames → Option Frames
delete_page_process pid page m =
    let h_frame = hashing m.conf pid page in
    if page_is_right h_frame pid page m
    then some (release_frame h_frame m)
    else let (frame, rest) = delete_search (m.overflow h_frame) none pid page m in
      elim frame [
        | none ↦ none
        | some f ↦ some (release_frame f (record m { overflow = update m.overflow h_frame rest }))
      ]

-- One round of the loop over the frames in cleaning_process_entries.
unfoldable pub clean_frame : ℕ → ℕ → Frames → Frames
clean_frame pid frame m =
    let reg = m.table frame in
    let h_frame = hashing m.conf reg.pid reg.page in
    if reg.pid == pid
    then release_frame frame (
        if not (frame == h_frame)
        then record m { overflow = remove_from_overflow h_frame frame m.overflow }
        else m)
    else m

unfoldable pub clean_frames : ℕ → ℕ → ℕ → Frames → Frames
clean_frames zero frame pid m = m
clean_frames (suc left) frame pid m = clean_frames left (frame + 1) pid (clean_frame pid frame m)

-- The loop that takes the node of a process out of pages_per_process_list.
unfoldable pub remove_process : ℕ → List ProcessPages → List ProcessPages
remove_process pid [] = []
remove_process pid (p ∷ ps) = if p.pid == pid then ps else p ∷ remove_process pid ps

-- The part of cleaning_process_entries on the page tables.
unfoldable pub clean_tables : ℕ → Frames → Frames
clean_tables pid m =
    let cleaned = clean_frames m.frames 0 pid m in
    record cleaned { pages_per_process = remove_process pid cleaned.pages_per_process }
