-- ===== src/Memoria/Types.antt =====
-- memoria.h, the constants of memory_prot.h that the memory process uses, and the state that
-- memoria.c keeps in globals. Every `int32_t` is its bit pattern, below 2 ^ 32.
use so_distribuido.Base.{ℕ, ◌^◌, ◌-◌, List, Bool, leb, Buffer}

abbrev pub word : ℕ
word = 2 ^ 32

-- -1 as an int32_t
abbrev pub minus_one : ℕ
minus_one = 2 ^ 32 - 1

-- `w < 0` for an int32_t
abbrev pub is_negative : ℕ → Bool
is_negative w = leb (2 ^ 31) w

-- ' ', 'c', 's' and 'h'
pub data Segment : Type 0 where
  blank code stack heap : Segment

-- t_reg_invert_table. Its field `frame` is the index and never changes.
pub record Reg : Type 0 where
  pub pid : ℕ
  pub page : ℕ
  pub segment : Segment

-- t_reg_pages_process_table
pub record ProcessPages : Type 0 where
  pub pid : ℕ
  pub pages_count : ℕ

-- t_memory_conf, less what is only printed. `long_max` is the platform's LONG_MAX, at which atoi
-- saturates.
pub record Conf : Type 0 where
  pub frames : ℕ
  pub frame_size : ℕ
  pub cache_entries : ℕ
  pub cache_x_process : ℕ
  pub long_max : ℕ

-- The page tables: invert_table, available_frame_list, overflow, pages_per_process_list, and the
-- stack size that the kernel gave in its handshake.
pub record Frames : Type 0 where
  pub conf : Conf
  pub open conf use *
  pub table : ℕ → Reg
  pub available : List ℕ
  pub overflow : ℕ → List ℕ
  pub pages_per_process : List ProcessPages
  pub stack_size : ℕ

-- The codes of a response: SUCCESS, ENOSPC, OUT_OF_FRAME, PAGE_FAULT, SEGMENTATION_FAULT.
pub data Code : Type 0 where
  success no_space out_of_frame page_fault segmentation_fault : Code

-- A text, by its bytes.
abbrev pub Text : Type 0
Text = List ℕ

-- t_cache_memory, with the entry's place in last_used_time. The pid of an empty entry is -1.
pub record Entry : Type 0 where
  pub pid : ℕ
  pub page : ℕ
  pub content : Buffer
  pub last_used : Text

-- t_cache_x_process; `entries` is an int16_t, as its bit pattern below 2 ^ 16.
pub record ProcessEntries : Type 0 where
  pub pid : ℕ
  pub entries : ℕ

-- cache_memory and last_used_time, cache_x_process_list, and how often the running thread holds
-- the lock of each entry.
pub record Cache : Type 0 where
  pub conf : Conf
  pub open conf use *
  pub slots : ℕ → Entry
  pub processes : List ProcessEntries
  pub locks : ℕ → ℕ
