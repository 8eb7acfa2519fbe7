-- ===== src/Memoria/Tests/Frames.antt =====
-- The theorems of Frames on the tables of a running process.
use so_distribuido.Base.{ℕ, ◌+◌, ◌<◌, ◌≡◌, ◌≢◌, ◌⊎◌, [], none, some, false, arith, length, count}
use so_distribuido.Memoria.Types.{Frames as PageTables, success, minus_one}
use so_distribuido.Memoria.Frames.{
  get_frame, count_of, rounds, assign_pages_to_process, delete_page_process, free_reg, clean_tables,
}
use so_distribuido.Memoria.Frames.Invariant.{IsValid}
use so_distribuido.Memoria.Frames.Assign.{Grown, segment_at, assign_pages-Grown}
use so_distribuido.Memoria.Frames.Delete.{delete_page-resident, delete_page-steals}
use so_distribuido.Memoria.Frames.Clean.{clean_tables-ends}
use so_distribuido.Memoria.Tests.{running, running-IsConsistent, page_1, page_30, room_1, room_2}

valid : IsValid running.tables
valid = running-IsConsistent.0.valid

fresh_page :
    (x : ℕ)
    → x < running.tables.frames
    → (running.tables.table x).pid ≡ 1
    → (running.tables.table x).page ≢ 2 + 1
fresh_page x b own same =
    let held = valid.numbered x b (omega (arith, own)) (omega (arith, own)) in
    let three : count_of (running.tables.table x).pid running.tables.pages_per_process ≡ 3 =
      rw own room_2.1 in
    omega (arith, held, three, same)

assign_pages-Grown_example :
    ((assign_pages_to_process 2 2 false running.tables).0 ≡ success)
    × Grown running.tables
        (assign_pages_to_process 2 2 false running.tables).1
        2
        (count_of 2 running.tables.pages_per_process)
        (rounds 2)
        (segment_at false 2 running.tables.stack_size)
assign_pages-Grown_example =
    assign_pages-Grown 2 2 false running.tables valid (omega arith) (omega arith) room_1.0 room_1.1

delete_page-resident_example :
    (m' : PageTables) × (delete_page_process 1 1 running.tables ≡ some m')
    × IsValid m'
    × (get_frame 1 1 m' ≡ none)
    × (length m'.available ≡ length running.tables.available + 1)
    × ((q p : ℕ)
        → q ≢ 0
        → q ≢ minus_one
        → (q ≢ 1) ⊎ (p ≢ 1)
        → get_frame q p m' ≡ get_frame q p running.tables)
delete_page-resident_example =
    delete_page-resident running.tables 1 1 2 valid (omega arith) (omega arith) page_1

delete_page-steals_example :
    (m' : PageTables) × (delete_page_process 3 0 running.tables ≡ some m')
    × (get_frame (running.tables.table 1).pid (running.tables.table 1).page running.tables ≡ some 1)
    × (m'.table 1 ≡ free_reg)
    × (¬ IsValid m')
delete_page-steals_example = delete_page-steals running.tables 3 0 [] 1 valid page_30.0 page_30.1

clean_tables-ends_example :
    IsValid (clean_tables 1 running.tables)
    × ((page : ℕ) → get_frame 1 page (clean_tables 1 running.tables) ≡ none)
    × ((x : ℕ)
        → x < running.tables.frames
        → (running.tables.table x).pid ≡ 1
        → 0 < count x (clean_tables 1 running.tables).available)
    × ((q page : ℕ)
        → q ≢ 0
        → q ≢ minus_one
        → q ≢ 1
        → get_frame q page (clean_tables 1 running.tables) ≡ get_frame q page running.tables)
clean_tables-ends_example = clean_tables-ends running.tables 1 valid (omega arith) (omega arith)
