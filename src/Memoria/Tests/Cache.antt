-- ===== src/Memoria/Tests/Cache.antt =====
-- The theorems of Cache on the cache of a running process.
use so_distribuido.Base.{ℕ}
use so_distribuido.Memoria.Cache.{assign_cache_entry, max_entries_exceeded}
use so_distribuido.Memoria.Cache.Locks.{Holding}
use so_distribuido.Memoria.Cache.Lru.{Choice, assign_cache_entry-Choice}
use so_distribuido.Memoria.Cache.Give.{IsSound, entry_to_write-Gives}
use so_distribuido.Memoria.Tests.{running, running-IsConsistent, IsProper-1}

sound : IsSound running.cache
sound = running-IsConsistent.0.sound

assign_cache_entry-Choice_example :
    let r = assign_cache_entry 1 running.cache in
    Holding running.cache r.1 r.0
    × Choice running.cache 1
        (max_entries_exceeded running.cache.cache_x_process 1 running.cache.processes)
        r.0
        running.cache.cache_entries
assign_cache_entry-Choice_example = assign_cache_entry-Choice 1 running.cache

abbrev given : ℕ
given = (entry_to_write-Gives 1 1 running.cache sound IsProper-1.1).0
