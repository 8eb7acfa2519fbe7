-- ===== src/Lib.antt =====
-- A model of so-distribuido, a distributed operating system of four kinds of processes: the kernel
-- (kernel/src), the CPUs (cpu/src), the memory (memoria/src) and the file system
-- (file-system/src), which talk by the protocols of shared-library. The kernel and the CPUs ask
-- the memory for pages, and read and write them; this library is about the memory process and
-- the messages to it, the PCBs that the kernel and the CPUs exchange, the heap of the programs
-- and the tables of open files in the kernel, and the files of the file system.
--
-- Memoria models memoria/src/memoria.c, memoria/src/memoria.h and the types of requests of
-- shared-library/shared-library/memory_prot.h:
--   Memoria/Types: the structs of memoria.h and the globals of memoria.c as records;
--   Memoria/Hash: hashing, with sprintf and atoi of libc on the numbers that it prints and reads;
--   Memoria/Frames: load, inicialize_page, assign_pages_to_process, get_frame and
--     searching_on_overflow, and the parts on the page tables of delete_page_process and
--     cleaning_process_entries;
--   Memoria/Cache: get_cache_entry, assign_cache_entry, least_recently_used, update_cache;
--   Memoria/Server: write_page, read_page, delete_page, inicialize_process and assign_page,
--     finalize_process, mem_handshake, and one round of process_request;
--   Memoria/Connection: the loop of process_request over the bytes of a client.
-- SharedLibrary models shared-library/shared-library/serializar.c, by which the kernel and the CPUs
-- hand PCBs to each other, and the messages of memory_prot.c and
-- file_system_prot.c of the same directory:
--   SharedLibrary/Stream: bytes written and read one after the other;
--   SharedLibrary/Serializar: pcb_serializer and deserializer_pcb;
--   SharedLibrary/MemoryProt: memory_prot.c, the requests to the memory and its answers;
--   SharedLibrary/FileSystemProt: file_system_prot.c, the requests to the file system.
-- Kernel models a part of kernel/src/solicitudes.c:
--   Kernel/Files: abrir_archivo and the request to close a file, with getTablaArchivo of
--     kernel/src/kernel_generales.c;
--   Kernel/Heap: the blocks of a page of heap, buscar_bloque_disponible, marcar_bloque_ocupado,
--     marcar_bloque_libre, defragmentar;
--   Kernel/Requests: the table of the pages of heap, and the requests to reserve and to release
--     memory, which call the memory process: the calls are an interface there,
--     with laws on the pages that are ready; Kernel/Requests/Memory fills it with the memory
--     process of Memoria and the pages that a process holds in its frames.
-- FileSystem models file-system/src/file-system.c: validate_file, create_file, delete_file,
--   read_file and write_file on the bitmap, the metadata files and the blocks; FileSystem/Requests
--   is the loop of process_request over the bytes of a client.
-- Below Files, Heap, Requests, FileSystem, Frames, Cache, Server, Connection, Serializar,
-- MemoryProt and FileSystemProt stand the invariants and the proofs, named for what they prove. The
-- modules named Tests have small states and a PCB to apply the theorems to.
--
-- A server request is one function from the state to an answer and a state: mutex_lock and the
-- locks of the frames, which the handlers take and give back in pairs, are left out, and so are
-- the interleavings of two handlers inside a request. The locks of the cache's entries are
-- counted, since a lookup ends with a lock that another function gives back. `none` is a call
-- with no defined result in C: a read of an uninitialised variable, of NULL or past the buffer of
-- a message, or an entry -1.
--
-- An int32_t is its bit pattern below 2 ^ 32, and so is an int16_t below 2 ^ 16. A t_list of
-- so-commons is the list of its elements, memory is a function from addresses to bytes, and what
-- malloc left in memory is an argument. Time is an argument too: `now` is what
-- temporal_get_string_time of so-commons returned, a text that is compared by its bytes; a
-- connection has a clock, the time of each of its rounds. atoi
-- saturates at LONG_MAX, which is a field of the configuration, and is cut to 32 bits.
-- The invert table stands at the start of the memory, in frames that are never given away; it is a
-- field of its own here, apart from the bytes. list_remove of a position past the end removes
-- nothing, and list_get answers NULL there. The printing of a number takes twenty rounds,
-- where an int has ten digits; every other loop runs over a list or counts its rounds
-- down, so it has no fuel, but for these. The loops of connections have one round of fuel for each
-- byte and one more, since a round takes a byte at least; the two walks over the blocks of a page
-- of heap have one for each byte of the page and one more, since a block takes eight bytes.
-- The loop of write_file that adds blocks has the fuel as an argument: a round adds a block where
-- the disk has one, and it may run for ever where it has none.
--
-- The sums and products of the code wrap as they do there: the address of a frame at 32 bits, the
-- places in a page of heap too. In the file system, offset, size and their sum are int: where one
-- is outside, write_file is `outside_int` and read_file `none`, and neither is followed. The places
-- and pointers of the heap are int in defragmentar and in the request to release: a negative one
-- is a read outside the page.
--
-- A connection is the bytes that the client sends until it closes: recv waits for all the bytes that
-- it is asked for, and a client that closes in the middle of a field is not modelled. The padding
-- of a t_heapMetadata, which malloc leaves as it is, is an argument.
--
-- Not modelled: the console of the memory, which prints, sets the delay and empties the cache,
-- logging, the delay of the memory, configuration files and sockets; the planner of the
-- kernel and its requests on files, shared variables and semaphores; the CPUs; the bitmap file, the
-- directories and the handshake of the file system; and the consoles.
pub mod Base
pub mod Memoria
pub mod Kernel
pub mod SharedLibrary
pub mod FileSystem
