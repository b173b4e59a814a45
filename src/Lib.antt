-- ===== src/Lib.antt =====
-- mustdb: a vector database in C. This library models its container library libv and its storage
-- engine, and proves what they promise.
--
-- Parts of the program, and the modules that model them:
--   * libv/src/slice.c, the growable array of every other part: Slice has one definition for each
--     function, on a record of cells, size, capacity and element size. Slice.Refine says which list
--     of elements a slice represents; Slice.Elements, Slice.Moves and Slice.Resize relate the
--     operations to operations on that list. Whether malloc and realloc grant memory is an argument.
--   * libv/src/hash.c, the hash functions and the checksum: Hash, with Hash.Murmur and
--     Hash.Checksum.
--   * libv/src/hash.c, the chained hash table: Hmap has one definition for each function, on a record
--     of chains with the hash function and the comparison as fields. Hmap.Chain is about one chain,
--     Hmap.Buckets about the well-formed table, Hmap.Grow about moving the nodes, and Hmap.Lookup
--     and Hmap.Laws state what lookups return after each operation.
--   * src/storage/table/storage.c, one file of blocks behind three header pages: Storage.File is
--     the file as its bytes, Storage.Buffer the page with its checksum (FileBuffer),
--     Storage.Manager the blocks and their ids (SingleFileExtentManager), Storage.Meta the byte
--     stream over a chain of blocks (MetaBlockWriter, MetaBlockReader), and Storage.Header the
--     database headers, the free list, and how a file is created and opened. Below it,
--     Pages, Slots, FreeList, Listed and Keeps follow the bytes of headers and lists on disk, and
--     Creation and Checkpoint state what create_new_database and write_header promise.
--     Storage.Serial is the macros of include/storage.h for words and strings in the byte stream,
--     Storage.TableCatalog the description of a table in a checkpoint, and Storage.TableData the
--     flushing of columns to blocks (TableDataWriter).
--   * src/parse/parser.c: Parser has the SQL types and reads the descriptions of schemas and tables;
--     Parser.RoundTrip relates them to what Storage.TableCatalog writes.
--   * src/catalog/catalog.c: Catalog has the sets of versioned entries (CatalogSet), whose entries
--     are a memory with indexes as addresses, and Catalog.Schemas the schemas and tables on top.
--     Catalog.Sets says when a set is well-formed, Catalog.View which map from names to bodies it
--     stands for; Catalog.Link, Push and Body change one entry, and Laws, Refine, Scan, Ops and
--     NewTable state what the functions promise.
--   * src/utils/alloc.c: Alloc has mmalloc, mcalloc, mrealloc and mfree with their statistics, and
--     Alloc.Threads the interleavings of mem_should_fail.
--   * src/utils/vector_types.c and src/utils/operator.c: Vectors has the copies of elements, and
--     Vectors.Distance the distances over a record of floating point operations.
--   * libv/src/net/net.c: Net has the connections and how their output is flushed, Net.Loop a worker
--     (struct tscontext) with its queues and the phases of a round of ts_worker_loop, and Net.Server
--     the server's memory and threads, with Net.Server.Start for net_server_start and net_listen,
--     Owned and Release for the blocks of memory, and Whole and Safety from start to destroy; a thread
--     that starts is followed up to the array of its events (ts_worker_loop_begin).
--     libv/src/net/conn.c, the callbacks, is Net.Conn. Net.Table says what the table of a worker
--     leads to, Net.Queues which connections stand in queues; Accept, Events, Round and Finish follow
--     the phases, Safety and Worker put them together, and Answer follows one request. The results of system calls are
--     arguments; a connection is an address in a memory where it can be freed.
-- A manager holds the file, the page of the headers, the free list and the used blocks; a checkpoint
-- (write_header) writes the used blocks as the free list into blocks of the manager, and then the
-- header into the slot that is not active; opening takes the newer of the two headers.
--
-- State is passed on explicitly, and every operation returns the new one. Machine words are native
-- numbers with their wrap-around written out (u64, u32), memory is a list of bytes, and an error
-- result is `failed` or `none`. The loops of Storage.Meta run
-- on fuel, with the outcomes `done`, `aborted` (a failed assertion) and `running`; the scan of a
-- catalog set runs on fuel too, with `none` where it is not enough. Storage.Meta.Loops and Catalog.Scan are about the fuel that they need.
--
-- Not modelled: the checkpoint manager, most of which is commented out in the source, and the
-- buffer pool and heap tables, which are stubs. The workers of a server are modelled one by one:
-- they share the counter of ts_accept and add descriptors to each other's epoll instance, and what
-- the epoll instances do with them is outside. Pure I/O (opening, syncing and closing files) has
-- no counterpart, and the freeing of memory has one in Alloc and Net.Server only.
pub mod Prelude
pub mod Slice
pub mod Hash
pub mod Hmap
pub mod Catalog
pub mod Storage
pub mod Alloc
pub mod Net
pub mod Parser
pub mod Vectors
