-- ===== src/Lib.antt =====
-- smallkv (tiny-db): a key-value store.
--
-- The database (src/db) writes to the write-ahead log (src/wal over src/file), then to the
-- memtable, which is a skip list (src/memtable), and to a sharded cache (src/cache); a memtable
-- that is too large goes to a file. Reads look in the cache, the memtable and the files, which
-- have a Bloom filter (src/filter). The builder of src/table writes such files, out of blocks, and
-- src/sstparser reads them; nothing yet converts a memtable to one. src/server answers requests in
-- the Redis protocol from the database. src/utils has the encodings and locks that these share.
-- The paths are from the root of the repository.
--
-- - Prelude, Prelude.Lists, Prelude.Tests, Prelude.Bits, Prelude.Int, Prelude.Text: names of the
--   libraries passed on, and lemmas on lists, tests, bit operations, integers and literals of text.
-- - Codec: EncodeFixed8/32/64, DecodeFixed8/32/64 and PutFixed8/32/64 of src/utils/codec.h and
--   src/utils/codec.cpp. Codec.RoundTrip has their laws.
-- - Order, Order.ByteString: the comparison of keys as an interface, and that of std::string.
-- - Assoc: sorted association lists, the abstract view of the skip list.
-- - SkipList: src/memtable/skiplist.h. A node is a number, the heap a function from numbers to
--   nodes, null is none, and any read or write outside the vector next, any null pointer followed,
--   or a loop that runs out of fuel is the result none. The fuel is the number of nodes ever made
--   plus the height 12 plus 1, as each turn passes a node or goes down a level. The draws of rand()
--   are an argument. SkipList.Linked has the invariant, SkipList.Search, SkipList.Prev and
--   SkipList.Target the loops, SkipList.Link, SkipList.Insert and SkipList.Delete the changes,
--   SkipList.Refine and SkipList.Delete.Refine the operations against the association list,
--   SkipList.Iterate the iterator.
-- - Status: src/db/status.h and src/db/status.cpp.
-- - File: src/file/file_writer.h, src/file/file_writer.cpp and src/file/file_reader.cpp over write
--   and pread as parameters. The loop of append has the length of its data plus 1 as fuel.
--   File.Writing has the laws, File.Disk a concrete system. File.Path and File.Opening are the
--   constructors over the calls that name a path, File.Opening.Contents what a file holds at its
--   end, File.Opening.Memory a concrete file system.
-- - Wal: src/wal over File, with the checksum as a parameter. Wal.Records is about one record,
--   Wal.Replay about a whole log.
-- - MemTable: src/memtable/memtable.h and src/memtable/memtable.cpp over SkipList at byte strings.
--   A key or value passes through data(), and is cut at its first NUL. MemTable.Laws has the laws of
--   each operation, MemTable.Iterator is src/memtable/memtable_iterator.h, and MemTable.Walk has any
--   sequence of writes with the walk over the table.
-- - Bloom: src/filter/bloom_filter.cpp with its hash. Bloom.Bits: bits are only set; Bloom.NoLoss:
--   no key is lost; Bloom.Sizing: the filter of the constructor.
-- - Lru: src/cache/lru.h and src/cache/node.h. Nodes are numbers on a heap, as in the skip list; a
--   cell of the list and its iterators are named by the node that was pushed into it; the index and
--   the garbage station are functions. Lru.Cells has the invariant, Lru.Evict, Lru.Refine, Lru.Use
--   and Lru.Admit the operations against a list of entries in the order of use.
-- - Cache: src/cache/cache.h. Cache.Shards has the shards against one list each.
-- - Db: src/db/db_impl.h and src/db/db_impl.cpp over the log, the memtable and the cache,
--   BuildSSTPath of src/utils/codec.h, and src/db/options.h; src/db/db.cpp passes every call on.
--   Files of tables stand behind the interface Tables. The decimal numbers in a path have 10 digits
--   at most, as they are 32-bit. Db.Calls has the calls of src/db/db.h in turn, Db.Spec what a
--   client sees of them, as lists, Db.Refine that any calls answer as that view says, Db.Recovery
--   what reading the log back yields, and Db.Threads calls of several threads. Db.Logged has what
--   the log holds, Db.Reads what Get finds after Put, Db.Removes what it finds after Delete, and
--   Db.Files the database over the parser of files.
-- - Blocks: src/table/data_block_builder.cpp, src/table/index_block_builder.cpp,
--   src/table/footer_builder.cpp and src/table/filter_block_builder.cpp. Blocks.Content has what can
--   be read back, and Blocks.Records the round trip of the records.
-- - Sst: Sst.Builder is src/table/sstable_builder.h and src/table/sstable_builder.cpp over Blocks
--   and File; Sst.Parser is src/sstparser. Sst.Plan makes the data blocks of a table from its
--   entries alone, Sst.Pieces, Sst.Layout, Sst.Finish and Sst.Build are about the file that is
--   written, Sst.Parsing and Sst.ParsedTable about what Parse finds in it, Sst.Lookup about the
--   index, and Sst.Scanned, Sst.Picked and Sst.Found about Seek. The loop over the index has the
--   length of the content plus 1 as fuel, as each round moves 12 bytes on.
-- - Avl: src/memtable/avl_tree.h, a tree that nothing uses. Avl.InOrder and Avl.Seek have its
--   iterator and its search, Avl.Destroy its destructor.
-- - Locks: ScopedLock of src/utils/lock.h over SpinLock, NullLock and MutexLock, as steps of
--   threads; std::mutex is a parameter. Locks.Exclusion has what a lock promises, which SpinLock is
--   shown to keep, and the invariant, Locks.Serial calls of many small steps under a lock, and
--   Lru.Shared the calls of a shard.
-- - Server: src/server/server.cpp over Db. Server.Resp is parseRESP, Server.Resp.Numbers and
--   Server.Resp.RoundTrip read back what a client encodes, Server.Requests what a client gets back,
--   Server.Spec its replies from the list-based view of the database, and Server.Refine that any
--   messages are answered so. std::stoi and the other calls of the standard library are written out.
--
-- - Db.Workload: the writes and the reads of src/main.cpp, one after the other. Db.Workload.Steps
--   has one call, Db.Workload.Run any number of them, and Db.Workload.Main the keys and values of
--   main.
--
-- A component's module Tests holds runs at concrete inputs.
--
-- Not modelled: the bound of int64_t counters, which are integers here; the exhaustion of memory;
-- a block or an index of 2 ^ 31 bytes and more, whose size no int32_t holds; logging;
-- src/server/redis_wrapper.cpp and src/server/config.cpp, which are commented out;
-- src/utils/comparator.h, which nothing uses; the connections of the server. The two formulas that
-- src/filter/bloom_filter.cpp computes in floating point are parameters.
pub mod Sst
pub mod Locks
pub mod Avl
pub mod Server
pub mod Prelude
pub mod Codec
pub mod Order
pub mod Assoc
pub mod SkipList
pub mod Status
pub mod File
pub mod Wal
pub mod MemTable
pub mod Bloom
pub mod Lru
pub mod Cache
pub mod Db
pub mod Blocks
