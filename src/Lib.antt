-- ===== src/Lib.antt =====
-- MiniOB, a teaching database: a model of its storage engine and of the buffer between it and its
-- clients, with the theorems that make them correct.
--
-- deps/common/lang/bitmap.cpp is `Bitmap`: bits over the bytes of a memory, found and flipped.
-- src/observer/storage/record is `Record`: a page of records (`Record.Page`) keeps its records in
-- slots, and in a bitmap which slots are taken. Both lie in the bytes of one page, so that the
-- theorems on a page also say that bitmap and records do not overlap.
-- src/observer/storage/trx is `Trx`: `Trx.Mvcc` is mvcc_trx.cpp. A record carries the numbers of the
-- transactions that began and ended it, negative while these are at work; a transaction keeps its
-- operations in a set (trx.h) to commit or to undo them. Tables are the interface `Trx.Store.Tables`,
-- whose laws say that inserted, visited and deleted records are those that the caller names; Table
-- itself is not modelled, and only tables in memory fill the interface. `Trx.Store.Setting` adds
-- whether the build has `DEBUG` and what the log answers to a commit or a rollback.
-- `Trx.Kit` is the list of transactions and the counter of their numbers.
-- src/observer/sql/operator is `Operator`: the operators of a plan, each a stream of tuples behind the
-- interface `Operator.Stream.PhysicalOperator`, over the streams of its children. `Produces` says
-- what a stream hands out from `open` to `close`, so that the theorems compose along a plan.
-- src/observer/net/ring_buffer.cpp is `RingBuffer`: bytes on their way to a client, round the end of
-- an array.
-- deps/common/lang/lru_cache.h is `LruCache`: entries in the order of their last use, in a linked list
-- of nodes that lie at addresses. `LruCache.Refine.Refines` relates it to the list of the entries.
-- deps/common/lang/lower_bound.h is `LowerBound`: the binary search of the B+ tree.
-- deps/common/lang/mutex.cpp is `Mutex`: the lock of a page in memory, as a machine whose steps are
-- the calls of several threads. `System` adds to the lock who holds it.
-- src/observer/storage/buffer/frame.cpp is `Frame`: pins and latches of such a page, over that lock.
-- src/observer/storage/buffer/disk_buffer_pool.cpp, the part BPFrameManager, is
-- `BufferPool.FrameManager`: which frame has which page. It finds frames by the cache (`LruCache`),
-- takes them from a pool of fixed size (`MemPool`, deps/common/mm/mem_pool.h), and pins them.
-- `BufferPool.Flush` is the part of DiskBufferPool that writes the frames of a file to it; the calls
-- of the system on the file are the interface `BufferPool.Flush.File`.
-- src/observer/storage/index/bplus_tree.cpp is `BplusTree`: the items of a node (`BplusTree.Block`),
-- the two kinds of node (`BplusTree.Node`), and the handler of the tree (`BplusTree.Tree`), whose
-- pages come from a pool behind the interface `BplusTree.Tree.Pool`. `BplusTree.Subtree` says what
-- a tree in its pages holds, and `BplusTree.Order` where a key stands among ascending ones.
-- `BplusTree.Scanner` goes along the leaves, and `BplusTree.IndexFile` is the header of the file, in the handler, in
-- the frame of the first page and on disk.
--
-- A function of the source keeps its name; a method takes its object first and returns it with its
-- results. `Rc` has the return codes (src/observer/common/rc.h), `Memory` the `memcpy` and `memset`
-- of the C library. `Run` is a result that is missing where an `ASSERT` stops the program or memory
-- outside an object is touched. An `ASSERT` stops a build with `DEBUG` only (log.h): `Trx.Mvcc` has
-- both builds, the other parts the one with `DEBUG`. Sizes, offsets, page and slot numbers are natural numbers: the code
-- keeps them within a page of 8192 bytes or a buffer in memory, far from the bounds of `int`.
-- Numbers of transactions are integers, as their sign is a mark; they do not wrap around.
--
-- Fuel: `fix_capacity` is given the capacity that it counts down. The loops of the ring buffer are
-- given the bytes that are asked for, since each round moves one at least; binary
-- search is given the length of its range, which each round makes shorter.
-- Operators are given more rounds than there are tuples, `foreach` of the cache more than entries,
-- the operations of the tree more than it is deep.
--
-- Not modelled: the parser and lexer, statements, the making of plans, sessions and the network,
-- the meta data files, what a buffer pool does beyond its frames and flushing, the latches of the B+
-- tree, and the redo log. Splits and merges of the nodes of that tree
-- are there as operations, not yet related to the items of the whole tree. Pages and transactions run
-- one at a time here, except where a theorem names a second transaction.
pub mod Base
pub mod Rc
pub mod Memory
pub mod Bitmap
pub mod Record
pub mod LowerBound
pub mod LruCache
pub mod MemPool
pub mod Operator
pub mod Mutex
pub mod Frame
pub mod BufferPool
pub mod BplusTree
pub mod Trx
pub mod RingBuffer
