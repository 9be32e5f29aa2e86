-- ===== src/Lib.antt =====
-- cdoc: a document store on an LSM tree.
--
-- Paths, indices and integers (src/path, src/varint.rs, src/pid.rs, src/hlc.rs) are the byte formats:
-- a document's field is stored under a key that a `PathWriter` makes of fields and fractional indices.
-- A transaction (src/transaction.rs) writes keys and values to the write-ahead log (src/wal/mod.rs)
-- and to a copy of the memory table (src/sst/memtable.rs), which its commit publishes and, when it is
-- large, flushes to a sorted string table (src/sst), which is opened again for lookups and scans.
-- `Db::open` (src/db.rs) restores the memory table from the log. A mutation (src/mutation.rs) is a
-- tree of writes, a query (src/query) a tree of fields to read, which is parsed from text.
--
-- Files:
--   Prelude       the libraries' names, Boolean tests, lists by native numbers, byte strings in
--                 lexicographic order, results
--   Varint        src/varint.rs; BigEndian and LittleEndian are the integers' byte orders
--   Zerocopy, Crc32, BTreeMap   what is used of zerocopy, crc32fast and the standard library
--   Pid           src/pid.rs
--   Hlc           src/hlc.rs: a state of the counter and the threads, and a step for each atomic access
--   Path          src/path/mod.rs; Path/Write is write.rs, Path/Read is read.rs, Path/Lww is lww.rs and
--                 Path/Lseq is lseq.rs
--   Sst           src/sst/mod.rs; Sst/Memtable and Sst/Prefix are src/sst/memtable.rs, Sst/Write is
--                 write.rs and Sst/Read is read.rs; Sst/Layout and Sst/File are what the writer leaves,
--                 Sst/Open, Sst/Table and Sst/Blocks what the reader makes of it, and Sst/Search,
--                 Sst/Bloom and Sst/Scan its lookups; Sst/Tables is the interface that the database uses,
--                 and Sst/Files its implementation by files; Sst/Directory is what src/db.rs does with
--                 the directory of the tables: the search for them, and the steps of a flush
--   Query         src/query/mod.rs; Query/Parse is parse.rs, Query/Shrinks and
--                 Query/Ends count what it leaves of the input, Query/Positions and Query/Placed follow
--                 its position, Query/Print makes a text for
--                 each query, and Query/Reads and Query/RoundTrip parse that text; Query/Macro is the
--                 macro `query!` on token trees, and Query/Macro/Tokens the tokens of a query
--   Wal           src/wal/mod.rs: the file is its bytes
--   Mutation      src/mutation.rs; Mutation/Macro is the macro `mutation!`, Mutation/Order the order of
--                 segments
--   Db            src/db.rs and, in Db/Transaction, src/transaction.rs; Db/Durable runs transactions
--                 one after another, Db/Restored and Db/Crash open what they leave, and
--                 Db/Executed what a mutation leaves
--   Examples      every theorem of the list below at a concrete input
--
-- Numbers are natural numbers, with the wrap of a machine integer written out where the program
-- computes with it. A byte is a number below 256; that the bytes of an input are such is a
-- hypothesis where it matters. Functions have the names of the program's. An operation that changes
-- an object returns the new one. `Parsed` is an `Option` with two more outcomes: a panic, and
-- `stuck`, which stands for a loop that ran out of fuel. The fuel of a loop is the length of its
-- input, or one or two more (of both inputs in `write_fractional_index`), since each round takes a
-- byte; the theorems that a loop ends rule `stuck` out. In `replay`, `none` stands for it. The
-- parser of queries has two calls for each byte, and `Outcome` in place of `Parsed`; the macros
-- have one for each token.
-- A directory is its files' names and bytes, in the order of the names, and `read_dir` is a function
-- that lists it in an order of its own. A crash is that of the process: what was written before it is
-- on the disk, up to a point, and nothing behind that point is.
--
-- The macros are functions on token trees: an expression of the program around them is a token that
-- has its value.
--
-- Not modelled: the text of a timestamp but for its order and for the times that have none, where a
-- flush panics; the conversions between timestamps and `chrono`; errors of the operating system; and
-- the panic of `decode_block` on a block's start within four of 2 ^ 64, which no writer leaves. The clock, the generator of identifiers, CBOR,
-- checksums, the check of UTF-8 and the contents of memory that nobody has set are parameters.
pub mod Prelude
pub mod Varint
pub mod Zerocopy
pub mod Pid
pub mod Hlc
pub mod Path
pub mod BTreeMap
pub mod Sst
pub mod Crc32
pub mod Wal
pub mod Mutation
pub mod Query
pub mod Db
pub mod Examples
