-- ===== src/Lib.antt =====
-- MySQLight, a small SQL database in one file: what is stored, how it survives a crash, and who may
-- touch it.
--
-- The program. db.go opens a database: the pager (storage/pager.go) keeps the file as numbered pages
-- of 4096 bytes, with a header in page 0 and the free pages linked through their first bytes; the
-- write-ahead log (wal/wal.go) records the changes of pages; recovery (wal/recovery.go) runs on the
-- log at the start and writes pages through the pager; the buffer pool and the B+ tree
-- (storage/buffer_pool.go, storage/btree.go) stand between the pages and the rows; the catalog
-- (catalog/) stores the table and index definitions in encoded form; the executor (executor/)
-- stores each row in encoded form; the lock manager (txn/lock_manager.go) gives a transaction the
-- shared or exclusive lock of a table; the parser and the planner turn a statement into a plan.
--
-- Prelude    the library's names, tests on numbers, lists, slices, Result, int64
-- Bytes      byte slices, encoding/binary's big-endian numbers
-- Files      os.File and io.ReadFull: a file is its bytes
-- Maps       Go's maps as association lists, over keys with an equality
-- Storage    Pager: storage/pager.go. One function for each of Open, ReadPage, WritePage,
--            AllocatePage, FreePage and SetCatalogRootPageID. Pager/Layout says what a sound file
--            is, Pager/History has the call sequences, Pager/Store makes the pager the writer that
--            recovery takes.
--            Pool: storage/buffer_pool.go (FetchPage with its eviction, UnpinPage, FlushAll);
--            Pool/Rollback: RollbackTxn, AllocatePage, FreePage.
--            Node: storage/btree_node.go. Node/Leaf and Node/Internal have one function for each
--            method; Node/Leaf/Holds says when a page holds a list of entries.
--            Tree/Search: storage/btree.go (binarySearchKeys).
-- Wal        Record, Log: wal/wal.go (encodeRecord, Open, WriteRecord, ReadAll, Checkpoint);
--            Recovery: wal/recovery.go (Recover, analysisPass, undoPass); Crc: hash/crc32.
-- Txn        Locks: txn/lock_manager.go (canGrant, Acquire, Release, ReleaseAll); Manager:
--            txn/txn.go (Begin, Commit, Rollback).
-- Catalog    catalog/schema.go and catalog/encoding.go, with the record types of
--            catalog/catalog.go.
-- Floats     float64 arithmetic as a parameter. Strconv: decimal numbers of package strconv
-- Executor   Row: executor/row.go (encodeRow, decodeRow). Eval, Like: executor/filter.go
--            (evalExpr, applyBinaryOp, likeMatch). Operators: Filter, NestedLoopJoin, Project, Sort,
--            Limit and Aggregate of executor/; Operators/Meaning, Operators/Sort/Order,
--            Operators/Sort/Sorted, Operators/Group/Partition and Select/Meaning say what they and
--            a SELECT statement mean on lists of rows. Select: executor/executor.go
--            (buildSelectPipeline).
-- Parser     Ast: parser/ast.go (expressions and SELECT statements). Lexer: parser/lexer.go
--            (NextToken and its readers, the keyword table); a rune is its number, and the index is
--            the input from there on.
-- Planner    planner/planner.go (planSelect) and Optimizer: planner/optimizer.go, its four passes in
--            Optimizer, Optimizer/Fold and Optimizer/Index.
-- Tests      the definitions and the theorems at concrete inputs
--
-- How the code is modelled. A pointer to a struct is a record that each operation takes and returns.
-- A call that can fail returns Result, with the error values of the component and the run-time
-- panic; where a call returns values beside an error, or keeps changes in spite of it, it returns
-- all of them. uint16, uint32 and uint64 are natural numbers with the wrap-around written out; a
-- float64 is its 64 bits; a string is its bytes. A Go map is an association list; its order is the
-- order in which range visits it. The loop of ReadAll is recursion on fuel, one round for each byte
-- of the file and one more; every round that goes on takes 21 bytes at least, so that is enough.
-- The writer of recovery is a parameter, a record of a state and of WritePage, with the laws of a
-- store of pages as hypotheses. A lock manager's call runs under the mutex, so it is one step; a
-- transaction that waits is an entry of the list of waiters, and its channel is its number.
--
-- What an operator's Next returns in turn is a list that ends with io.EOF or an error; a join opens
-- its right side again for each left row, and is given the same rows. sort.SliceStable is insertion
-- sort. Open of a table, which reads the catalog, the B+ tree and the lock manager, is a parameter,
-- and so is the arithmetic of float64. A *Txn is an address in a memory that the map of the active
-- transactions and the callers share, so a change by Commit or Rollback is seen through each of them.
-- ReleaseAll is modelled without calls of others between its releases; those are sequences of single
-- Release steps, which the reachable states of the lock manager have as well.
--
-- Not modelled: errors that the operating system returns, except for a write to the log that is cut
-- short (by Commit and its like, and by the buffer pool); Sync and Close; detectDeadlock, which nothing calls; the B+ tree beyond its nodes and the
-- search in them, the catalog's operations,
-- the parser behind its lexer, the statements that change data, with their foreign
-- keys; db.go and cmd/, which are glue, and the command line's input and output.
pub mod Bytes
pub mod Catalog
pub mod Executor
pub mod Files
pub mod Floats
pub mod Maps
pub mod Parser
pub mod Planner
pub mod Prelude
pub mod Storage
pub mod Strconv
pub mod Tests
pub mod Txn
pub mod Wal
