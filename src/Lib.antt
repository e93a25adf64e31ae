-- ===== src/Lib.antt =====
-- A model of VeriTxn's concurrency control and of its store of verified pages, the parts that run
-- in the enclave under trusted/ and the page cache of common/.
--
-- A transaction reaches rows through `row_t`, whose manager is the row's part of the protocol
-- chosen at build time; the protocols are modelled one by one. The rows stand on pages, which the
-- page cache keeps and the hash chains verify.
--
-- HashChain is about trusted/system/hash_chain.h. A chain is its size, list of nodes, tail
-- pointer and latch; `place_after` and `place_scan` are the loop of insert, `get_scan` that of
-- get.
--
-- LruCache is about common/lru_cache.cpp and lru_cache.h, as built with LAZY_OFFLOADING. The
-- tables are functions of partition and bucket, the queue a list; counters are 64 bits wide.
-- Evict is about cache_free, Keeps about every operation by itself, Reach about sequences of
-- calls.
--
-- Coder is about common/coder.cpp, RowEnc about the encoding and the hash of a row in
-- trusted/system/row_enc.cpp. Characters are numbers. Decimal has the decimal numbers of the standard
-- library, whose digits are written with as much fuel as the number.
--
-- Bucket, Latch and IndexEnc are about trusted/system/index_enc.cpp: a page and its hash, the latch of
-- a page, and the index that loads pages from the store outside into the cache and checks them
-- against their chains. `after_swap` has the loop around load_and_swap; `Config` has the build's options
-- and what is outside the enclave. A call runs by itself, and the clock stands still in it. `copy_nodes` is the copy of a page
-- that load_bucket and flush_out make, in which all but the part ids is the same; the assertions of the two on the
-- hashes are left out, since get_hash-copy_nodes in Bucket/Copy shows that they cannot fail. `outside` is the index
-- after load_bucket has synced the page from the disk, where it does.
--
-- RowLock is about trusted/concurrency_control/row_lock.cpp. A call runs under the row's mutex,
-- as one step; the linked lists are lists. Get and Release are the calls, Order the waits across
-- rows.
--
-- Plock is about trusted/concurrency_control/plock.cpp. The array of waiters is a function, with
-- its count. Acquire and HandOver are the two methods of a partition; `lock_parts` and
-- `unlock_parts` are the loops over partitions, where the spin on ready_part is the answer
-- `wait`. ready_part is an int, of which the model has the 32 bits.
--
-- BubbleSort is about the sorting loop of occ.cpp, silo.cpp and tictoc.cpp under trusted/concurrency_control.
--
-- Occ is about row_occ.cpp there, the per-row validation of occ.cpp, the write-back of
-- `txn_man::cleanup` in trusted/system/txn.cpp, and the compare-and-swap case of
-- `ManagerEnc::get_ts`.
--
-- Silo is about silo.cpp and row_silo.cpp there, with ATOMIC_WORD.
--
-- DlDetect is about dl_detect.cpp there. The depth of nextNode is bounded by the number of threads, of
-- which each level of the recursion visits one that was not visited. Spec has the chains of waits, Search
-- what the search finds.
--
-- ManagerEnc is about trusted/system/manager_enc.cpp. Draws is about runs of get_ts.
--
-- TicToc is about tictoc.cpp and row_tictoc.cpp there, with ATOMIC_WORD; `write_copy_ptr` is _write_copy_ptr, under
-- which a commit fails its assertion. Renew is about the renewal
-- of a lease, Lock and Reads about the two sets, Times about the commit time. Accesses has the types of
-- access, and the rows of a write set and a read set.
--
-- Hekaton is about row_hekaton.cpp and hekaton.cpp there. The version `k` after the oldest one stands in the
-- entry `slot len oldest k` of the ring. get_min_ts is an assertion that fails, so a prewrite that is not refused stops
-- there; `take_entry` and `fill_entry` are the code behind the call, for any answer. The scans of the ring and the collection of garbage have one round for
-- each entry, which is enough because they end at the oldest or the latest one. Ring says when the versions are in order; Reads,
-- Prewrite, Settle and Prepare are about the calls, Validate about the transaction. Reserve, Double, Choose, Take and Mark are the
-- steps of a prewrite.
--
-- Deferred is about the deferred verification of pages in trusted/system/index_btree_enc.h and index_btree_enc.cpp:
-- `record_read` and `record_write` are add_read and add_write of a record, `update_record` what those of the verifier
-- share. Tracks is about the records, Verdict about the check of one, Batch about runs of calls.
--
-- BtreeEnc is about the nodes of the B+ tree in index_btree_enc.cpp. A node's arrays are functions;
-- `first_from` is the loop that looks for an index, `move_right` the one that makes room, `copy_around` and `copy_to` are those of
-- a split. `insert_into_inner` is insert_into_parent where the parent has room. Lookup, Leaf and Split are about leaves, Routes
-- and Inner about the others.
--
-- Central is about the central validation of occ.cpp there, where a set is the list of its rows.
--
-- RowTs is about row_ts.cpp there, without TS_TWR. `update_loop` has one round more than readers
-- that wait, each round that another follows takes one out.
--
-- Prelude has Boolean tests, lists, and `Outcome`, the result of code that may fail an assertion
-- (`fault`) or wait for another thread (`blocked`); `Ensures` says that it returns.
--
-- Validation in Occ, Silo, TicToc and Central is the run of one thread; what other threads do meanwhile is not
-- modelled, and a lock held by another is `blocked`. Loops are recursion on their list or on
-- their count, so only RowTs, DlDetect, Hekaton and the decimal numbers need fuel. Words and counters are natural numbers with the width of the
-- source written out, or with a hypothesis that they have not come to its end.
--
-- In the protocols a row's tuple is one value, and in the page cache a page is an address with a size.
--
-- Not modelled: the protocol of row_mvcc.cpp, the walk over the nodes of the B+ tree of index_btree_enc.cpp, with its cache, latches and
-- hashes, and the transaction manager but for its write-back, memory allocation and freeing, profiling, the SGX calls, the network, and the files
-- under untrusted/.
mod Prelude
pub mod HashChain
pub mod LruCache
pub mod RowLock
pub mod Plock
pub mod BubbleSort
pub mod Occ
pub mod Silo
pub mod RowTs
pub mod Central
pub mod Coder
pub mod RowEnc
pub mod Latch
pub mod Bucket
pub mod IndexEnc
pub mod Accesses
pub mod TicToc
pub mod DlDetect
pub mod ManagerEnc
pub mod Hekaton
pub mod Deferred
pub mod BtreeEnc
