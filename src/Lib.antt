-- ===== src/Lib.antt =====
-- The consensus core of Lachesis: groups of validators, the index of vector clocks with the
-- relation "forkless cause", the election of the Atropos of a frame, the frames, roots and times
-- of events, the blocks of decided frames, the checks of events, and the cache under the stores.
--
-- The parts and how they interact
--
-- * Pos (inter/pos/validators.go, stake.go, sort.go): `ValidatorsBuilder`, `Validators` with its
--   caches (`newValidators`, `calcCaches`, `sortedArray`), `Quorum`, and in Pos/Stake the counter
--   that collects a quorum (`CountByIdx`, `Count`, `HasQuorum`) and `BalanceToStake`.
--   A Go map is an association list; what depends on the order in which a map is walked takes
--   that order as the order of the list.
-- * Inter (inter/event.go): the header of an event and its self-parent. An id is a number.
--   Inter/Serializer (inter/event_serializer.go) over Fast (utils/fast): `MarshalBinary` and
--   `UnmarshalBinary`; bytes are numbers below 256.
-- * Vector/Bytes, Vector/Clock (vector/vector.go, common/littleendian): the vectors as bytes that
--   grow on a write. Vector/Branches (vector/branches_info.go, vector/index.go): the branches that
--   forks make, `fillGlobalBranchID` and `setForkDetected`. Vector/Index: the tables, `Flush` and
--   `DropNotFlushed`. Vector/Observe and Vector/Merge (vector/index.go): the part of
--   `fillEventVectors` that makes the vectors of an event, and `getHighestBeforeMerged`.
--   Vector/Lowest (vector/index.go, vector/traversal.go): the walk that writes the number of a new
--   event into the LowestAfter vectors of the events it observes.
--   Vector/ForklessCause (vector/forkless_cause.go) and Vector/MedianTime (vector/median_time.go)
--   read these vectors.
-- * Election (poset/election): `Election` is the state, `process_root` in Election/Process is
--   `ProcessRoot`; `observe` and `get_frame_roots` come from outside, as in the source. It counts
--   votes with the counters of Pos/Stake and chooses with `choose_atropos`.
-- * Poset (poset/poset.go, poset/store_roots.go): `calc_frame_idx` and the table of roots.
--   Poset/Event: `prepare` and `check_and_save_event`, over the operations of the vector index,
--   which come as a record. Poset/Ordering (poset/event_ordering.go, poset/frame_info.go): the
--   order of a block and the consensus times.
-- * Walk (hash/event_hash.go, poset/traversal.go): the stack of ids and the loop of `dfsSubgraph`.
--   Poset/Confirm (poset/frame_decide.go): `confirmEvents`, which walks from the Atropos and calls
--   back for each event that it confirms. Poset/Decide (poset/frame_decide.go): `confirmBlock`,
--   which collects the block from these calls, `onFrameDecided` and `sealEpoch`; the application
--   comes as a record of callbacks. Poset/Elections (poset/poset.go): `processKnownRoots` and
--   `handleElection`, which feed the roots to the election and decide frame after frame.
--   Poset/Process (poset/poset.go): `ProcessEvent`, which puts these together.
-- * Gossip/Ordering (gossip/ordering/event_buffer.go): `PushEvent`, which processes an event when
--   all its parents are connected, and keeps it otherwise. The fuel is greater than the number of
--   buffered events that are not connected, as each round but the first connects one of them.
-- * Gossip/Piecefunc (gossip/piecefunc/piecefunc.go): `Get`, with the wrap-around of 64 bits.
-- * Kvdb/Flushable (kvdb/flushable/flushable.go): the cache of modified pairs over a database. The
--   sorted tree and the database come as records of operations and laws; a nil value is `none`.
--   Kvdb/Synced (kvdb/flushable/lazy_flushable.go, synced_pool.go): `LazyFlushable` and the pool
--   that flushes all caches together, `flush`, with the flags that `checkDbsSynced` reads at a
--   restart. A crash is read as a write that fails. The order in which a loop walks the map of
--   caches is a parameter, another one for each loop.
--   Kvdb/Iterator (kvdb/flushable/flushable.go): `Next` of the iterator that merges the cache with
--   the database's own iterator. A node of the tree comes with the nodes after it, which `nextNode`
--   finds in the source. The fuel bounds the nodes and pairs that are left.
-- * Check (eventcheck): the checks of parents and epochs, of gas power, and the basic checks, with
--   `IntrinsicGas` of evmcore/state_transition.go.
-- The names that these share stand in Prelude; tests and examples stand in Tests.
--
-- How the code is read
--
-- Numbers are naturals, with the wrap-around of uint32 and uint64 written out; an int64 of
-- Poset/Ordering is its 64 bits. `none` and `crit` are run-time panics and fatal log lines;
-- returned errors are values. Most loops of this code go over lists and end with them. The walk
-- over the ancestors of an event takes as fuel one more than all headers have parents, which is
-- what `confirm_block` gives it; the loops of `handleElection` take as fuel a number greater than
-- the number of roots, since each round needs a root of its frame. LRU caches in front of a table
-- are left out.
--
-- What is not modelled
--
-- `Index.Add` as a whole, over the getters and setters of its store: Poset/Event and Poset/Process
-- take what they use of the index as a record of operations. `Drop` and `NotFlushedPairs` of
-- `Flushable`, `Replay` and `Reset` of its batch, and `nextNode` of its iterator. The drops of the
-- queued databases at the start of a flush of the pool are one step, not crashed into. The
-- bootstrap and the genesis of a node, RLP, the other databases, the other parts of gossip, the
-- application and the services.
-- Hashes, signatures, RLP and the gas prices of go-ethereum belong to other libraries.
pub mod Prelude
pub mod Inter
pub mod Walk
pub mod Fast
pub mod Kvdb
pub mod Pos
pub mod Vector
pub mod Election
pub mod Check
pub mod Poset
pub mod Gossip
pub mod Tests
