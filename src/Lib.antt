-- ===== src/Lib.antt =====
-- HomeReplication: the raft log store, the state machine store and the codecs of the replication
-- library, with the theorems about them.
--
-- The program. A replica set keeps a raft log, HomeRaftLogStore (src/lib/log_store/
-- home_raft_log_store.{h,cpp}), which nuraft calls through its log_store interface, and a
-- HomeStateMachineStore (src/lib/storage/home_storage_engine.{h,cpp}) with a superblock and the
-- records of the free pbas of each lsn. Both keep their records in a homestore::HomeLogStore. Raft
-- indexes and lsns count from 1, the numbers of the store from 0. HomeRaftLogStore reads the term of
-- a record with SEBufSerializer (src/lib/log_store/storage_engine_buffer.h), which keeps numbers in
-- big-endian order by the macros of src/lib/log_store/endian_encode.h.
--
-- A ReplicaSet (src/lib/state_machine/replica_set.cpp) has the two stores and a state machine
-- (state_machine.cpp beside it). ReplicationService (src/lib/service/repl_service.cpp) keeps the sets
-- by uuid, and HomeReplicationBackend (home_repl_backend.cpp beside it) makes their stores, or opens
-- those of a superblock that was found.
--
-- The files.
--   Base        library names, Boolean tests, lists (Base.Lists), integers and their casts
--               (Base.Int), results and code with a state that can fail (Base.Exec)
--   Bytes       little-endian bytes of a number
--   Endian      the macros _enc and _dec for both byte orders; Endian.Order has the lemmas of a
--               little-endian host, and Endian.Hosts goes between the two
--   Buffers     SEBuf over a heap with explicit allocation; Buffers.Ownership is about the blocks that
--               a buffer owns. What malloc answers is the parameter malloc
--   Serializer  SEBufSerializer: is_valid is isValid, seek is pos with an argument, put_u64 is
--               putU64 and so on. The common bodies of the put and of the get functions are put_word
--               and get_word. An access outside the buffer is the error bad_access.
--               Serializer.Fields has fields of every kind and sequences of them, Serializer.Room
--               what is put of them where there is little room, and Serializer.Checked sequences of
--               the checked functions on whatever the buffer holds
--   HomeStore   the operations of homestore::HomeLogStore that the program calls, and the laws it
--               relies on: AppendLog for a log that is only appended to, DurableLog for what such a
--               log keeps over a crash, RecordLog for a log that is written at chosen numbers.
--               HomeStore.View and HomeStore.Records are the abstract views, HomeStore.Memory,
--               HomeStore.Device and HomeStore.MemoryRecords logs in memory that meet the laws
--   Nuraft      log entries and buffers of nuraft, with the layout of a serialized entry and the laws
--               of a buffer; Nuraft.Memory is an implementation in memory
--   RaftLog     HomeRaftLogStore; pack and apply_pack are in RaftLog.Pack. RaftLog.Represents says
--               that a store holds a list of entries from a first index on; the theorems are in
--               RaftLog.{Appends,Reads,Ranges,Compact,Codec} and RaftLog.Pack.{Layout,Room,Exact,Unpack,
--               Transfer,Rounds}. RaftLog.Calls has sequences of calls, and a
--               specification of the log on a list of entries; RaftLog.Calls.Refines
--               compares the two, and RaftLog.Calls.Stable is about what a sequence leaves alone.
--               RaftLog.Durable and RaftLog.Pack.Durable are about a crash of the process.
--               The methods that call the virtual append take it as an argument (write_at_by,
--               compact_by, apply_pack_by). RaftLog.Replica is ReplicaLogStore
--               (src/lib/log_store/repl_log_store.hpp), with theorems in RaftLog.Replica.Promise
--   StateStore  HomeStateMachineStore; StateStore.Records says that a store holds a list of records,
--               and the theorems are in StateStore.{Pbas,Records,Walk}
--   SmStore     StateMachineStore of src/lib/storage/storage_engine.h as an interface: its operations,
--               and laws about a list of records and the committed lsn. SmStore.Calls has sequences of
--               calls, and SmStore.Home makes HomeStateMachineStore an implementation
--   Maps        std::map and the hash map of the requests, as ascending lists
--   ReplicaSet  ReplicaSet and the journal entry of src/lib/log_store/journal_entry.h; the theorems
--               are in ReplicaSet.{Journal,Requests}. ReplicaSet.Storage is write with the pbas that
--               a StateMachineStore allocates
--   StateMachine, Service, Backend
--               ReplicaStateMachine over the interface, ReplicationService (theorems in Service.Sets)
--               and HomeReplicationBackend. Service.Threads has its functions on several threads as a
--               step relation, with theorems in Service.Threads.{Safety,Race}. Service.Threads.Turns
--               runs the threads by a schedule, with theorems in Service.Threads.Creates.
--               Service.Lock has the mutex that iterate_replica_sets holds while it calls back.
--               Service.Several adds several sets by any of the functions that add one.
--               The sets of HomeReplicationBackend keep with each store the id of the log store that
--               its constructor asked to be opened. Backend.Restart is the start on a device with
--               superblocks, with theorems there
--               and in Backend.{Order,Refused}; Backend.Create is a restart after new sets were
--               made, StateMachine.Restart the state machine after it
-- Each Tests module applies the theorems to concrete values.
--
-- How code is modelled. A method is a function from its arguments and the object to a result and the
-- object; a result is a value or an error, which stands for an exception, a failed assertion or an
-- access outside of memory. Casts between uint64_t, int64_t, int32_t and uint32_t wrap as in the
-- source. A lambda that captures by reference is a visitor with an accumulator. `throw e` in a catch
-- of std::exception throws a std::exception without the type of the error.
--
-- Loops and bounds. The loops recurse on the number of their rounds, which the code computes before
-- (`fill_by`, `unpack`), or on a number of tests (`fill_upto_by`), of which one more than the distance
-- is enough; with fewer the loop gives an error that is not one of the code. A thread
-- runs one part of its function at a step, and other threads run between the parts; no function has
-- more than five parts. Theorems about indexes ask that they stay below 2 ^ 63, where the casts do not wrap.
--
-- Not modelled: logging, locks other than that of the map of sets, the completion callbacks of the
-- store, the log store service that opens, creates and removes stores (its answer is an argument), the
-- limit of nuraft::buffer::alloc where a record of the log is read (it is 2 ^ 31 bytes), the
-- functions of ReplicaSet and ReplicaStateMachine that are declared without a body. A build has
-- assertions, except where a function takes `ndebug`.
pub mod Base
pub mod Bytes
pub mod Endian
pub mod Serializer
pub mod Buffers
pub mod HomeStore
pub mod Nuraft
pub mod RaftLog
pub mod Maps
pub mod ReplicaSet
pub mod Service
pub mod Backend
pub mod StateStore
pub mod SmStore
pub mod StateMachine
