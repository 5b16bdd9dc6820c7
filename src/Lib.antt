-- ===== src/Lib.antt =====
-- The distributed cache: a server that keeps byte strings under byte-string keys in memory, and
-- the parts that route keys to nodes, replicate writes and choose the leaders of shards.
--
-- How the parts interact. The server's handlers (src/server, src/protocol) call `Set` and `Get`
-- of the concurrent store. The store asks the eviction policy for a victim when it is over its
-- capacity. The acknowledgement policy of the replication appends to the log, and reads the
-- replicas' progress. The metadata adapter keeps the leaders of the shards, and asks the
-- heartbeat manager who is alive. `main` tries the ring of cluster once at its start; it has no
-- other caller in the server, and the parts of replication and control and the coalescer have
-- none: they are libraries with tests, and the benchmark measures the coalescer. A connection of
-- the RESP listener parses its buffer, runs the commands through the dispatcher and counts them
-- in the metrics; the gRPC handlers use the dispatcher too.
--
-- Which file models which part:
-- - Prelude and its children: the names that the others share; maps as association lists
--   (Prelude/Map), byte strings (Prelude/Keys), signed integers (Prelude/Int), functions that may
--   throw (Prelude/Results).
-- - Core/Eviction: src/core/eviction/slru_lfu_policy.cpp. `score`, `select_victim`.
-- - Core/Entry: src/core/value_entry.hpp and `TouchEntry` of src/core/concurrent_store.cpp.
-- - Core/Store: src/core/concurrent_store.hpp and .cpp, the state and the blocks that run under a
--   stripe's lock: `set_section`, `get_section`, `sweep_section`, `demote_section`,
--   `evict_section`. `get` is `Get`.
-- - Core/Capacity: `SelectVictimKey`, `EnforceCapacity` and `Set` of the same file.
-- - Replication/Wal: src/replication/wal_writer.cpp. Replication/Stream:
--   src/replication/replica_stream.cpp. Replication/AckPolicy: src/replication/ack_policy.hpp.
-- - Control/Heartbeat: src/control/heartbeat_manager.cpp. Control/Raft:
--   src/control/raft_metadata_adapter.cpp.
-- - Cluster/Hash and Cluster/HashRing: src/cluster/hash_ring.cpp and shard_router.cpp.
-- - Protocol/Resp: src/protocol/resp/resp_parser.cpp, and `EncodeBulkString` of
--   src/server/command_dispatcher.cpp. Prelude/Decimal: `std::to_string` and the digits of
--   `std::from_chars`.
-- - Server/Dispatcher: src/server/command_dispatcher.cpp, `DispatchCommand` and `ExecuteCommand`.
-- - Server/Args: src/server/node_config.hpp, and `ParseArgs` of src/server/main.cpp.
--   Server/Session: `HandleRespClient` of the same file; Server/Session/Sending: `SendAll`.
-- - Server/Start: `main` until its threads start, with the two ways in which it returns 1 after
--   its arguments are accepted: the hash ring, and the gRPC server. Server/Listener: the accept
--   loop of `RunRespServer`, `TryAcquireRespSlot`, and src/server/resp_worker.hpp.
--   Server/MetricsListener: `CreateListeningSocket`, `HandleMetricsClient` and
--   `RunMetricsServer`. Server/Grpc: src/protocol/grpc/cache_service.cpp.
-- - Core/Coalescer: src/core/request_coalescer.cpp.
-- - Metrics: src/metrics/prometheus_endpoint.hpp and .cpp, and the response of
--   `HandleMetricsClient`.
-- - Bench/Json and Bench/Reader: `JsonEscapeString` and `JsonReader` in bench/cache_bench.cpp.
--   Bench/Matrix: `ParseScenarioObject`, `ParseScenarioArray`, `ParseScenarioMatrix` and
--   `LoadScenarioMatrix` of the same file; Bench/Matrix/Documents: JSON documents as trees, and
--   what they mean. Bench/Shares: `SumScenarioRequests` and `DistributeScenarioRequests`.
--   Bench/Setup and Bench/Load: `main` until its store is made, and the operations on the store.
--   Bench/Coalescing: `MeasureCoalescingBehavior`, with the coalescer of Core/Coalescer;
--   Bench/Coalescing/Plain: the same without it; Bench/Coalescing/Compared: both, as `main` calls
--   them. Bench/Report: `Percentile`, the results of the scenarios, and in Bench/Report/Text the
--   text of the report.
-- - The modules named Tests: the theorems at concrete inputs, and runs of the unit tests of
--   tests/.
--
-- How state and operations correspond. A class is a record with the class's fields; a method is a
-- function from the arguments and the state to the state and the result. A `std::unordered_map`
-- is an association list in the order of its iteration, which no theorem depends on where the
-- code does not. `std::hash` is an argument. Readings of the clock are arguments, in nanoseconds
-- since its epoch. 32- and 64-bit counters wrap around, or stop, as the code makes them. Log
-- indices and the times of the heartbeats are natural numbers: the code only compares them, or
-- counts elements of a vector with them.
--
-- Threads. Each block that runs under one lock is one step. For the store, steps of any threads
-- follow each other in any order: `Interleaving` in Core/Store/Threads. The methods of the
-- heartbeat manager each hold its mutex throughout. The metadata adapter's methods are modelled
-- as one step each. A call of the coalescer takes three steps, two under its mutex; the accepting
-- thread and the workers take a step at each access to their counter and each close of a
-- descriptor, in any order. A connection has the store to itself while its loop runs.
--
-- Fuel. The two loops of `EnforceCapacity` have no bound in the code. In the model they run on
-- fuel, and `set_entry` gives them one round more than there are entries; each round takes away a
-- protected entry or an entry, so that this is enough. The search of `AddNode` for a free token
-- has no bound either: `free_token` gives `none` if its fuel is gone; Cluster/HashRing/Probing is
-- about the fuel that it needs. The loop of a connection over its buffer runs on one round more
-- than the buffer has bytes, and each round consumes a byte at least (Server/Session/Ending); so
-- does each round of the loops of `JsonReader` in the benchmark, and each call of `SkipValue`
-- within a value (Bench/Json/Fuel, Bench/Reader/Loops and Bench/Reader/Fuel).
--
-- What is not modelled. A clock that runs past its own signed 64-bit nanoseconds; the sum of a
-- reading and a time to live does wrap around, as it does on the machine, where the language
-- leaves it undefined. Exhaustion of memory. Of src/server/main.cpp: the system calls on sockets,
-- the signals, what gRPC does with its server (whether it builds one is an argument), the timer
-- of `run_for` and the joins at the end. Of bench/cache_bench.cpp: the latencies, how a stream
-- prints a `double`, the opening of the files and the output to the terminal. dashboard and
-- scripts are not C++ or only start the server.
mod Prelude
pub mod Core
pub mod Replication
pub mod Control
pub mod Cluster
pub mod Protocol
pub mod Server
pub mod Metrics
pub mod Bench
