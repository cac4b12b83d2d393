-- ===== src/Lib.antt =====
-- A verification library for the vector database vecscaledb: the storage engine of a shard, its
-- segments and their index, the reader's segment cache, the coordinator with its hash ring and its
-- metadata store, the writer's pipeline, and the services and metrics around them.
--
-- How the parts interact. The writer's pipeline sends each vector to the engine of its shard. An
-- engine appends to its log, changes its MemTable, and flushes it into a segment in the shared
-- storage; a merge replaces segments by one. The pipeline registers segments with the coordinator.
-- A reader caches the segments of its shard and searches them; the coordinator asks the readers and
-- merges what they answer with the function that the engine uses.
--
-- Files, and the code that they model (vecscaledb/...):
--   Arrays             ids, vectors, distances and arrays, and the shape test of the engine
--   Storage/Merge      storage/lsm.py: merge_results, filter_result_ids
--   Storage/MemTable   storage/lsm.py: MemTable
--   Storage/Lsm        storage/lsm.py: LSMEngine; State has its fields, Start, Writes, Compaction,
--                      Merging and Reads its methods, Visibility and Files its helpers; View says
--                      what an engine holds, Invariant and Compaction/Settled when it is sound, and
--                      History has the runs of calls
--   Storage/Wal        storage/wal.py: WAL; Frame has one record byte by byte
--   Storage/Snapshot   storage/snapshot.py: SnapshotManager
--   Index/Segment      index/segment.py: Segment, and SegmentMeta of models.py
--   Index/IvfFlat      index/ivf_flat.py: IVFFlatIndex
--   Coordinator/Ring   coordinator/ring.py: ConsistentHashRing
--   Coordinator/Etcd   coordinator/etcd_client.py: the in-memory backend, the rounds of
--                      watch_prefix, and _retry
--   Coordinator/Client coordinator/client.py: CoordinatorClient; Calls has its calls, each
--                      by _request
--   Coordinator/Service coordinator/app.py: the module globals, the handlers and the heartbeat
--   Reader/Cache       reader/search.py: SegmentCache
--   Writer/Pipeline    writer/pipeline.py: WriterPipeline
--   Writer/Service     writer/app.py: the handlers, the start, the stop and the registration
--                      round
--   Reader/Service     reader/app.py: the globals, the handlers and a round of the refresh loop
--   Node               node.py: the handlers, the start and the stop of the service of one engine
--   Observability      observability.py: MetricsRegistry and the middleware that counts requests
--   Prelude            lists, dictionaries, sets, stable sorting, decimal numbers, exceptions
--   Tests              concrete runs, and each theorem at an input that meets its conditions
--
-- State and errors. An object is a record of its fields. A method that changes its object is a
-- function to the outcome and the object that it leaves; after an exception that is the object as it
-- was at the raise. Methods hold a lock around code without a wait, so they are steps. What lies in
-- the shared storage is part of the state of the engine that uses it, and the pipeline hands it from
-- one engine to the next.
--
-- Numbers. An int64 id is its two's complement pattern below 2 ^ 64. A float32 is its bit pattern; a
-- distance is not negative, and such patterns are ordered like the numbers (no NaN). LSNs, snapshots
-- and times are natural numbers; the log's fields keep their widths, and a number that does not fit
-- raises as struct does.
--
-- Fuel. The loop that reads the log takes the number of bytes as fuel: a round takes thirteen bytes
-- at least. Writing a number in decimal takes its value. The retry loops have their three attempts.
--
-- Parameters: faiss (Index/Faiss), zlib.crc32, hashlib.md5, uuid4, the JSON texts that pydantic
-- writes and reads in the metadata store, the answers of other nodes over HTTP, what Python does
-- to a float in the metrics, and in the pipeline and the reader the coordinator.
--
-- Not modelled: the etcd server behind the other backend of EtcdClient, which is a service of its
-- own; fsync and the order of file operations in one write (a crash leaves a torn end of the log);
-- configuration from the environment, the structured log, benchmarks, reports and the interactive
-- client. A search of the engine reads the ids of its segments from disk each time, where the code
-- keeps them in the segment; files of ids are written once and go with their segment. Range queries
-- of the ring take keys that are not negative. A flush and a merge await
-- only the lock, and are steps; that a restart keeps what is visible is not shown, since the code
-- does not (an id that was deleted and inserted again is hidden by the replay of the log).
pub mod Prelude
pub mod Arrays
pub mod Index
pub mod Storage
pub mod Coordinator
pub mod Reader
pub mod Writer
pub mod Node
pub mod Observability
mod Tests
