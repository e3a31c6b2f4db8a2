-- ===== src/Lib.antt =====
-- Verification library of ep-engine, the storage engine of a Couchbase bucket.
--
-- A bucket is divided in vbuckets. The mutations of a vbucket are queued in its checkpoints, and cursors
-- walk through these, one for the flusher that persists them and one for each replication stream. The
-- failover table of a vbucket records the branches of its history, by which a replication client learns
-- whether it must roll back. Replication runs over DCP: the producer's backfill manager reads older
-- items from disk within a byte limit, and the consumer's flow control acknowledges the bytes it has
-- processed. Documents that come from another cluster carry extended meta data and are resolved against
-- the local ones. Bloom filters tell which keys need not be looked for on disk, and a ring buffer keeps
-- the log of the tasks. The streams of DCP carry the documents of one vbucket each: a producer's stream
-- sends a backfill and then what the cursor reads from the checkpoints, a consumer's stream gives what
-- it receives to the vbucket or keeps it until there is room. Each of these is a component here. They
-- meet in four places: a checkpoint's queueing adjusts the cursors of its manager, so Checkpoint is the
-- part of CheckpointManager that owns the queue; the sequence numbers that the manager assigns are the
-- ones that the failover table records; the consumer of a connection gives what it receives to its
-- streams, reads its extended meta data and tells the flow control of the bytes that are done with; and
-- a stream calls the vbucket, its checkpoint manager and the backfill manager, which are a record of
-- operations there.
--
-- Each file corresponds to code as follows; a function has the name of the C++ function in snake case.
--   Failover and its children: src/failover-table.cc, src/failover-table.h. The table is a list, newest
--     entry first. The random part of a new uuid is an argument. cJSON is a parameter: its text is the
--     value that it prints.
--   Checkpoint and its children: src/checkpoint.cc up to queueDirty of Checkpoint, the data of
--     src/checkpoint.h, and the operations of src/item.h. A queue is a list of nodes with addresses, and
--     an iterator is an address, so that erasing a node leaves the other iterators alone.
--   CheckpointManager and its children: the class of that name of src/checkpoint.cc. Open has the
--     closing and adding of checkpoints and queueDirty, Cursors the registration of cursors and
--     nextItem, and Removal the removal of unreferenced checkpoints; the walk of the cursors and
--     getAllItemsForCursor are in the parent.
--   BloomFilter and its children: src/bloomfilter.cc, and in Vbucket the two filters of src/vbucket.cc.
--   BackfillManager and its children: src/dcp/backfill-manager.cc, and the count of active backfills of
--     src/dcp/dcpconnmap.cc.
--   FlowControl and its children: src/dcp/flow-control.cc, and in Managers the policies of
--     src/dcp/flow-control-manager.cc.
--   Conflict and its children: src/conflict_resolution.cc.
--   ExtMeta and its children: src/ext_meta_parser.cc.
--   RingBuffer and its children: src/ringbuffer.h.
--   Stream: the messages of src/dcp/response.h, and the queue of them that every stream of
--     src/dcp/stream.cc and src/dcp/stream.h has. Its children have one class each: Stream.Passive with
--     Process and Receive is PassiveStream, Stream.Active with Transitions, Events, Backfill, Phases and
--     Snapshots is ActiveStream, and Stream.Notifier is NotifierStream. Store and Engine are the records
--     of what the streams call. `none` stands for an exception or an abort. The fields `applied` and
--     `sent` are the model's own: what the store took and what was sent. processItems gets the batches
--     that the checkpoint manager answers as a list.
--   Consumer: src/dcp/consumer.cc and the queue of src/dcp/dcp-types.h. Handlers has the handlers of
--     messages and the adding and closing of streams, and Ready the processing of the buffers and what
--     is sent for the streams. The bytes of a stream's buffer are the fuel of the loop that processes
--     it; that this is enough is part of the theorem about it. `none` stands for an exception or
--     undefined behaviour.
--   Base and its children: names of the libraries, Boolean tests, lists with native lengths, byte
--     orders.
--
-- State is passed explicitly: a record for the fields of the class, and one function for each method. The
-- locks of the classes make a method one step; where a lock is released inside a method the model has two
-- steps. Exceptions and error codes are values of the results. Integers are natural numbers; where the
-- width of the type matters the reduction modulo a power of 2 is written out. Accesses out of range and
-- copies past the end of a member, which C++ leaves undefined, are outcomes of their own.
--
-- Loops are recursion on the list they run over, or on fuel. incr_cursor has fuel for every checkpoint of
-- the manager and collect for every node of the queues, and decode_loop for every byte; that this is enough
-- is part of the theorems about them, since running out of fuel has a result of its own that they exclude.
-- In incr_cursor it has not: there the theorems give the result for any fuel above the number of
-- checkpoints behind the cursor's.
--
-- Not modelled: statistics and log messages; the queue statistics of the vbucket that queueDirty
-- updates; products of doubles, which are arguments that stand for any rounding; the registration of a
-- cursor by sequence number, the collapsing of checkpoints, snapshots; the task that collects the
-- streams to process and getItemsRemaining; the producer, the negotiation and the rollback of the
-- consumer, the hash table, the mutation log, the warm-up, the tasks and their threads, and the storage
-- backends, which read and write files.
mod Base
pub mod BackfillManager
pub mod BloomFilter
pub mod Checkpoint
pub mod CheckpointManager
pub mod Conflict
pub mod Consumer
pub mod ExtMeta
pub mod Failover
pub mod FlowControl
pub mod RingBuffer
pub mod Stream
