-- ===== src/Lib.antt =====
-- A verification library for Chatty: a broker for character roleplay, the wire protocol that it
-- shares with its clients, and the chatty-metal inference appliance.
--
-- Parts, and the files that model them:
--
--   Common     numbers, bytes, lists and Boolean tests that the parts share.
--   Workload   crates/chatty-broker/src/workload.rs, the gate that lets one kind of model into the
--              host memory at a time, and its users text_workload and image_workload of
--              crates/chatty-broker/src/adapters.rs. A locked section is one operation on the
--              state: admit is one round of the loop of WorkloadGate::admit, switched is
--              WorkloadGate::switched, drop_guard and drop_waiting are the two Drop
--              implementations. Tasks stands the tasks beside the gate and lets them take steps in
--              any order: a task asks, is woken at any time, unloads the other kind when it has to,
--              which may fail, runs, ends, and may be cancelled at every point where it awaits. The
--              memory of the host is kept beside the gate. Notifications are not modelled: when a
--              waiter takes its next round is left open.
--   Frame      crates/chatty-protocol/src/frame.rs and the errors of error.rs. write_payload and
--              read_frame are the plain functions; Codec models ProtocolCodec, which fills a buffer
--              from a stream that hands over its bytes in chunks of any size. A stream is the list
--              of bytes that are still to come, a writer the list of those it has taken.
--   Base64     crates/chatty-protocol/src/util/base64.rs, with the accumulator of the decoder in 32
--              bits.
--   Plan       Plan::new and kv_bytes of crates/chatty-metal/src/plan.rs, with the wrap-around of
--              u64, over the part of Catalog (catalog.rs) that they read.
--   Routing    crates/chatty-metal/src/routing.rs: the trace of expert uses, its counts, and its
--              replay through two LRU tiers. A hash map is an association list with one entry for
--              each key.
--   Residency  crates/chatty-metal/src/residency.rs. Slots is the bookkeeping of one memory (VRAM or
--              RAM), Residency.antt the operations of the engine, Steps the two workers and the
--              interleaving: jobs may be done, fail and come back in any order, and a worker may be
--              half-way through a slot. The vectors are functions of the expert or the slot; what
--              the bytes of a slot are is kept beside them as the expert that they belong to.
--   Images     the encryption of images for the database in crates/chatty-broker/src/utils.rs.
--   Character  validate_character and validate_credentials of the same file.
--   Prompt     the prompt budget of crates/chatty-broker/src/systems/inference.rs. A text is the list
--              of its code points, measured in UTF-8 bytes.
--   Tokenizer  crates/chatty-metal/src/tokenizer.rs: parsing, encoding and decoding, with the byte
--              alphabet, the merging loop and the splits, and the compressed token map. A text is its
--              UTF-8 bytes.
--   Engram     EngramCache of crates/chatty-metal/src/store.rs: the 8-way clock cache of n-gram rows.
--              The two bytes of a clock are the reference bits of the ways and the hand, the output of
--              a batch is the list of its rows.
--   Generation the worker of the appliance, generate of crates/chatty-metal/src/server.rs, over the
--              tokenizer, with the check of a request in crates/chatty-metal-protocol/src/lib.rs.
--   Session    the connections of the appliance, handle_protocol and handle_generate of server.rs, with
--              the messages of crates/chatty-metal-protocol/src/lib.rs.
--   Client     the broker's end of them, crates/chatty-broker/src/adapters/metal.rs: complete, stream,
--              models and status. EndToEnd puts the two ends together.
--   Catalog    crates/chatty-metal/src/catalog.rs: the index of the weights that the headers of the
--              shards give. Names reads the names of tensors, Placing is extent, place and the loop over
--              a header, Catalog.antt is shard, finish, open and expert.
--   Reservation  reserve_model_operation and ModelOperationGuard of
--              crates/chatty-broker/src/adapters.rs, each locked section a step.
--
-- How they interact: the broker and its clients speak Frame over TLS, and carry images in Base64.
-- The broker passes every generation through the Workload gate. The appliance reads its model with
-- Catalog and lays its memory out with Plan; the slots of the plan are those that experts move
-- through, and Routing predicts how often they are found there. Client asks Session, which hands
-- the request to Generation, and reads the events of Generation as frames. Generation encodes what
-- the broker sends with Tokenizer, and sends its tokens back.
--
-- Bounds and fuel: integers are natural numbers, with the wrap-around of Plan and Base64 and the
-- casts of Routing written out; the other counters (ticks, holders, waiting tasks) are taken not to
-- overflow. Loops are recursion on their list; the loop that fills the buffer of the codec has as
-- fuel the bytes that it still wants, each round brings one at least or ends it; the merging loop of
-- Tokenizer has the bytes of the piece, each round takes one symbol away at least; the
-- clock of Engram has nine rounds, each before the last clears one of eight bits; the loop of
-- Generation has the tokens that are asked for, each round counts one and the code stops at that
-- number.
--
-- Parameters: Zstandard is a record of its four operations, with the laws that its documentation
-- gives of the output of the two encoders: the streaming decoder gives back what was encoded, cut off
-- at the limit of the reader; the bulk decoder gives it back when it fits into the buffer, and fails
-- when it does not. Of other inputs nothing is assumed. The cipher of Images, its random bytes and the encoding by bincode
-- are parameters that give back what they were given. The sizes of a PNG and the trimming of a
-- label are parameters of Character, the trimming of a model's name and its control characters of
-- Reservation. The matches of a regular expression, which do not overlap, and
-- String::from_utf8_lossy, which keeps UTF-8, are parameters of Tokenizer, with the tables of
-- Unicode; the bytes of a row on the drive and the reads that fail are parameters of Engram; the
-- model, its sampling, the check of UTF-8, the flag of cancellation and the sends that are taken
-- are parameters of Generation. What is read of the JSON of a header is data of Catalog. The
-- encoding of the messages of the appliance is a parameter of Session and Client that gives back
-- what it was given; the other end of a connection is a function of the frames that it was sent.
-- Writes to a socket do not fail.
--
-- Not modelled: floating-point code (inference kernels, the shares of RouteTrace::summary), the GPU
-- driver, SQL, HTTP, TLS and processes, the desktop client, and the message types that bincode
-- encodes. Of residency.rs, load_now and preload are their calls and receives as single steps, for
-- experts that are neither busy nor resident; arenas, tensor offsets and hottest are left out; of
-- catalog.rs read_json; of store.rs all but EngramCache, of server.rs HTTP, the threads and the
-- counters of the status board. Timeouts are left out of Client, the text of an error is its code,
-- and the frames between Client and Session are whole, not their bytes.
pub mod Common
pub mod Workload
pub mod Frame
pub mod Base64
pub mod Plan
pub mod Routing
pub mod Residency
pub mod Images
pub mod Character
pub mod Prompt
pub mod Tokenizer
pub mod Engram
pub mod Generation
pub mod Session
pub mod Client
pub mod Catalog
pub mod Reservation
