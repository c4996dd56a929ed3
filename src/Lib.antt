-- ===== src/Lib.antt =====
-- samod: peer-to-peer synchronisation of Automerge documents (samod-core, samod).
--
-- The hub (samod-core/src/actors/hub) is a state machine without input and output: it is handed
-- events (a message arrived on a connection, a dial failed, time passed, a document actor said
-- something) and answers with actions (send, disconnect, dial, spawn an actor, tell an actor). A
-- connection shakes hands and then carries messages for documents; a dialer makes outgoing
-- connections and retries with backoff. Each document has an actor (samod-core/src/actors/document)
-- that loads it from storage, requests it from peers, synchronises it and saves it.
--
-- Files and the code they model, paths below samod-core/src:
--   Prelude          shared names: Boolean tests, equality of keys, finite maps, results, panics
--   Share            share_config.rs: who may read, write and request a document
--   Network          network/*.rs: identifiers, peer metadata, reports on connections
--   Messages         actors/messages/*.rs, doc_search.rs, the types of network/wire_protocol.rs
--   Wire             network/wire_protocol.rs and document_id.rs: Cbor, what the code uses of the
--                    libraries; Encode and Decode; RoundTrip: their round trip
--   Dialer           actors/hub/dialer.rs: `DialerState` is its record, each method a function
--     Backoff        the delay of a retry; Machine: the transitions; Retries: how many retries
--   Ephemera         ephemera/ephemeral_session.rs: `EphemeralSession` and its two operations
--     Echo, Delivery what the filter lets through
--   Storage          storage_key.rs: keys as lists of components; Keys: prefixes and validity
--   Hub.Results      actors/hub/hub_results.rs: what an event's handling hands back
--   Hub.Connection   actors/hub/connection/*.rs: `Connection`, one function for each method;
--     Receive        `receive_msg`, one function for each phase of the connection
--     Identity, Handshake, Lifecycle: whom it listens to, how it opens, all its messages
--   Hub.Listener, Hub.Searches, Hub.Pending
--                    actors/hub/listener.rs, hub/state/searches.rs, hub/state/pending_commands.rs
--   Hub.State        actors/hub/state.rs: `State` is its record; the operations on connections
--     Subscriptions  `ensure_connections` and `pop_new_connection_info`
--     Dialing        dialers, listeners and their connections (`handle_connection_lost` is
--                    `lose_connection`, `handle_dial_failed` is `handle_dialer_failure`)
--     Documents      `spawn_actor`, `handle_receive`, `handle_doc_message` (`deliver`), `broadcast`
--     Input, Event   the arms of `handle_event` (`handle_input`), and `handle_event` around them
--     Peers, Frame, Registry, Upkeep: what the handlers leave alone
--     Totality, Runs, Reach, Open, Shutdown, Delivery: panics, invariants, reachable states,
--                    closed connections, the stop, where a message goes
--   Hub.Queries      what the embedding program reads of the hub (actors/hub.rs)
--   Document.Io      io/*.rs: tasks of the storage and their results
--   Document.Library what the code uses of automerge: an interface, and its laws
--   Document.Results actors/document/doc_actor_result.rs
--   Document.OnDisk  actors/document/on_disk_state.rs; Runs, Saves, Deletions: its runs, what a
--                    save keeps, which keys are deleted
--   Document.Load    actors/document/load.rs; Complete: a load in either order of its tasks
--   Document.Peer    actors/document/peer_doc_connection.rs; Same, Buffer, Generate: what its
--                    operations keep, the bounds of its buffer, the bound of its loop
--   Document.Request, Document.Phases
--                    actors/document/phase/*.rs; Request.Messages: the messages of a
--                    search; Request.Asking: who is asked
--   Document.Actor   actors/document/document_actor.rs: `DocumentActor` is its record
--     Sync, Step     messages and share policies; `step` and the messages it generates
--     Input          `handle_input` and the entry points, with actor_input.rs
--     Frame, Keep, Upkeep, Access, Disclosure, Process, Silence: what the operations keep
--     Checks, Asking whose sharing is asked about
--     Stop, Panics, Calls: the stop, the panics, the properties of any calls
--   Loader           loader.rs, and the loop `load_hub` around it in samod/src/lib.rs
--     Boot           loading from a lawful storage, once and again
--   Runtime.Storage  samod/src/storage.rs and storage/in_memory.rs, `dispatch_storage_task` of
--                    samod/src/io_loop.rs; Memory: the laws of the storage in memory
--   Runtime.Mailbox  samod/src/doc_runner/threadpool.rs; Fifo: the mailbox as a queue
--   Runtime.Task     samod/src/actor_task.rs
--   Runtime.Policies samod/src/io_loop/share_policy.rs: `Policies` is a map; Calls: the io loop's
--                    calls with what they dispatch; Slots, Current: what the actors were told
--   Runtime.DocActor samod/src/doc_actor_inner.rs, with `IoLoopTask` and the tasks that concern
--                    sharing of samod/src/io_loop.rs; Pairs, Steps, Sends, Landing: from the
--                    actor's calls to the slots of the sharing decisions
--
-- How state and effects are modelled. A method that changes its object takes the record and
-- returns it; the hub's functions take and return a pair of the state and the results gathered so
-- far. A panic (`unwrap`, `expect`, `panic!`) is `none`. A `HashMap` is an association list; its
-- order of iteration, which Rust leaves open, is the list's. An identifier is the number that the
-- source wraps; the process-wide counters behind new identifiers stand in the hub's state and wrap
-- as `u32`. Numbers wrap or saturate where the source's types do. Loops are structural recursion
-- over lists, so no fuel is needed but in three places: the decimal print of a `u32` has ten
-- digits; the loop that generates sync messages for a peer is given two messages, the reset and its
-- correction that the source's comment describes (`Peer.Generate` compares other bounds);
-- `load_hub` is given three turns, which are enough with a lawful storage. A document actor takes
-- the next identifier of a task, from a counter of the process that wraps as `u64`, with each call.
-- The mailbox of an actor is a step relation whose steps are what happens between two turns at its
-- mutex.
--
-- Parameters, for code outside the repository: the libraries that write and read CBOR, bs58 and
-- UUIDs are the interfaces of `Wire.Cbor`, and the hub is handed the outcome of `Wire.Decode` and
-- hands over the message that `Wire.Encode` is given; the random generator gives each event the
-- identifier of a new document and, for each dialer, the map that spreads a delay (a dialer retries
-- at most once in an event), and the loader the identifier that it may store; the sharing policy
-- gives each document and peer the list of its decisions, and a stream that was aborted may still
-- yield; an Automerge document is a type that the hub only passes on, and
-- that the document actor handles through the interface `Document.Library` (documents, their
-- heads, changes, saved bytes and sync states); the hash and the printed form of a document's
-- heads are functions. A URL is a string, and so is the text of a document identifier or a hash in
-- a storage key.
--
-- Not modelled: log output and measured durations; task identifiers of the hub's sends and
-- disconnects, whose completion the hub ignores; events for an observer; the rest of
-- the samod crate, which runs the hub and the actors on threads and futures and owns sockets and
-- files, and its search loop; tests and their harness.
pub mod Prelude
pub mod Network
pub mod Messages
pub mod Wire
pub mod Share
pub mod Ephemera
pub mod Dialer
pub mod Storage
pub mod Hub
pub mod Document
pub mod Loader
pub mod Runtime
