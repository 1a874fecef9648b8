-- ===== src/Lib.antt =====
-- A verification library for pgnats, a Postgres extension that connects a database to NATS.
--
-- The extension has a launcher (src/bgw/launcher), a background worker that keeps one subscriber
-- worker (src/bgw/subscriber) for each database. Backends and workers send messages to the
-- launcher over a ring queue in shared memory (src/bgw/ring_queue.rs); the launcher sends
-- messages to a worker over a queue of Postgres. A worker subscribes to NATS subjects and calls
-- functions of its database for the messages that arrive. The settings come from the options of a
-- foreign server (src/config.rs).
--
-- - Common, Text: lists, tests, maps, results and texts, as the program uses those of Rust. A
--   byte is a number, a text a list of code points, a `HashMap` an association list and a
--   `HashSet` a list, so that an iteration has one order where Rust leaves it open. Outcome tells
--   a panic from a return.
-- - RingQueue: src/bgw/ring_queue.rs. The record RingQueue has the fields read, write, is_full
--   and buffer of the struct; new, try_send and try_recv are its methods, and the two branches of
--   each method are definitions of their own. The capacity is an argument. Sums and differences
--   of `usize` wrap as in the release profile, and an access out of range panics. Invariant says
--   which messages a queue holds; Send, Refuse and Recv are about the methods, Faults about a
--   queue that is exactly full, and Fifo about sequences of calls.
-- - Config: src/config.rs and src/constants.rs. What Postgres answers for the foreign server is
--   an argument of fetch_config. Servers is the trigger of src/bgw/fdw.rs that allows one foreign
--   server, with fetch_fdw_server_name.
-- - Connect: the options that initialize_connection of src/nats_client.rs and connect_nats of
--   src/bgw/subscriber/nats.rs set for a connection. Builder is the interface to ConnectOptions
--   of async-nats. A path is a text, joined as on Unix.
-- - Utils: src/utils.rs. Handles is pack_oid_dsmh_to_i64 and unpack_i64_to_oid_dsmh, and Bytes is
--   ToBytes and FromBytes, over the UTF-8 of Text/Utf8; Bytes/Exact says which bytes they accept.
-- - Log: src/log.rs.
-- - Messages: src/bgw/launcher/message.rs and src/bgw/subscriber/message.rs.
-- - ShmMq: src/bgw/pgrx_wrappers. ShmApi is the interface to the segments and the message queue
--   of Postgres, and Fifo says what Postgres promises of the queue. Reader is the loop of the
--   worker over its queue, on fuel: one more than the number of messages is enough, as Exchange
--   proves.
-- - Launcher: src/bgw/launcher. Postgres is the interface to pgrx and postcard, whose calls pass
--   a state World on. Worker is worker_entry.rs, Context is context.rs, and Bus is mod.rs. The
--   loop over the bus runs on fuel: one more than the number of messages is enough, as Drain
--   proves. The main loop is given the changes that others make to the bus before each wake-up;
--   the signal to stop is the end of that list. Databases is pg_api.rs, over the rows of
--   pg_database, and Argument is about what a worker is started with. Phases and Invariant read
--   the two maps of workers as a state machine of each database, and Unique and Shutdown are
--   about the main loop.
-- - Subscriber: src/bgw/subscriber. Runtime is the interface to tokio and async-nats, with the
--   laws that a spawned task is new and lives until it is aborted. Nats is nats.rs, and Context
--   is context.rs with the handlers of mod.rs; the record Database in it is the interface to the
--   tables and functions of the database. Relation reads the subscriptions as a relation, Tasks
--   and Ownership say which tasks live, and Invariant is about the state of the worker. Main is
--   the start, the main loop and the end of the worker in mod.rs: what it finds at each wake-up
--   is a list, whose end is the signal to stop; messages of its tasks stand before and behind
--   those that a round itself sends. Lifetime and Exit are about whole runs, Restore about the
--   promotion of a replica, Lost about one that fails, and Orphan about functions that are gone.
--   Refinement compares the handling of internal messages with an abstract worker. Table is the
--   table of src/bgw/mod.rs, with the statements of pg_api.rs on it and the trigger for dropped
--   functions; Stored and Durable compare the subscriptions of a worker with its rows. Arrival
--   follows a subscription from the launcher to the worker, and Restart follows one from a worker
--   to the next. PgApi is pg_api.rs, over the ways in which a statement can end.
-- - NatsClient: src/nats_client.rs, and extract_headers of src/utils.rs. Nats is the interface to
--   async-nats, with the laws that a client keeps the options and the address that it was
--   connected with, and a bucket works over the context that it was opened with. An `expect` that
--   does not hold is a panic, and so is a capacity above `isize::MAX`; that the memory runs out
--   is not modelled. Invariant says how the parts of the state fit together, Safety and Files are
--   about panics.
-- - Api: src/bgw/fdw.rs, nats_subscribe and nats_unsubscribe of src/api/nats.rs, and
--   resolve_bytea_name of src/utils.rs. Accepted says which functions resolve_bytea_name accepts,
--   and Uncallable compares it with the worker's check of a name. What the system catalog says of
--   a function is the record FunctionInfo. The loop of the retry in Launcher/Bus.antt counts the
--   tries that are left; what other processes do to the bus between two tries is a function of
--   the number of the rest.
-- - Api/Client: the other functions of src/api/nats.rs, as src/api/macros.rs makes them, the
--   reloads of src/api/mod.rs, src/api/conv.rs (Api/Rows), src/ctx.rs and the end of the process
--   in src/init.rs. A function that a macro makes for several types is one definition over the
--   type Payload. Calls has a constructor for each function and runs a sequence of calls over the
--   one client of a backend, Sessions is about such sequences, and Buckets about a value that is
--   put and got.
-- - Notification: src/bgw/notification.rs.
--
-- Results that the code only logs are dropped, and so are the calls of the macros of src/log.rs.
-- The text of an error stands where the code sends it on, cut down to its fixed part. Code that
-- is compiled for tests only (the features `test` and `pg_test`) is left out. Not modelled: the
-- registration with Postgres, and src/bgw/run.rs, which no module declares.
pub mod Common
pub mod Text
pub mod Log
pub mod Config
pub mod Connect
pub mod Utils
pub mod Messages
pub mod RingQueue
pub mod Launcher
pub mod ShmMq
pub mod Subscriber
pub mod NatsClient
pub mod Api
pub mod Notification
