-- ===== src/Lib.antt =====
-- The task engine (the root package), its in-memory store and the relay of its events; and the
-- notification library (notify).
--
-- The engine moves a human task through a fixed lifecycle. A transition (transitions.go) is a pure
-- function from a task, its arguments and the time to the next task and one event, or to an error;
-- assignment.go decides who may act on a task and where a new one goes; registry.go holds the task
-- types and their payload schemas; service.go runs one transition on a stored task inside one
-- transaction of a store (ports.go), with the transition records and the durable events;
-- memstore/memstore.go is the store that keeps everything in memory. The events wait in an outbox
-- (outbox.go, memstore/outbox.go), from which a relay (relay/relay.go) claims them under a lease,
-- offers them to its sinks, and writes down for each what became of it.
--
-- The notification library (notify) is independent of the engine. A publisher gives it drafts about
-- subjects; a service (service.go) validates and stamps them and hands them to a store (store.go),
-- which refuses what stands below the subject's watermark, what an open notification absorbs and what
-- was published before. Closing a subject closes its notifications up to a version, raises the
-- watermark and publishes a successor. The in-memory store (memory.go) keeps two indexes, by source
-- and by subject; a pruner (pruner.go) keeps it within its bounds; a dispatcher of emails leases
-- notifications through memory_email.go.
--
-- Files, each with the source it models:
--   Status          status.go, transition_table.go: states, and the table of legal moves
--   Operation       history.go, event.go: the operations and the event types
--   Errors          errors.go: the error types, what errors.Is matches them with, their texts
--   Task, Event     task.go, correlation.go, escalation_policy.go, history.go, event.go
--   Record          transitions.go: requireFrom, requireActor, requireAssignee, record
--   Transitions     transitions.go: Activate, Fault, Claim, Release, Start, Complete, Fail, Delegate,
--                   Suspend, Resume, Escalate, Obsolete, Cancel
--   Lifecycle       the thirteen transitions as one data type of calls, and runs of calls; its
--                   children prove what holds of every call and of every run
--   Assignment      assignment.go: IsEligible, ResolveCandidates, Assign, Authorize,
--                   AuthorizeDelegate; its children prove the two readings of a pool equal, and
--                   where a new task lands; Fixed is StaticAssignment
--   Store           ports.go: what the engine asks of a store, as a record of operations, and what
--                   it relies on, as a record of laws over what a client sees
--   Registry        registry.go, create.go: Register, Lookup, the validations, NewTask
--   Service         service.go, patch.go: mutate, persistOutcome, stamp, finish, deliver; in
--                   Operations every operation that runs through them; in Refinement the
--                   specification of mutate as one atomic step; Atomic and Concurrency prove it
--   Memstore        memstore/memstore.go and the Append part of memstore/outbox.go; Laws proves that
--                   it keeps what Store asks
--   Query           query.go, and of service.go resolve, Count and CountBuckets, with the filters of
--                   memstore/memstore.go
--   Query/Paging    Query of memstore/memstore.go and of service.go: orderings, pages and cursors;
--                   Pages is about one page, Collecting about all pages of a query
--   Sweep           sweep.go: exemption and ClaimOverdue, with the claim of memstore/memstore.go
--   Outbox          outbox.go, memstore/outbox.go: the delivery state of recorded events, claims and
--                   settlements; Claims is about claims one after the other, Settled about what is
--                   found after a scope
--   Sink            relay/sink.go, and the fan-out of relay/relay.go to the sinks
--   Relay           relay/relay.go, relayport.go: a pass of the relay; its children are
--                   about the fan-out, the verdicts, runs of attempts on one event, and the pass as a
--                   whole over the in-memory store
--   Notify          notify/notification.go, notify/errors.go: notifications, drafts and errors
--   Notify/Port     notify/store.go: requests, results, successors
--   Notify/Memory   notify/memory.go: the store and Insert; its children: Indexes, Advances, Updates,
--                   Inserting, Runs and Calls are about the indexes and the history of a notification
--                   under every operation, Redelivery about publishing again, Closed and Suppression
--                   about Close (with Floors, its marks), Unread about marking, the others about
--                   Prune
--   Notify/Closing, Marking, Listing, Pruning
--                   notify/memory.go and notify/store.go: Close; Get, CountActive, MarkRead and
--                   MarkAllRead; List with its cursors; Prune
--   Notify/Publishing, Retaining
--                   notify/service.go and notify/authorize.go, Accounts about a publish as a
--                   whole; notify/pruner.go
--   Notify/Email, Mailing, Leases
--                   notify/memory_email.go and values of notify/email.go; Leases and its children are
--                   about claims one after the other
--   Notify/Dispatching
--                   notify/email_dispatcher.go: the options of the email dispatcher
--   Scenarios       sample data, tests and worked instances of the theorems
--
-- How the source is read. A time is the number of nanoseconds since Go's zero time and is cut to
-- microseconds where the source does it. A version is a 64-bit signed integer that wraps around. A
-- payload is its text. A Go string that may be anything but is compared with constants (a status,
-- an operation) is a data type of these constants and the empty string. A map from names to tasks
-- is an association list, a map that is only read at keys is a function, and a set of actors is a
-- list without repetition. Go's copies (Clone) are the value itself, since the model has no
-- aliasing. The context's transaction is part of the store's state, and the mutex that serialises
-- transactions is the reason why one is open at most. A panic is not modelled. The relay's
-- back-off is computed by the source in float64, which is exact below 2^53 ns, and here in the
-- numbers. No definition of the code needs fuel: every loop of it is structural. A client's walk
-- through the pages of a query takes the number of pages as fuel, and one more than the matching
-- tasks is enough.
--
-- What is a parameter. The host's directory (GroupResolver), its assignment strategy, the clock,
-- the identifier generators, the event handlers, the JSON patch library and the JSON schema
-- compiler with the relaxed schemas derived for it (schema.go), and the formatting verbs of fmt,
-- the relay's sinks and its jitter, the JSON and base64 text of a cursor, json.Valid and
-- the SHA-256 digest in a cursor of notifications. Each is a field of the
-- environment or an argument, with no assumption but the one that a theorem names.
--
-- What is not modelled: the sweep's loop over its batch, the reads of the history, the relay's
-- construction and its timer loop, schema.go and schemagen.go, typed kinds (kind.go), the SQL
-- stores, the transports and the delivery adapters; of notify the passes of the email dispatcher,
-- the hub and the broadcasters, the HTTP handlers, and the construction options of the service, most
-- of them I/O over third-party libraries.
pub mod Prelude
pub mod Status
pub mod Operation
pub mod Errors
pub mod Task
pub mod Event
pub mod Record
pub mod Transitions
pub mod Lifecycle
pub mod Assignment
pub mod Store
pub mod Registry
pub mod Service
pub mod Memstore
pub mod Notify
pub mod Query
pub mod Sweep
pub mod Outbox
pub mod Sink
pub mod Relay
mod Scenarios
