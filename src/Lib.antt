-- ===== src/Lib.antt =====
-- The event store library of src/logicblocks/event, modelled and proved correct: its in-memory
-- storage adapter, the scoped stores and write conditions over it, parts of its event processing,
-- and its builder of SQL queries.
--
-- The program keeps events in an append-only log that is partitioned into categories and streams.
-- A client publishes events to a stream, or atomically to several streams of a category, under
-- write conditions; it reads the log, a category or a stream, whole or from a sequence number on.
-- Processing shares the sources of events among subscribers on several nodes.
--
-- Files and the code they model (paths from the repository's root):
--
-- Types.Json, Types.Conversion, Types.Event, Types.Identifier: src/logicblocks/event/types. JSON
-- values (numbers are the integers), the serialisation of names and payloads, new and stored
-- events, identifiers of event sources. An object of the application is what its `serialise`
-- answers to the two fallbacks of the library.
-- Sources: src/logicblocks/event/sources/constraints.py, with the check that
-- store/adapters/memory/converters.py makes of a constraint.
-- Sources.Memory: src/logicblocks/event/sources/memory.py, constrained.py and base.py.
-- Store.Conditions, Store.Enforcers: src/logicblocks/event/store/conditions.py and the enforcers
-- of store/adapters/memory/converters.py. `frozenset` is a parameter that keeps the members of a
-- list; which order it gives is not assumed.
-- Store.Db, Store.Texts: src/logicblocks/event/store/adapters/memory/db.py, with Python's order on
-- texts for `sorted`.
-- Store.Adapter: src/logicblocks/event/store/adapters/memory/adapter.py. A method takes the
-- adapter and returns its result, or the exception, beside the adapter it leaves. `uuid4().hex` is
-- a parameter: the identifier drawn for a sequence number. The calls run one after the other, as
-- they do under one lock; interleavings are not modelled.
-- Store.EventStream, Store.EventCategory, Store.EventLog, Store.EventStore: the classes of
-- src/logicblocks/event/store/store.py over that adapter.
-- Store.Transactions: src/logicblocks/event/store/transactions.py, over any state and handler.
-- Processing.Status: src/logicblocks/event/processing/process.
-- Processing.Subscriptions, Processing.Subscribers: the in-memory state stores of
-- src/logicblocks/event/processing/broker/strategies/distributed.
-- Processing.Coordinator: `chunk` and `distribute` of coordinator.py there, which applies its
-- changes to the first of those stores. `set` is a parameter; a dictionary that is only asked for
-- its keys is the list of them.
-- Processing.Consumers: src/logicblocks/event/processing/consumers/state: the state store, over a
-- category of the adapter, and its converter for stored events. Processing.Consumers.Consuming:
-- consumers/source.py, a consumer with a callback processor; a generator's steps stand in the
-- order in which they run.
-- Processing.ErrorHandling: src/logicblocks/event/processing/services/error.py. A class of
-- exceptions is its name, and an exception has the list of its classes; callbacks, factories and
-- the work of a service are functions on any state, which may raise. The loop runs on fuel, a
-- number of turns.
-- Persistence.Sql, Persistence.Queries: src/logicblocks/event/persistence/postgres/query.py. A
-- statement is the list of its parts, in which a placeholder is marked with the value that the
-- code means it for; the text of a `Raw` is the application's, and is taken to have no
-- placeholder.
-- Processing.Locks: src/logicblocks/event/processing/locks/memory.py, as a state machine whose
-- steps run from one `await` to the next. A wait may time out whenever it waits; cancellation and
-- the order in which waiters are woken are not modelled.
-- Projecting: src/logicblocks/event/projection/projector.py. What a subclass supplies are fields
-- of the projector, `getattr(self, name, None)` among them; `to_snake_case` is a parameter. A
-- state or metadata is an option, with `none` for `None`.
-- Persistence.Paging: the paging clauses of src/logicblocks/event/query/clauses.py and their
-- converters in persistence/memory/converters/clause.py there. Counts of items and page numbers
-- are natural numbers.
-- Processing.Difference:
-- src/logicblocks/event/processing/broker/strategies/distributed/difference.py.
-- Prelude: shared types, Boolean tests, lists, dictionaries and their lemmas. Examples: runs on
-- small inputs.
--
-- How the proofs go: Store.Db.Represents says that the database holds a log, its indices listing
-- the log's parts; Store.Adapter.Specification says what a save is to do to the log;
-- Store.Adapter.Refinement and Store.Adapter.Category show that the adapter does it, and the rest
-- reads off that.
--
-- Positions and sequence numbers are unbounded, as Python's integers are: positions are integers,
-- since a stream with no event has position -1, and sequence numbers are natural numbers. Times
-- are natural numbers. Loops are structural recursion, but for two. The loop of a service that
-- handles its errors runs as long as its handler says so: it is given a number of turns, which is
-- enough under a measure that falls with every failure that its mappings retry. The loop of
-- `purge` goes through a list while it changes it: it is given as many turns as the list has
-- items, and each turn moves one index on, so that it ends at the end of the list.
--
-- Not modelled: the adapters, converters and stores over PostgreSQL, which send statements to a
-- server; asyncio, the locks over PostgreSQL, the manager of services and polling; projection
-- stores; the filters, orders and functions of in-memory queries; the consumer of a subscription
-- and the processors that take an iterator; the coordinator's own loop and the observer; logging,
-- but for what can raise before a save; test support.
pub mod Prelude
pub mod Types
pub mod Sources
pub mod Store
pub mod Processing
pub mod Persistence
pub mod Projecting
pub mod Examples
