-- ===== src/Lib.antt =====
-- Two Go programs. The first is the replicated key-value store of matrixone/distributed/consensus:
-- its storage engines, the storage that the raft library reads its log from, and the peer that
-- applies what raft commits. The second is the query engine of matrixone/execution/homework:
-- columns, expressions and projections. Paths below are relative to
-- matrixone/distributed/consensus/pkg, and for Query to matrixone/execution/homework/pkg.
--
-- The parts and how they interact. A peer (store/raftstore/peer.go) drives the raft library. For
-- each Ready of raft it saves the new log entries, states and snapshot through its peer storage
-- (peer_storage.go), then applies the committed entries: a put or a delete goes to the database
-- of user data, a compaction moves the start of the log. The peer storage keeps the log and three
-- state records under the keys of store/raftstore/meta in a second database. Both databases are
-- the engines of store/storage. Raft reads the log back through `Entries` and `Term`.
--
-- Raft's messages go from peer to peer through the router, over one connection per address. A store
-- is behind an HTTP server (api) with one path; the client (client) turns Set, Get and Delete into
-- requests for it, with JSON (model) in the bodies and the key of Get and Delete in the URL.
--
-- In the query engine a relation holds columns in segments. An operator is a relation, whose one
-- segment it reads, or a projection over an operator, which asks the operator below for the
-- attributes of its expressions and evaluates them on the table that it gets.
--
-- The files:
--   Prelude: numbers, lists, texts, little-endian bytes, and the outcome of a Go call (it returns, panics
--     or, for a loop modelled on fuel, runs out of it).
--   Vendor: the interfaces of third-party code. Pebble is a record of operations on an abstract
--     database, with the behaviour that its documentation promises as the hypothesis `IsReliable`
--     (no I/O errors); protobuf messages are codecs, with `IsLossless` for the round trip. Reference
--     is a list that meets the first, Examples/Codecs codecs that meet the second.
--   Storage: store/storage. Pair is pair.go (`Encode`, `Decode`), Modify is modify.go, Engines is
--     storage.go and engines.go, Files what these do with directories.
--   Messages: the structures of raftpb and of store/raftstore/raftstorepb.
--   Meta: store/raftstore/meta, Key is key.go and Value is value.go.
--   PeerStorage: store/raftstore/peer_storage.go. State is the struct, `newPeerStorage` and the
--     writes of metadata; Log is `Entries`, `Term` and `checkRange`; Append is `truncateAndAppend`;
--     Snapshots is `Snapshot`, `SchedSnapGen` and `applySnapshot`; Ready is `saveReadyState`. The
--     abstract log that these implement is Log/Spec: an offset with its term, and consecutive
--     entries.
--   Peer: store/raftstore/peer.go. Commands is internal/message.go, State the struct and the state
--     that `newPeer` makes, Apply is `process` with what it calls and the loop of `handleReady` over
--     the committed entries, Compaction is `tickLogGC`, `onLogGCTask`, `propose` and `gcRaftLog`.
--     Reading is the read path: `linearizableRead`, `handleReadState`, `readApplied`, Reading/Callback
--     internal/callback.go. Ready is
--     `handleReady` as a whole, Ready/Loop the loop of `onTick` as a step relation, Ready/Serving and
--     Ready/Fresh the read path beside it. Start is `newPeer`, on a first start and again.
--   Transport: Client is store/raftstore/raft_conn/raft_client.go, Router is router.go,
--     raft_conn/raft_server.go, and the address map and `handleRaftMsgs` of peer.go.
--   Store: store. Memory is store_memory.go, Raft is store/raftstore/raftstore.go.
--   Api: Model is model, Store is the interface and `NewStore` of store/store.go, Server is api and
--     the structures of cfg, Client is client. Base64 and Url are what these use of Go's
--     encoding/base64 and net/url.
--   Process: cmd/server/main.go, with the end of cfg/cfg.go's `MustParseCfg`.
--   Logger: logger/logger.go; Global is the logger of the process and the package's functions.
--   Query: Util is vm/util, Types is vm/types, Value is vm/value, Columns is vm/values/static and
--     storage/attribute (Columns/Memory: `Show` and `Read`), Overload is vm/extend/overload, Extend
--     is vm/extend, Relation is storage/relation.go, storage/metadata and vm/op/block/relation,
--     Projection is vm/op/origin/projection, Print the texts of values and expressions. Reply is the
--     result of a call there: a value, an error or a panic.
--   Examples: instances at concrete inputs, and tests.
--
-- Numbers of type int64 are their 64 bits; float64 is a type with Go's operations as a parameter, of
-- which `IsIeee` says what IEEE 754 says of its comparisons. A Go map is a list in the order in
-- which Go ranges over it. The values of an interface are a data type of those that satisfy it.
--
-- State is passed explicitly. A Go error is a value of `Error`, a panic an `Outcome`; an error that
-- the code drops is dropped in the model. Numbers of type uint64 wrap where the code adds to them.
-- A goroutine is a step of a relation: a pending run of `gcRaftLog` is a range in `gc_tasks`, and
-- the steps of Compaction/Garbage take them in any order. A channel with a buffer of one is a
-- number with a buffer.
--
-- gRPC, fasthttp's `Do` and encoding/json are parameters as well: gRPC and `Do` are functions on an
-- unknown world. Of gRPC nothing is assumed: `watched` writes down the calls of `Send` on its streams,
-- and what a stream delivers of them is an argument. `IsDelivered` says that a request reaches the
-- engine of the server with its query as it stands in the URI, `IsLosslessJson` that ASCII texts are
-- read back as they were written. A store is a record of its methods on an unknown state; `IsMap` says
-- that it never fails and is a map, which the memory store meets. Examples/Api has functions that meet
-- these hypotheses.
--
-- What runs at the same time: `process` is two halves, between which reads, a stop and other goroutines
-- may come (Apply/Crash, Apply/Halves, Ready/Serving). In Ready/Loop a Ready is handled at once. The
-- save of a Ready is one step everywhere, a snapshot's data included. The goroutine of `SchedSnapGen`
-- is one step too: it reads the applied index and the data at one time, where the code reads them one
-- after the other beside the loop that applies entries. `Decode` is given a slice whose capacity is its
-- length.
--
-- Fuel: `Decode` has the number of its bytes, each round takes eight or more; the loop over the
-- deleted indices of `truncateAndAppend` has one round per index. Both are shown to be enough.
--
-- Where a result on the store speaks of reads after writes or of a restart, the database is reliable
-- (`IsReliable`) and the message codecs are lossless (`IsLosslessProto`).
--
-- Not modelled: the raft library and the other packages of vendor; marshalling by the generated
-- message code; starting the goroutines of a peer and its gRPC server; reading the configuration
-- file; the time and place that package log puts before a line; in the query engine the parsing of
-- values and the text of a projection.
pub mod Api
pub mod Examples
pub mod Logger
pub mod Messages
pub mod Meta
pub mod Peer
pub mod PeerStorage
pub mod Prelude
pub mod Process
pub mod Query
pub mod Storage
pub mod Store
pub mod Transport
pub mod Vendor
