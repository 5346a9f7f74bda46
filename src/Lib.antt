-- ===== src/Lib.antt =====
-- SporeDB: a model of the database of a node and of parts of its network, and what is proved of it.
--
-- SporeDB is a distributed database. A client submits a spore, a transaction with operations on keys;
-- the nodes endorse it, each after a look at its own state, and a node applies it when it has seen the
-- number of endorsements that the spore's policy asks for.
--
-- The parts, from the bottom up, and the files that model them:
--
--   Common and its files: lists, byte strings, maps, 64-bit integers, and the results of calls.
--   Encoding/Uint64, Encoding/Set, Encoding/Float: db/encoding, how numbers and sets stand in bytes.
--     `GoSet` is `Set`; its operations have the names of the methods. Encoding/Set/Layout has the
--     specification of a set, a list of distinct elements; Insert, Remove and Unmarshal prove it.
--   Version: db/version, the version of a value, its hash.
--   Operations: db/operations, a value with its cached number or set, and what an operation does to
--     it. `set` and `value_set` are the function `Set` of raw.go and the method `Set` of value.go.
--   Operation: db/operation.go, `check_conflict` and `exec`. Operation/Parallel, Commute and Diverge
--     are about what may run in parallel.
--   Spore: db/spore.go. `spores_conflict` is `Spore.CheckConflict`.
--   Policy: db/policy.go, the part that needs no database.
--   World: db/store.go and the interface of myc/sec/keys.go, and the packages that are only called:
--     big floats, regular expressions, SHA-512, protobuf and the LRU cache. They are the parameter
--     `w : World` of all that follows. Of a store the record `StoreLaws` states what a batch does.
--   BoltDb: db/drivers/boltdb, a store over a bucket of bolt, which is a parameter; `BucketLaws` and
--     `CursorLaws` in BoltDb/Contract say what bolt documents, and the laws of a store follow.
--   Db: the state `DB` of db/db.go, with `NewDB`, `AddPolicy`, `Get` and `HashSpore`.
--   Db/Usage: the methods of `DB` in db/policy.go.
--   Db/Apply: `Apply`. Db/Endorse: `CanEndorse`, `Endorse`, `Submit` and `executeEndorsement`.
--   Db/Collect: `AddEndorsement`. Db/Upkeep: `Start` and `Clean`, and a node as a machine of events,
--     in which Triggers, Emitters and Endorsers say what holds of the collected endorsements at any
--     time; Reuse is about two spores with one identifier. Db/Collect/Replay is about an endorsement
--     without a name.
--   Sec: myc/sec. Sec/Trust: the levels of keys.go. Sec/Keys: ed25519.go, the key ring, its keys and
--     their PEM form; Named is about the names of the keys, Saved and Restored about the form.
--     Sec/Web: `buildTrustWeb`, variable by variable; Measures, Scan, Steady and Loop prove what a
--     signature, a key and the loop do, and Earned says what is built, by chains of keys in which each
--     is trusted by the ones before it. Sec/Ring: the rest of ed25519_trust.go; Fresh and Stale
--     are about the rebuild on demand, Reach about all rings that the operations lead to, Verify about
--     what is accepted, and Filled puts the ring behind the interface of the database.
--   Db/Server: db/server/server.go, what clients ask of a node. Db/Client: db/client, what a user types;
--     Typed puts the two together.
--   Cmd/Policies: cmd/policy.go. Cmd/Keys: cmd/keys.go; Stored says what the file of a key ring holds,
--     Meaning what two of the commands mean, which Removed, Levelled and Changed prove, and Started is
--     about the start of the server.
--   Quorum: policies that the command line makes, at the nodes that use them; Overlap counts endorsers,
--     Decided is about the endorsements of a node, Meet about two nodes.
--   Myc/Recovery: myc/recovery.go, the values that a node takes from its peers; Answer is its
--     answering side, and Catalog is about a full synchronisation. Myc/Nodes: the list of known nodes
--     of myc/membership.go. Myc/Requests: myc/containers.go. Myc/Protocol: the framing of calls in
--     myc/protocol/protocol.go. Myc/Gossip: two handlers of myc/router.go; Myc/Relay: two others, and
--     myc/broadcast.go. Myc/Router: the dispatch of calls and the broadcaster, over the state of the
--     whole node; Spores, Kept and Effects prove what they do to its database. Myc/Rounds: the rounds of
--     myc/membership.go; Blocked is about their mutex. Myc/Hub: the connections of myc/mycelium.go;
--     Bound is about the mutex.
--     Myc/Transport: myc/transport_tcp.go, a connection and the routine that dials it; Lost is about
--     its loss, Paired about the steps of all sides. Myc/Session: myc/protocol/ecdhe.go; Greeting is
--     about its trust, Channel and Handshake are about what its two ends read.
--   Tests and its files: a small world, and runs of the theorems at concrete inputs.
--
-- How Go is rendered. A method returns the state after the call beside its result, which is a
-- value, an error, a panic, or `stuck`, where a loop of the model is out of fuel or a call waits for a
-- lock that is not given back. Four loops are on fuel: that of `Set.UnmarshalBinary` gets one more than
-- the number of bytes, and moves on by eight bytes at least in a round; that of `PutUvarint` gets ten,
-- the bytes that 64 bits take; that of `buildTrustWeb` gets the number of keys, as a key is put into
-- the queue once; that of the key ring's `UnmarshalBinary` gets one more than the number of bytes, as
-- a block has one at least. A `uint64` and an `int` are their 64-bit patterns, with the wrap-around written out. A map is an
-- association list; where Go walks a map in an order of its own, the theorems hold for every list.
-- Time is an argument of the calls: the second that `time.Now` falls into, in recoveries the
-- nanosecond. A call is atomic, so the locks have no part but in Myc/Hub and Myc/Rounds; what a `go`
-- statement starts is put into a list of tasks, any of which may run next, and the ticks of timers are
-- events that may come at any time. Two names that stand for one object are modelled where the code uses it:
-- the trigger that `AddEndorsement` changes is put back into its list.
--
-- Not modelled: logging; the memory that a value shares with a store; the driver for RocksDB, and
-- the opening of files; `ListPublic` of the key ring and the tables that `keys ls` and `keys show`
-- print; the `Close` of the network and what `emitter` writes; the bytes that connections read and
-- write; flags, gRPC and the start of the server.
pub mod Common
pub mod Encoding
pub mod Version
pub mod Operations
pub mod Operation
pub mod Spore
pub mod Policy
pub mod World
pub mod BoltDb
pub mod Db
pub mod Sec
pub mod Myc
pub mod Cmd
pub mod Quorum
pub mod Tests
