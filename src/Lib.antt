-- ===== src/Lib.antt =====
-- Verification of drand, the distributed randomness beacon.
--
-- A group of drand nodes holds shares of one BLS key. At every round each node signs the round and the
-- previous signature with its share, and broadcasts the partial signature; a node that has a threshold
-- of partials recovers the group's signature, which is the next beacon. The beacons form a chain, each
-- over the signature of the one before. A node that fell behind follows the chain of another node.
--
-- How the parts interact. chain/time.go ties rounds to the clock. The handler of chain/beacon passes the
-- partial signatures that it receives to the aggregator (chain.go), which collects them in the partial
-- cache (cache.go), recovers and verifies a signature, and puts the beacon in the callback store, which
-- puts it in the append store (both in store.go), which puts it in the database (chain/boltdb). The syncer
-- (sync.go) puts the verified beacons of other nodes in the same store. The handler (node.go) broadcasts
-- a partial at each tick of the ticker (ticker.go). Before the first round the leader collects the nodes' keys
-- (core/group_setup.go), pushes the group made of them (core/drand_control.go) in the packet of
-- key/group.go, and the nodes generate the shares over a broadcast (core/broadcast.go). A client
-- (client/verify.go) verifies what a server returns, joining it to a round that it trusts; others rank
-- several clients by speed (client/optimizing.go), cache results (client/cache.go) and share one watch
-- (client/aggregator.go). The public server (http/server.go) answers with the results of a client.
--
-- The files, each with the code that it is about:
--   Chain/Time          chain/time.go: rounds and times; theorems in Chain/Time/Rounds
--   Chain/Block         chain/beacon.go and GenesisBeacon of chain/store.go
--   Chain/Encoding      RoundToBytes of chain/store.go
--   Chain/Crypto        the libraries called for hashes and threshold signatures: a parameter
--   Store               the interface Store of chain/store.go, with what it promises
--   Boltdb              chain/boltdb/store.go; Boltdb/Laws, with Boltdb/Entries, fills the interface
--                       Store, Boltdb/Ordered that of a store with the greatest round last
--   Beacon/Cache        chain/beacon/cache.go; Cache/Validity and Cache/Eviction
--   Chain/Info          chain/info.go, chain/convert.go, and chainInfoFromPeers of core/drand_control.go;
--                       Info/Order
--   Beacon/Append       chain/beacon/store.go: append store and callback store; Append/Linked for chains
--                       without gaps, Append/Verified for chains of verified signatures, Append/Log for
--                       the store as a log that is only appended to
--   Beacon/Aggregator   runAggregator, tryAppend and shouldSync of chain/beacon/chain.go, and the keys of
--                       chain/beacon/crypto.go; Aggregator/Soundness
--   Beacon/Sync         Follow and tryNode of chain/beacon/sync.go, with Sync/Follow; SyncChain, the server
--                       side, in Sync/Server, with Server/Sent
--   Beacon/Ticker       chain/beacon/ticker.go; Ticker/Delivery
--   Beacon/Handler      chain/beacon/node.go; Handler/Partials, over Handler/Steps, for what it lets through and sends,
--                       Handler/Rounds for the clock and the move to a new group
--   Beacon/Start        NewHandler of chain/beacon/node.go, with newChainStore and newCryptoStore; Start/Sound for
--                       the database, Start/Runs for the steps from there on, and Start/Started
--   Client/Verify       client/verify.go; Verify/Trust and Verify/Strict
--   Client/Cache        client/cache.go; Cache/Answers
--   Core/Broadcast      core/broadcast.go; Broadcast/Once
--   Client/Optimizing   client/optimizing.go: the ranking, Get and the watched results; Optimizing/Ranking
--                       and Optimizing/Results
--   Client/Watching     client/optimizing.go: the places for watches; Watching/Slots with Watching/Counting
--   Client/Aggregator   client/aggregator.go; Aggregator/Distribution
--   Client/Config       client/client.go and client/http/http.go: options and the clients they make;
--                       Config/Trust for the root of trust
--   Client/Sources      client/grpc/client.go, client/poll.go and client/empty.go; Sources/Polling
--   Gossip              lp2p/client and lp2p/relaynode.go; Gossip/Accepted
--   Core/Setup          core/group_setup.go: the leader of a setup or a resharing, with Setup/Keys and
--                       Setup/Begun, and the node that waits for the group, Setup/Receiver with Receiver/Accepts
--   Core/Push           pushDKGInfo of core/drand_control.go; Push/Counts
--   Core/Daemon         the state of core/drand.go and the steps of core/drand_control.go; the checks of
--                       groups in Daemon/Reshare, with Reshare/Accepted
--   Core/Calls          InitDKG of core/drand_control.go from its guard to its answer, and InitReshare
--                       in Calls/Reshare; Calls/Agreement with Calls/Finished for the leader and a
--                       joining node, Calls/Atomic with Calls/Unchanged and Calls/Led for calls that
--                       give no group
--   Core/Commands       core/drand.go and core/drand_control.go: loading, the beacon's start, and calls that
--                       read files; Commands/Restored, and Commands/Complete with Commands/Steps
--                       for the calls as steps
--   Core/FollowChain    StartFollowChain of core/drand_control.go; FollowChain/Verified and FollowChain/Asked
--   Core/Public         core/drand_public.go
--   Core/Convert        core/convert.go; Convert/RoundTrip
--   Key/Suite           what the package key takes from libraries: a parameter
--   Key/Identity        key/keys.go and key/encoding.go
--   Key/Node, Key/Group key/node.go and key/group.go; Group/Order for the order of the nodes, and
--                       Group/Numbered
--   Key/Wire            the packets of identities, nodes and groups; Wire/RoundTrip
--   Key/Toml            their TOML structures; Toml/RoundTrip
--   Key/Store           key/store.go
--   Http                http/server.go; Http/Waiters
--   Entropy             entropy/entropy.go
--   Prelude             shared names; lists, words, integers, byte strings, results, Go maps, sorting
--   Tests               concrete instances of the parameters, and the theorems applied to them
--
-- State. A Go struct is a record with the source's fields; its methods are functions from a state to a
-- state. A map is an association list. Pointers to round caches are reached through one key of a map, so
-- that writing under the key is writing through the pointer. A Boolean says whether the old group of a
-- resharing is the daemon's own, whose nodes Hash then puts in order. A mutex makes each method one step; a
-- goroutine's loop is a function for each case of its `select`, and the theorems hold for every order
-- of the cases. A uint64 is a natural number with `% 2 ^ 64` where the code wraps; an int64 is an
-- integer, wrapped by `to_int64`. A `time.Duration` counts nanoseconds.
--
-- Bounds. The theorems on the rounds of times take periods of whole seconds and times below 2 ^ 53
-- seconds. The floors of float64 quotients are written as floors of exact quotients, which they equal
-- for times below 2 ^ 53, and may differ from beyond. No definition needs fuel: every loop runs over a
-- list or a number of rounds. A stream of beacons is the list of what it delivers before it closes.
--
-- Parameters. The kyber scheme (sign, verify, recover, index of a partial) and SHA-256 are the record
-- Crypto; bbolt is the record Bucket, whose laws are those of a sorted map of byte strings; the JSON
-- encoding of a beacon is the record Json, whose law is the round trip. The cache of golang-lru
-- is the record Cache; bundles of the key generation are a type with the tests that the code calls. Keys,
-- BLAKE2b, hexadecimal strings, durations as text and net's addresses are the record Suite, whose laws are
-- that what is encoded is decoded again. The protobuf
-- encoding of a gossiped result is a function. What another node or a server answers is arbitrary.
--
-- Not modelled: the network, TLS, logs, metrics, the command line and the generated protobuf
-- code, which only carry data in and out; the distributed key generation itself, which is a library.
pub mod Prelude
pub mod Chain
pub mod Store
pub mod Boltdb
pub mod Key
pub mod Beacon
pub mod Client
pub mod Core
pub mod Entropy
pub mod Gossip
pub mod Http
pub mod Tests
