-- ===== src/Lib.antt =====
-- Specter: the Chord ring of specter and the store of its keys.
--
-- The program runs virtual nodes on an identifier circle of 2^48 identifiers. A node keeps a state
-- word, a predecessor, a successor list, fingers and a surrogate; it looks up which node owns an
-- identifier, routes the operations on a key to that node, and hands keys over when a node joins
-- or leaves. Behind each node stands a store of simple values, sets of children and leases. A tunnel
-- server keeps in the keys of the ring which client has which hostname and by which servers it is
-- reached, and, in a registry of its own, the sessions that are attached to it.
--
-- Which file models which part:
--   Ring          spec/chord/chord.go: Hash, ModuloSum, Between, MakeSuccListByID and
--                 MakeSuccListByAddress (Ring/SuccList); Ring/Distance has the clockwise distance
--   Errors        spec/chord/errors.go: the error variables, ErrorMapper, ErrorIsRetryable
--   VNode         spec/chord/vnode.go: a reference, with the identity that `==` compares
--   Containers    the interface of the skip maps and skip sets that kv/memory uses; the laws are
--                 what their documentation says; Containers/Assoc has lists as an instance
--   Kv/Lease      kv/internal/lease/token.go: Next; durationGuard of kv/memory/lease.go
--   Kv/Spec       the abstract store, a map from keys to cells, and the mutations of kv/aof
--   Kv/Memory     kv/memory: simple.go, prefix.go and the values of kv.go; Kv/Memory/Keys has
--                 Import, Export, RangeKeys, RemoveKeys and ListKeys; Kv/Memory/Leases has
--                 lease.go; Kv/Memory/Refinement has handleMutation of kv/aof/mutation.go; the
--                 other modules below hold proofs
--   Kv/Sqlite     kv/sqlite3: the operations on one key, with key_tracker.go and sqlutil.go;
--                 Kv/Sqlite/Lease has lease.go;
--                 Kv/Sqlite/Schema has the statements of queries.go on the four tables, and
--                 Kv/Sqlite/Provider has provider.go; the other modules below hold proofs
--   Kv/Aof        kv/aof: the log around the in-memory store, with its replay; Durable, Replay,
--                 Recovery, Reopening and Runs hold proofs
--   Config        config/{record,sqlite,codec,store,sync}.go: the versioned documents of a server,
--                 and their checks; Config/Store has Put, Merge and what Snapshot lists,
--                 Config/Sync the snapshot as text and a round of synchronisation with a peer,
--                 Config/VersionBytes the stored form of a version; Order, Writes, Merges,
--                 Snapshots, Convergence, Revisions and Saves hold proofs
--   Chord/NodeState   chord/node_state.go: the word with its change counter
--   Chord/Node    chord/local.go and the record of what the other nodes answer; Lookup, Notify
--                 (chord/local_chord.go), Kv and ListKeys (chord/local_kv.go), Join and Leave
--                 (chord/local_membership.go), Tasks (chord/local_tasks.go)
--   Chord/Routing FindSuccessor across a network of nodes
--   Tun/Keys      spec/tun/key.go: the keys of the tunnels
--   Tun/Label     spec/tun/session.go: the alias and the label of a session, on the hexadecimal
--                 texts of Tun/Hex; Tun/Label/RoundTrip holds proofs
--   Tun/Identity  spec/pki/token.go, and extractAuthenticated of tun/server/client_rpc.go
--   Tun/Messages  the messages of spec/proto that the tunnel server keeps in the ring
--   Tun/Kv        the keys of the ring as a handler of the tunnel server calls them, and
--                 util/promise; Tun/Kv/Results and Tun/Changes hold proofs
--   Tun/Server    tun/server/client_rpc.go and resolve.go: registration, publication and
--                 withdrawal of a tunnel; Frame, Guard, Reached and Withdrawal hold proofs
--   Tun/Grants    spec/tun/delegation.go, and the stored form of a grant
--   Tun/Delegations   tun/server/delegation_rpc.go: Mint, List and Revoke of a grant, and the
--                 authority behind one; Minting, Minted, Removal and Revocation hold proofs
--   Tun/Routes    tun/server/route_cache.go: the load of the routes of a hostname; Routes/Lookup
--                 and Tun/Publication hold proofs
--   Tun/Sessions  tun/server/session.go: the registry, with what its goroutines may do next as a
--                 step relation; Invariant, Forgetting, Reserving and Reachability hold proofs
--   Examples      concrete stores, nodes, rings and tunnels
--
-- How state and operations correspond. A node is the record LocalNode; an operation takes a node
-- and the answers of the other nodes (Peers) and returns the node, the calls that change another
-- node (Call) where the order matters, and a result or an error. The calls of other goroutines are
-- explicit: Notify and checkPredecessor take what others do to the node during a ping, Transition
-- has its Load and its compare-and-swap apart, Set has the interfering calls of every failing
-- round, and Acquire and Renew have their read and their compare-and-swap apart. A nil dereference
-- is the error `panics` or `none`. An unsigned word keeps its wrap-around; int64 times are ℤ.
--
-- A transaction of the SQLite store is a function from the tables to the tables and a result, any
-- statement of which may fail; a row's int64 is kept apart from the uint64 that it stands for. A
-- step of the store over the log takes the log and the memory to the next ones.
--
-- Three simplifications of steps: an error of Commit of a transaction of the SQLite store is taken
-- to leave its tables unchanged (a save of config may have kept its change); the compare-and-swap of
-- a Transition and the entry into the history are one step; and in the step relation of the
-- sessions the checks that OpenDelegatedSession and the revalidation make before they activate or
-- extend a session are guards of the step.
--
-- A handler of the tunnel server takes the keys of the ring to the next ones and a result. Each of
-- its calls may be answered, be refused before it takes effect, or take effect and lose its answer
-- (Fate of Tun/Kv). A session of the registry is an object behind a handle, since the registry, the
-- watcher and the handlers share it.
--
-- Parameters: xxh3, the hash of successor lists, the skip maps and sets, the clock, what other
-- nodes answer, and, for a node, its store (Provider); when the statements of the database fail
-- (Driver); the log package (Wal); the generated encoders and the checksum (Codec); SHA-256, the
-- length of a JSON text and the tables of Unicode (Encoding); which steps of
-- the database fail in a save of a document (Fate) and in an exchange (Side), what becomes of the
-- call of a peer (Delivery) and the JSON text of a snapshot (Json); for the tunnels, what becomes of each call and the clock of the node that serves it
-- (Network), the generated encoders (Encoders, GrantCode), base64 and acme.Normalize
-- (GrantCode), and SHA-256 (Sha). A record of parameters holds their documented laws.
--
-- Bounds and fuel. The lookup across the network runs on fuel, one unit for each node asked; more
-- fuel than the clockwise distance to the identifier is enough. The retries of Join and Leave are
-- lists of the answers of each attempt. The walk of ListKeys around the ring runs on fuel too.
-- The loops over fingers and successors are structural. The batches of RemoveKeys and
-- those of ListDelegations take as many rounds as there are keys, which is enough; the loop of
-- replayLogs has one round for each index.
--
-- Not modelled: logging, tracing, the timers of the periodic tasks, random identifiers, how the
-- SQLite database and the log are opened, migrated and flushed, RPC, transport, the tunnel
-- client, the gateway, certificates and the firewall. Of the tunnel server: what other servers
-- do to the ring during a handler, jobs of promise.All that overlap (they run one after the
-- other), the code and the metadata of an RPC error, ReleaseTunnel, the cache of the routes, the
-- RPCs that open a session, ACME and the connections to clients. A history longer than 2^60
-- changes is out of scope of the theorems that name that bound.
pub mod Prelude
pub mod VNode
pub mod Ring
pub mod Errors
pub mod Chord
pub mod Containers
pub mod Kv
mod Examples
pub mod Config
pub mod Tun
