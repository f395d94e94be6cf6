-- ===== src/Lib.antt =====
-- inu is a content-addressed file store: peers announce the blocks that they hold in a distributed
-- hash table, a Kademlia network of nodes (dht/), and fetch blocks of files (fs/, store/, merkle/)
-- from each other (daemon.go). This library models the data structures that a node of the table
-- decides with, its lookups, the files that a peer keeps, and the calls between peers and nodes.
--
-- * Key (dht/key.go) is a 256-bit id as its 32 bytes; `xor` and `cmp` are the methods of those
--   names, `from_big_int` is `fromBigInt`, `set_bytes` is `big.Int.SetBytes`.
--   Key.Encoding has its texts; base32 and JSON are parameters there, with what the code relies on
--   of them as hypotheses. Key.Encoding.Read is which texts are read.
-- * Contact and Routing (dht/routing_table.go): Routing.Bucket is `bucket`, with its list and its
--   map; Routing.Table is `routingTable`. A mutex makes each exported call of the table one step,
--   so a call is a function from the table to a result and the new table. `rpc.Ping` is an argument
--   that tells which contacts answer. Time is an argument, one reading for a call. KeyMap is a Go
--   map, Sorting is `slices.SortFunc`.
-- * Asn (dht/asn.go) is the trie from address prefixes to autonomous system numbers.
-- * PeerStore (dht/peer_store.go) is `peerStore`: the peers of each key, with their expiry.
-- * Node (dht/node.go) is the checks `authSwarmKey`, `validateUpload` and `parseIP`, and in
--   Node.Handlers the handlers of its routes; parsing of addresses and bodies, the search of the
--   network and the sort of a key's peers are parameters. Node.Router is `router`, which puts the handlers
--   behind their checks.
-- * Lifecycle is `Start` and `Stop` of dht/node.go: calls whose steps on the three flags interleave, as
--   the relation `Runs`. Routing.Routines is `Bootstrap` and a turn of `refresh`,
--   and Lookup has `Store` and a turn of `republish`.
-- * Cid (cid/cid.go), Store (store/) and Merkle (merkle/): the name of a block is the base32 text of
--   its sha256 digest; a block is stored under its name; a node is links and data in a block. The
--   digest, base32, JSON and the SQL statements are parameters. Store.Guard has the database that does
--   not replace a block by another content: a theorem on what is added compares the run with the run
--   over it, so the one case in which bytes are lost, two contents of one name, is told by a failed
--   write.
-- * Fs (fs/fs.go, fs/inode.go): `chunks`, `AddBytes` with `buildDAGLevel`, `AddPath`, `ReadBytes`,
--   `ResolvePath` and `DAG`. The store is passed on from call to call. What the system answers on a
--   path is a tree, `Fs.Item`.
-- * Http, Rpc (dht/rpc.go) and Client (dht/client.go): the requests of a node and of a daemon, and what
--   becomes of the answers. Rpc.Requests and Client.Uploads put them before the checks of Node.
-- * Daemon (daemon.go): the calls of the private interface and the handler of a block. A group of
--   downloads (Daemon.Downloads) is a list of tasks, and a step of the group is a step of any of
--   them: the relation `Reaches` has every order of the steps. The calls of the network are behind
--   the record `Daemon.Network`. Daemon.Downloads.Steps is the induction over that relation that
--   Held and Copied share. Log has what the network is told by calls of `PutKey`, Told and Ordered what
--   it was told when a download ends and at each moment of it, and Cat puts a download behind what
--   another daemon added. Daemon.Service is
--   `Start` and `Stop`, with the goroutine that accepts connections as the relation `Accepts`.
-- * Api (api.go) is the other end of the private interface, over `net/rpc` as a parameter; Api.Service is
--   the service of a daemon that answers its calls by their names.
-- * Config is the configurations of dht/node.go, dht/client.go and daemon.go, with `NewNode` and
--   `NewDaemon`, and the decimal texts of ports.
-- * Cmd (cmd/inu/) is how the commands come to their configurations and how a node gets its table of
--   autonomous systems; Cmd.Peers is `runApiFunc`, which asks a daemon or starts its own, with the
--   commands that ask (Asked) and what they print; Cmd.Keys has the commands of keys and of nodes. The
--   system, the environment and the decoders are parameters.
-- * Eval (cmd/evaluate/): Eval.Addresses is `incIP` and the list of a network, Eval.Allocator the
--   goroutines of `AllocateIPv4` as the relation `Turns`, Eval.Files the mutex of `AllocateFile`,
--   Eval.Load the counters of packets; Eval.Controller, Eval.Churn and Eval.Session are the controller of
--   cmd/evaluate/inuctl/: its helpers, the nodes that come and go, and the two measurements.
-- * Shortlist is `shortlist` of dht/node.go, the nearest contacts that a lookup knows, and Lookup is
--   `lookup`: `Lookup.round` is a round of its loop, with the replies in the order in which they come
--   in, and the relation `Rounds` has the states at the head of the loop. There is no fuel in it.
--
-- Base.Result has the results: a value, an error, a panic, and the end of the fuel.
-- `Routing.Table.update_contact` is on fuel, 257 rounds: each round halves a bucket's range,
-- which has at most 2 ^ 256 keys, and a range of one key cannot overflow its bucket. The other
-- loops have their fuel from their input: `Key.big_bytes` the number itself, `Shortlist.search`
-- a round for each entry of the list, `Fs.chunks` one more. `Fs.build_dag_level` has a round for
-- each leaf, and each level is smaller than the one below. `Fs.read_bytes` and `Fs.dag` are on
-- the depth of the graph, which a store does not bound: what was added from n bytes is read at
-- every depth from n + 2 on.
--
-- `Eval.Addresses.hosts` has a round for each number of the address's size and one more, which is
-- enough for every network of one bit or more; one of no bits has no end. The loops that try again
-- have a round for each try, as many as they make at most.
--
-- Not modelled: the tickers and the channels by which the routines of a node are stopped
-- (dht/node.go); the semaphore of a daemon, which only holds tasks back; opening and closing the
-- database; certificates, signals and log lines but for their level; the virtual network of
-- cmd/evaluate/ and the processes that it starts, which are calls of other packages, and the figures
-- that it prints.
pub mod Base
pub mod Key
pub mod KeyMap
pub mod Asn
pub mod Contact
pub mod Sorting
pub mod PeerStore
pub mod Routing
pub mod Shortlist
pub mod Cid
pub mod Store
pub mod Merkle
pub mod Fs
pub mod Node
pub mod Lookup
pub mod Lifecycle
pub mod Http
pub mod Rpc
pub mod Client
pub mod Daemon
pub mod Api
pub mod Config
pub mod Cmd
pub mod Eval
mod Tests
