-- ===== src/Lib.antt =====
-- A verification library for Spegel, a stateless registry mirror that runs on every node of a
-- cluster and serves the images of the node's own image store to the other nodes.
--
-- The parts of the program, and the files that model them:
--
--   Base      What all parts share: byte strings with the functions of package strings, errors and
--             results of functions that return a value and an error, maps, decimal numbers
--             (Base/Decimal), path.Clean and path.Join (Base/Clean, Base/Join), net.SplitHostPort
--             (Base/HostPort).
--   Url       url.Parse of the standard library, as far as Parse of pkg/oci/image.go uses it.
--   Oci       pkg/oci: image references (Oci/Image for pkg/oci/image.go), the interface of the
--             image store (Oci/Client for pkg/oci/oci.go), a record of what the store answers, and
--             the client of containerd (Oci/Containerd for pkg/oci/containerd.go), and the
--             configuration of mirrors (Oci/MirrorConfig for AddMirrorConfiguration of the same file).
--             Oci/Containerd/Setup has its making, its verification and the record of Oci/Client that
--             it fills, Oci/Containerd/Connecting the client that its Client() makes and keeps. Oci/Mock is the client of the program's tests (pkg/oci/mock.go).
--   Routing   pkg/routing: the interface Router over a state (Routing/Router for
--             pkg/routing/routing.go) and the router in memory (Routing/Memory for
--             pkg/routing/memory.go), whose channel of peers is the sequence that is received from it;
--             the router over libp2p (Routing/P2p for pkg/routing/p2p.go), whose goroutine and
--             channel of peers are a step relation; and how it finds its first peer
--             (Routing/Bootstrap for pkg/routing/bootstrap.go), where the calls of OnNewLeader and of
--             Get are a step relation. Routing/Contract is what the tracking relies on of a router:
--             the router in memory meets it (Routing/Memory/Lookups), and so does the router over
--             libp2p (Routing/P2p/Advertising).
--   Channel   internal/channel/channel.go: the goroutines of Merge as a step relation.
--   Metrics   The gauges of pkg/metrics/metrics.go that the tracking sets, and what it counts and
--             observes of requests (Metrics/Http).
--   State     pkg/state/state.go. `update_image` is update, `all_images` is all, and `track` is the
--             loop of Track; State/Channels is Track with the goroutines that it receives from, those of
--             Subscribe and of its merged errors included, as a step relation. State/Parts joins it with the client of containerd, and State/Mocked with
--             the client of the tests. The World is what they change: the router's state and the
--             gauges.
--   Mux       internal/mux/response.go: the response writer that records what a handler wrote, over
--             a model of the writer of net/http (Mux/Response), and internal/mux/mux.go (Mux/Server).
--   Registry  pkg/registry: the paths of the distribution API (Registry/Distribution for
--             pkg/registry/distribution.go) and the handlers (Registry/Handlers for
--             pkg/registry/registry.go; Registry/Setup for NewRegistry). `handle` is handle, and so on
--             with the source's names; `observe` of Registry/Requests is handle with its deferred
--             function, which counts and logs.
--   Throttle  Rates of bytes (Throttle/Byterate for pkg/throttle/byterate.go) and the throttled writer
--             (Throttle/Writer for pkg/throttle/throttle.go).
--   Group     The groups of goroutines that serve until their context is done, which main.go and
--             pkg/routing/bootstrap.go start: a step relation, with golang.org/x/sync/errgroup as a
--             parameter (Errgroup).
--   Command   main.go: what the program starts, by its arguments (Command/Wiring), and how it ends
--             (Command/Serving).
--   Cluster   Several nodes that mirror for each other: the handlers of pkg/registry/registry.go on each
--             of them, joined by the requests that one forwards to another, and by a router that the
--             tracking of pkg/state/state.go advertises to (Cluster/Finding). `answer_of` is what a node
--             replies to a request that another forwards (Cluster/Answering), Cluster/Pulling what
--             the client of a node gets from the others, and Cluster/Tracked and Cluster/Tagged
--             begin at the store that one of them tracks, with any router that finds what the
--             other one's holds (Cluster/Finding).
--   Tests     The theorems at concrete inputs.
--
-- How the parts interact: the tracking reads the image store through Oci.Client and writes to the
-- router through Routing.Router, of which it relies on Routing.Contract; the handlers parse a
-- path, look the reference up at the router and forward to the mirrors that it yields, or serve
-- from the store if the request was forwarded already. Both sides meet in the key of a tag, which
-- Oci.Image makes for the tracking and Registry.Distribution for the handlers. All of this meets
-- in Cluster, where the mirrors of one node's Environment are the handlers of the other nodes.
--
-- How stateful code is modelled: the merge of channels, the delivery of events, the resolution of
-- peers, the calls on a leader and the groups of goroutines have step relations, in which any
-- goroutine may take the next step, and their theorems are about every state that can be reached.
-- Other code is sequential: a function that changes state takes the state and returns it, and the
-- configuration of mirrors ends without an error, with one, or by a panic, each with the file
-- system then. Requests that are handled at the same time, as far as they are counted, are a step
-- relation too (Registry/Requests/Inflight). What comes from outside is an argument. The loop of
-- the tracking runs over a list of what its select receives, each with what the store answers
-- then, so that a theorem for all lists is one for all orders of events; State/Channels has where
-- the list comes from. The handlers run in an Environment: the store, the router's answers, the
-- replies of the mirrors, how many bytes the connection takes, and after how many mirrors the
-- client goes away. A mirror may send interim headers (status 1xx) before its reply, which the
-- reverse proxy forwards through WriteHeader of the response writer; the nodes of a cluster send
-- none. A mirror's body arrives whole. A copy that the reverse proxy breaks off ends the handler
-- by a panic, which the writer's flag `aborted` records.
--
-- Bounds and fuel: a byte is a number, and no theorem needs that it is below 256. `int` and
-- `int64` have 64 bits in the rates, with the wrap-around written out. Sizes and attempts are
-- unbounded. Only the writing of decimal numbers runs on fuel, n + 1 for the number n, which has
-- fewer digits than that (`value-format` of Base/Decimal: the digits stand for the number). All
-- other loops are structural.
--
-- Parameters: containerd's services, its walks over images and over content, and the decoding of
-- its documents are fields of the record Services of Oci/Containerd/Backend. What containerd
-- documents of the walk over images is the hypothesis IsWalk of Oci/Containerd/Walks, and of the
-- store IsStore of State/Parts; Tests/Walk has a walk that meets the first, and Tests/Store a
-- store that meets the second. What the verification asks is the record Runtime of
-- Oci/Containerd/Setup. The file system and the documents of TOML are the records FileSystem and
-- Toml of Oci/MirrorConfig/Files, with the hypothesis IsLawful there, and Tests/Memory has a file
-- system in memory that meets it. Addresses, the hash table and the host of libp2p are the
-- records Addresses and Table of Routing/P2p/Network and Listening and Libp2p of
-- Routing/P2p/Setup, with the hypotheses IsLimited, IsProviding and UsesFactory, and the parsing
-- of an identity is Parsing of Routing/Bootstrap; Tests/Peers and Tests/Provided have instances
-- that meet them. The router over libp2p provides without announcing, so that IsProviding is
-- about the accounting of the node itself; where other nodes' searches find it is not modelled.
-- Of several nodes, Joins says that what one node forwards is handled by the others, Finds that
-- it finds another where the router of that one holds a key (nodes that share a router in memory
-- do, LooksUp-Finds), and Agrees that who has bytes of a digest has the same bytes, as content
-- addresses have it; Tests/Nodes has nodes that meet them. What errgroup documents of a group is
-- the hypothesis IsErrgroup of Group, which the group of Tests/Shutdowns meets. Of the server of
-- net/http it is taken that ListenAndServe returns ErrServerClosed once Shutdown was called, and
-- that Shutdown returns at its timeout at the latest.
--
-- Not modelled: what containerd does with the filters of pkg/oci/containerd.go; of
-- pkg/routing/p2p.go, Close and the options of the hash table; the leader election that Run of
-- pkg/routing/bootstrap.go gives its configuration to; the limiter of the throttled writer
-- (pkg/throttle/throttle.go); of main.go, the parsing of arguments and the handlers of the
-- metrics server; the log but for the line of each request, the histogram of resolving and the
-- registration of the metrics; the expiry of what a router holds, so that the theorems are about
-- what it holds when an update ends; and the concurrency of the router in memory, whose lock
-- makes each operation one step.
pub mod Base
pub mod Url
pub mod Oci
pub mod Routing
pub mod Metrics
pub mod Channel
pub mod State
pub mod Throttle
pub mod Mux
pub mod Registry
pub mod Group
pub mod Command
pub mod Cluster
pub mod Tests
