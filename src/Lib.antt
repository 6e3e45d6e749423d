-- ===== src/Lib.antt =====
-- Verification library of the control plane of sandbox-operator: the aggregated store of warm
-- sandboxes, the inventories that it reads, the warm-pool driver, the REST storage, the builds of
-- templates, the proxy to the sandboxes' ports and the REST surface of e2b.
--
-- The program hands out sandboxes that wait, warm, on nodes. Every node runs sandboxd, an HTTP
-- service that is not part of this repository. The store of pkg/scale keeps nothing but a bounded
-- index of where a name was last seen; it reads which nodes there are from an inventory source,
-- claims a sandbox on a node, and answers lookups from the inventories and from the nodes. The
-- warm-pool driver spreads the replicas of the pools over the nodes. The REST storage turns a
-- creation into a claim and a deletion into a release. A build claims a sandbox from the store, runs
-- its steps there, promotes it to a template and releases it. The envd proxy finds the node of the
-- sandbox that a request names, by the same lookups, and relays admitted requests to it. The
-- e2b server finds a sandbox likewise and turns a request into calls of the store on it.
--
-- The modules, and the code they are about:
--   Prelude           library names passed on; byte strings, Go maps and sorted keys
--   Errors            the errors of pkg/sandboxd/client.go, with errors.Is and errors.AsType
--   Scale.Model       the data of api/v1beta1/nodeinventory_types.go, pkg/scale/sandboxstore.go and
--                     the sandboxd client
--   Scale.NodeIndex   pkg/scale/nodeindex.go: newNodeIndex, lookup, remember, storeLocked
--   Scale.Warm        pkg/scale/sandboxstore_impl.go: the candidates of a claim and the pick
--   Scale.Claim       Claim, claimRedirected and the retry rule in the same file
--   Scale.Lifecycle   pkg/scale/sandboxstore_lifecycle.go: the verbs and Fork
--   Scale.Stamps      the same file: StampedName, CheckpointName and CheckpointNameIn
--   Scale.Entry       entryToSandbox and EntryFromSummary, with the labels and annotations
--   Scale.Resolve     resolve, FirstHit, Get and GetByClaimID, with pkg/scale/sandboxstore_live.go
--   Scale.Sizing      pkg/scale/poolkey.go: PoolKeyFor and the size classes
--   Scale.KubeInventory, Scale.MeshInventory, Scale.MeshSnapshot, Scale.StaticInventory
--                     the inventory sources of pkg/scale/kubeinventory/source.go,
--                     pkg/scale/meshinventory/source.go and pkg/scale/sandboxstore_impl.go
--   WarmPool          pkg/scale/warmpool/driver.go: distribute, apportionWarm and the PUT bodies;
--                     WarmPool.Reconcile has reconcileOnce
--   SandboxId         pkg/e2bcompat/sandboxid.go
--   Storage           pkg/scale/apiserver/storage.go: Create and Delete
--   Build             pkg/e2bbuild: Build.Executor has the table of builds of executor.go,
--                     Build.Run and Build.Lifetime a build from its claim to its release over the
--                     interface of Build.Host, Build.Shell the texts for the guest's shell with
--                     copy.go, Build.History all interleavings of calls and running builds
--   EnvdProxy         pkg/envdproxy/route.go; EnvdProxy.Recent and EnvdProxy.Resolver have
--                     resolver.go, which looks up claims by Scale.Resolve, EnvdProxy.Serve has
--                     envdproxy.go
--   E2b               pkg/e2bcompat/server.go and lifecycle.go: the verbs of the e2b surface over a
--                     parameter for the store. E2b.Sandboxes has the verbs on one sandbox,
--                     E2b.Forks and E2b.Snapshots theirs with envd.go, E2b.Page the pages of the
--                     list, E2b.Keys the configuration and the API keys, whose entries' words are a
--                     parameter for texts that are not ASCII
-- A Go function `fooBar` is the definition `foo_bar`. Each component's state is a record, each
-- operation a function of it. Theorems stand in child modules, runs and instances in Tests.
--
-- What the code relies on and is not in the repository is a parameter: a node's answer is any
-- function of what it was asked (and, for claims, of all calls before), and so are the random
-- draws, the clock, the order in which concurrent reads finish, formatting, JSON, hashing and the
-- Kubernetes API machinery. A Go map is an association list, and a loop over a map walks the list,
-- in any order. Strings are lists of bytes. A `time.Time` is the number of seconds, or for the
-- clock of nanoseconds, from Go's zero time; counts are natural numbers below the machine's bounds,
-- and where the code narrows a number to `int32` the wrap-around is written out, as it is for the
-- int64 stamps of the Kubernetes inventory source. Where the storage rounds a lifetime up in float64,
-- the exact number is rounded up.
--
-- Fuel: the loop of a claim is given the number of candidates, since every round drops the node
-- that it asked; the top-up loop of apportionWarm is given the warm count that it counts up to.
-- All else recurs on a list.
--
-- Not modelled: List and Watch of the store, the HTTP and network code, the controller and API
-- server wiring, flags and logging; of the e2b server the creation of a sandbox, the filter and the
-- details of its list, the metrics, templates and uploads, and the decoding of requests; the relayed
-- connections of the envd proxy. The process log is left out, and so are some parts of error
-- messages. A build's ready command is awaited for the whole seconds of the build's timeout, after
-- which its context is done.
pub mod Prelude
pub mod Errors
pub mod Scale
pub mod WarmPool
pub mod SandboxId
pub mod Storage
pub mod Build
pub mod EnvdProxy
pub mod E2b
