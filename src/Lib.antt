-- ===== src/Lib.antt =====
-- A model of the parts of Hybrid-Grid, a distributed build system in Go, that decide which worker
-- compiles what, and of the cache of compiled objects.
--
-- The coordinator keeps a registry of workers. A worker registers and sends heartbeats; a clean-up
-- loop marks a silent one unhealthy. For each task a scheduler asks the registry for capable
-- workers, filters them, and picks one; the coordinator books the task, waits for the result and
-- reports it to the registry, the latency tracker and the scheduler.
--
--   Prelude: lists, maps, machine integers and float64 that all parts share. A map of Go is an
--     association list; a theorem that holds for every list holds for every order of iteration.
--   Registry: internal/coordinator/registry/registry.go. Types has the messages and WorkerInfo,
--     Capability matchesCapability, and Table the methods of InMemoryRegistry. Counters and
--     Invariant prove its invariant, Listing, Tasks and Average what its methods do.
--   Metrics: internal/coordinator/metrics, the moving average (Ewma) and the latency of each
--     worker (Latency, History).
--   Scheduler: internal/coordinator/scheduler. Eligible has what the schedulers share and
--     Admission its theorems; Simple and LeastLoaded are the schedulers of scheduler.go, with P2c;
--     EpsilonGreedy and Heft are those of epsilon_greedy.go and heft.go. Each has its theorems in a
--     child module Laws; P2c/Registered joins P2c with the registry, and Heft/Rounds has the lemmas
--     on the loop of HEFT. Interface is what the server uses of a scheduler, with the law that it
--     selects only workers that are listed and fit the system; Selected proves the law and Instances
--     fills the interface for these five schedulers.
--   Cache: internal/cache. Key has what key.go hashes and Separation what the key tells apart,
--     Sorting that the order of flags does not matter; BuildKeys has the keys of Flutter and Unity
--     builds and Iteration that the order of their maps does not matter. For store.go, Naming has
--     the check of a key and Store the methods; Order proves the sort of the eviction, Accounting
--     the invariant of the index, Eviction the bound on its size, Writes what Put does, Reads what
--     Get does and Index what loading finds of the entries that saving hands over.
--   Coordinator: internal/coordinator/server/grpc.go. Messages has the messages and Server the
--     state; Tasks, Compile, Placement and Build are the handlers Compile and Build, Queries the
--     others. Outcome (on Dispatch), BuildCache and Registration prove what one handler does. Jobs
--     cuts the handlers at the points where they wait: Parts has the steps, and the rest of it what
--     holds under any interleaving of them.
--   Compiler: internal/compiler/parser.go. Files tells from names, Args has Parse and ToArgs, and
--     Replay and RoundTrip prove that one reads what the other writes.
--   Validation: internal/security/validation/sanitize.go. Windows has the checks of paths,
--     Sanitize those of arguments, Laws their theorems.
--   Client: internal/cli/build/build.go. Service has Build, which looks into the cache, calls the
--     coordinator and falls back on the local compiler; Remote has the loop of calls. Retrying
--     proves how that loop ends, Laws what Build stores, and Unplaced joins Build with the
--     coordinator's Compile.
--   Resilience: internal/coordinator/resilience/circuit.go. Gobreaker is the interface of the
--     library that circuit.go uses, Circuit has the methods of CircuitManager and Manager their
--     theorems. Backoff is the interface of the library that retry.go uses, Retry has Retry and
--     RetryWithResult, Retrying their theorems.
--   Graph: internal/graph/graph.go, the dependency graph of a build, with its theorems in Laws.
--   Tests: concrete runs, and the theorems of the list below at concrete inputs.
--
-- Every method that holds a mutex is one step on its state, so an interleaving of goroutines is a
-- sequence of calls. The readings of the clock and the random numbers are arguments. int32 and
-- int64 wrap around as in Go; where a theorem needs that nothing wraps, its hypothesis says so.
-- float64 is a parameter of which only the laws of comparison are assumed. No definition uses
-- fuel: each loop runs over a list or counts its attempts down, and the sort of the cache over as
-- many rounds as its list is long.
--
-- The circuit breakers of the library gobreaker are a parameter, of which nothing is assumed, and
-- so is the hash function of the cache key. Of the library backoff it is assumed that it calls an
-- operation until it succeeds, fails for good, or is given up.
--
-- Not modelled: LinUCB (matrices of a library), the start of the coordinator's server, its
-- statistics and its log, the worker's server, the wrapper commands, the clients of Flutter and
-- Unity builds; logs, network, processes and files, which are output or belong to libraries.
pub mod Prelude
pub mod Registry
pub mod Metrics
pub mod Scheduler
pub mod Cache
pub mod Coordinator
pub mod Compiler
pub mod Validation
pub mod Client
pub mod Resilience
pub mod Graph
pub mod Tests
