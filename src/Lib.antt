-- ===== src/Lib.antt =====
-- K8S agent orchestrator: an operator that keeps one pod for each Agent object of a Kubernetes cluster,
-- a REST API for the agents, a cache and a history of events per agent, and a watcher that pauses idle
-- agents.
--
-- The parts, and the code that each models:
--   Prelude    names, lists, texts, integers with Go's `int64` arithmetic, and Go's maps
--   Api        api/v1alpha1/agent_types.go: spec, status, conditions and events of an agent; Api/Heap is
--              the memory that they point into and Api/Copying the functions of deepcopy_extra.go and
--              zz_generated.deepcopy.go (`DeepCopyInto` of `AgentSpec` is `copy_spec`, `DeepCopy` is
--              `deep_copy_spec`, and so on)
--   Io, Kube   code on a world `W` as functions `W → A × W`; the record `Env` holds what the program calls
--              outside the repository: the Kubernetes API, the event recorder, the clock. Kube/Trace
--              is the same world with the list of the writes that were sent
--   Cache      internal/cache/cache.go: `CacheStore`, `Entry`; Cache/Memory is `InMemoryCache`
--              (`Set` is `set`, `GetEntry` is `get_entry`, `gcLoop` is `gc_tick`), with the times that
--              its methods read as arguments; Cache/Memory/Store is the instance of the interface,
--              and Cache/Memory/Shared has the steps that the locks guard, one by one.
--              Cache/Redis is `RedisCache` of internal/cache/redis_cache.go
--   Redis      the client that the program calls, as a parameter with laws: those of lists, and in
--              Redis/Live those of strings and sets whose keys have lifetimes
--   History    internal/history/history.go: `HistoryStore`; History/Memory and History/Redis are the
--              two stores, History/Log is the specification that both meet; History/Laws is
--              what the code that uses a history relies on, and History/Memory/Store an instance
--   Controller internal/controller/agent_controller.go: Controller/Pods (`findAgentPod`, `createPod`,
--              `buildPod`, `specChanged`), Controller/Status (`updateStatus`, `setCondition`,
--              `appendHistory`), Controller/Services (`reconcileService`, `serviceNameFor`),
--              Controller/Deletion (`handleDeletion`, `resurrectAgentAsync`), Controller/Reconcile
--              (`Reconcile`, one function for each of its branches); Controller/Reconcile/Rounds is one
--              reconciliation after the other, over how the server carries out calls as a parameter
--   Rest       internal/rest/handlers.go: Rest/Crud, Rest/Lifecycle, Rest/Environment, Rest/Wake and
--              Rest/CacheRoutes hold the handlers and Rest/Requests the bodies, each `handleX` as `handle_x`;
--              Rest/Logs is `handleGetLogs`, with internal/rest/kubeconfig.go; Rest/Routes is the route
--              table of internal/rest/server.go, and Rest/Server the server: a request through the
--              middleware of `NewServer` to the handler of its route, over gin's router as a parameter
--   Docs       docs/docs.go: the paths of the generated documentation, a definition for each operation
--   Idle       internal/idle/watcher.go, and Idle/Middleware the `activityMiddleware` of
--              internal/rest/server.go
--   Main       cmd/main.go: `main` as a function of its flags; Main/Starting says what it starts, and
--              Main/Watching ties its flags to the watcher
--   System     the parts together: the states that the program reaches by requests, reconciliations,
--              rounds of the watcher, resurrections and what others do, as a relation of steps
--   Tests      concrete worlds, and the theorems at concrete inputs
--
-- How they interact: the REST API, the watcher and the controller act on the same objects through `Env`,
-- one after the other; the controller sees what the others wrote when it next reads the agent. Handlers
-- and watcher share a `CacheStore`, handlers and controller an optional `HistoryStore`. A goroutine that
-- `handleDeletion` starts is the field `spawned` of its outcome, and runs as `resurrect_agent_async`.
-- `main` chooses the stores and starts the REST server and the watcher over them. In System each request,
-- reconciliation, round and resurrection is one step, in any order, with changes by others between them.
--
-- Bounds and fuel: the polling loop of `wakeAgent` takes fuel; `rounds` gives it a round for every two
-- seconds of the wait and two more, which is enough on a clock that moves with `sleep`. The retry loop of
-- `resurrectAgentAsync` counts its 15 attempts. Times are natural numbers of nanoseconds, durations are
-- signed with the wrap-around of `int64` where the code multiplies; `int32` fields are signed integers
-- whose range is a hypothesis where it matters. Generations are natural numbers. The scanner that
-- follows a log holds 65536 bytes, as `bufio.MaxScanTokenSize` says.
--
-- Not modelled: the parsing of flags and the registration of schemes; the embedded web page; of the
-- documentation the definitions of the bodies and the tags; gin's recovery from panics and its redirect
-- of a slash at the end; log lines, request time limits and the `elapsed` field of the keepalive answer.
-- Values that the program only passes on stand as their JSON text. The locks of the in-memory stores
-- make each call one step, but for `Set` in Cache/Memory/Shared. The order of a `range` over a map is
-- that of an association list, and theorems on maps go through `lookup`.
pub mod Prelude
pub mod Cache
pub mod Redis
pub mod Api
pub mod History
pub mod Io
pub mod Kube
pub mod Controller
pub mod Docs
pub mod Rest
pub mod System
pub mod Idle
pub mod Main
pub mod Tests
