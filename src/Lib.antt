-- ===== src/Lib.antt =====
-- A model of AgentCube's Go services, and what makes them correct.
--
-- The program keeps sandboxes for agent sessions. The router (pkg/router) takes an invocation, finds
-- the sandbox of its session in the store (pkg/store, on Redis or Valkey) or asks the workload
-- manager (pkg/workloadmanager) for a new one, and forwards the request. The workload manager makes
-- sandbox objects at the Kubernetes API server, records them in the store, deletes them on request,
-- and collects idle and expired ones. PicoD (pkg/picod) runs in a sandbox, serves its files and
-- executes commands in it.
--
-- Errors: pkg/api/errors.go and pkg/store/error.go, Go's errors as values, and `Try`, a computation
--   that changes a world `W` and may fail. Types: pkg/common/types. Time: `time.Time` as nanoseconds.
-- Store: pkg/store/interface.go. Store.Redis is store_redis.go and Store.Valkey store_valkey.go, each
--   over a record of client calls; their laws (`IsClient`, `IsValkey`) say what Redis documents in
--   the data model of Store.Keyspace. Store.Contract is the contract of a store, by the sessions of
--   Store.Session. Names: StoreSandbox is `store_sandbox`, and so on.
-- Caches: pkg/workloadmanager/client_cache.go; Caches.Lru has what its two caches share, and
--   Caches.History sequences of their calls.
-- Identity: auth.go and identity.go of pkg/workloadmanager, with extractUserK8sClient of handlers.go.
-- Workload: pkg/apis/runtime/v1alpha1 and workload_builder.go; Workload.Builders.build is the `build`
--   that Creation.Answers takes. Controller: codeinterpreter_controller.go, whose reads are of a
--   cache that may be behind the API server.
-- Cluster: the Kubernetes API, a parameter. Collector: garbage_collection.go, one run is `once`.
-- Creation: handlers.go and k8s_client.go; Creation.Build is sandbox_helper.go, Creation.Wait the two
--   waits for readiness, Creation.Answers the HTTP answers, Creation.Deletion handleDeleteSandbox,
--   Creation.Pods GetSandboxPodIP, Creation.Probe the loop that probes entry points.
-- Manager: server.go of pkg/workloadmanager, its routes and the order of middleware and handlers.
-- Watchers: sandbox_controller.go, with `Reach` for any sequence of its methods.
-- Router: handlers.go, session_manager.go and the concurrency limit of server.go in pkg/router;
--   Router.Oidc is oidc.go, Router.Auth auth.go and the order of the routes. Json: decoded claims.
-- Picod: files.go, execute.go, auth.go and the body limit of server.go in pkg/picod.
-- Router.Keys: pkg/router/jwt.go, the secret through which routers share a signing key. Mtls:
--   pkg/mtls, the certificate files of a component and the watcher that reloads them.
-- Tests: concrete worlds, servers and services, and the theorems at them.
--
-- Code outside the repository is an argument: the Redis and Valkey clients, the Kubernetes API, JSON,
-- URLs, HTTP, JWT signatures, hashes, processes, the file system and clocks. A world passes from
-- call to call; a call sees no other client between the commands of one pipeline. `Reach` of
-- Store.Redis.History and of Watchers lets calls follow one another in any order. A deletion that
-- fails may have any effect.
--
-- The wait for a claim is a loop on fuel, one unit for a round. `Ends` says that the environment
-- ends the wait within n further rounds, and n + 1 units are then enough. The loops that
-- probe a sandbox, load the key and look for certificate files are on fuel too, one unit for an
-- attempt. All others are structural. Numbers are natural numbers; negative sizes and limits, for
-- which the code has a default, are given as 0 or `none`. Limits of listings are the nonnegative ones.
--
-- Not modelled: message texts, log lines, HTTP decoding and headers, the set-up of TLS, the
-- generation of keys and signing, which are calls of libraries, and the listeners of servers, informers
-- and flags. Requests run one at a time; what a concurrent caller does shows in the answers of the
-- API server and the store only.
pub mod Prelude
pub mod Errors
pub mod Time
pub mod Types
pub mod Json
pub mod Store
pub mod Caches
pub mod Cluster
pub mod Collector
pub mod Creation
pub mod Router
pub mod Watchers
pub mod Workload
pub mod Identity
pub mod Controller
pub mod Manager
pub mod Mtls
pub mod Picod
pub mod Tests
