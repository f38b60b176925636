-- ===== src/Lib.antt =====
-- consul-release-controller: a controller that rolls out new versions of services in a Consul
-- service mesh.
--
-- The parts and how they interact. A release names its plugins. The state machine of the release
-- reacts to requests (configure, deploy, destroy) and to events; entering a state starts a
-- goroutine, which calls the plugins one after another and raises the next event. The runtime
-- plugin creates, copies and removes deployments through a client of the platform. The admission
-- controller lets new deployments in and starts a roll out for them. The strategy plugin
-- decides, check by check, how much traffic the candidate gets. The post deployment test and the
-- strategy ask the monitor, which puts queries to Prometheus. The store keeps the release, with
-- the history of its states, and the plugins' states. The provider creates plugins and keeps the
-- state machines of the releases; the API, the Kubernetes reconciler and a restarted server ask
-- it for them. Webhooks are told of each step.
--
-- Which file is about which part:
--   Interfaces           pkg/plugins/interfaces: the constants and messages
--   Release              pkg/models/release.go: Release, UpdateState, CurrentState
--     History            proofs
--   Fsm                  what statemachine.go uses of github.com/looplab/fsm: `Fsm` is its transition
--                        function with its documented behaviour as laws
--     Lookup, Search     proofs; a machine that satisfies the laws
--   StateMachine         pkg/plugins/statemachine/statemachine.go
--     Calls              the methods of the plugins, as calls with replies; goroutines as programs
--     Handlers, Rollout  doConfigure, doDeploy, callWebhooks; doMonitor, doScale, doPromote,
--                        doRollback, doDestroy
--     Table, Machine     the events of New; enterState, leaveState, Configure, Deploy, Destroy, Resume
--     Start              New
--     Replies, Discipline  rules on the order of the calls, as automata
--     Drain, Health, Outcome, Monitor, Interleaving, Late, Liveness, Alone, Completion, Start/Built  proofs
--   Validation           the validator's check of a struct, as the plugins use it
--   Canary               pkg/plugins/canary/plugin.go: Execute, GetPrimaryTraffic,
--                        GetCandidateTraffic
--     Bounds, Rollout, Steps  proofs
--     Configure          Configure, with the tags of PluginConfig; Configure/Validity has proofs
--   Runtime              pkg/plugins/runtime/plugin.go: InitPrimary, PromoteCandidate,
--                        RemoveCandidate, RestoreOriginal, RemovePrimary
--     Platform           the deployments and the client of pkg/plugins/interfaces/runtime.go
--     Configure          Configure and saveState
--     Untouched, Teardown, Lifetime, Promotion, Configure/Restart  proofs
--   Storage              pkg/plugins/consul/storage.go
--     Kv                 SetKV, GetKV, DeleteKV and ListKV of pkg/clients/consul.go
--     Roundtrip, Listing  proofs
--   ConfigEntries        pkg/clients/consul.go: what the code calls of Consul's config entries
--     Defaults, Intentions, Upstreams  CreateServiceDefaults, CreateServiceIntention,
--                        CreateUpstreamRouter and their deletions
--     Resolvers, Splitters, Routers  CreateServiceResolver, CreateServiceSplitter,
--                        CreateServiceRouter and their deletions
--     Reading, Keeping, Defaults/Protocol, Defaults/Frame and the like  proofs
--   Releaser             pkg/plugins/consul/releaser.go: Setup, Scale, Destroy
--     Configure          Configure
--     Health             WaitUntilServiceHealthy, and CheckHealth of pkg/clients/consul.go
--     Steps, Effects, Restore  proofs
--   Kubernetes           pkg/clients/kubernetes.go: the deployments that the runtime plugin sees
--     Contract, Lifetime, Health  proofs
--   Nomad                pkg/clients/nomad.go: the jobs that the runtime plugin sees
--     Tags               the services of a clone, in CloneDeployment
--     Subsets, Timeout   proofs
--   Memory               pkg/plugins/memory/inmem.go
--     Refinement         proofs
--   HttpTest             pkg/plugins/httptest/plugin.go: New, Execute
--     Configure          Configure
--     Passes, Termination  proofs
--   Prometheus           pkg/plugins/prometheus/monitor.go: Configure, Check
--     Queries            pkg/plugins/prometheus/queries.go
--     Answers, Thresholds  proofs
--   Admission            pkg/controllers/admission.go: Check
--     Decisions          proofs
--   NomadController      pkg/controllers/nomad/nomad.go: the event loop of Start
--     Events             proofs
--   Webhooks             pkg/plugins/slack/plugin.go, pkg/plugins/discord/plugin.go
--     Delivery           proofs
--   Provider             pkg/plugins/provider.go
--     Machines           proofs
--   Server               pkg/server/release.go: rehydrateReleases
--     Lifecycle          New, Start, Shutdown
--     Rehydration, Lifecycle/Stopping  proofs
--   Api                  pkg/api/handlers/release.go: Post, GetAll, GetSingle, Delete
--     Status, Contents   proofs
--   Resources            pkg/controllers/kubernetes/api/v1: the resource and ConvertToModel
--     Json               objects of JSON as encoding/json writes and reads them
--     Decoding           the plugins' configurations as they are read from JSON
--     Decoding/Fidelity, Decoding/Conversion  proofs
--   Reconciler           pkg/controllers/kubernetes/controllers/release_controller.go: Reconcile,
--                        updateRelease, deleteRelease
--     Waiting            proofs
--   Examples             the theorems at concrete inputs
--
-- How the code is modelled. What is outside of the code is a parameter over an arbitrary world:
-- the plugins as the state machine sees them (`Outside`), the platform's client (`Client`),
-- Consul's API (`Api`, `EntryApi`, `HealthApi`), the monitor, the clock and the store of the
-- strategy (`Deps`), JSON (`Codec`), what the admission controller is given (`Provider`), the
-- plugin provider (`PluginProvider`), the APIs of Kubernetes and Nomad (`Cluster`), what the
-- post deployment test, the monitor, the reconciler, the API and the webhooks are given
-- (`Outside`), what `Configure` of a plugin reads (`Sources`), the constructors that the provider
-- calls (`Makers`), what the server starts and ends (`Constructors`, `Ends`), Nomad's event stream
-- (`Stream`) and the printer of JSON (`Printer`). Their behaviour is assumed only where a record of laws says so (`Fsm`, `Frames`, `Isolates`, `IsKv`, `IsEntries`,
-- `IsConsul`, `Clock`). A goroutine is a tree of calls, so a statement about it holds for all
-- replies, and a step of the system makes one call or raises one event of one goroutine, so
-- requests, resumptions and goroutines interleave in every order. Logging is left out. Go's `int` is an
-- unbounded integer: the values that are computed with are percentages and counters. A state's
-- or an event's name is a constructor of a data type.
--
-- Bounds and fuel. The history of a release is cut to 50 entries, as in the code. The loop of
-- `Execute` runs on fuel, `rounds`: one more than the error threshold, which is enough since
-- every round that does not return counts a failed check. A roll out makes at most 102 runs: one
-- for the initial traffic and one for each percent. The attempts to find a healthy deployment
-- are as many as the retries of the code make before the timeout: an arbitrary number. The post
-- deployment test runs on one pass for each unit of time of the timeout, and one more. The wait
-- for a destroy runs on 151 passes: it sleeps two seconds in each, and gives up after 300.
--
-- Not modelled: the listeners and the routes of the API and the wiring of the Kubernetes
-- controller, which only connect what is modelled here; metrics; environment variables; the
-- retries of the Prometheus client; generated code. The text of a JSON document, of a template
-- and of a duration is read and written by libraries, which are parameters.
pub mod Prelude
pub mod Interfaces
pub mod Release
pub mod Fsm
pub mod StateMachine
pub mod Validation
pub mod Canary
pub mod HttpTest
pub mod Prometheus
pub mod Runtime
pub mod Kubernetes
pub mod Nomad
pub mod Storage
pub mod Memory
pub mod ConfigEntries
pub mod Releaser
pub mod Webhooks
pub mod Admission
pub mod NomadController
pub mod Resources
pub mod Reconciler
pub mod Provider
pub mod Server
pub mod Api
pub mod Examples
