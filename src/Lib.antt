-- ===== src/Lib.antt =====
-- Verification of mcp-k8s: a service that watches Kubernetes events in each cluster (the cluster
-- agent), and a coordinator that plans queries, runs them against the agents over gRPC, and
-- correlates the events into a timeline with root causes.
--
-- Event models pkg/events/events.go, Event/Dedup pkg/events/dedup.go and Event/Normalize
-- pkg/events/normalize.go, with the facts on its texts in Words. Store models pkg/store/store.go:
-- `add` is Add, `evict`, `track`, `place` and `update_burst` are its parts, Store/Query is Query
-- with candidateIDs, intersect and sortByLastSeenDesc, and Store/Summary is SummarizeNamespace. Of
-- the other files of Store, Ring, Index, History and Newest hold the parts of the invariant IsValid
-- (Invariant), Growth and Adds the steps that keep it, View the abstract store, a list of episodes
-- newest first, Refinement its agreement with Add and Runs with a run of Adds, Sorting, Answers and
-- Selection the facts on Query, Episodes relates Query to the abstract store, Reasons is about the
-- answers for several reasons, and Totals and Groups hold the facts on SummarizeNamespace. Planner
-- is pkg/planner, Correlation is pkg/correlation: Complete is about what a timeline holds,
-- Explained about the causes it names. Enrichment is pkg/enrichment/ownerchain.go and
-- Enrichment/Snapshot snapshot.go there.
--
-- Watcher is internal/app/clusteragent/watcher.go, a step function on the channel, the event in
-- flight and the store: the callbacks of the informer (`handle`) and the goroutine (`receive`,
-- `finish`) take turns in any order. Watcher/Order is about what a run stores, Startup about the
-- events before the goroutine is launched, Draining about an undisturbed goroutine. Agent is
-- server.go of the cluster agent, Agent/Wiring the metrics client of clusteragent.go, Agent/Memory
-- the configuration, store and watcher that it puts together, Agent/Startup the whole of its Run,
-- with KubeConfig, Start and the store that the watcher and the server share by its address, and
-- Agent/Serving is about when it serves, from what, and how it ends; Process has what this shares
-- with the coordinator, the select of Run and the end of main. Agent/Ingestion leads from the
-- events that come in to the answers of Query, and Agent/Answers has the agent behind the executor
-- of the coordinator. Executor is internal/app/coordinator/executor.go; it meets the agent in
-- Messages and Proto, the messages of proto/clusteragent.proto and the conversions on both sides of
-- the wire.
--
-- Registry, Response and Gateway are registry.go, response.go and gateway.go of the coordinator:
-- Registry/Safety relates entries, connections and the file, Registry/Reaching is about the
-- connections that Client answers with, Registry/Restart a saved file and what is loaded from it,
-- Registry/Saving has the system calls of a save one by one, Registry/Connections and Handing are
-- about open and closed connections, Executor/Partial is about steps that fail and Executor/Planned
-- about the steps of plans, Response/Objects is about the affected objects, Gateway/Auth holds the
-- token check, Gateway/Admin the handlers of the registry, Gateway/Fences the cleaning of the
-- model's reply, Gateway/Status is about the status codes, Gateway/Planned about requests that have
-- a plan, and Gateway/Questions sets a question beside the query that it stands for. Llm is
-- pkg/llm, with Answers on the client and Prompts on the prompt of a timeline. Config is config.go
-- of both processes, and Config/Usable is about the configuration that an agent accepts.
-- Coordinator is the start of coordinator.go and the routes of gateway.go, a step function on the
-- registry: Coordinator/Requests is about sequences of requests, Coordinator/Connections about
-- their connections, Coordinator/Restart about a restart behind them, Coordinator/Timelines has a
-- query for a timeline from the gateway to the store, Coordinator/Whole adds the events that come
-- in at the agent, Coordinator/Explanations has a query about an object, Coordinator/PodRestarts
-- one about restarts, Coordinator/Overviews one about a namespace, and Coordinator/Startup is the
-- whole of Run and main. Base holds the shared lemmas, and Examples the tests.
--
-- A time is the number of nanoseconds since the zero time of Go, a 32-bit count is kept modulo
-- 2^32, an id modulo 2^64, and a length is an unbounded number. A lock makes each operation one
-- step on the state. A map is an association list; where Go ranges over one, the order is a
-- parameter that may permute the entries (Ranging). sort.Slice by time is a parameter with its
-- contract (Sorting), the Kubernetes API is a record of calls, an agent is a record of calls, and
-- timestamppb is an interface (Timestamps) whose law is that a time comes back as it went in. The
-- walk of an owner chain is bounded by the source's own limit of ten rounds, so no other fuel is
-- used. A save of the registry takes the outcome of each of its system calls as an argument, and
-- encoding/json is a pair of functions with no law. What the file system shows after each call is
-- what a process that stops there leaves behind. A gRPC call from the coordinator to an agent goes
-- through a Wire, which says how errors read on the other side and which messages are not UTF-8: a
-- snapshot with such a termination message is refused. Requests that overlap appear one after the
-- other: the registry is locked during each call of it, and a handler calls it at most once.
--
-- Not modelled: generated protobuf code. The listeners and servers of the two processes appear by
-- what their calls answer, and the informer as the sequence of its callbacks. Not modelled either
-- are the size limit of gRPC messages, and a crash of the machine, which can lose what was written
-- but not synced. A panic or a signal that ends a process is an argument of the end of main
-- (Strike), apart from the panic of GetPodMetrics, which Agent/Wiring derives. The Kubernetes API,
-- the stream of a container's logs, the metrics API, HTTP and JSON are parameters.
pub mod Base
pub mod Event
pub mod Store
pub mod Planner
pub mod Correlation
pub mod Enrichment
pub mod Proto
pub mod Messages
pub mod Executor
pub mod Registry
pub mod Gateway
pub mod Response
pub mod Watcher
pub mod Agent
pub mod Config
pub mod Llm
pub mod Coordinator
pub mod Examples
pub mod Process
