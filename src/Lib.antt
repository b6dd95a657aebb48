-- ===== src/Lib.antt =====
-- Verification of tegg: the dependency graphs that decide what is loaded and in which order, the
-- agent runtime with its store and event streams, the event bus, the DNS cache, the SQL minifier,
-- the registry of prototypes, the advices of methods, and the life of objects.
--
-- The parts and their files (paths from the repository's root):
-- - Graph: core/common-util/src/Graph.ts. Vertices are objects that edges point to from both sides,
--   so a graph is a heap of nodes and the map from ids to references. `Build` and `History` keep
--   graphs well formed, `Path`, `Loop`, `Total` and `Cycle` are about `loopPath`, `Sort` and `Order`
--   about `sort`.
-- - Metadata: core/core-decorator/src/util/QualifierUtil.ts, the selection of prototypes in
--   core/metadata/src/model/ProtoDescriptorHelper.ts and EggPrototypeImpl.ts (`Qualifier`), and
--   core/metadata/src/model/graph/GlobalGraph.ts (`Global`): `Find` is the search for the prototype
--   that an injection means, `Load` the building of both graphs on top of Graph, `Loaded` and
--   `Order` their `sort`.
-- - Registry: core/metadata/src/factory/EggPrototypeFactory.ts and the prototypes of
--   core/metadata/src/impl/ModuleLoadUnit.ts, on the qualifiers of Metadata. `Tracks` reads the maps as
--   the list of the registered prototypes, `Destroy` is the end of a load unit, `History` what is found.
-- - Agent: core/agent-runtime/src/RunBuilder.ts (`Run`), MessageConverter.ts and the normalisation of
--   AgentRuntime.ts (`Message`), and the flusher of AgentRuntime.ts, which appends a run's messages to
--   its thread (`Flush`). `Cancel` is a run of AgentRuntime.ts as a step relation (`Cancel/Steps`): its
--   execution, the calls of `cancelRun` on it and an outer abort, in any order of their waits.
--   `Stream` is the event file of a run and a client that replays and follows it, again as steps;
--   `Window`, `Replay` and `Follow` are the invariant of its steps, `Clients` what a client is given.
-- - Store: core/agent-runtime/src/OSSAgentStore.ts over an ObjectStorageClient: `Threads` and `Runs`
--   are its operations, `Lines` the JSON lines, `Transcript`, `Metadata` and `Throttle` its theorems, for
--   which `Stamps` and `Updates` say what appending and `Object.assign` leave.
-- - Oss: core/agent-runtime/src/OSSObjectStorageClient.ts, such a client over the OSS SDK: `Laws` is what
--   the SDK and UTF-8 promise, `Append` and `Stored` what the operations then do.
-- - EventBus: the corks of core/eventbus-runtime/src/SingletonEventBus.ts.
-- - Dns: plugin/dns-cache/lib/DnsResolver.ts. `Lookup` are its operations and its events; the cache
--   holds references to entries on a heap, which rotation changes in place. `Records`, `Cached` and
--   `Sound` are about what it replies, `Rotation` about the order of the addresses.
-- - Sql: core/dal-runtime/src/SqlUtil.ts, the state machine of `minify`: `Pieces` are the SQL texts that
--   `Minify` is about, `Rounds` and `Comments` what the loop does on each.
-- - Runtime: core/lifecycle/src/LifycycleUtil.ts and core/runtime/src/impl/EggObjectImpl.ts, the hooks
--   of an object (`Object`) over calls of code that may throw (`Calls`); `Follow`, `Script` and
--   `Order` are about the order of the calls.
-- - Aop: core/aop-runtime/src/AspectExecutor.ts. `Laws` is what koa-compose promises, and advices that
--   note their calls; `Notes`, `Nest` and `Order` are about the order of the calls.
-- - Prelude: lists, options, JavaScript's maps, results and integers for all of them.
-- Agent.Flush takes the store only by the outcome of each append (stored, lost, or made although it
-- was reported as failed); Store is the detailed store.
--
-- State is passed explicitly; what throws is a value. Numbers are natural numbers, subtraction that
-- may go below zero is on ℤ or is written as a comparison; no machine-width integer occurs. Time is an
-- argument. Recursion over a graph takes fuel: one more than the number of vertices is enough for
-- `loopPath`, the same fuel then serves `sort`, and the search for a prototype needs two rounds.
-- An executor yields a bounded number of messages, and cancelRun is called a bounded number of times.
--
-- Parameters: the cache of ylru with its laws (Dns), node's dns, the test for a literal address,
-- the storage client and JSON with their laws (Store/Laws), the OSS SDK and UTF-8 with theirs
-- (Oss/Laws), koa-compose with its laws (Aop/Laws), the texts of object keys and of the activity
-- index, the executor's messages, the isCommitted and build hooks, the edge metadata of Graph, and
-- the ids of prototypes. A numeric qualifier is a natural number, and the property `__proto__` is
-- not an attribute.
--
-- Not modelled: the scheduling of promises (each operation is one step, as the locks per thread
-- have it, and background work is a list of tasks settled one by one; in Agent.Cancel a step is
-- the code between two waits); reads of the store that reject; the thread resolution of
-- AgentRuntime.ts, the stream of a run that is no longer in memory, run updates that the store
-- rejects there, and two calls of cancelRun at once; the values that an object is injected with;
-- lifecycles that are registered or deleted while an object is created or destroyed, which
-- LifycycleUtil reads again at each stage;
-- printing and logging; reading decorator metadata from classes; and the other packages, which
-- PROJECT.json lists.
pub mod Agent
pub mod Aop
pub mod Dns
pub mod EventBus
pub mod Graph
pub mod Metadata
pub mod Oss
pub mod Prelude
pub mod Registry
pub mod Runtime
pub mod Sql
pub mod Store
