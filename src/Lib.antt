-- ===== src/Lib.antt =====
-- qaestro reviews pull requests: a gateway takes webhooks, a queue carries them as jobs, and a
-- worker runs the workflow of each job, with its tools behind a policy and the state of each
-- pull request in an aggregate. This library models these parts and proves what makes them
-- correct.
--
-- The parts, each with the code that it models (paths from the repository's root):
-- - Prelude: shared names, tests, texts, integers, maps, and calls that may raise
--   (Prelude/Errors) and that change a state too (Prelude/Exec). Lists and dictionaries are
--   association lists in insertion order.
-- - Contracts: the events of src/core/contracts/events.py and the contracts of domain.py. A
--   class of events is a constructor of Event.
-- - Json: the values of json.loads.
-- - Config: src/shared/config.py. Config has the two configurations and the readings of a text,
--   Load the tables of the variables and the loop over them; Converts and Readable hold the
--   proof. Python's int, float and repr of a text are parameters.
-- - Jobs: src/app/jobs.py. Encode and Decode/Read are _serialize_job and _deserialize_job with
--   their helpers, Memory is InMemoryJobQueue, Redis is RedisStreamsJobQueue over the client's
--   calls, which are a parameter, Factory is src/app/queue_factory.py with the constructors of
--   the Redis queue. Jobs/RoundTrip and Jobs/Redis/Laws hold the proofs.
-- - Gateway: src/app/gateway/github.py (Handler), the signature check of
--   src/adapters/connectors/github/webhook.py (Signature) and the parsers of
--   src/core/contracts/parsers.py (Values, Parsers). The events that the parsers make are those
--   of Raw: no attribute is checked, so a text attribute holds any value of the payload; an
--   Event of Contracts is one whose attributes have their annotated types. Authenticity, Origin
--   and Handling hold the proofs. The digest, the JSON reader, int on a text, the clock and
--   fresh identifiers are parameters.
-- - Worker: src/app/worker/runner.py and types.py. run_once is an attempt, Process the retries,
--   Loop the two loops over any queue; Retry and Drain hold the proofs. Factory is build_worker
--   of src/app/worker/factory.py, with its proof, and Parts what it puts together: a part is
--   what it is made with. The orchestrator, the poster and the executor's time limit are the
--   fields of Services, which act on a world of any type.
-- - Aggregate: src/runtime/orchestrator/pr_aggregate.py. Aggregate is PRAggregateState, Checks
--   the snapshots and the readiness, Feedback the CI context, Store the in-memory store;
--   Consistent, Recording, Readiness, Evidence and History hold the proofs.
-- - Tools: src/runtime/stages.py and src/runtime/tools. Policy is StageToolPolicy, Runtime is
--   RegisteredToolRuntime over handlers that act on a world, Adapter is
--   AgentFrameworkToolAdapter, WorkerPolicy the policy and the tools that
--   src/app/worker/factory.py builds; Guarantees and Exposure hold the proofs.
-- - GitHub: the GitHub tools of src/runtime/tools/github.py. GitHub has the connector's types
--   and the client's calls, which are a parameter, Input reads a tool's input, with the part of
--   src/adapters/renderers/pr_comment.py that reads a review back, and Handlers has the
--   handlers; Upsert and Valid hold the proofs. The client is that of
--   src/adapters/connectors/github: Http has the responses of transport.py, the errors of
--   errors.py and what a status raises, Auth is GitHubAppAuth of auth.py with its token cache
--   in Auth/Issue, Payload reads and writes the JSON of client.py, Paging is its loop over
--   pages and Client has its calls, over a transport that acts on a world; Connected is this
--   client as the tools' client; Auth/Issued, Blank, Listing, Served and Service hold the
--   proofs.
-- - Agent: the providers of src/runtime/agent. Health is health.py, Runner the runners of
--   azure_openai.py, openai_compatible.py and fake.py, Azure the live client and its smoke
--   probe, Build is build_agent_runner; Ready and Build/Answers hold the proofs. urllib and the
--   injected clients are parameters.
-- - Sessions: src/runtime/agent/types.py and manager.py. Manager is WorkflowAgentSessionManager
--   over a runner that acts on a world; Keys, CloseAll, Closing and Turns hold the proofs.
-- - Review: the payloads of src/adapters/renderers/pr_comment.py.
-- - Outputs: src/runtime/orchestrator/tool_output.py (Poster), and what
--   src/adapters/renderers/pr_comment.py does to a review before it is submitted (Prepare). The
--   poster's tools are those of Tools.Runtime, with the inputs and outputs that it tells apart;
--   Sequence, Order and Stale hold the proofs.
-- - Renderer: the rendering of src/adapters/renderers/pr_comment.py. Renderer is render,
--   Sections and Actions have the parts of the comment, Markdown its code spans; Spans and
--   Marker hold the proofs.
-- - Analyzer: src/core/analyzer. Analyzer has the types, Patch the lines of a patch, Areas the
--   impact areas, Report the statistics and analyze; Grouping, Counting and Lines hold the
--   proofs.
-- - Strategy: src/core/strategy/rules.py (Engine) and src/core/knowledge/memory.py (Knowledge);
--   Search and Actions hold the proofs.
-- - Prompts: the catalog of src/runtime/prompts/__init__.py, whose files are a parameter; of
--   str.format it has what the catalog uses.
-- - Validator: src/runtime/validator/agent_runtime.py. Target says which probes may run,
--   Details has the texts that are shown, Run is AgentRuntimePRValidator, Default the tool that
--   its agent is shown; Probes and Closing hold the proofs.
-- - Workflow: src/runtime/orchestrator. Triage is pr_triage.py, with the agent's answer in
--   Triage/Answer and its session in Triage/Agent; Pr is pr_workflow.py, with the review in
--   Pr/Review; Ci is ci_workflow.py; Dispatch is dispatcher.py with the stubs of
--   pr_event_stubs.py and chat_workflow.py; Context is tool_context.py; Feedback is
--   _load_ci_feedback_for_pr_event of src/app/worker/factory.py. Triage/Stages, Triage/Session,
--   Pr/Orders, Pr/Publish, Ci/Recording, Context/Reads and Feedback/Publishing hold the proofs.
-- - Examples: concrete inputs, on which the theorems with hypotheses are tried.
--
-- How they interact: the gateway enqueues a job with the parsed event, a queue is read by the
-- worker's loops through JobQueue, and the worker hands the event to the orchestrator. The PR
-- workflow calls the provider of the context, the triage, the analyzer, the strategy engine,
-- the validator and the renderer through Components; the providers and the poster run their
-- tools through the tool runtime, whose handlers call the GitHub client; and the aggregate's
-- feedback, with the checks that the provider loads, decides whether an official review is
-- published.
--
-- Bounds and fuel: the retries recurse on the attempts that are left, which __init__ bounds by
-- max_attempts. run_until_empty takes fuel for its rounds; one round more than there are jobs
-- is enough on the in-memory queue, and on a queue that is filled meanwhile a run that is out
-- of fuel is one that is still going. run_forever is given by its number of rounds. A listing
-- asks for 30 pages at most, as the source does. Python's integers are unbounded, and ℤ stands
-- over the native numbers.
--
-- Not modelled: logging and sleeping, which no modelled function reads; the HTTP server, the
-- entry points, and what opens a connection (UrllibTransport and urllib); FakeTransport, a test
-- double; the text of a configuration. The authentication is modelled in one thread: its lock
-- is taken and given back within one call. lower maps ASCII letters only. The encoding of an
-- event with a text attribute of another type is not modelled: Jobs encodes the events of
-- Contracts.
pub mod Prelude
pub mod Config
pub mod Agent
pub mod Contracts
pub mod Json
pub mod Jobs
pub mod Review
pub mod Worker
pub mod Aggregate
pub mod Tools
pub mod Gateway
pub mod Sessions
pub mod Outputs
pub mod Analyzer
pub mod Strategy
pub mod Prompts
pub mod Renderer
pub mod GitHub
pub mod Validator
pub mod Workflow
pub mod Examples
