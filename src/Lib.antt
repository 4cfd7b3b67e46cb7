-- ===== src/Lib.antt =====
-- A verification library for the Go backend of the repository: the control plane that runs an agent
-- against a web application under test.
--
-- The program's parts that are modelled, and where:
--
--   AgentService.Types, .Memory   backend-go/internal/agentservice/types.go, repository.go and
--                                 memory_repository.go: runs, events and the repository in memory. A
--                                 method is an action on the record `MemoryRepository`; the mutex makes
--                                 it one step. CreateRun is create_run, and so for the others.
--   AgentService.Service          backend-go/internal/agentservice/service.go: the methods of Service,
--                                 as actions on the record `Service`, which holds the repository, the
--                                 broker, and how often the clock was read and an id was drawn.
--   AgentService.Broker           backend-go/internal/agentservice/broker.go: subscriptions and their
--                                 channels, on a heap.
--   TaskPlan.Types, .Memory       backend-go/internal/taskplan/types.go and memory_repository.go: plans,
--                                 their steps, and the repository of all versions of a run's plan.
--   TaskPlan.Rules, .Validate     backend-go/internal/taskplan/service.go, validateDefinition and the
--                                 vocabulary of steps.
--   TaskPlan.Window               contiguousPendingSteps of service.go: which steps an exploration may
--                                 work on.
--   TaskPlan.Probe                mapProbeActionOwners of service.go and what a result proves of a step.
--   TaskPlan.Changes              the parts of RecordToolResult, RecordToolFailure, Approve, markTerminal
--                                 and CreateVersion between reading a plan and saving it, as functions
--                                 on plans.
--   TaskPlan.Service              the methods of the plan service that write, on a record that holds the
--                                 repository and how often the clock was read.
--   TaskPlan.Authorize            Authorize and ValidateGenerationBinding of service.go, and the
--                                 comparison of a DSL case with its plan. The agent's tools ask it before
--                                 each call and tell the service the result after it.
--   Agent.Types, .Loop            backend-go/internal/agent/loop.go: the loop over the turns of a run,
--                                 ModelContext and latestToolError, and what they read of a tool
--                                 summary (tool_result.go). The model, the turn handler and the turn
--                                 budget are functions on a state of the caller's (`Caller`).
--   AgentService.Trace            backend-go/internal/agentservice/pipeline_trace.go: the traces of tool
--                                 calls and model requests, their validation and their recording.
--   Tools                         backend-go/internal/tools/tool.go: the registry of tools; a handler is
--                                 a function on what it can reach.
--   Harness.Policy                backend-go/internal/harness/policy.go: BeforeToolCall, the budgets of
--                                 explorations, and the repeats of failed calls.
--   Harness.Cost                  backend-go/internal/harness/harness.go: the cost fuses of a run, its
--                                 turn budget and its segments, on the map of active runs.
--   Harness.Trace                 backend-go/internal/harness/pipeline_trace.go: the identity of a tool
--                                 call, and the traces of its progress.
--   Harness.State, .Records       what a turn acts on (`Turn`), the parameters (`Setup`), and what the
--                                 harness writes into the log and the transcript of a run.
--   Harness.Turn                  the turn handler of harness.go: for each call of a response, the plan
--                                 service's Authorize, the policy, the execution, and what follows. It
--                                 joins the run service, the plan service, the policy and the registry;
--                                 `executed` records, in the model only, what was handed to the tools.
--   Harness.Run                   Continue, Resume and CancelOwned of harness.go: the agent loop with this
--                                 handler, what follows an error of it, and a user's answer.
--   Prelude                       what the parts share: Go's maps keyed by strings, the functions of
--                                 package strings, signed integers, methods that may return an error.
--
-- The clock, the id generator and encoding/json are parameters (`Dependencies`, and `Contract` for the
-- plan service, which also takes the hashes, the case table of runes, strings.EqualFold, and the parts of
-- the plan service and of internal/browsercontract that are left out: deriving target bindings
-- from an observation, rebinding one, and the research-v2 comparison of compiler.go; `Environment` for
-- the policy; `Setup` for the harness, which also takes the tools, the texts of errors, the summaries of
-- results, and the items of a lineage). Strings are valid
-- UTF-8, read as code points. Nil and empty maps and slices are one, which the modelled code does not
-- tell apart except in JSON, where the difference is written out. Contexts are left out, since the
-- repositories in memory ignore them; what others do to the services while a tool runs is part of the
-- tool. Every loop is over a list, but for the agent loop, which runs on fuel: one more than a bound on
-- its turn limit is enough (Agent.Loop.Turns).
--
-- Not modelled: the repositories on PostgreSQL (queries), HTTP handlers, the tools behind the registry,
-- the model client, building and bounding the
-- summaries of results, telemetry, the DSL, execution and research packages, the browser worker (Python)
-- and the frontend (TypeScript).
pub mod Agent
pub mod AgentService
pub mod Examples
pub mod Harness
pub mod Prelude
pub mod TaskPlan
pub mod Tools
