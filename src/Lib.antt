-- ===== src/Lib.antt =====
-- A model of the core of harness-ai, a server that runs language-model agents over an append-only
-- event log, and proofs about it. Paths are from the root of the repository.
--
-- The program and how its parts meet. A session is a stream of events in a database. The
-- orchestrator appends each step of a turn to the stream
-- (internal/orchestrator/adapter/outbound/eventstore), asks the permission policy before it
-- dispatches a tool (internal/orchestrator/policy), and when it takes over a session that a crash
-- has left it reads the stream and plans what to do (internal/orchestrator/app/recovery). The
-- stream is tamper-evident by a hash chain (internal/orchestrator/domain/hashchain.go). The loop
-- of an agent (internal/orchestrator/app/agent) builds the window of a turn from the stream
-- (app/agentctx), sends it through the model gateway (internal/modelgateway) to a provider,
-- assembles the answer, gates each tool call by the policy and, where a human is asked, by the
-- approval gate (adapter/inbound/approval), and has the permitted calls executed by the tool
-- runtime (internal/toolruntime), which asks the egress broker for each host. A worker behind the
-- store (internal/orchestrator/projection) reads the events of all sessions and keeps the costs
-- of their turns.
--
--   Prelude: shared names, Boolean tests, lists over the native numbers, maps as functions, the
--     functions of Go's package strings that the code uses, UTF-8 bytes and the comparison of
--     byte slices.
--   Llm: internal/platform/llm (usage.go, message.go, tool.go, response.go, errors.go,
--     request.go): the words that events carry.
--   Domain: internal/orchestrator/domain (event.go, session.go, turn.go, toolclass.go): the event
--     payloads, one constructor for each struct, and the envelope. Domain/HashChain:
--     hashchain.go. Domain/Checkpoint: checkpoint.go.
--   Policy: internal/orchestrator/policy. Policy has the types of policy.go; Policy/Match the
--     rule matching of engine.go (ruleMatches, argMatches, hostMatches, targetHost, isExternal);
--     Policy/Engine NewEngine and Evaluate, whose four steps are one function each. Proofs:
--     Policy/Gates, Policy/Taint, Policy/Order; tests and witnesses: Policy/Examples.
--   Recovery: internal/orchestrator/app/recovery/recovery.go. Recovery/Fold is the loop over the
--     events (one function for each case), Recovery/Collect the three loops that build the plan,
--     and Analyze. Recovery/Spec has the independent description of the log that the theorems
--     compare with; Recovery/Keys and Recovery/Order have the invariants of the maps;
--     Recovery/Turns, Recovery/Executions and Recovery/Suspended have the theorems on the plan;
--     Recovery/Resume has the part of adjudicateResume (internal/orchestrator/app/agent/loop.go)
--     that closes the open turns. Witnesses: Recovery/Examples.
--   EventStore: internal/orchestrator/adapter/outbound/eventstore. EventStore has the tables;
--     EventStore/Append is appendTx with its helpers (store.go, rows.go); EventStore/Sessions has
--     CreateSession, SetSessionStatus, LoadSession, Fork, Load, LoadRange and LoadUpTo
--     (sessions.go, queries.go, read_range.go); EventStore/Verify is VerifyChainIntegrity
--     (read_range.go); EventStore/Ops makes the writing transactions one type. Proofs: Rows,
--     Heads, Invariant, Steps, Commits, Idempotent, Lost, Conflicts, Isolation, Window, Verified,
--     Integrity and Commitment, each named for what it proves. EventStore/Checkpoints is
--     classifyCheckpoints (verify_checkpoints.go), and EventStore/Anchors has the proofs about
--     it. Witnesses: EventStore/Examples, EventStore/AnchorExamples.
--   Retry: internal/modelgateway/app/retry/retry.go. A run of Generate, Stream, CountTokens or
--     Capabilities is its answer and the trace of its calls and waits. Proofs: Retry/Calls,
--     Retry/Backoff; witnesses: Retry/Examples.
--   Context: internal/orchestrator/app/agentctx. Context/Build is BuildWindow with its helpers
--     (agentctx.go), Context/Compaction is PlanCompaction (compaction.go), Context/Clearing is
--     clearing.go with its proofs. Proofs: Context/Boundary (the window behind a compaction),
--     Context/Doubled (the window behind a batch of calls); tests and witnesses:
--     Context/Examples.
--   Approval: internal/orchestrator/adapter/inbound/approval/gate.go. Approval has the state of
--     the gate with its requests, Approval/Steps what a goroutine of Request or Resolve does at a
--     time under the mutex or on a channel, the step relation and its runs. Proofs:
--     Approval/Maps, Approval/Once, Approval/Awake; tests and witnesses: Approval/Examples.
--   Agent: internal/orchestrator/app/agent. Agent has the state of a run and its ports;
--     Agent/Gate is gateCall; Agent/Batch has detectDoomLoop, toolClasses and the first loop of
--     handleToolCalls; Agent/Execute is dispatch with execOne and execVirtual; Agent/Feed the
--     loop over the results and the whole of handleToolCalls (tools.go, virtual_tools.go).
--     Agent/Assembler is assembler.go. Agent/Driver has the ports and settings of a whole run,
--     buildRequest, maybeCompact and streamWithContinuations; Agent/Turn is runTurn with
--     classifyFinal (turn.go); Agent/Adjudicate is adjudicateResume and what it calls; Agent/Run
--     is Run with its loop of turns (loop.go). Agent/Logs and Agent/Frame have the rules by which
--     a property is carried through the steps of a batch, Agent/Walk, Agent/Turned and
--     Agent/Resumed through a turn and a resume. Proofs: Agent/Guarded, Agent/Permitted,
--     Agent/Authorized, Agent/Results, Agent/Suspends, Agent/Keys, Agent/Ends, and
--     Agent/Assembler/Reference, Absorb, Calls and Exact; tests and witnesses: Agent/Examples,
--     Agent/RunExamples.
--   Projection: internal/orchestrator/projection. Projection has the cursor (cursor.go) and the
--     rows; Projection/Cost is RollupFold and terminalCost (cost.go) and Project of the cost
--     projector with its two statements (cost_projector.go); Projection/Runner is FetchBatch and
--     SaveCursor (source.go), foldAndAdvance and a round of catchUp (runner.go), and the runs of
--     the worker beside the commits of other transactions. The xmin of the snapshots is a number
--     of the state: a commit is of a transaction that no snapshot had below its xmin, which is
--     what PostgreSQL documents. Proofs: Projection/Order (what a read gives), Projection/Written
--     (what Project makes of the table), Projection/Exact, Projection/Progress; tests and
--     witnesses: Projection/Examples.
--   ToolRuntime: internal/toolruntime. ToolRuntime/Ledger is adapter/outbound/dedup/store.go,
--     ToolRuntime/Execute is app/execute/service.go, one function for each stage of Execute.
--     Proofs: ToolRuntime/Answered, ToolRuntime/Once, ToolRuntime/Egress; tests and witnesses:
--     ToolRuntime/Examples. ToolRuntime/Broker is
--     internal/toolruntime/adapter/outbound/egress/broker.go, and ToolRuntime/Listed has the
--     proofs of what its lists admit.
--   Gateway: the transport between the orchestrator and the model gateway. Gateway has the
--     messages of proto/boltrope/v1; Gateway/Outbound is
--     internal/orchestrator/adapter/outbound/modelgw (request.go, normalize.go, adapter.go);
--     Gateway/Inbound is internal/modelgateway/adapter/inbound/grpc (map.go, server.go) and the
--     cost report of internal/modelgateway/app/service.go; Gateway/Registry and Gateway/Builtin
--     are internal/modelgateway/app/capabilities/capabilities.go. Proofs: Gateway/RoundTrip,
--     Gateway/Relay; tests and witnesses: Gateway/Examples.
--
-- State and errors. A Go map with an order slice is a function from keys with the list of its
-- keys. A database transaction is a function from the tables to an answer and the tables after
-- it; an error is a value of the answer. That the database undoes the statements of a transaction
-- that it does not commit is taken from PostgreSQL: a transaction that stops at an error leaves
-- the old tables, and so does a COMMIT that fails, but for one that has taken effect while its
-- answer was lost. Row-level security is the function visible. Sequence numbers, epochs and
-- counts are natural numbers: the code only adds to them and compares them, and a bound that the
-- code reads as not positive is 0. Token counts are 64-bit words with their wrap-around. The
-- interleaving of concurrent writers is the order of their transactions, since a transaction is
-- atomic in the database.
--
-- Parameters. SHA-256, the JSON encoding of a payload, the clock and the answer to COMMIT are
-- fields of a record; unicode.ToLower and url.Parse are fields of another; prices are an
-- argument; the inner provider, the random wait and the end of a context are arguments of the
-- retry policy; the ports of the agent loop and of the tool runtime, encoding/json on the
-- arguments of a call, floating-point costs, the schema of a plan, the sorting of keys and the
-- printing of values are fields of a record each. What a theorem needs of them is among its
-- hypotheses. Every loop is structural over a list, or over the number of attempts that are left,
-- but for the loop of turns, which runs on fuel: one more than the cap of turns, which is enough,
-- since each turn counts and a run that has reached the cap ends.
--
-- Not modelled. The decoding of stored rows, the errors of a lost connection, the times and the
-- lease owner of a session, the notice that wakes subscribers, logging and tracing; of the agent
-- loop the metrics, the forwarding of deltas to the client, and the concurrency of the read-only
-- pool (the calls of a batch are dispatched in their order, and the model keeps the log only),
-- the encoding of messages on the wire, the provider adapters of the model gateway, the sandbox
-- and the tools, of the projections the other sinks, the lag and the commits within a round of
-- catchUp, which is one step of the model, the subscribers of the approval gate, the sub-agents
-- and hooks, the development binary and the transport adapters, which are further parts of the
-- program; the daemons, configuration and telemetry, which are wiring.
pub mod Prelude
pub mod Llm
pub mod Domain
pub mod Policy
pub mod Recovery
pub mod EventStore
pub mod Retry
pub mod Context
pub mod Approval
pub mod Agent
pub mod Projection
pub mod ToolRuntime
pub mod Gateway
