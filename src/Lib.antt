-- ===== src/Lib.antt =====
-- SaaS Agent Lab: an HTTP application that assigns SaaS licences to users, and an agent that carries
-- out natural-language requests on top of it. This library models the application's services, the
-- whole executor of agent runs, the planners and the API that shows runs, for whatever a language model
-- may do.
--
-- The program's parts, and the file that models each:
--   * Models, Models/Enums, Models/Checks: src/app/models. The rows of the seven tables, their enums,
--     and the CHECK constraints of `agent_runs` as one record of Boolean tests.
--   * Schemas/Agent: src/app/schemas/agent.py, the types that the agent layer passes around.
--   * Repositories/*: src/app/repositories, one function for each method. A table is a list of rows in
--     key order; unique indexes, foreign keys and the CHECK constraints of `model_calls` are tests
--     before the insert, which raise. The CHECK constraints of `agent_runs` are not tested at an
--     update: Agent/History has them as an invariant instead.
--   * Services/*: src/app/services. Validation, the operations and their audit events.
--   * Api/Requests: src/app/api/deps.py and the nine endpoints of users, licences and assignments. `serve` is
--     one request: its actor, its transaction, and the status of its answer.
--   * Agent/Executor/*: src/app/agent/executor.py and runs.py, a function for each method and helper
--     (`receive_run`, `extract_intent`, `resolve_run`, `decide`, `call_tool`, `run`, …), each log
--     transaction a definition of its own.
--   * Agent/Decision, Agent/Tools, Agent/Policy, Agent/Resolver, Agent/Verifier, Agent/Planner: the files
--     of the same names in src/app/agent.
--   * Agent/ModelRequests, Agent/PydanticAi, Agent/PydanticAi/IntentPlanner, Agent/PydanticAi/DecisionPlanner:
--     src/app/agent/model_requests.py, pydantic_ai_planner.py and pydantic_ai_decision.py.
--   * Schemas/AgentRuns, its children Validation and Trace, Api/AgentRuns: src/app/schemas/agent_runs.py
--     and src/app/api/agent_runs.py, what is shown of a run and its trace, and the two endpoints.
--   * Session: the database and SQLAlchemy's sessions. A method is a function of the world (the tables,
--     and the readings of the clock), and it returns or raises. `transaction` commits what a block did,
--     or rolls it back if it raised.
--   * Text, Json: what the program uses of Python's `str` and `json`.
--   * Common: tests on numbers and lists, and searches and updates of tables.
--
-- A planner is not code of the application: it is called, and it calls back. Agent/Planner makes what a
-- planner does a tree: it calls a tool, asks for a model request, records one, lets other clients be
-- served, or ends; what a callback gives it, a value or an exception, chooses how it goes on. A planner may
-- ignore an exception, as trees do that go on in the same way. Planners are trees, so
-- runs are by structural recursion and no fuel is needed anywhere. Time is a function from the number of
-- readings to an instant, which is a part of the world.
--
-- The two planners of the program are such trees, made of a `Conversation`: what PydanticAI's agent loop, the
-- provider and the network do (a request with its response or exception, a function tool, an end), each
-- step chosen by what this program's callbacks gave it. The theorem on how often an extraction
-- asks takes as its hypothesis how the loop is documented to spend its output retries, and the one on what a
-- plan copies that the loop outputs only what it reads from a response that it was given; no other theorem
-- needs either.
--
-- The abstract specification is Services/Assignments/Ledger: who may hold a seat, how many a licence has, how
-- many are in use and who holds one, with four steps. Services/Assignments/Refinement has the view of the
-- tables as a ledger, and what each write is to it.
--
-- How the proofs are built: Session/Respects has rules for what a call does to the tables, returned or
-- raised, as a preorder of databases; Session/Raises and Session/Escapes for which exceptions a call can raise,
-- at any tables or where something holds of them;
-- Session/Triples for what holds when it returns; Session/Guarded for what its guards have established;
-- Session/Succeeds evaluates a call that returns. Agent/Plans carries a preorder that each step of a run
-- keeps through whole plans and runs, once for every such preorder. Agent/History is the preorder "every
-- run has evolved", Services/Assignments/Seats the predicate "the tables are consistent", Agent/Shown the
-- predicate "every run and trace can be shown".
--
-- Parameters: `Unicode` holds the interpreter's case mappings, of which only their values on ASCII are
-- known. `Validators` are pydantic's validators of the JSON that is shown, which accept what was dumped of
-- their type within its bounds; `ArgumentModels` are pydantic's validations of a result tool's arguments,
-- which return that tool's own result within its bounds. Keys are one more than the largest in use.
-- Numbers are unbounded, as Python's are.
--
-- Not modelled: the prompts and the set-up of the PydanticAI agents, pydantic's own field validation of
-- bodies but for the range of ids, the configuration, the database engine and the migrations. Each method
-- runs its transactions one after the other: between two of them other requests are served only while a
-- planner runs.
pub mod Common
pub mod Text
pub mod Errors
pub mod Json
pub mod Models
pub mod Schemas
pub mod Session
pub mod Repositories
pub mod Services
pub mod Agent
pub mod Examples
pub mod Api
