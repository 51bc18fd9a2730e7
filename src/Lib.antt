-- ===== src/Lib.antt =====
-- CivicLoop: the model budget of its agents, the approval workflow of LaunchLoop and its evaluation,
-- the capabilities and arguments of agents' tools, and the drafts that are sent to providers.
--
-- CivicLoop prepares campaigns for civic events. Seven parts are modelled, those of the Django backend
-- over the database rows that they read and write:
--   * backend/agents/budgets.py keeps what the runs of agents may spend on models. A run reserves the
--     price of its estimate out of a monthly limit, and later settles, releases or is charged for it;
--     reservations that are past their time expire. The run statuses that protect a reservation are
--     rows that other parts change.
--   * backend/launchloop carries one event revision to a delivered campaign: engine.py and
--     owner_events.py prepare the package, services.py is the workflow around it (run, answer, submit,
--     decide), and models.py has its tables.
--   * backend/agents/capabilities.py issues and revokes short-lived tokens for the tools of one workflow
--     revision, and bound_tool_context of backend/agents/mcp.py says what a token is good for.
--   * backend/agents/tool_schemas.py bounds and checks the arguments of a tool call.
--   * backend/agents/mcp.py is the broker of tool calls: under a token it answers questions about the
--     workflow, stores what agents propose, and opens the operations that become drafts.
--   * backend/integrations/draft_operations.py sends what an agent proposed to Eventbrite or Iterable: an
--     operator submits a draft or template for review, an owner approves it, and a claim, which is
--     committed before the request, lets it be sent once; a reconciliation reads an unknown outcome
--     back. It reads the agents' runs, intents and capabilities, the workflow and the owner's sessions.
--   * loops/launchloop/launchloop.py is the offline evaluation: it prepares a package for each labelled
--     case with its own copy of the rules, and compares it with what the case expects.
-- The parts write no rows of each other: the budget, the workflow and the drafts interact through the
-- runs of agents and what the drafts read. The broker uses the arguments' check and the capabilities,
-- and writes the proposals and operations that the drafts read.
--
-- Prelude and its children have the library names, Boolean tests, lists, results (an error carries no
-- state: a call that raises is rolled back), tables as lists of rows with a key, and signed numbers.
--
-- Budget.antt: the tables of backend/agents/models.py (ModelProfile, RoutingPolicy, BudgetPeriod,
-- BudgetReservation, BudgetLedgerRecord, the run fields that budgets.py reads) and their constraints.
-- Budget/Cost, Reserve, Settle and Release have the functions of budgets.py by their names; a function
-- takes the time and the database and answers its result with the new database. Amounts are
-- microdollars on unbounded numbers, as in Python; token counts that a caller passes may be negative.
-- Budget/Accounts says when the accounts balance; its children prove it of every operation.
--
-- Launch.antt and Launch/Text: JSON values, the package of a campaign, and operations on texts.
-- Launch/Engine: engine.py. Launch/Owner: owner_events.py. Launch/Workflow: the rows of one workflow
-- and `_transition`; Launch/Workflow/Calls: reset_demo, run_workflow, answer_questions,
-- submit_workflow and decide_approval, each a function of the board of rows. Consistency says what
-- holds of a board between calls, Life runs calls in any order.
--
-- Evaluation.antt and its children: launchloop.py of loops/launchloop. Checks has the sponsor check, the
-- detection of refused requests and the drafts; Packages has generate_package, and Cases evaluate_case.
--
-- Capability.antt: the tables and the three functions of capabilities; Capability/Bound relates them.
--
-- Json.antt: JSON values with json.dumps. Tool.antt: tool_schemas.py by its names; Tool/Limits and
-- Tool/Accepted say what bounded_json and validate_tool_arguments accept.
--
-- Broker.antt: the rows of mcp.py. Broker/Tools: _execute, _proposal and _operation_payload.
-- Broker/Dispatch: dispatch_mcp_tool, _dispatch and _invoke; a refused call is rolled back and recorded.
-- Broker/Answered and Broker/Scope say what a call has passed that was answered. Broker/History runs
-- calls in any order, with any changes of the other tables in between, and Broker/Replay is about a call
-- that is repeated. Broker/Accepted and Broker/Opened are about the operations that the broker opens and
-- the drafts find.
--
-- Draft.antt: the rows that draft_operations.py reads and writes, and the interface of its neighbours.
-- Draft/Acceptance: digest, _actor, _session, validate_intent. Draft/Review: _review and the start of
-- _iterable_review. Draft/Validation: validate_execution. Draft/Rows: save and the constraints of
-- DraftExecution and TemplateExecution (backend/integrations/models.py). Draft/Service: submit_draft,
-- submit_template, approve_draft and approve_template. Draft/Claim and Draft/Dispatch: execute_draft,
-- reconcile_draft, execute_template and reconcile_template, split where other calls can come between:
-- claim and start_reconcile, prepare (up to the request), finish (what is made of the reply) and abort.
-- Draft/System runs all of these in any order, with crashes, and has the abstract machine of a status;
-- Draft/Authority and Draft/Outcome are about a claim and the end of a failed request. Draft/Payload:
-- the payload checks and request digests of backend/integrations/eventbrite_drafts.py,
-- iterable_drafts.py and iterable_templates.py; the drafts take them as the record Contracts, which
-- Draft/Payload/Contract fills.
--
-- Draft/Adapter: the adapters of the same three files, as calls that send requests and may raise
-- (Call): `_request` with its responses and `_token` in Draft/Adapter, EventbriteDraftAdapter in
-- Eventbrite, IterableDraftAdapter in Campaign, IterableTemplateAdapter in Template. Dispatch has what
-- execute_draft, reconcile_draft and _execute_iterable call. The files named Posts and CallPosts count
-- the requests that write; Gives, ReadBack and Confirmed are about receipts.
--
-- Parameters, since the code is a library's: the hash of a package (SHA-256 of its JSON), the calendar
-- (dates, times, zones, URLs), the word characters of regular expressions, the signature and the
-- digests of tokens, identifiers and times; for the broker also whether the service's token is
-- authentic. For drafts: SHA-256, the texts of ids, whether the secret store leases a credential, what
-- a provider replies, the parsing of dates and the time zones; for the adapters, what the network
-- answers to a request after those before it (a status with a size and what json.loads reads, an HTTP
-- error, a timeout or no connection), and the text of the secret. Loops are structural; the digits of a
-- number take the number as fuel, which is enough since each round divides it by ten.
--
-- Not modelled: HTTP views, telemetry, display names, numbers of an event other than natural ones, the
-- users of the demo, the agents' runtime, identity, secrets, the headers, time limits and connections of
-- HTTP, the naming of tool calls by uuid5, the evaluation judge, and the frontend. Rows are locked and
-- transactions are serial, so that calls are interleaved between transactions only.
mod Prelude
pub mod Budget
pub mod Launch
pub mod Evaluation
pub mod Capability
pub mod Json
pub mod Tool
pub mod Draft
pub mod Broker
