-- ===== src/Lib.antt =====
-- A model of the core of Jarvis, an assistant made of agents that talk over a network, with the
-- properties that make its parts correct.
--
-- The parts and how they interact. An agent asks for a capability by a message on the agent network,
-- which finds the providers, copies the request to each and settles a future with the first answer
-- (Network). A user's request passes the stages of the orchestrator, which ends in such requests
-- (Orchestrator, Feedback). What no lead takes is classified as a graph of capabilities, which run
-- as their dependencies complete (Nlu). A lead agent works on a mission (Mission): it recruits other
-- agents or talks with them turn by turn, within the budget of the mission (Collaboration). What
-- agents answer has one form, and answers of several agents are aggregated (Response). Recorded
-- capability calls become protocols, which are registered and executed (Recorder, Protocols).
-- Scheduled prompts are fired when they are due (Scheduler), tasks are kept on a board (Todo),
-- servers are started, checked and restarted (Servers), the machine is watched and agents are
-- alerted (Monitor), and the user is notified (Notification). Services reach the outside by a client
-- that retries (Retry).
--
-- Which file models which part:
--   Prelude        tests on numbers and texts, lists, signed integers, dictionaries, decimal numbers
--   Value          Python's JSON-like values, which messages and results carry
--   Retry          jarvis/utils/retry_client.py: `RetryConfig`, `RetryableHTTPClient.request`
--   Mission        jarvis/core/mission.py: budgets, contexts, briefs, `to_dict` and `from_dict`
--   Collaboration  jarvis/agents/collaboration.py: `recruit`, `dialogue` and their guards, the tool loop
--                  `_execute_as_lead` (Lead), and jarvis/agents/dialogue.py: the session of a dialogue
--   Protocols      jarvis/protocols/models: protocols, steps, arguments, responses;
--                  jarvis/protocols/executor.py (Execution) and jarvis/protocols/registry.py (Registry)
--   Recorder       jarvis/core/method_recorder.py
--   Network        jarvis/agents/agent_network.py: the registries of capabilities (Registry), the
--                  three queues and their back-pressure (Send), the futures of requests (Futures),
--                  the worker (Process), and the system of all these steps (Steps)
--   Scheduler      jarvis/services/scheduler_service.py: the rows and the operations (Store), what is
--                  due after firing (Firing), and the tick loop of jarvis/agents/scheduler_agent
--   Response       jarvis/agents/response.py (Roundtrip, Merge) and
--                  jarvis/agents/response_aggregator.py (Aggregator, Threshold)
--   Feedback       jarvis/core/feedback.py
--   Servers        jarvis/services/server_manager_service.py and jarvis/agents/server_manager_agent: the
--                  life cycle of servers, their checks and restarts (Health), and all steps (Reach)
--   Todo           jarvis/services/todo_service.py: the rows and their operations
--   Notification   jarvis/services/notification_service.py: delivery, the bounded history, the scripts
--   Monitor        jarvis/agents/device_monitor_agent/__init__.py: the severities of components, alerts
--                  and the ticks of the monitor loop
--   Nlu            jarvis/agents/nlu_agent/__init__.py: the classification (Classify, Graph), its cache
--                  (Cache), the run of a graph (Requests, Run) and the handlers (Handlers, Intent)
--   Orchestrator   jarvis/core/orchestrator.py: the catalogue of capabilities (Catalog), the stages of
--                  `process_request` (Routing, Answers) and induction over them (Stages)
--
-- How state and operations correspond to the code. An object is a record with the fields of the
-- class, a method is a function from the state to the new state, and an exception is a constructor
-- of a result type or `none`. Dictionaries are association lists in the order of insertion. Times
-- are natural numbers in one unit and are arguments, as are fresh ids. An `await` ends a step: what
-- other tasks do meanwhile is a step of their own. A task that is created is an entry of `spawned`.
-- A future is a cell of a store, since the dictionary of pending requests and the waiting caller
-- share it. What the outside decides (the outcome of an HTTP call, the reply of a language model,
-- the answer of an agent, the text of a value) is an argument.
--
-- Bounds and fuel. The loop of retries recurses on the rounds that `range(max_retries + 1)` leaves,
-- a dialogue on the turns left, a lead's loop on its `max_recruitments + 3` rounds, all else on
-- lists. The digits of a decimal number run on fuel, for which the number plus one is enough, and
-- the search for cycles in a graph, for which the count of its names is enough. A user's request and
-- a dialogue run alone: no other task changes the history or the budget between their waits.
--
-- Not modelled: the start and stop of tasks, logging and tracing, the clients of external services,
-- the server, and the input and output of speech.
pub mod Prelude
pub mod Value
pub mod Mission
pub mod Collaboration
pub mod Retry
pub mod Protocols
pub mod Recorder
pub mod Network
pub mod Scheduler
pub mod Feedback
pub mod Orchestrator
pub mod Response
pub mod Todo
pub mod Nlu
pub mod Servers
pub mod Notification
pub mod Monitor
