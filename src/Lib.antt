-- ===== src/Lib.antt =====
-- AI DevOps Copilot: the decision and safety core of the agent backend (agent-backend/app).
--
-- An analysis reads the logs of a service, asks a chain of language models for a proposed action, and
-- scores its confidence and its anomaly. The safety controller passes the proposal through a fixed chain
-- of gates, which read the policy in force, the incidents in the memory store (Elasticsearch), the
-- loop detector and the action locks. What it lets through may still need a human: the approval
-- store keeps a signed request until it is decided or it expires. The blast radius of a service tells
-- how far an action on it reaches. Besides the HTTP routes, a webhook of failed pipelines and a watcher of
-- Kubernetes events start analyses of their own accord.
--
-- Files, with the code they follow:
--   Base          lists, texts, tests, dicts, and effects shared by all
--   World         the Elasticsearch client, the clock and floats, as parameters
--   Fixtures      a small store in memory at which the theorems are tried out
--   Actions       the safe and the destructive actions (core/safety.py)
--   Policy        the policy object, its validators, defaults, reload (core/policy.py)
--   Decision      apply_policy (core/decision.py)
--   MemoryStore   incidents, action locks, leases, verification queue (services/memory_store.py)
--   LoopDetector  check_loop (core/loop_detector.py)
--   Safety        validate, gate by gate in the order of the source (core/safety.py)
--   Approval      requests, tokens, decisions, requires_approval (core/approval.py)
--   BlastRadius   the dependency graph and the score (core/blast_radius.py)
--   Watcher       events, cooldown, rate window, queue, stream, evidence
--                 (watchers/k8s_event_watcher.py, services/k8s_evidence.py)
--   Cluster       kubectl, the monotonic clock, sleep, json, as parameters
--   Rollback      snapshots and the way back to one (core/rollback.py)
--   Executor      running an action and polling its rollout (core/action_executor.py)
--   LlmClient     analyze: retries, keys, the chain of models, the vote of two, the loops of tools
--                 (llm/client.py, llm/tools.py)
--   Evaluator     validate_response (core/evaluator.py)
--   Anomaly       the baseline of a service and the score against it (core/anomaly.py)
--   Causality     evidence for a root cause, the redirected target (core/causality.py)
--   Impact        verification jobs and their sweeper (core/impact.py)
--   Correlation   rollouts before an error spike, the rollback candidate (core/deployment_correlation.py)
--   Platforms     the registry of platforms (platforms/registry.py, platforms/service_registry.py)
--   LogProcessor  error types, severity, key events, the summary of logs (log_processor/)
--   Api           the routes and their guard (api/routes.py, api/auth.py)
--   Webhook       failed pipelines that start an analysis (api/v1/webhooks.py, integrations/gitlab.py)
--   Audit         record_analysis (core/audit.py), with save_incident
--   Agent         run_analysis: the stages that call the parts in turn (core/agent.py)
--   Confidence    score_confidence and its breakdown (core/confidence.py)
--
-- State and effects. A function that awaits the client or reads the clock is a function from the
-- outside state to its answer and the state it leaves; a call of the client answers or raises, and
-- `except Exception` is a match on that reply. Module globals (`_pending`, `current_policy`,
-- `_graph_cache`, `_SNAPSHOTS`) are arguments and results. Times are natural numbers of microseconds, and floats
-- are an abstract type with the comparisons and operations that the code uses. A record stands for
-- each dataclass and a data type for each set of messages.
--
-- Fuel. The breadth-first search of blast_radius.py is a recursion on fuel, and the fuel given is the
-- number of entries of the map plus one: each turn takes the service or a key of the map, each of
-- them once. The dispatch loop of the watcher runs over a list of the events it takes, each with the
-- time at which it does, and the retry loop over the attempts that are left. The two poll loops of
-- rollback.py and action_executor.py run on fuel for one turn more than their 90 seconds hold
-- intervals, and end by their own tests within it. `analyze` recurses over the lists of models and keys,
-- and the sweeper runs for a number of turns. The tool loops have the three rounds of the code, and the
-- loop over the stream of events runs over the connections that it makes.
--
-- Not modelled: the start of the application, the texts of the prompts and their sanitizing, the JSON that
-- `_parse_json` finds in an answer, the query of the log index, the metrics, Slack and log lines. They call
-- outside services, are regular expressions, or only move data; where a modelled part needs what they
-- make, it is a parameter. The values of an answer have the types that the prompt asks for, so a proposal that
-- is null is not modelled, and the owner of a lease is a field that queries match whole.
pub mod Base
pub mod Actions
pub mod Policy
pub mod Decision
pub mod World
pub mod Fixtures
pub mod MemoryStore
pub mod LoopDetector
pub mod Safety
pub mod Approval
pub mod BlastRadius
pub mod Watcher
pub mod Confidence
pub mod LlmClient
pub mod Cluster
pub mod Rollback
pub mod Executor
pub mod Evaluator
pub mod Anomaly
pub mod Causality
pub mod Impact
pub mod Audit
pub mod Platforms
pub mod Webhook
pub mod Api
pub mod LogProcessor
pub mod Agent
pub mod Correlation
