-- ===== src/Lib.antt =====
-- SentinelLLM is a gateway for language models: a request is routed to a model, or to an arm of a
-- canary rollout, is served through a client that retries and falls back, and leaves a trace that is
-- evaluated later; workers watch the traces and change the rollouts, the health of the models and the
-- alerts. This library models its decisions and states what they guarantee.
--
-- Rollout models the canary rollouts of models. Rollout.Window is `ArmWindow` and the queries of
-- src/sentinellm/services/rollouts.py over the tables of traces and evaluations; Rollout.Policy is
-- src/sentinellm/services/rollout_policy.py; Rollout.Table is the row of `model_rollouts` with what it
-- promises; Rollout.Service is the creation of a row, with its payload from
-- src/sentinellm/api/schemas/rollout.py; Rollout.Operator is the four endpoints of
-- src/sentinellm/api/routers/rollouts.py that change a row, with the scope of a key from
-- src/sentinellm/api/deps.py; Rollout.Worker is a pass of src/sentinellm/worker/tasks/rollout.py.
-- Rollout.Arms is the choice of an arm in `_generate` of src/sentinellm/services/generation.py. The
-- table is the list of its rows, and Rollout.History has its histories: a step is a creation, an
-- operator's action or a pass, each atomic, as the row locks and the unique index make them. A
-- creation in a history was admitted on a table that may be older than the one it is inserted into,
-- so two creations may race; the insert itself is checked by the index. Stages, Bounds, Active,
-- Terminal, Windows and Decisions are proofs about these.
--
-- Routing models src/sentinellm/routing/router.py and src/sentinellm/routing/complexity.py: a request
-- passes the gates, the eligible models are scored, and the best one heads the chain that `_generate`
-- calls (Routing.Chain). The statistics of the models are an argument there; Routing.Statistics is the provider
-- of src/sentinellm/routing/stats.py over the tables, and Pricing the catalog and the price of a request
-- of src/sentinellm/pricing. Llm models
-- src/sentinellm/llm/resilient.py over the providers, which are a parameter (Llm.Provider): they change
-- a state of the world that the theorems only count calls in.
--
-- Generation models the choice of the chain in `_generate`: a downgrade for a spent budget, the arm of a
-- rollout, the model that was asked for, or the router, which is a parameter there; and in
-- Generation.Serving the rest of `_generate`, from that chain to the trace, over the cache and the
-- client, with `_failed_attempts`. A text is redacted by a parameter, and an overflow of the context is no
-- failure of a model. Budget models
-- src/sentinellm/services/budget.py with the two dictionaries of a replica as a state; its lifetime of
-- a cached value is counted in microseconds. Health models src/sentinellm/worker/tasks/model_health.py
-- and the changes of a model by src/sentinellm/api/routers/models.py (Models); a dictionary of counts is a function. Cache
-- models src/sentinellm/caching/semantic_cache.py and src/sentinellm/embeddings/similarity.py; what the
-- embedding provider makes of a text is a parameter. Entries created at the same time are scanned in
-- the order of their places.
--
-- Evaluations models src/sentinellm/worker/tasks/evaluate.py with `run_and_persist` of
-- src/sentinellm/evaluation/pipeline.py, and src/sentinellm/worker/tasks/evaluation_recovery.py. A job
-- is one transaction, since nothing is committed between its claim and its result; what the evaluators
-- make of a trace, or that they raise, is an argument; Evaluations.Quality is `_aggregate_quality`.
-- What the queue does in a
-- recovery, an error of any of its calls included, is an argument; the tables are committed before the
-- first of them.
--
-- Alerting models src/sentinellm/worker/tasks/alerting.py: Rules is the definitions and the seeding of
-- their rows, Pass is `evaluate_alert_rules` with the budgets of the applications. A pass reads the clock
-- once, and the table of alerts is a list with the newest first; Operator is the change of a rule by
-- src/sentinellm/api/routers/alerts.py; other parts of the program write alerts
-- under rules of their own. The delivery of a webhook is left out.
--
-- Retrieval models the documents of a data set: Corpus is the bounded cache of
-- src/sentinellm/retrieval/corpus_cache.py with `_corpus_index`, and Ranking is
-- src/sentinellm/retrieval/retriever.py and src/sentinellm/retrieval/reranker.py with
-- `_retrieve_and_rerank`. The vectors of a provider are a parameter, and the words of a text are those of
-- ASCII.
--
-- Regressions models src/sentinellm/worker/tasks/regression.py: Windows is the newest 30 evaluated traces of an
-- application, the 30 before, and what changed between them; Detect is the comparison of the averages and
-- the pass; Flagged and Covered state what the rows of a pass are and which drops get one.
--
-- Datasets models the import of a file by src/sentinellm/api/routers/datasets.py with
-- src/sentinellm/services/dataset_import.py: Texts is the data and the texts, in ASCII for white space and case,
-- Parsing the two parsers, which stop at the first bad line or row, and the endpoint; what `json.loads`,
-- `csv.DictReader` and `bytes.decode` give is an argument, with the errors of theirs that no handler catches.
--
-- Experiments models src/sentinellm/services/experiments.py: Run is `run_experiment` over an interface for
-- `generate`, Pipeline is that interface filled by the parts above for a request that pins its model and its
-- version of a prompt, and Compare is the comparison and the endpoints of
-- src/sentinellm/api/routers/experiments.py. What the evaluators give is an argument. A run that raises
-- leaves the tables as they were, for nothing is committed before its end.
--
-- Workers models src/sentinellm/core/locks.py and `run_once` of src/sentinellm/worker/periodic.py: Passes is
-- `run_once` cut into its steps, over an interface for the locks of the database with their documented
-- laws, by which the requests of one connection stack; Turns is the interleaving of the replicas as a
-- relation of such steps, in which a connection may be lost under a pass that goes on; Held and Steps are
-- who has the locks. A pass has a connection of its own for the lock, and one that is lost before the lock
-- is asked for shows as an error of the lock.
--
-- Access models the keys of the API: Keys is src/sentinellm/api/deps.py with the roles of
-- src/sentinellm/api/security.py, and Endpoints is the creation, the revocation and the rotation of a key
-- in src/sentinellm/api/routers/applications.py, whose endpoints for the applications are Applications. The digest of a key is a parameter; the column of the
-- digest is unique, so the first row that has it is the one.
--
-- Prompts models src/sentinellm/services/prompts.py: a template is cut at its placeholders by one scan,
-- in which a found placeholder skips its own characters; a version is the row with its prompt and
-- number, which are unique. Prompts.Registry is the endpoints of src/sentinellm/api/routers/prompts.py; a
-- creation reads one table and is flushed into another, which may be later.
--
-- PromptRollouts models the canary rollouts of prompt versions over the same policy and windows: the
-- creation of src/sentinellm/services/prompt_rollouts.py with its payload from
-- src/sentinellm/api/schemas/prompt_rollout.py (Service), the endpoints of
-- src/sentinellm/api/routers/prompt_rollouts.py that change a row (Operator), and a pass of
-- src/sentinellm/worker/tasks/prompt_rollout.py (Worker). Its History has the races of Rollout.History.
-- An alert there keeps the parts of its two texts, which are cut to 100 characters when rendered.
--
-- Float is the interface of Python's float: the models run over any instance, and a theorem that needs
-- more than the tests takes the laws `IsOrdered`, facts of IEEE 754 (NaN is not comparable, so some
-- theorems ask for numbers). Float.Fixed is an instance that meets the laws, for the examples. Tables
-- has the rows that several parts read. Text has the functions on strings, over code points; case and
-- white space are those of ASCII.
--
-- Times are microseconds from an epoch, so a difference stops at 0, where the code would go before the
-- epoch. Loops over rows, attempts and chains are structural recursion: no fuel is used. In a pass of
-- the worker the tables of models, traces and evaluations stay as they are from row to row, while the
-- clock may differ for every row. Two rows of a table with the same creation time are ordered by their
-- place. The texts of messages, logs and metrics are left out, except that a row keeps which text it
-- has. Everything else of the repository is not modelled: the dashboards' queries, the HTTP layer, the
-- evaluators, the providers themselves.
pub mod Prelude
pub mod Float
pub mod Tables
pub mod Rollout
pub mod Llm
pub mod Text
pub mod Routing
pub mod Health
pub mod Cache
pub mod Budget
pub mod Generation
pub mod Evaluations
pub mod Pricing
pub mod Access
pub mod Alerting
pub mod Retrieval
pub mod Workers
pub mod Regressions
pub mod Datasets
pub mod Experiments
pub mod Prompts
pub mod PromptRollouts
mod Examples
