-- ===== src/Lib.antt =====
-- AquaOps Copilot: the services, the ingestion worker and the tool policy of a water-operations
-- assistant.
--
-- The parts, by the file that models them:
--   Domain (src/aquaops/domain, src/aquaops/db): the rows of tasks, cases and audit events
--     (Domain/Models), the transaction boundary `session_scope` and the SQL updates
--     (Domain/Session), and the services `create_case`, `transition_persisted_task` and the lookups
--     by owner (Domain/Services).
--   Tasks (src/aquaops/tasks/jobs.py): the identifiers of a message (Tasks/Identifiers), the claim
--     of a task under a lease (Tasks/Claim), its end (Tasks/Finish), one attempt around the
--     ingestion handler (Tasks/Attempt), and the Celery task with its retries (Tasks/Worker).
--   Observability (src/aquaops/observability/logging.py): the payload of a log event.
--   Agent (src/aquaops/agent): the budget of tool calls (Agent/Budget), the authorisation of a
--     call (Agent/Authorize), and the host's sessions, grants and receipts (Agent/Grants) of
--     policy.py; and of coverage.py the minting of evidence (Agent/Evidence), the gate of the
--     dimensions A, B and C (Agent/Coverage) and the fixed answer (Agent/Coverage/Answer);
--     the store of completed runs of state.py (Agent/Runs); and graph.py, one run over all of
--     these (Agent/Graph, Agent/State, Agent/Citations, Agent/Retrieved, Agent/Traces), with the
--     requests that it reads and the renderings of public_diagnostics.py (Agent/Requests,
--     Agent/Diagnostics).
--   Retrieval (src/aquaops/rag): the fusion of two rankings by reciprocal ranks (Retrieval/Fusion),
--     and the request over two providers and a reranker (Retrieval/Hybrid), over abstract scores.
--   Corpus (src/aquaops/rag/public_corpus.py): the reading of a Markdown text into sections and
--     blocks (Corpus/Reading), its tokens (Corpus/Tokens), the greedy packing of segments with an
--     overlap (Corpus/Packing), and the chunking of a document (Corpus/Document).
--   Data (src/aquaops/data/public_window.py, public_anomaly.py; src/aquaops/agent/tools.py): the
--     summary of a window (Data/Window), the screening of an observation against its history
--     (Data/Anomaly), and the strict models and tools around both (Data/Boundary).
--   Cache (src/aquaops/cache/service.py): the invalidation of the retrieval cache in batches.
--   Common: Boolean tests, lists, texts as code points, exceptions as values, timestamps.
--
-- The worker and the services share the database: each transaction is one step on a `Db`, rolled
-- back when it raises. What other sessions commit while a handler runs, or between a read and a
-- write, is a function argument (`meanwhile`, `raced`). The claim of a task is also modelled
-- statement by statement (Tasks/Interleaved), with the commits of others between its statements,
-- and shown to be one whole claim at some moment (Tasks/Serial). An ingestion handler returns,
-- raises an exception that the worker catches, or ends the worker (`crashed`), which then writes
-- nothing more. The table of tasks is a function from the primary key. Times are
-- natural numbers of microseconds. Fresh identifiers, the clock, the ingestion handler and the
-- cache are arguments. Objects whose identity counts (sessions, nonces) are numbers, and sessions
-- stand in a store by their number. A value of the wrong type is `none` where the code accepts
-- any object.
--
-- Of the platform, the gate uses the splitting of a URL, the classes of addresses and characters,
-- and case folding: a record of functions (Agent/Evidence).
--
-- Of floats, of `statistics.median` and of `datetime`, the data layer uses the records of
-- Data/Numbers, whose laws are those of comparisons without NaN, of signs, and of a written
-- instant being read back. The hash of a chunk and the id of its point are functions.
--
-- A run of the graph (Agent/Graph) composes the others: it opens a budget session, has a call
-- authorised, consumes the grant, runs the tool, mints evidence from the receipt, and passes it
-- through the gate. An exception that leaves a function is `none` or `err`; where the code catches
-- it, the next step takes it as a case. The retriever, the printed form of an answer, the formats
-- of numbers, two fresh trace ids and the elapsed time are fields of its environment.
--
-- The loops of the code are recursions on lists. Only the splitting of a long segment
-- (Corpus/Packing) counts its rounds: each consumes a token, so the number of tokens is enough.
--
-- Not modelled: web routing and configuration, the ORM's identity map, Celery's queue, Qdrant,
-- Redis and the model libraries, user and role administration, the acquisition and
-- checking of files, evaluation reports and the command line.
pub mod Common
pub mod Domain
pub mod Observability
pub mod Tasks
pub mod Agent
pub mod Retrieval
pub mod Cache
pub mod Corpus
pub mod Data
