-- ===== src/Lib.antt =====
-- gleanflow runs a data pipeline, a DAG of stages, as tasks on a leased queue. The controller cuts
-- each stage into chunks, writes them to a manifest in the object store and enqueues one task for
-- each; workers claim tasks, run the stage's function, write a result or a failure marker to the
-- store and settle the task with the queue. A tracker holds the states for the dashboard, and a
-- triage proposes what to do with a failed chunk.
--
-- Which file models which part:
-- - Queue/Local: gleanflow/queue/local.py. `LocalQueue` holds the fields of the class; a task is a
--   reference into `heap`, since queue, workers and controller share task objects and `attempt` is
--   changed in place. A method runs under the lock, so it is one function of the state, with the
--   clock as an argument. `Reach` is a sequence of calls.
-- - Task: gleanflow/task.py. Config: gleanflow/config.py. Stage: gleanflow/stage.py.
-- - Partition: gleanflow/partition.py, `pack` with the variables of its loop in `Packing`, and the
--   sort of `heaviest_first`. Its child Groups is the specification of the packer.
-- - Store: gleanflow/store.py, as the mapping from keys to objects that the other parts use. Its child
--   Interface has the operations and laws of a store, Local has `LocalStore` on the files below its
--   root, S3 has `S3Store` with the service as a parameter, and Config has `store_from_config` and
--   the copies on a local disk. Keys of `LocalStore` that are no plain paths are left out. `S3Store.list` has a turn of fuel for each page. Parts: `PartWriter`
--   of the same file.
-- - Markers: gleanflow/markers.py.
-- - Pipeline: the DAG of gleanflow/pipeline.py. Python's recursion limit is the fuel of `visit`,
--   and reaching it is the result `none`, as it is an exception in Python; a pipeline of n stages
--   that has no cycle is ranked below n along its edges, so a limit of n is enough. Its child Source
--   has the sources and what the decorator `stage` registers.
-- - Tracker: gleanflow/tracker.py, its child Snapshot with `snapshot`.
-- - World and Worker: `run_task` of gleanflow/worker.py on the state that the threads of a run
--   share; the compute may change that state in any way. The child Kept of World says what every thread
--   leaves alone. The child Poll of Worker has `poll_loop`, on fuel for its turns, Once a task
--   that is delivered again, and Entry has what
--   `main` takes from the environment.
-- - Controller: gleanflow/controller.py. Plan has `_upstream_chunks` and `_plan`, Manifest has the
--   manifests and `_manifest_replace`, Remedy has `_retry_with`, `_resplit` and `_skip`, Failures has
--   `_handle_failures`, Triage its default handler, Event has `_failure_event` and `_refresh_from_markers`, Stages has
--   `_run_stage`, Pipelines has `run`, Setup the constructor, Drain has `_drain` on the local backend
--   and Cloud on the aws backend. What the workers do between two turns of the drain is any function of
--   the run. Its fuel is a number of turns; as the clock reaches the deadline in the end, the turns
--   until then are enough. In the deadline of six hours a tick of the clock is a second.
-- - Checkpoint: `restore` and `fit` of gleanflow/ckpt.py, as the calls made of the classifier.
--   A fit of n rounds has n + 1 turns of fuel, as each block has a round or more.
-- - Agent: the failure event and `_heuristic` of gleanflow/agent.py, with `peer_stats` in Tools,
--   `LLMFailureAgent` in Llm and `Investigator` in Investigator; the LLM is a parameter.
-- - Monitor: gleanflow/monitor.py, on what the operating system shows at each sample.
-- - Cli: gleanflow/cli.py behind argparse. Infra: gleanflow/infra/apply.py, around terraform.
-- - Polars: gleanflow/polars.py, `groupby_agg` on frames. Polars is a parameter; its child Groups
--   states what the code relies on of it, rows by columns and the documented `group_by`.
-- - Fleet: gleanflow/fleet. Batch has `BatchFleet` with AWS Batch as a parameter, whose documented
--   answers are `IsBatch` of Sizing; asking for the jobs has a turn of fuel for each id. Local has
--   `LocalFleet`, whose `ensure(n)` has n turns, as each adds a live thread.
-- - Context: gleanflow/context.py, the records that a task reads and writes.
-- - Queue/Sqs: gleanflow/queue/sqs.py, with the service SQS as a parameter.
-- - Web: the subscriptions and routes of gleanflow/web/server.py, on parsed requests.
-- - Prelude, Float, Decimal, Text and Json hold what these share: dictionaries with their laws,
--   lists, the operations on floats as a parameter (`FloatOps`), decimal numbers, f-strings and JSON
--   values. A Python exception is `none`. Tests runs the code and the theorems on small inputs.
--
-- The numbers are natural numbers without a bound, as Python's ints are, where the program uses no
-- negative ones; times are clock ticks. Objects in the store are the JSON values that their bytes
-- encode, since the program only reads what it wrote with `json.dumps`.
--
-- Not modelled: how frames and rows become parquet bytes, and the zip of the user's code; sockets,
-- argparse, the imports of user modules, the calls of terraform and of the claude command, and the
-- threads that renew a lease or sample the memory, which are libraries and services; the examples.
pub mod Prelude
pub mod Fleet
pub mod Float
pub mod Decimal
pub mod Json
pub mod Task
pub mod Partition
pub mod Queue
pub mod Tests
pub mod Text
pub mod Store
pub mod Config
pub mod Stage
pub mod Pipeline
pub mod Polars
pub mod Markers
pub mod Monitor
pub mod Tracker
pub mod Web
pub mod World
pub mod Worker
pub mod Parts
pub mod Agent
pub mod Context
pub mod Controller
pub mod Cli
pub mod Infra
pub mod Checkpoint
