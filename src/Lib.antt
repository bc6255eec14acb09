-- ===== src/Lib.antt =====
-- The planes of VIOS that keep count: the capture plane, which records what has been captured and
-- what is to be fetched next, and the processing plane, which records which pass has run over which
-- video, who is running it now, and in what order and company the passes are loaded.
--
-- The program has six parts here. The capture ledger (vios/capture/ledger.py) is a table of SQLite
-- with one row for every video that was ever named: links are normalised to a key, so that the
-- same video imported twice is one row, and one worker claims the row that is due, fetches it, and
-- marks it uploaded, failed or unavailable. The worker is the loop of vios/capture/engine.py,
-- which asks the pacer (vios/capture/pacing.py) how long to sleep between two fetches. The
-- registry (vios/process/registry.py) declares every pass, a component, as a row of a catalogue:
-- what it needs, what it costs, which machine can host it. From a selection of components it
-- derives a dependency order (`topo_sort`) and packs that order into cohorts, one load of the GPU
-- each (`plan_cohorts`). The coverage table (vios/process/coverage.py) is a table of SQLite with
-- one row for every pair of a video and a component. Workers on machines that do not talk to each
-- other claim rows under a lease, finish them, give them back, or report a failure that comes back
-- after a delay. The component ids of the registry are the values of the column `component` of the
-- table. The engine (vios/process/engine.py) is the worker of that table: for each cohort it asks
-- for the videos that have work left, claims the passes of one video at a time, sorts them by the
-- registry, runs each behind a gate on the passes before it, and writes what came of it back into
-- the table. The job queues (queue_manager.py) stand beside these: lists in Redis, from which the
-- older workers claim jobs, and into which failed jobs return until their retries are spent.
--
-- Common     names and lemmas that the other files share: Boolean tests on numbers, and lists
-- Sql        what the statements of coverage.py use of SQL: UPDATE with a WHERE clause, and the
--            subquery with ORDER BY and LIMIT over row ids
-- Coverage   the columns of the table (`Row`), the constants, the object `Coverage` (`Worker`), the
--            slice of the videos that it sees (`_mine`), and the condition of a claim
--   Claim        `claim`, `candidates`, `claim_for`
--   Finish       `renew`, `release`, `done` (here `finish`), `fail`, `defer`, `skip`
--   Operate      `plan`, `requeue`, `reset_component`, `drop_component`, `reclaim_stale`,
--                `revive_failed`
--   Read         `pending`, `deferred`, `retry_state`, `counts`
--   Errors       `running`, `for_video`, `recent_errors`
--   Reconcile    `reconcile`
--   History      a call of any of these that changes the table, and sequences of calls
--   Sound, Table, Exclusive, Leases, Slices, Retry, Planning, Evidence, Reports    the proofs
-- Ledger     the tables `item`, `membership`, `event` and `meta`, the constants of the retry policy
--   Links        PERMALINK, `canonical`, `upload_key`, `is_upload`, `upload_msg_id`
--   Enqueue      `add`, `add_many`, `adopt`, `adopt_upload`
--   Channel      `bind_channel`, `rebind_channel`
--   Work         `claim_next`, `repair_stale`, `mark_uploaded`, `mark_failed`, `mark_unavailable`,
--                `requeue`
--   Assets       `mark_assets`, `needs_assets`, `asset_counts`
--   Report       `counts`, `next_due_at`, `failures`, `throughput`, `export_urls`
--   History      a call of any of these that changes a row, and sequences of calls
--   Lifecycle    the steps of the work loop and of the imports (`Step`), and the state machine of a
--                video (`Edge`)
--   Find, Sound, Keeps, Choice, Growth, Ladder, Again, Links.Roundtrip, Links.Uploads,
--   Lifecycle.Moves, Lifecycle.Final    the proofs
-- Capture    the parts of the capture plane above its ledger
--   Pacer        `Pacer` of pacing.py
--   Loop         `_wait`, `_snapshot` and the loop of `_run` (`work`, `turn`, `turns`,
--                `run_loop`) of capture/engine.py, with `_one` in Loop/OneItem
--   Pace, Refines, Spaced, Halt, Sleeps, Others, Strands    the proofs
-- Registry   `Component` and its defaults
--   Catalogue    CATALOGUE, in four files by stage
--   Lookup       `BY_ID`, `all_ids`, `defaults`, `missing_dependencies`
--   Topo         `topo_sort`
--   Cohorts      `Cohort` and `plan_cohorts`
--   Machine      `unrunnable`
--   Stages       `stage_of`, `stages_of`, `components_in_stage`
--   Validate     `validate`, with CHANNELS of vios/process/__init__.py
-- Process    what the passes of the engine read and write: its table, its session, the marks
--   Faults       `_is_oom`, `_is_transient_failure`
--   Pass         `_run_pass`
--   OneVideo     `_process_video`
--   CohortRun    `_run_cohort`
--   Control      `start`, `pause`, `resume`, `stop`, `shutdown` and the ends of `_run`
--   Gate, OneVideo.Claimed, OneVideo.Calls, OneVideo.Freed, OneVideo.Ended, OneVideo.Settled,
--   OneVideo.Tally, OneVideo.Counted, OneVideo.Among, CohortRun.Keys, CohortRun.Once, CohortRun.Within,
--   CohortRun.Ends, Control.Threads    the proofs
-- Queue      Redis as a record of operations (`Redis`) with its laws (`IsRedis`), the JSON of an
--            envelope (`Codec`, `IsCodec`), the keys of a queue
--   Jobs         `push_job`, `claim_job`, `ack_job`, `fail_job`
--   Recover      `recover_processing_jobs`, `replay_dlq`, `get_queue_depth`
--   Memory       a Redis in memory and a codec that meet the laws
--   Keys, Held, Moves, Kept, Orphans, Emptied, Fifo    the proofs
--
-- A statement of SQL is a function of the list of rows: an UPDATE maps over the rows that its
-- WHERE clause passes, in the order of the row ids, and a statement runs as a whole, since SQLite
-- serialises writers. A moment is a whole number of milliseconds, and `time.time()`, the token of
-- `uuid4` and the default name of a worker are arguments of the operations that read them. That a
-- token is new is a hypothesis where a theorem needs it. The catalogue is an argument of the
-- functions that read it.
--
-- Six functions run on fuel. Each round of the loop of `topo_sort` places one id, so the number of
-- wanted ids is given as fuel. The decimal form of a message id n is written with fuel n + 1, and
-- each round divides by ten. A sleep of the pacer is given a round for every second and two more;
-- a round that does not take its second ends the sleep. The loop of a cohort is given a round for
-- every video of the table and one more, since a sweep that goes through takes up a video that it
-- has not taken up before. The loops of `recover_processing_jobs` and `replay_dlq` take a text
-- from a list in each round; one round more than the list has texts is enough. Everything else is
-- by recursion on lists.
--
-- A worker marks only the row that it has claimed, which `Step` says as a condition;
-- Capture/Refines proves it of the loop. A turn of the loop takes what comes from outside as a
-- record (`Turn`): the flags of the operator, the moments, what the fetcher and the uploader
-- answer, and the draws of the pacer. A time of the pacer is in milliseconds, its backoff in
-- hundredths and a gap in thousandths of a millisecond, so that the arithmetic is exact. What a
-- pass meets is a record too (`Run`): whether a stop is asked for, the heartbeats by which its
-- runner renews the lease, the moment, and what the runner and the store answer (`Outcome`). What a
-- video meets is a `Meeting`, which says also whether publishing and the eviction of the cache come
-- through, since they can raise after the video is counted. What a cohort meets is a
-- `Surroundings`; its `Progress` carries, besides the variables of the code, the list of the calls
-- of `_process_video`. PERMALINK and the upload keys are read by functions on lists of characters,
-- and of the letters and digits only those of ASCII; what re.IGNORECASE and \d accept outside
-- ASCII is left out.
--
-- Not modelled: the reports `matrix`, `stage_report` and `failures` of coverage.py and the
-- migration of an older table, the texts of the catalogue for the reader, and `estimate`, `rows`
-- and the `as_dict` forms of the registry; of the ledger the import of local files
-- (`add_external`), which reads and hashes them, `recent`, `collections`, `events` and the opening
-- and closing of the database; the start, pause, resume and stop of the capture engine, its
-- settings but for the target of the pacer, and its scan of the channel, and the reports of the
-- pacer; of the engine of the processing plane the sweep over the cohorts with its barriers and
-- its publishing, the residency of the models, the preflight, the settings and the reports; the
-- store, the runners, the fetching and uploading; the heartbeats, the metrics report and the
-- legacy pop of the queues; the reading side (atlas) and the servers, which are other programs
-- around these, or input and output.
pub mod Common
pub mod Sql
pub mod Coverage
pub mod Registry
pub mod Ledger
pub mod Capture
pub mod Process
pub mod Queue
