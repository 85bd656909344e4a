-- ===== src/Lib.antt =====
-- Ingestion of source databases into lakehouse tables: the decisions of the ingest and check jobs, and of the
-- operations app that schedules them.
--
-- A run takes the enabled control rows of a collection and their checkpoints. The planner routes each
-- row (a full load, a seed, a reseed, a pending append, or change detection), detection asks each
-- source database once what changed, and the worker applies the plans, in batches where rows append
-- to one sink, with retries and with a limit on the queries of each source. A check does the routing
-- and the detection alone, stamps the unchanged databases, and shares the others out over the ingest
-- runs that the launcher starts. These sources are under src/lakefed_ingest/. The operations app (app/src/)
-- places a job's databases in groups, and keeps a Databricks job for each member of a schedule.
--
-- The files and the code they model (a module per part, its state as a record, a function per
-- operation, with the source's names):
--   Prelude      shared names: tests, lists, texts as code points, results, sorted lists
--   Strategies   load_strategies.py and the adapter table of source_adapters.py: which pairs of
--                engine and load type run
--   Control      the columns of a control row and a checkpoint, and the helpers of ct_engine.py and
--                state_store.py that read them (Sink: client and write mode; Identity: what a
--                checkpoint was written for; Positions: versions and cursor positions)
--   Planner      planner.py: Plans (plans and config_error), Rows (identity_change, sink_missing), Route
--                (route_tables), Detect (detect_group), Budget (apply_seed_budget), Retries (retry_plan),
--                Stamps (bulk_rows_to_write and database stamps; Stamps/Writes: unchanged_writes; Stamps/Advance: the
--                update of state_store.bulk_advance_unchanged_sql), Parts
--                (position_from, work_after_locks, cycle_summary, merge_group_results)
--   Batches      batch_append.py: Planning (plan_batches, order_work), Chunks (even_chunks), Write
--                (write_with_bisect), Flat (flatten, describe)
--   Cycle        initial_check.plan_cycle (Shares) and launcher.py (Launch: run_requests,
--                active_collections, outcome, capacity, and the first loop of launch; Requests:
--                cycle_requests, group_size_of)
--   Check        initial_check.check_collection, with planner.group_by_source in Check/Groups
--   Retry        table_retry.py: Policy (RetryPolicy), Runner (with_retries)
--   Parallel     parallel.py: Limiter (SourceLimiter), Slots (WorkSlots), Items (run_parallel,
--                summarize)
--   Copies       cluster_copies.py: matching_copies, adoptable, plan
--   Recovery     state_store.py: decide_action, run statuses, source_shares; Rollups (RollupQueue)
--   Dialect      source_adapters.py: what an adapter quotes, and the texts it builds
--   Partitions   partitions.py: get_partition_list, effective_num_partitions
--   Placement    app/src/placement.py: group counts and `even`; Lightest (the class of that name)
--   Schedules    app/src/schedules.py: offsets, quartz_cron, describe; Settings (job_settings, drift), Sync
--                (the active members' part of sync) with Sync/Run (_sync_group, the deletions, sync), and
--                Skipped (SkippedRuns)
--   Preparing    app/src/preparing.py: Data (a new job's record), the operations on it; Runs (the calls of
--                app/src/main.py, one after another)
--   Poller       app/src/run_poller.py: closure, Poller._reconcile
--   Rediscovery  app/src/rediscovery.py: wanted, what a re-discovery adds to a job
--   Tests        each theorem with a hypothesis at a concrete input
-- The other files hold the proofs.
--
-- Errors are values: `Result` carries what the source raises, with the texts of the messages left
-- out. NULL is `none`. A time is a natural number of seconds. A lock makes a run of several threads a
-- sequence of calls, so the shared objects (RetryPolicy, SourceLimiter, WorkSlots, RollupQueue) are functions on
-- their state. The source's queries, the JSON
-- parser, the writes and the worker are parameters, which may fail at any call; so are the answers of the
-- Jobs API, which in `sync` may depend on all the calls made before, and the floats of a partition's stride,
-- and `database_key` of preparing.py.
--
-- Fuel: `write_with_bisect` has two passes for each member and two more, which is enough, as a pass settles its group
-- or splits it in two; `with_retries` has one pass for the first attempt and one for each retry up to the limit.
--
-- Not modelled: the SQL that ct_engine.py, cursor_engine.py and, but for the bulk advance, state_store.py build, Spark and service
-- calls, BatchRunner, the start, poll and wait loops of launcher.launch, run_check and its
-- locks, discovery.py, delete_job.py, the settings and permissions of cluster_copies.py, the notebooks, and of
-- the operations app the fire times in time zones, the job runs by slot, placement.regroup, and all other files. Text is folded and trimmed as ASCII. A share of a cycle is compared by
-- products, where the source divides floats: the two agree while the products stay below 2 ^ 53.
pub mod Prelude
pub mod Strategies
pub mod Control
pub mod Planner
pub mod Batches
pub mod Cycle
pub mod Check
pub mod Retry
pub mod Parallel
pub mod Copies
pub mod Recovery
pub mod Dialect
pub mod Partitions
pub mod Placement
pub mod Schedules
pub mod Poller
pub mod Preparing
pub mod Rediscovery
pub mod Tests
