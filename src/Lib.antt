-- ===== src/Lib.antt =====
-- The Kiroku backup manager (src/kiroku/): a scheduler fires jobs, each job becomes a batch with one
-- run for each device, the specs of the runs travel through Redis streams to the workers, and the
-- recorder takes the results, keeps the texts in a git repository, and evaluates compliance policies.
--
-- Which file models what, with the names of the source kept:
--   Settings      src/kiroku/config.py
--   Models        src/kiroku/models/*.py: the rows and the enums, as records and data types
--   Jobs          src/kiroku/jobs.py: the messages
--   Parsers       src/kiroku/parsers.py: parse and its engines; Parsers/Tables is on TextFSM rows
--   Compliance    src/kiroku/compliance.py; its children are on checks, policies, scope and results
--   Queue         src/kiroku/queue.py; Queue/Unpack is on what a consumer gets
--   Credentials   src/kiroku/credentials/*.py: the resolvers
--   Dispatch      src/kiroku/dispatch.py: Specs and Fire hold _spec_for and fire_job; Targets,
--                 Tallies, Streams, NewRuns, Added and Firing are on them
--   Scheduler     src/kiroku/scheduler/runner.py: _next_fire and _fire_due; Ticks and Raises are on
--                 them
--   Recorder      src/kiroku/recorder: Store and Diff are git_store.py; State, Payload, Persist
--                 and Reaper are runner.py, with session_scope of db/session.py; Staging,
--                 DiffNumbers, Counters, Applied, Counting, Closing and Reaping are on them
--   Worker        src/kiroku/worker: _handle of runner.py, and scrapli_runner.py: Sessions holds what
--                 it calls, Normalize its text functions, Cli, Netconf and Execute the rest; Outcomes,
--                 Runs, Executing, Backups, Scans, Handling and Endings are on them
--   Cve           src/kiroku/cve: the client of the CVE service, on the fields that it reads
--   Web           src/kiroku/web: Runs is routes/runs.py, Import is import_devices.py with
--                 routes/api/devices.py, Auth is auth.py with routes/auth.py, and Search is what
--                 routes/search.py does beside its queries; their children are on them
--   Lifecycle     the transactions of Dispatch, Recorder and Web/Runs on the same tables: Steps has
--                 them as a step relation, Batches what holds of the systems that they reach while no
--                 run gets a second result, and the other children that each step keeps the
--                 batches balanced
--   Prelude, Text, Runtime   shared helpers, Python's text functions, and Python values
--   Tests         small instances of the parameters, and the theorems at concrete inputs
--
-- State is passed explicitly. The rows of the database are lists of records with an id; an exception
-- is an `err` that the caller sees, and a handler whose exception rolls back gives the old rows. The
-- streams are the unknown state of a Redis server whose commands are a parameter. Times are
-- numbers. Loops are structural recursion over the lists that they run through, so that no fuel is
-- needed.
--
-- Parameters, since their code is not in the repository: Redis, pydantic's JSON, Fernet and Vault,
-- croniter and the time zones, the template engines, the git repository, the sessions of scrapli,
-- the csv reader, the identity provider, the CVE service, and Python's objects, floats and regular
-- expressions. A theorem that relies on one names what it relies on: IsLog says that XADD adds one
-- entry, IsKept that XACK and XDEL add none, IsFresh that mkstemp makes a new file, and IsForward
-- that the next time of a cron expression is later.
--
-- Not modelled: the other pages and their handlers (devices, jobs, schedules, groups, policies),
-- the SQL of the search, the process pool of the workers, the loops around the scheduler and the
-- recorder with their signals and locks, failures of the disk and of git, the git history, logging,
-- and the order in which two transactions that overlap commit: a step of Lifecycle is one
-- transaction as a whole.
pub mod Prelude
pub mod Text
pub mod Runtime
pub mod Settings
pub mod Models
pub mod Jobs
pub mod Parsers
pub mod Compliance
pub mod Queue
pub mod Credentials
pub mod Dispatch
pub mod Scheduler
pub mod Recorder
pub mod Worker
pub mod Cve
pub mod Web
pub mod Lifecycle
pub mod Tests
