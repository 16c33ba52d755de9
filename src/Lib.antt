-- ===== src/Lib.antt =====
-- NamiSync: sessions that copy, move and verify files between two roots.
--
-- A dispatcher admits sessions, runs each in a worker and publishes what it does as events. A
-- workflow plans operations, selects the ones that are safe to run, and runs them. This library
-- models the parts of that core that hold state or decide, and states what makes them correct.
--
-- Files and the code they model:
--   Evidence    namisync/core/evidence.py: outcomes, recording status, the test for UTC
--   Session     namisync/core/session.py: states, transitions, results (Session/Results), records
--   Contracts   namisync/dispatcher/contracts.py: control codes and the control matrix
--   Events      namisync/core/events.py: event bodies and envelopes with the checks they make
--   Runner      namisync/core/session.py, run_session: a workflow is a tree of the calls it makes
--               (`Work`), and the log holds what the run emits, settles and publishes, in order
--   Bus/Stream  namisync/dispatcher/event_bus.py, EventStream: one observer's bounded queue
--   Bus/Pump    the same file, _AuditPump: the audit thread's queue; `turn` is one command
--   Bus/Hub     the same file, EventHub: sequence numbers, replay and fan-out
--   Paths       namisync/core/pathing.py: validation and comparison keys of relative paths
--               (Paths/Parts: components, parents and the walk to the ancestors)
--   Models      namisync/core/models.py: what is observed of files and volumes, and scans
--   Planning    namisync/core/planning.py: operations, capacity, quarantine
--   Policies    the same file: deletion policies, assignments, mappings, scopes; Planning/Options is
--               the options, the identity destination policy, filters and operation ids
--   Planner     namisync/modules/planner.py: Planner/Assigning to Planner/Assembly are `plan` by its
--               stages, the other children what is proved of it
--   Payloads    namisync/workflows/payloads.py: plans, plan requests and execution
--               requests as JSON values
--   Selection   namisync/workflows/selection.py: the operations that are safe to run, and why the
--               others are not; Selection/Planned goes from the planner's plan to preflight
--   Execution   namisync/core/execution.py: the execution set with its run and commitment, and what
--               remains of it
--   Preflight   namisync/core/preflight.py and namisync/modules/preflight.py: observations, and the
--               judgment of an execution set against them (Preflight/Judging)
--   Integrity   namisync/core/integrity.py: the selection of an integrity run, item by item
--   Verifier    namisync/modules/verifier.py: one item (`_process_item`, Verifier/Processing), the
--               run (Verifier/Running) and its progress reports (Verifier/Reporting)
--   Custody     namisync/dispatcher/custody.py: the leases of one process; a visit to the lock is one
--               step, polling is a list of visits
--   Dispatcher  namisync/dispatcher/dispatcher.py: the tables and `_transition_locked`;
--               Dispatcher/Store is namisync/dispatcher/store.py, Dispatcher/Scheduling is
--               `_schedule`, Dispatcher/Controls is `submit` and the control requests,
--               Dispatcher/Workers is `_run_worker` and what it calls, Dispatcher/Steps puts these
--               blocks together as steps that threads interleave
--   Base        lists, dictionaries, equality, results and numbers that the others share
--   Examples    tests, and each theorem with hypotheses at a concrete input
--
-- How the model stands to the code. Each method under a lock is one function from the state to the
-- state; an interleaving of threads is a list of such steps. An exception is `err`. Counters that
-- may be negative in Python are integers where the code tests their sign, else natural numbers. A
-- path is the list of its code points, and Unicode's uppercase table is the parameter `upper`. A
-- dictionary keeps its insertion order. A clock is the value it returned; what a store, a
-- lock provider or a workflow answers is an argument of the step that asks. What the planner takes
-- from Python's libraries (uppercase, Unicode normal forms, file patterns, sha256 of canonical JSON)
-- is a `Platform`; a path in a plan is one that its record's constructor validated. A JSON value
-- is what `json.loads` returns, with paths as texts and without fractions; what `str`, `int` and
-- `bool` make of a value that a decoder does not expect is a `Casts`; what `isoformat` and
-- `fromisoformat` do is a `TimeTexts`. What a verifier's read comes to, chunk by chunk, and what its
-- checkpoints and its recorder answer is data that the run is given; that includes what closing the
-- file raises. The operations of a plan that concern an assignment, the directories before them and
-- what the target has besides are the segments of Planner/Segments.
--
-- Fuel. The `while changed` loop of the selection runs on as many rounds as there are operations,
-- and one more; each round but the last excludes an operation that was not excluded before. The walk
-- from a path to its ancestors takes as many rounds as the path is long: a parent is shorter.
--
-- Not modelled: SQL and the database, the Windows calls, JSON text, argument parsing; how
-- `shutdown` waits; the executor, scanner and recorder; how preflight observes the filesystem.
pub mod Base
pub mod Evidence
pub mod Session
pub mod Contracts
pub mod Events
pub mod Runner
pub mod Bus
pub mod Paths
pub mod Models
pub mod Policies
pub mod Planning
pub mod Planner
pub mod Selection
pub mod Execution
pub mod Preflight
pub mod Integrity
pub mod Verifier
pub mod Payloads
pub mod Custody
pub mod Dispatcher
mod Examples
