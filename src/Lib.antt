-- ===== src/Lib.antt =====
-- A model of scheduling-util-py: a scheduler that runs a Python function at intervals, remembers
-- its outcomes in a file that several processes may share, is controlled through a local socket,
-- and limits how often it reports.
--
-- The parts and the files that model them:
-- * Controller (src/scheduling_util/_controller.py): the state that the scheduler thread and the
--   socket threads share. Every method of `ScheduleController` runs under the lock of one condition
--   variable, so each is one function from the state to a result and the next state. The field
--   `waiter` says whether the scheduler sleeps in `Condition.wait` and whether it was notified.
-- * ControllerSocket (src/scheduling_util/_controller_socket.py): newline-delimited messages in chunks
--   of any size, the server thread's handling of connections, the client, and the start and stop of
--   the server with the path of its socket. What `recv` and `sendall` do is part of a connection.
--   ControllerSocket.Starting has the starts and stops of several processes on one path, one call of
--   one process at a time.
-- * Schedule.Loop (src/scheduling_util/_schedule.py): the loop of `schedule()`, cut into one step for
--   each access to the controller. `run` plays a list of moves: the scheduler thread's next step, a
--   client's request, or a `KeyboardInterrupt` outside the job. Every list is one interleaving.
-- * Schedule.Attempt (the same file): one attempt, from the heartbeat through the Slack boundary and
--   the wrapper of LastRun to the `with` block of the health check around the scheduled function.
-- * Schedule.SetUp (the same file): the checks of the arguments of `schedule()` and the requests that
--   create or update the health check, with `hc_config_failure`.
-- * Schedule.Prepare (the same file): the run predicate and the history that `schedule()` starts with.
-- * Schedule.Whole (the same file): the loop with its real attempts. It plays a list of events:
--   requests, interruptions, and steps of the scheduler thread, which makes its attempts with
--   Schedule.Attempt. Schedule.Whole.Call is `schedule()` from its start to its end: the set-up, the
--   preparation, the control server, and this loop.
-- * Schedule.Repeat (the same file): `repeat()`, whose calls end as a list of ends says.
-- * SlackErrors (src/scheduling_util/_send_errors_to_slack.py): the error boundary; the posts and the
--   log lines are lists in its state.
-- * Outcome (src/scheduling_util/_types.py).
-- * LastRunHistory (src/scheduling_util/_last_run_history.py): the bounded list of attempts in memory
--   and in a JSON file. `Disk` maps a path to the content of its file; the lock on the file makes
--   each operation one function of the object and the disk; `begin_persist` is a write that a process
--   does not live to end. LastRunHistory.Concurrent takes the appends of several processes apart into
--   the steps of UnderLock: lock, refresh, write, unlock.
-- * World, RunPredicate, LastRun (src/scheduling_util/_last_run.py): the decision whether a job runs,
--   and the wrapper that asks it, runs the job, and records the attempt. `World` has the history, the
--   disk, the forced value of the predicate, and the calls made to the check.
-- * RateLimiter and RollingWindowRateLimiter (src/scheduling_util/_rate_limiter.py). A call of
--   RateLimiter is two steps of its process: it opens or creates the file, whose time it keeps, and
--   does the rest with the lock. RollingWindowRateLimiter.Write takes the write of the state file
--   apart into its calls, each of which may raise, on a directory with inodes of which power may be
--   lost.
-- * PathLock (src/scheduling_util/_lock.py): the re-entrant path lock. Threads that each have a stack
--   of open contexts move one step at a time over the registry, its state objects and the `flock`.
-- * LockFile (the same file): `exclusive_path_lock`, one step of one process at a time, with the
--   inodes, their holders and their modification times.
-- * LogRedactor (src/scheduling_util/_logging_util.py): the removal of secrets from log records and
--   lines, and the callbacks around a formatter.
-- * LogSetup (the same file): the levels and handlers that `stream_logs_to_stderr` and
--   `stream_logs_to_jsonl_file` leave, and `JsonLogEncoder`.
-- * ScheduleCli (src/scheduling_util/_schedule_cli.py): exit codes and their outcomes, the functions
--   that the commands `subprocess`, `py-exec` and `click-invoke` schedule, the control commands, the
--   options of the group (ScheduleCli.Options), and the result callback that calls `schedule()`.
-- * ClickOptions (src/scheduling_util/_click_options.py): the callback for comma-separated values, and
--   the options that the file declares (ClickOptions.Declared).
-- * Prelude has the library's names, Boolean tests, lists, signed integers, and the monad of code
--   that changes a state and may raise. Tests has small runs, and instances of the theorems.
--
-- How they interact: the loop takes the run mode from the controller, sets the forced value of the
-- run predicate, and makes an attempt; an attempt is the wrapper of LastRun around the scheduled
-- function, with the run predicate as its test; both work on the history. The Slack boundary around
-- it decides how the attempt ends. Schedule.Loop takes this end as given for each step;
-- Schedule.Whole makes the attempt and hands its end to the loop.
--
-- A control command sends a request through the client to the server, which asks the controller. The
-- command line checks its options before `schedule()` checks its arguments. The histories and the rate
-- limiters work under the locks, so what each operation does with its lock is one function of the disk.
--
-- What is chosen: times and durations are whole microseconds, as signed integers; the clock is an
-- argument, one for each reading. `from_timestamp` is any function from Unix time to local time. No
-- function of the program runs on fuel: the loop is a step function, its liveness is stated in steps
-- of the scheduler thread (six to end after a quit, eight to serve a request, the longest way round
-- the loop), and all else is structural recursion. Run counts are natural numbers; `max_runs` and
-- `max_failures` are signed, as Python takes them.
--
-- Parameters, since their code is not in the repository: `Platform` (the JSON of pydantic, with the
-- law that what was dumped is read back, and the local time zone), `TimestampCodec` (the JSON items
-- of the rolling window, with the same law), `OrderedSet` (its membership, equality and emptiness
-- agree with its list of elements), `CheckClient` and `ManageClient` (hcio_client), `SlackClient`
-- (`requests.post`), `Click` (its choices have listed values), `ResponseCodec` and `RequestCodec`
-- (pydantic), a socket's `Peer` and the server's `System`, and the code that is scheduled.
--
-- Not modelled: the layout of Slack messages; log formats and the lines of the other loggers; help
-- texts, and the options of the subcommands; I/O errors of the disk, but for the write of a rolling
-- window; the creation of directories; a connection to a socket that times out while a scheduler starts;
-- another process in the first lock of the Slack limiter's file, which LockFile and RateLimiter's `Turn`
-- take apart but Schedule.Attempt does not; a `KeyboardInterrupt` before the loop is entered;
-- path locks where there is no posix; timestamps that are not finite; histories on objects that are no
-- file paths; the decorators of LastRun. These are I/O, formatting or declarations.
pub mod Prelude
pub mod Controller
pub mod SlackErrors
pub mod Schedule
pub mod ControllerSocket
pub mod LogRedactor
pub mod LogSetup
pub mod Outcome
pub mod LockFile
pub mod PathLock
pub mod LastRunHistory
pub mod UnderLock
pub mod World
pub mod RunPredicate
pub mod LastRun
mod Tests
pub mod RateLimiter
pub mod RollingWindowRateLimiter
pub mod ScheduleCli
pub mod ClickOptions
