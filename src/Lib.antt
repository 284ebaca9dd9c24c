-- ===== src/Lib.antt =====
-- A verification library for agent-keepalive, a program that watches coding-agent sessions and
-- keeps Codex threads attached until they have been idle for a given time.
--
-- The program and its parts. A keeper process attaches to one target of a provider. For Codex it
-- keeps a tracker of the thread, fed by snapshots and notifications; from the tracker comes the
-- snapshot that the keeper loop tests for idleness, and the record that stands in the state folder.
-- For Claude one supervisor process visits several config roots: it runs discovery at intervals,
-- reads the job files, makes a snapshot of each session from both, and keeps one record a session.
-- The command line reads the records of all keepers, drops those of dead processes, starts keepers
-- and stops them. A Codex keeper talks to its server in JSON-RPC messages over a websocket, and sees
-- to it first that the server has the version that is expected.
--
-- Which file models what; paths are from the root of the repository.
--   Prelude          tests, equality, lists, dictionaries, exceptions and integers for all parts
--   Json, Python     JSON values, and the calls of the standard library that are parameters
--   TimeParse        src/agent_keepalive/timeparse.py: parse_duration, format_duration,
--                    format_relative_time
--   Activity         src/agent_keepalive/activity.py: ThreadActivityTracker; Activity.Invariant and
--                    Activity.Idle hold the theorems on it
--   Snapshot         src/agent_keepalive/providers/base.py: Snapshot, should_detach
--   Codex            src/agent_keepalive/providers/codex.py: the snapshots of a thread; Codex.Session
--                    is CodexSession, the choice of a thread and the live view, and Codex.Noticed
--                    joins it to Rpc
--   Paths            src/agent_keepalive/paths.py: the names of state and log files
--   Record           src/agent_keepalive/state.py: KeeperRecord, from_dict, asdict, idle_deadline
--   Store            src/agent_keepalive/state.py: StateStore, on files (save_file, load_file,
--                    list_files, remove_file) and on records (save, load, list_records,
--                    remove_record); src/agent_keepalive/cli.py: remove_stale_records
--   Claude           src/agent_keepalive/providers/claude.py: Claude.Ids, Claude.Status, Claude.Jobs
--                    and Claude.Discovery, one for each kind of source; Claude.Observe (the version
--                    check, roots, environment, entries and states), Claude.Provider and
--                    Claude.Resolve
--   Runner           src/agent_keepalive/runner.py: Keeper, with run as run_keeper; Runner.Ends and
--                    Runner.Backoff hold the theorems on it
--   Supervisor       src/agent_keepalive/claude_supervisor.py: State, Records (what is written to
--                    the store), Session (the body of the loop over candidates), Root (discovery
--                    and one root), Tick (tick, run and its ends), and the theorems in Frame,
--                    Lifecycle, Removal, Shown, Roots, Grace, Published and Stop
--   Ws               src/agent_keepalive/ws.py: UnixWebSocket; Frames is _recv_frame, Events is
--                    recv_event; Pieces, Exact, Packed, Received, Stages, Whole, Sent, Messages and
--                    Pings are about what is read and sent, Bounded, Ends and Waiting about the loops;
--                    Handshake is connect, Opening the bound of its loop
--   Rpc              src/agent_keepalive/rpc.py: JsonRpcClient; Steps is its threads' turns, Calls is
--                    src/agent_keepalive/app_server.py; Places, Once and Closing hold the
--                    theorems
--   Recovery         src/agent_keepalive/providers/codex_recovery.py: Versions, Listener (finding and
--                    ending a process), Flow (ensure_current_codex_app_server); Current, Signals and
--                    Restarts hold the theorems
--   Command          src/agent_keepalive/cli.py: Stop (command_stop), Children (command_start, the
--                    command line and environment of a keeper), Service (command_service,
--                    query_live_view, tail_file), Run (command_run); Once and Allowed hold the
--                    theorems
--   Tests            runs on concrete data
--
-- How state is modelled. An object with attributes is a record, and a method takes it and returns
-- it, with an exception as a value of Result; Stateful names this where calls are chained. The
-- supervisor shares its SessionLifecycle objects with its dictionary of sessions, so a method that
-- changes one puts it back under its key. What a tick learns from outside, the clocks, discovery's
-- output, the job folders and files, is a World; a Host, a Machine and a ClaudeHost answer for the
-- system elsewhere, and may take into account what has been done. An instance of Python holds the
-- standard library's answers. A datetime is a number of microseconds since year 1, and a monotonic
-- time is a number of microseconds.
--
-- Bounds and fuel. The loop of parse_duration runs on fuel, the length of the text, and
-- TimeParse.Fuel shows that it never runs out. The digits of a number are printed on fuel that
-- exceeds the number. The loops of the two processes run over the list of what the outside answers,
-- so that a theorem on every list holds at every moment of a run. A loop until a deadline runs over
-- the number of turns that the clock leaves it. The loops of the websocket run on fuel, the number of
-- bytes asked for or unread, and end in `no_fuel` without it; Ws.Waiting shows that recv_event never
-- does. The arrivals of a socket are what happens up to some moment of a run, which may be endless:
-- once they are used up the call is `still_waiting`. Every other recursion is structural.
--
-- What is not modelled. Log lines and printing; threads, signal handlers, sockets and processes but
-- for what they answer, which is an argument; the text form of JSON; characters outside ASCII in
-- durations, versions, headers and file names; floats beyond a millionth, but for the rounding of
-- total_seconds, which is modelled; numbers of more than 4300 digits, which int() and json.loads
-- refuse with a ValueError; time stamps that astimezone carries out of the years 1 to 9999, where it
-- raises OverflowError; records that someone else damages while the supervisor runs; what keepers
-- write to the store while a command runs. The parsing of arguments and the search for the socket of a
-- Codex server are left out.
pub mod Prelude
pub mod TimeParse
pub mod Json
pub mod Python
pub mod Activity
pub mod Snapshot
pub mod Codex
pub mod Paths
pub mod Record
pub mod Store
pub mod Claude
pub mod Supervisor
pub mod Runner
pub mod Ws
pub mod Rpc
pub mod Recovery
pub mod Command
pub mod Tests
