-- ===== src/Claude/Provider.antt =====
-- The provider of Claude sessions (agent_keepalive/providers/claude.py, ClaudeProvider and
-- ClaudeSession): resolving a target, observing it, and the live view.
use agent_keepalive.Claude.Discovery.{CliResult, discover_claude}
use agent_keepalive.Claude.Jobs.{JobFile}
use agent_keepalive.Claude.Observe.{
  Folders, StateFiles, find_live_entry, load_state, preflight_claude,
}
use agent_keepalive.Claude.Status.{Preflight, job_ok, snapshot_from_claude_sources}
use agent_keepalive.Command.Children.{get_env}
use agent_keepalive.Json.{Fields, as_str, get, get_or, str}
use agent_keepalive.Prelude.{
  Bool, Dict, List, Option, Result, Stateful, String, [], err, if◌then◌else◌, int_eq, nat_eq, none,
  ok, option_beq, pair_eq, put, runtime_error, some, string_eq, text_eq, ◌==◌, ◌>>=◌, ◌||◌, ◌∷◌,
}
use agent_keepalive.Python.{Python, str_of, truthy}
use agent_keepalive.Record.{KeeperRecord}
use agent_keepalive.Record.Deadline.{snapshot_from_record}
use agent_keepalive.Recovery.{Completed, fstring}
use agent_keepalive.Snapshot.{Snapshot}
use agent_keepalive.TimeParse.{Instant}

-- What is asked outside. A job's state file is found by config folder and short id; `discover` runs
-- a program in a config folder and a working folder; `versions` runs a program for its version.
pub record ClaudeHost : Type 0 where
  pub claude_python : Python
  pub folders : Folders
  pub environ : Dict String String
  pub versions : String → Dict String String → Result Completed
  pub discover : (program config_dir cwd : String) → CliResult
  pub state_file : (config_dir short_id : String) → JobFile
  pub state_files : (config_dir : String) → StateFiles
  pub clock : Instant

unfoldable pub checked_claude : ClaudeHost → (program config_dir : String) → Result Preflight
checked_claude host program config_dir =
    preflight_claude host.claude_python host.folders host.environ host.versions program config_dir

unfoldable pub home_config : ClaudeHost → String
home_config host = fstring (host.folders.home_folder ∷ "/.claude" ∷ [])

-- The entries come from CLAUDE_CONFIG_DIR or the home folder, whatever the preflight's folder is.
unfoldable pub list_live_entries : ClaudeHost → (program cwd : String) → List Fields
list_live_entries host program cwd =
    (discover_claude host.claude_python (
      host.discover program
        (host.folders.resolve_path (get_env host.environ "CLAUDE_CONFIG_DIR" (home_config host)))
        cwd)).entries

unfoldable pub observe_claude : ClaudeHost → Preflight → (short_id cwd : String) → Snapshot
observe_claude host preflight short_id cwd =
    let state =
      load_state host.claude_python short_id (host.state_file preflight.config_dir short_id) in
    snapshot_from_claude_sources host.claude_python (some preflight) short_id cwd state
      (find_live_entry short_id state (list_live_entries host preflight.claude_bin cwd)) job_ok none
      none host.clock

unfoldable pub observe_claude_entry :
    ClaudeHost → Preflight → (short_id cwd : String) → (live_entry : Fields) → Snapshot
observe_claude_entry host preflight short_id cwd live_entry =
    snapshot_from_claude_sources host.claude_python (some preflight) short_id cwd
      (load_state host.claude_python short_id (host.state_file preflight.config_dir short_id))
      (some live_entry) job_ok none none host.clock

unfoldable pub seen_or_raise : (short_id : String) → Snapshot → Result Snapshot
seen_or_raise short_id snapshot =
    if truthy (get "seen" snapshot.metadata)
    then ok snapshot
    else err (runtime_error (fstring ("Claude session " ∷ short_id ∷ " was not found" ∷ [])))

pub record ClaudeSession : Type 0 where
  pub session_preflight : Preflight
  pub session_short_id : String
  pub session_cwd : String
  pub claude_snapshot : Option Snapshot

-- ClaudeProvider.session
unfoldable pub claude_session : ClaudeHost → (target_id : String) → Fields → Result ClaudeSession
claude_session host target_id metadata = do
  preflight ←
      checked_claude host (str_of host.claude_python (get_or "claude_bin" (str "claude") metadata))
        (str_of host.claude_python (get_or "config_dir" (str (home_config host)) metadata))
  ok (record {
    session_preflight = preflight;
    session_short_id = target_id;
    session_cwd =
        host.folders.resolve_path
          (str_of host.claude_python (get_or "cwd" (str host.folders.working_folder) metadata));
    claude_snapshot = none;
  })

unfoldable pub keep_seen : Result Snapshot → Stateful ClaudeSession Snapshot
keep_seen (err e) s = (err e, s)
keep_seen (ok snapshot) s = (ok snapshot, record s { claude_snapshot = some snapshot })

unfoldable pub attach_claude : ClaudeHost → Stateful ClaudeSession Snapshot
attach_claude host s =
    keep_seen
      (seen_or_raise s.session_short_id
        (observe_claude host s.session_preflight s.session_short_id s.session_cwd))
      s

unfoldable pub poll_claude : ClaudeHost → Stateful ClaudeSession Snapshot
poll_claude host s =
    keep_seen (ok (observe_claude host s.session_preflight s.session_short_id s.session_cwd)) s

-- A record that the shared supervisor keeps, or the supervisor's own.
unfoldable pub is_shared : KeeperRecord → Bool
is_shared r =
    truthy (get "managed_by_supervisor" r.provider_metadata)
    || (r.target_id == "all" || option_beq (as_str (get "mode" r.provider_metadata)) (some "all"))

-- `Path(cwd_value).resolve() if cwd_value else None`, and the working folder for None.
unfoldable pub cwd_or_here : ClaudeHost → String → String
cwd_or_here host cwd =
    host.folders.resolve_path (if cwd == "" then host.folders.working_folder else cwd)

unfoldable pub observe_record : ClaudeHost → KeeperRecord → Result Snapshot
observe_record host r = do
  preflight ←
      checked_claude host
        (str_of host.claude_python (get_or "claude_bin" (str "claude") r.provider_metadata))
        (str_of host.claude_python
          (get_or "config_dir" (str (home_config host)) r.provider_metadata))
  ok (
      observe_claude host preflight r.target_id
        (cwd_or_here host (str_of host.claude_python (get_or "cwd" (str "") r.provider_metadata))))

unfoldable pub view_session : ClaudeHost → KeeperRecord → Result Snapshot
view_session host r =
    if is_shared r
    then snapshot_from_record host.claude_python r
    else elim (observe_record host r) [
      | ok snapshot ↦ ok snapshot
      | err e ↦ snapshot_from_record host.claude_python r
    ]

unfoldable pub claude_live_view :
    ClaudeHost → List KeeperRecord → Dict String Snapshot → Result (Dict String Snapshot)
claude_live_view host [] view = ok view
claude_live_view host (r ∷ rs) view = do
  snapshot ← view_session host r
  claude_live_view host rs (put r.target_id snapshot view)
