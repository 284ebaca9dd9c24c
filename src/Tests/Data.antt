-- ===== src/Tests/Data.antt =====
-- Concrete answers of the standard library and of the outside, and concrete states, for the runs.
use agent_keepalive.Claude.Discovery.{CliResult}
use agent_keepalive.Claude.Jobs.{JobFile, readable}
use agent_keepalive.Json.{end, field, obj, str}
use agent_keepalive.Paths.{keeper_state_name}
use agent_keepalive.Prelude.{
  Dict, List, Option, String, [], if◌then◌else◌, int_eq, nat_eq, none, pair_eq, pos, some,
  string_eq, text_eq, ℕ, ◌==◌, ◌∷◌,
}
use agent_keepalive.Python.{Python}
use agent_keepalive.Record.{KeeperRecord, new_record}
use agent_keepalive.Supervisor.State.{Key, SessionLifecycle, Supervisor, World}
use agent_keepalive.TimeParse.{Instant}

-- Two time stamps, and no other, are known.
unfoldable pub sample_isoformat : Instant → String
sample_isoformat t =
    if t == 5000000
    then "0001-01-01T00:00:05+00:00"
    else if t == 65000000
    then "0001-01-01T00:01:05+00:00"
    else "later"

unfoldable pub sample_from_isoformat : String → Option Instant
sample_from_isoformat s =
    if s == "0001-01-01T00:00:05+00:00"
    then some 5000000
    else if s == "0001-01-01T00:01:05+00:00"
    then some 65000000
    else none

abbrev pub sample_py : Python
sample_py = record {
  parse_int = λ s. none;
  repr = λ v. "?";
  isoformat = sample_isoformat;
  from_isoformat = sample_from_isoformat;
}

-- A job that has ended, and one that was never written.
abbrev pub ended_job : JobFile
ended_job = readable 20 20 (some (obj (field "state" (str "done") end)))

abbrev pub sample_world : ℕ → JobFile → CliResult → World
sample_world monotonic file discovery = record {
  py = sample_py;
  fingerprint = λ root. "f00d";
  pid = pos 42;
  monotonic = monotonic;
  now = 5000000;
  run_discovery = λ root. discovery;
  job_folders = λ root. some [];
  job_file = λ root id. file;
  resolve = λ path. some path;
}

abbrev pub sample_key : Key
sample_key = ("/r", "0123abcd")

abbrev pub sample_session : Option ℕ → Option ℕ → SessionLifecycle
sample_session missing_since terminal_since = record {
  target_id = "0123abcd@f00d";
  config_root = "/r";
  short_id = "0123abcd";
  missing_since = missing_since;
  terminal_since = terminal_since;
  signature = none;
}

abbrev pub sample_record : KeeperRecord
sample_record =
    new_record "claude" "0123abcd@f00d" (pos 42) none (pos 60) "/log" "all" end
      "0001-01-01T00:00:05+00:00"

abbrev pub sample_supervisor : Dict Key SessionLifecycle → List Key → Supervisor
sample_supervisor sessions retired = record {
  claude_bin = "claude";
  config_roots = "/r" ∷ [];
  cwd = none;
  discovery_interval = 30;
  disappearance_grace = 60;
  terminal_grace = 60;
  log_path = "/log";
  last_discovery_at = [];
  discovery_entries = [];
  discovery_results = [];
  sessions = sessions;
  retired_terminal = retired;
  transition_count = 0;
  store = (keeper_state_name "claude" "0123abcd@f00d", sample_record) ∷ [];
  self_record = sample_record;
}
