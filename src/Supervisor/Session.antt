-- ===== src/Supervisor/Session.antt =====
-- claude_supervisor.py, the body of the loop of _refresh_root_records: one session of one root.
use agent_keepalive.Claude.Jobs.{read_job_state}
use agent_keepalive.Claude.Status.{
  JobOutcome, JobStateResult, job_missing, or_text, snapshot_from_claude_sources, text_or,
  value_as_str,
}
use agent_keepalive.Json.{Fields}
use agent_keepalive.Prelude.{
  Bool, Dict, Option, String, contains, false, if◌then◌else◌, int_eq, leb, lookup, nat_eq, none,
  not, pair_eq, put, remove, some, string_eq, text_eq, true, ◌&&◌, ◌+◌, ◌==◌,
}
use agent_keepalive.Snapshot.{Snapshot}
use agent_keepalive.Supervisor.Records.{
  drop_key, is_there, remove_lifecycle, write_disappeared_record, write_snapshot_record,
}
use agent_keepalive.Supervisor.State.{Key, SessionLifecycle, Supervisor, World, new_lifecycle}

-- _entry_cwd
unfoldable pub entry_cwd : World → Option String → String → Option Fields → Option Fields → String
entry_cwd w cwd root live_entry payload =
    let fallback = text_or root cwd in
    elim (or_text (value_as_str payload "cwd") (value_as_str live_entry "cwd")) [
      | none ↦ fallback
      | some raw ↦ if raw == "" then fallback else text_or fallback (w.resolve raw)
    ]

-- state_result.outcome in {"ok", "invalid"}
unfoldable pub is_local : JobOutcome → Bool
is_local job_missing = false
is_local _ = true

unfoldable pub session_snapshot :
    World → String → String → Option Fields → JobStateResult → Supervisor → Snapshot
session_snapshot w root short_id live_entry state s =
    snapshot_from_claude_sources w.py none short_id
      (entry_cwd w s.cwd root live_entry state.payload) state.payload live_entry state.outcome
      (some root) (some s.claude_bin) w.now

-- The session is in neither source, and discovery can be trusted.
unfoldable pub note_missing : World → Key → SessionLifecycle → Supervisor → Supervisor
note_missing w key lifecycle s = elim lifecycle.missing_since [
  | none ↦ write_disappeared_record w key (record lifecycle { missing_since = some w.monotonic }) s
  | some since ↦
      if leb (since + s.disappearance_grace) w.monotonic
      then remove_lifecycle key lifecycle false s
      else s
]

-- The session is terminal: it is recorded until its grace is over.
unfoldable pub note_terminal :
    World → Key → SessionLifecycle → Snapshot → JobOutcome → Supervisor → Supervisor
note_terminal w key lifecycle snapshot outcome s = elim lifecycle.terminal_since [
  | none ↦
      write_snapshot_record w key (record lifecycle { terminal_since = some w.monotonic }) snapshot
        outcome s
  | some since ↦
      if leb (since + s.terminal_grace) w.monotonic
      then remove_lifecycle key lifecycle true s
      else write_snapshot_record w key lifecycle snapshot outcome s
]

-- self._retired_terminal.remove(key), if it is there.
unfoldable pub unretire : Key → Supervisor → Supervisor
unretire key s =
    if contains s.retired_terminal key
    then record s { retired_terminal = drop_key key s.retired_terminal }
    else s

-- What follows `lifecycle.missing_since = None`.
unfoldable pub note_snapshot :
    World → Key → SessionLifecycle → Snapshot → JobOutcome → Supervisor → Supervisor
note_snapshot w key lifecycle snapshot outcome s =
    if contains s.retired_terminal key && snapshot.terminal
    then record s { sessions = remove key s.sessions }
    else if snapshot.terminal
    then note_terminal w key lifecycle snapshot outcome (unretire key s)
    else write_snapshot_record w key (record lifecycle { terminal_since = none }) snapshot outcome
        (unretire key s)

-- The lifecycle of a candidate, in its place among the sessions.
unfoldable pub lifecycle_of : World → String → String → Supervisor → SessionLifecycle
lifecycle_of w root short_id s = elim (lookup (root, short_id) s.sessions) [
  | some lifecycle ↦ lifecycle
  | none ↦ new_lifecycle w root short_id
]

unfoldable pub refresh_session :
    World → String → Dict String Fields → Bool → String → Supervisor → Supervisor
refresh_session w root live_entries authoritative short_id s =
    let key : Key = (root, short_id) in
    let lifecycle = lifecycle_of w root short_id s in
    let s' = record s { sessions = put key lifecycle s.sessions } in
    let state = read_job_state w.py short_id (w.job_file root short_id) in
    let live_entry = lookup short_id live_entries in
    if not (is_local state.outcome) && not (is_there live_entry)
    then (if authoritative then note_missing w key lifecycle s' else s')
    else note_snapshot w key (record lifecycle { missing_since = none })
        (session_snapshot w root short_id live_entry state s') state.outcome s'
