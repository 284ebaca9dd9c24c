-- ===== src/Claude/Status.antt =====
-- providers/claude.py: the normalized status of a Claude session, from its job file and from
-- discovery.
pub mod Cases
use agent_keepalive.Json.{
  Fields, Value, as_obj, as_str, bool, end, field, float, get, get_or, int, millionths, null,
  or_null, str,
}
use agent_keepalive.Prelude.{
  Bool, List, Option, String, [], contains, false, if◌then◌else◌, int_eq, int_ltb, nat_eq, none,
  not, pair_eq, pos, some, string_eq, text_eq, true, ℤ, ◌-◌, ◌==◌, ◌||◌, ◌∷◌,
}
use agent_keepalive.Python.{Python}
use agent_keepalive.Snapshot.{Snapshot}
use agent_keepalive.TimeParse.{Instant}

abbrev terminal_states : List String
terminal_states = "done" ∷ "failed" ∷ "error" ∷ "stopped" ∷ "cancelled" ∷ []

abbrev active_states : List String
active_states = "active" ∷ "running" ∷ "working" ∷ "in_progress" ∷ "busy" ∷ []

-- status in TERMINAL_STATES, status in ACTIVE_STATES
unfoldable pub is_terminal_state : String → Bool
is_terminal_state s = contains terminal_states s

unfoldable pub is_active_state : String → Bool
is_active_state s = contains active_states s

unfoldable pub value_as_str : Option Fields → String → Option String
value_as_str none key = none
value_as_str (some payload) key = as_str (get key payload)

-- isinstance(tasks, bool) or not isinstance(tasks, (int, float)), as a value in millionths.
unfoldable pub task_count : Value → Option ℤ
task_count (int n) = some (millionths n)
task_count (float x) = some x
task_count _ = none

unfoldable pub in_flight_tasks : Option Fields → ℤ
in_flight_tasks none = pos 0
in_flight_tasks (some state) = elim (as_obj (get "inFlight" state)) [
  | none ↦ pos 0
  | some in_flight ↦ elim (task_count (get_or "tasks" (int (pos 0)) in_flight)) [
    | none ↦ pos 0
    | some tasks ↦ tasks
  ]
]

-- `a or b` on optional texts: an empty text counts as absent.
unfoldable pub or_text : Option String → Option String → Option String
or_text none b = b
or_text (some a) b = if a == "" then b else some a

abbrev pub test : (String → Bool) → Option String → Bool
test p none = false
test p (some s) = p s

abbrev pub text_or : String → Option String → String
text_or default none = default
text_or default (some s) = s

unfoldable pub ends_run : String → Bool
ends_run s = is_terminal_state s || s == "blocked"

unfoldable pub status_from_payload : Option Fields → Option Fields → String
status_from_payload state live_entry =
    let state_name = value_as_str state "state" in
    let live_status = value_as_str live_entry "status" in
    if test ends_run state_name
    then text_or "unknown" state_name
    else if int_ltb (pos 0) (in_flight_tasks state)
    then "active"
    else if test is_active_state live_status
    then "active"
    else if test is_active_state state_name
    then "active"
    else text_or "unknown" (or_text state_name (or_text live_status (some "unknown")))

-- The outcome of reading a job file: "ok", "missing" or "invalid".
pub data JobOutcome : Type 0 where
  job_ok job_missing job_invalid : JobOutcome

pub record JobStateResult : Type 0 where
  pub outcome : JobOutcome
  pub payload : Option Fields

unfoldable pub source_status : JobOutcome → Option Fields → Option Fields → String
source_status job_invalid state live_entry = "state_invalid"
source_status job_missing state (some live_entry) = "state_missing"
source_status _ state live_entry = status_from_payload state live_entry

pub record Preflight : Type 0 where
  pub claude_bin : String
  pub version : String
  pub config_dir : String

abbrev pub is_present : Option Fields → Bool
is_present none = false
is_present (some _) = true

module _ (py : Python) where
  -- The OverflowError of `astimezone` at the ends of the calendar is left out.
  unfoldable pub safe_parse_timestamp : Option String → Option Instant
  safe_parse_timestamp none = none
  safe_parse_timestamp (some raw) = py.from_isoformat raw

  -- The age of a time stamp, in microseconds; one in the future counts as 0.
  unfoldable pub state_age_seconds : Option String → Instant → Value
  state_age_seconds raw now = elim (safe_parse_timestamp raw) [
    | none ↦ null
    | some parsed ↦ float (pos (now - parsed))
  ]

  unfoldable pub source_metadata :
      Option Preflight
      → String
      → String
      → Option Fields
      → Option Fields
      → Option String
      → Option String
      → Instant
      → Fields
  source_metadata preflight short_id cwd state live_entry config_dir claude_bin now =
      let session_id =
        or_text (value_as_str live_entry "sessionId") (value_as_str state "sessionId") in
      field "seen" (bool (is_present state || is_present live_entry)) (
        field "state_available" (bool (is_present state)) (
          field "live_entry_available" (bool (is_present live_entry)) (
            field "short_session_id" (str short_id) (
              field "session_id" (or_null session_id) (
                field "claude_bin"
                  (str (elim preflight [
                    | some p ↦ p.claude_bin
                    | none ↦ text_or "claude" (or_text claude_bin (some "claude"))
                  ]))
                  (field "claude_version" (elim preflight [ some p ↦ str p.version | none ↦ null ])
                    (field "config_dir"
                      (str
                        (elim preflight [ some p ↦ p.config_dir | none ↦ text_or "" config_dir ]))
                      (field "cwd" (str cwd) (
                        field "live_status" (or_null (value_as_str live_entry "status")) (
                          field "state_age_seconds"
                            (state_age_seconds (value_as_str state "updatedAt") now) end))))))))))

  unfoldable pub snapshot_from_claude_sources :
      Option Preflight
      → String
      → String
      → Option Fields
      → Option Fields
      → JobOutcome
      → Option String
      → Option String
      → Instant
      → Snapshot
  snapshot_from_claude_sources preflight short_id cwd state live_entry outcome config_dir claude_bin
        now =
      let session_id =
        or_text (value_as_str live_entry "sessionId") (value_as_str state "sessionId") in
      let status = source_status outcome state live_entry in
      let last_activity_at = safe_parse_timestamp (value_as_str state "updatedAt") in
      let terminal = is_terminal_state status in
      let seen = is_present state || is_present live_entry in
      record {
        target_id = short_id;
        display_name = or_text session_id (some short_id);
        status = status;
        loaded = if seen then some (not terminal) else none;
        blocked = status == "blocked";
        terminal = terminal;
        last_activity_at = last_activity_at;
        last_event_at = last_activity_at;
        idle_since = if status == "active" then none else last_activity_at;
        event_count = pos 0;
        metadata =
            source_metadata preflight short_id cwd state live_entry config_dir claude_bin now;
      }
