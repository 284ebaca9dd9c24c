-- ===== src/Codex.antt =====
-- src/agent_keepalive/providers/codex.py: snapshots of a Codex thread.
pub mod Detach
pub mod Session
pub mod Noticed
-- snapshot_from_tracker
use agent_keepalive.Activity.{Tracker}
use agent_keepalive.Json.{Fields, as_number, as_obj, as_str, get, get_or, or_null, set_field, str}
use agent_keepalive.Prelude.{
  Bool, Option, Result, String, false, if◌then◌else◌, int_eq, nat_eq, none, ok, pair_eq, pos, some,
  string_eq, text_eq, ◌==◌, ◌>>=◌,
}
use agent_keepalive.Python.{Python, str_of}
use agent_keepalive.Record.{KeeperRecord}
use agent_keepalive.Snapshot.{Snapshot}
use agent_keepalive.TimeParse.{Instant, from_timestamp}

unfoldable pub snapshot_from_tracker : String → Tracker → Fields → Snapshot
snapshot_from_tracker thread_id tracker metadata = record {
  target_id = thread_id;
  display_name = tracker.thread_name;
  status = tracker.status;
  loaded = tracker.loaded;
  blocked = false;
  terminal = tracker.status == "notLoaded";
  last_activity_at = tracker.last_activity_at;
  last_event_at = tracker.last_event_at;
  idle_since = tracker.idle_since;
  event_count = pos tracker.event_count;
  metadata =
      set_field "last_notification_method" (or_null tracker.last_notification_method) metadata;
}

unfoldable pub thread_status : Fields → String
thread_status thread = elim (as_obj (get "status" thread)) [
  | none ↦ "unknown"
  | some status ↦ elim (as_str (get "type" status)) [ none ↦ "unknown" | some s ↦ s ]
]

-- datetime.fromtimestamp(updatedAt), where that is a number.
unfoldable pub thread_activity : Fields → Result (Option Instant)
thread_activity thread = elim (as_number (get "updatedAt" thread)) [
  | none ↦ ok none
  | some seconds ↦ (do moment ← from_timestamp seconds; ok (some moment))
]

unfoldable pub snapshot_from_thread : Python → Fields → Bool → KeeperRecord → Result Snapshot
snapshot_from_thread py thread is_loaded fallback = do
  last_activity_at ← thread_activity thread
  ok (record {
    target_id = str_of py (get_or "id" (str fallback.target_id) thread);
    display_name = elim (as_str (get "name" thread)) [
      | some name ↦ some name
      | none ↦ fallback.display_name
    ];
    status = thread_status thread;
    loaded = some is_loaded;
    blocked = false;
    terminal = thread_status thread == "notLoaded";
    last_activity_at = last_activity_at;
    last_event_at = none;
    idle_since = if thread_status thread == "active" then none else last_activity_at;
    event_count = fallback.event_count;
    metadata = fallback.provider_metadata;
  })
