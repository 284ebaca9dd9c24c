-- ===== src/Record/Deadline.antt =====
-- src/agent_keepalive/state.py, idle_deadline, and providers/codex.py, snapshot_from_record.
use agent_keepalive.Prelude.{
  Option, Result, String, err, if◌then◌else◌, leb, ltb, negsuc, none, ok, overflow_error, pos, some,
  ℤ, ◌*◌, ◌+◌, ◌-◌, ◌>>=◌,
}
use agent_keepalive.Python.{Python, parse_timestamp}
use agent_keepalive.Record.{KeeperRecord}
use agent_keepalive.Snapshot.{Snapshot}
use agent_keepalive.TimeParse.{Instant, instants_end, second}

-- reference + timedelta(seconds=n): a sum outside the years 1 to 9999 is an OverflowError.
unfoldable pub add_seconds : Instant → ℤ → Result Instant
add_seconds reference (pos n) =
    if ltb (reference + n * second) instants_end
    then ok (reference + n * second)
    else err overflow_error
add_seconds reference (negsuc n) =
    if leb ((n + 1) * second) reference
    then ok (reference - (n + 1) * second)
    else err overflow_error

module _ (py : Python) where
  -- parse_timestamp(record.idle_since) or parse_timestamp(record.last_activity_at)
  unfoldable pub reference_time : KeeperRecord → Result (Option Instant)
  reference_time r = do
    idle ← parse_timestamp py r.idle_since
    elim idle [ some t ↦ ok (some t) | none ↦ parse_timestamp py r.last_activity_at ]

  unfoldable pub idle_deadline : KeeperRecord → Result (Option String)
  unfolding reference_time
  idle_deadline r = do
    reference ← reference_time r
    elim reference [
      | none ↦ ok none
      | some t ↦ (do
        deadline ← add_seconds t r.idle_timeout_seconds
        ok (some (py.isoformat deadline)))
    ]

  -- snapshot_from_record, of providers/codex.py and providers/claude.py alike.
  unfoldable pub snapshot_from_record : KeeperRecord → Result Snapshot
  snapshot_from_record r = do
    last_activity_at ← parse_timestamp py r.last_activity_at
    last_event_at ← parse_timestamp py r.last_event_at
    idle_since ← parse_timestamp py r.idle_since
    ok (record {
      target_id = r.target_id;
      display_name = r.display_name;
      status = r.target_status;
      loaded = r.loaded;
      blocked = r.blocked;
      terminal = r.terminal;
      last_activity_at = last_activity_at;
      last_event_at = last_event_at;
      idle_since = idle_since;
      event_count = r.event_count;
      metadata = r.provider_metadata;
    })
