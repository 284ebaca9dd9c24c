-- ===== src/Tests/Keepers.antt =====
-- Runs of the tracker, the records, the store and the durations.
use agent_keepalive.Activity.{
  Tracker, apply_status, new_tracker, seconds_until_detach, should_detach,
}
use agent_keepalive.Activity.Idle.{
  apply_status_from_snapshot, nothing_left, should_detach-seconds_until_detach,
}
use agent_keepalive.Activity.Invariant.{IsTracked, notified, observe, tracker_invariant}
use agent_keepalive.Codex.{snapshot_from_tracker}
use agent_keepalive.Codex.Detach.{snapshot_should_detach-snapshot_from_tracker}
use agent_keepalive.Json.{Fields, end, field, obj, str}
use agent_keepalive.Paths.{is_alnum, is_safe, keeper_state_name}
use agent_keepalive.Paths.Names.{SafeId}
use agent_keepalive.Prelude.{
  String, [], arith, codes, eq_iff, false, int_eq, nat_eq, none, ok, pair_eq, pos, refl, some,
  string_eq, text_eq, true, ℕ, ◌*◌, ◌==◌, ◌||◌, ◌∷◌, ◌≡◌, ◌≢◌,
}
use agent_keepalive.Record.{KeeperRecord, from_dict, new_record, to_dict, touch}
use agent_keepalive.Record.RoundTrip.{from_dict-to_dict}
use agent_keepalive.Snapshot.{Snapshot, snapshot_should_detach}
use agent_keepalive.Store.{
  Records, list_files, list_records, load, load_file, remove_file, remove_record, save, save_file,
}
use agent_keepalive.Store.Others.{load_other}
use agent_keepalive.Store.Refine.{encode, store_refines}
use agent_keepalive.Tests.Data.{sample_py, sample_record}
use agent_keepalive.TimeParse.{format_duration, parse_duration, second}
use agent_keepalive.TimeParse.Fuel.{Answered, parse_duration-Answered}
use agent_keepalive.TimeParse.RoundTrip.{Printed, parse_duration-format_duration}

abbrev idle_message : Fields
idle_message =
    field "params"
      (obj (field "threadId" (str "t1") (field "status" (obj (field "type" (str "idle") end)) end)))
      (field "method" (str "thread/status/changed") end)

abbrev usage_message : Fields
usage_message =
    field "params" (obj (field "threadId" (str "t1") end))
      (field "method" (str "thread/tokenUsage/updated") end)

-- A thread that was reported as idle at five seconds.
abbrev idle_tracker : Tracker
idle_tracker = observe (new_tracker "t1") (notified idle_message 5000000 ∷ [])

tracker_invariant_example : IsTracked idle_tracker
tracker_invariant_example = tracker_invariant "t1" (notified idle_message 5000000 ∷ [])

should_detach-seconds_until_detach_example :
    should_detach 60 65000000 idle_tracker
    ≡ nothing_left (seconds_until_detach 60 65000000 idle_tracker)
should_detach-seconds_until_detach_example =
    should_detach-seconds_until_detach 60 65000000 idle_tracker

apply_status_from_snapshot_example :
    apply_status "idle" 65000000 true idle_tracker ≡ apply_status "idle" 65000000 false idle_tracker
apply_status_from_snapshot_example = apply_status_from_snapshot "idle" 65000000 idle_tracker

snapshot_should_detach-snapshot_from_tracker_example :
    snapshot_should_detach 60 65000000 (snapshot_from_tracker "t1" idle_tracker end)
    ≡ idle_tracker.status == "notLoaded" || should_detach 60 65000000 idle_tracker
snapshot_should_detach-snapshot_from_tracker_example =
    snapshot_should_detach-snapshot_from_tracker 60 65000000 "t1" idle_tracker end

from_dict-to_dict_example : from_dict sample_py (to_dict sample_record) ≡ ok sample_record
from_dict-to_dict_example = from_dict-to_dict sample_py sample_record

abbrev two_records : Records
two_records =
    save "0001-01-01T00:00:05+00:00" (record sample_record { target_id = "all" })
      ((keeper_state_name "claude" "0123abcd@f00d", sample_record) ∷ [])

store_refines_example :
    (load_file sample_py "claude" "all" (encode two_records) ≡ ok (load "claude" "all" two_records))
    × (list_files sample_py (some "claude") (encode two_records)
        ≡ ok (list_records (some "claude") two_records))
    × (save_file sample_py "later" sample_record (encode two_records)
        ≡ (touch "later" sample_record, encode (save "later" sample_record two_records)))
    × (remove_file "claude" "all" (encode two_records)
        ≡ encode (remove_record "claude" "all" two_records))
store_refines_example =
    store_refines sample_py "later" (some "claude") "claude" "all" sample_record two_records

-- A record that has been idle since second five.
abbrev idle_record : KeeperRecord
idle_record = record sample_record {
  target_status = "idle";
  idle_since = some "0001-01-01T00:00:05+00:00";
}

abbrev idle_snapshot : Snapshot
idle_snapshot = record {
  target_id = "0123abcd@f00d";
  display_name = none;
  status = "idle";
  loaded = none;
  blocked = false;
  terminal = false;
  last_activity_at = none;
  last_event_at = none;
  idle_since = some 5000000;
  event_count = pos 0;
  metadata = end;
}

parse_duration-format_duration_example :
    (k : ℕ) × (parse_duration (format_duration (pos 5400500000)) ≡ ok (pos (k * second)))
    × Printed 5400500000 k
parse_duration-format_duration_example =
    parse_duration-format_duration 5400500000 (omega arith) (omega arith)

parse_duration-Answered_example : Answered (parse_duration (codes "1h x"))
parse_duration-Answered_example = parse_duration-Answered (codes "1h x")

safe_t1 : SafeId "t1"
unfolding is_safe is_alnum
safe_t1 = (refl, (refl, tt))

safe_t2 : SafeId "t2"
unfolding is_safe is_alnum
safe_t2 = (refl, (refl, tt))

t1-ne-t2 : ◌≢◌ {A = String} "t1" "t2"
t1-ne-t2 e = ground (arith, eq_iff "t1" "t2")

abbrev t1_record : KeeperRecord
t1_record = record sample_record { target_id = "t1" }

load_other_example :
    (load "claude" "t2" (save "later" t1_record two_records) ≡ load "claude" "t2" two_records)
    × (load "claude" "t2" (remove_record "claude" "t1" two_records)
        ≡ load "claude" "t2" two_records)
unfolding new_record
load_other_example =
    load_other "claude" "t1" "t2" safe_t1 safe_t2 t1-ne-t2 "later" t1_record two_records refl refl
