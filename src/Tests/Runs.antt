-- ===== src/Tests/Runs.antt =====
-- Runs of the keeper loop.
use agent_keepalive.Json.{end}
use agent_keepalive.Prelude.{Bool, [], false, none, pos, refl, some, true, ◌*◌, ◌∷◌, ◌≡◌}
use agent_keepalive.Runner.{
  Failure, Pass, attach_with_retry, attached, new_keeper, poll_answered, retry_initial_delay,
  run_keeper, unavailable,
}
use agent_keepalive.Runner.Backoff.{attach_with_retry-delays, delays, failed_attempts, keeper_of}
use agent_keepalive.Runner.Ends.{Sound, run_keeper-Sound}
use agent_keepalive.Snapshot.{RunConfig, Snapshot}
use agent_keepalive.Tests.Data.{sample_py}
use agent_keepalive.TimeParse.{Instant, second}

abbrev sample_config : RunConfig
sample_config = record {
  provider = "codex";
  target_id = "t1";
  idle_timeout = pos (60 * second);
  selected_via = "target";
  metadata = end;
}

abbrev seen_snapshot_at : Bool → Snapshot
seen_snapshot_at ended = record {
  target_id = "t1";
  display_name = none;
  status = "idle";
  loaded = some true;
  blocked = false;
  terminal = ended;
  last_activity_at = some 5000000;
  last_event_at = none;
  idle_since = some 5000000;
  event_count = pos 1;
  metadata = end;
}

abbrev quiet_pass : Instant → Pass
quiet_pass at = record {
  polled = poll_answered (seen_snapshot_at false);
  poll_signal = none;
  ping_failure = none;
  pass_monotonic = 1;
  pass_time = at;
}

abbrev lost_server : Failure
lost_server = record { class_name = "CodexAppServerUnavailable"; message = "no socket" }

-- The server comes up after one failed attempt, and the thread is idle for its minute at the second
-- pass.
run_keeper-Sound_example : Sound sample_py sample_config (
    run_keeper sample_py sample_config 5000000 5000000 0
      (unavailable lost_server 5000000 none ∷ attached (seen_snapshot_at false) ∷ [])
      (quiet_pass 5000000 ∷ quiet_pass 65000000 ∷ [])
      (new_keeper sample_py sample_config (pos 42) "/log" 5000000 []))
run_keeper-Sound_example =
    run_keeper-Sound sample_py sample_config (pos 42) "/log" [] 5000000 5000000 0
      (unavailable lost_server 5000000 none ∷ attached (seen_snapshot_at false) ∷ [])
      (quiet_pass 5000000 ∷ quiet_pass 65000000 ∷ [])

attach_with_retry-delays_example :
    (keeper_of sample_py (
      attach_with_retry sample_py retry_initial_delay
        (unavailable lost_server 5000000 none ∷ attached (seen_snapshot_at false) ∷ [])
        (new_keeper sample_py sample_config (pos 42) "/log" 5000000 []))).waits
    ≡ delays (
        failed_attempts
          (unavailable lost_server 5000000 none ∷ attached (seen_snapshot_at false) ∷ []))
unfolding new_keeper
attach_with_retry-delays_example =
    attach_with_retry-delays sample_py
      (unavailable lost_server 5000000 none ∷ attached (seen_snapshot_at false) ∷ [])
      (new_keeper sample_py sample_config (pos 42) "/log" 5000000 []) refl refl
