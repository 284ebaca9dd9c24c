-- ===== src/Tests/Roots.antt =====
-- Runs of the refresh of a root, of the discovery and of the end of the supervisor.
use agent_keepalive.Claude.Discovery.{discover_claude, is_authoritative, timed_out}
use agent_keepalive.Claude.Jobs.{not_found, read_job_state}
use agent_keepalive.Json.{get, int}
use agent_keepalive.Prelude.{
  [], arith, false, if◌then◌else◌, int_eq, length, lookup, nat_eq, none, pair_eq, pos, refl, some,
  string_eq, text_eq, ℕ, ◌∷◌, ◌≡◌,
}
use agent_keepalive.Record.{new_record}
use agent_keepalive.Store.{load}
use agent_keepalive.Supervisor.Frame.{Finds}
use agent_keepalive.Supervisor.Published.{any_live, ran, run_until_stop-published, tick-published}
use agent_keepalive.Supervisor.Root.{
  discovery_authoritative, discovery_due, live_entries_of, refresh_discovery_if_due,
  refresh_root_records,
}
use agent_keepalive.Supervisor.Roots.{
  failed_discovery_keeps, refresh_discovery_if_due_again, refresh_root_records-other,
  untrusted_refresh_keeps,
}
use agent_keepalive.Supervisor.Session.{is_local}
use agent_keepalive.Supervisor.State.{SessionLifecycle, Supervisor, World}
use agent_keepalive.Supervisor.Stop.{ended_without_sessions}
use agent_keepalive.Supervisor.Tick.{fail, stop, tick}
use agent_keepalive.Tests.Data.{
  sample_key, sample_record, sample_session, sample_supervisor, sample_world,
}

abbrev tracked : SessionLifecycle
tracked = sample_session none none

abbrev tracking : Supervisor
tracking = sample_supervisor ((sample_key, tracked) ∷ []) []

abbrev silent_world : ℕ → World
silent_world monotonic = sample_world monotonic not_found timed_out

untrusted_refresh_keeps_example :
    Finds sample_key (some tracked) (refresh_root_records (silent_world 100) "/r" tracking)
unfolding discovery_authoritative lookup is_local read_job_state live_entries_of
untrusted_refresh_keeps_example =
    untrusted_refresh_keeps (silent_world 100) "/r" "0123abcd" tracking tracked refl refl refl

failed_discovery_keeps_example :
    (live_entries_of "/r" (refresh_discovery_if_due (silent_world 100) "/r" tracking)
      ≡ live_entries_of "/r" tracking)
    × (discovery_authoritative "/r" (refresh_discovery_if_due (silent_world 100) "/r" tracking)
        ≡ false)
unfolding discovery_due lookup is_authoritative discover_claude
failed_discovery_keeps_example = failed_discovery_keeps (silent_world 100) "/r" tracking refl refl

refresh_discovery_if_due_again_example :
    refresh_discovery_if_due
      (silent_world 110)
      "/r"
      (refresh_discovery_if_due (silent_world 100) "/r" tracking)
    ≡ refresh_discovery_if_due (silent_world 100) "/r" tracking
unfolding discovery_due lookup
refresh_discovery_if_due_again_example =
    refresh_discovery_if_due_again (silent_world 100) "/r" tracking refl (silent_world 110)
      (omega arith)

refresh_root_records-other_example :
    lookup sample_key (refresh_root_records (silent_world 100) "/q" tracking).sessions
    ≡ lookup sample_key tracking.sessions
refresh_root_records-other_example =
    refresh_root_records-other (silent_world 100) "/q" tracking "/r" "0123abcd" refl

ended_without_sessions_example :
    (load "claude" "0123abcd@f00d" (stop (silent_world 100) tracking).store ≡ none)
    × (load "claude" "0123abcd@f00d" (fail (silent_world 100) "OSError" tracking).store ≡ none)
unfolding lookup
ended_without_sessions_example =
    ended_without_sessions (silent_world 100) "OSError" tracking sample_key tracked refl

abbrev named_all : Supervisor
named_all = record tracking { self_record = record sample_record { target_id = "all" } }

tick-published_example :
    (load "claude" "all" (tick (silent_world 100) named_all).store
      ≡ some (tick (silent_world 100) named_all).self_record)
    × ((tick (silent_world 100) named_all).self_record.target_status
        ≡ (if any_live (tick (silent_world 100) named_all).sessions then "active" else "idle"))
    × ((tick (silent_world 100) named_all).self_record.event_count
        ≡ pos (tick (silent_world 100) named_all).transition_count)
    × (get "visible_sessions" (tick (silent_world 100) named_all).self_record.provider_metadata
        ≡ int (pos (length (tick (silent_world 100) named_all).sessions)))
unfolding new_record
tick-published_example = tick-published (silent_world 100) named_all refl refl

run_until_stop-published_example :
    (load "claude" "all"
        (tick (silent_world 100) (
          ran
            (silent_world 0)
            "claude"
            "/bin/claude"
            "2.1.139"
            ("/r" ∷ "/r" ∷ [])
            none
            "/log"
            30
            1
            60
            60
            []
            (silent_world 50 ∷ []))).store
      ≡ some
          (tick (silent_world 100) (
            ran
              (silent_world 0)
              "claude"
              "/bin/claude"
              "2.1.139"
              ("/r" ∷ "/r" ∷ [])
              none
              "/log"
              30
              1
              60
              60
              []
              (silent_world 50 ∷ []))).self_record)
    × ((tick (silent_world 100) (
          ran
            (silent_world 0)
            "claude"
            "/bin/claude"
            "2.1.139"
            ("/r" ∷ "/r" ∷ [])
            none
            "/log"
            30
            1
            60
            60
            []
            (silent_world 50 ∷ []))).self_record.target_status
        ≡ (if any_live
              (tick (silent_world 100) (
                ran
                  (silent_world 0)
                  "claude"
                  "/bin/claude"
                  "2.1.139"
                  ("/r" ∷ "/r" ∷ [])
                  none
                  "/log"
                  30
                  1
                  60
                  60
                  []
                  (silent_world 50 ∷ []))).sessions
            then "active"
            else "idle"))
run_until_stop-published_example =
    run_until_stop-published (silent_world 0) "claude" "/bin/claude" "2.1.139" ("/r" ∷ "/r" ∷ [])
      none "/log" 30 1 60 60 [] (silent_world 50 ∷ []) (silent_world 100)
