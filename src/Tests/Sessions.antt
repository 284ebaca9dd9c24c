-- ===== src/Tests/Sessions.antt =====
-- Runs of the refresh of one session.
use agent_keepalive.Claude.Discovery.{timed_out}
use agent_keepalive.Claude.Jobs.{not_found, read_job_state}
use agent_keepalive.Claude.Status.{job_ok}
use agent_keepalive.Prelude.{
  [], if◌then◌else◌, int_eq, leb, lookup, nat_eq, none, pair_eq, put, refl, remove, some, string_eq,
  text_eq, true, ◌+◌, ◌∷◌, ◌≡◌,
}
use agent_keepalive.Record.{KeeperRecord}
use agent_keepalive.Snapshot.{Snapshot}
use agent_keepalive.Store.{load, remove_record}
use agent_keepalive.Supervisor.Frame.{Finds}
use agent_keepalive.Supervisor.Grace.{refresh_session_missing}
use agent_keepalive.Supervisor.Lifecycle.{Removal}
use agent_keepalive.Supervisor.Records.{remove_lifecycle, signature_of, write_snapshot_record}
use agent_keepalive.Supervisor.Removal.{is_seen, refresh_session-Removal, seen_snapshot}
use agent_keepalive.Supervisor.Session.{is_local, lifecycle_of, note_missing, refresh_session}
use agent_keepalive.Supervisor.Shown.{OwnRecord, Recorded, write_snapshot_record-Shows}
use agent_keepalive.Supervisor.State.{SessionLifecycle, Supervisor, World}
use agent_keepalive.Tests.Data.{
  ended_job, sample_key, sample_session, sample_supervisor, sample_world,
}

-- A session that was missing for the grace.
abbrev gone_world : World
gone_world = sample_world 100 not_found timed_out

abbrev gone_session : SessionLifecycle
gone_session = sample_session (some 10) none

abbrev gone_supervisor : Supervisor
gone_supervisor = sample_supervisor ((sample_key, gone_session) ∷ []) []

refresh_session-Removal_example :
    Removal gone_world gone_supervisor sample_key gone_session true
      (is_seen gone_world "/r" [] "0123abcd")
      (seen_snapshot gone_world "/r" [] "0123abcd" gone_supervisor).terminal
unfolding refresh_session lookup is_local read_job_state note_missing lifecycle_of remove_lifecycle
    remove put
refresh_session-Removal_example =
    refresh_session-Removal gone_world "/r" [] "0123abcd" gone_supervisor gone_session refl true
      refl

refresh_session_missing_example :
    Finds sample_key
      (if leb (10 + 60) 100 then none else some gone_session)
      (refresh_session gone_world "/r" [] true "0123abcd" gone_supervisor)
    × ((refresh_session gone_world "/r" [] true "0123abcd" gone_supervisor).store ≡ (
        if leb (10 + 60) 100
        then remove_record "claude" "0123abcd@f00d" gone_supervisor.store
        else gone_supervisor.store))
    × (load "claude" "0123abcd@f00d" (remove_record "claude" "0123abcd@f00d" gone_supervisor.store)
        ≡ none)
unfolding is_local read_job_state lookup
refresh_session_missing_example =
    refresh_session_missing gone_world "/r" "0123abcd" [] gone_supervisor gone_session refl refl 10
      refl

abbrev fresh_session : SessionLifecycle
fresh_session = sample_session none none

abbrev ended_world : World
ended_world = sample_world 100 ended_job timed_out

-- A snapshot of a session that has no record yet.
abbrev blank_supervisor : Supervisor
blank_supervisor = record (sample_supervisor ((sample_key, fresh_session) ∷ []) []) { store = [] }

abbrev ended_snapshot : Snapshot
ended_snapshot = seen_snapshot ended_world "/r" [] "0123abcd" blank_supervisor

blank-Recorded : Recorded fresh_session []
unfolding load lookup
blank-Recorded = record { own = λ r e. absurd (cc e) }

write_snapshot_record-Shows_example :
    (r : KeeperRecord) × (load "claude" "0123abcd@f00d"
        (write_snapshot_record ended_world sample_key fresh_session ended_snapshot job_ok
          blank_supervisor).store
      ≡ some r)
    × OwnRecord
        (record fresh_session { signature = some (signature_of ended_world ended_snapshot job_ok) })
        r
write_snapshot_record-Shows_example =
    write_snapshot_record-Shows ended_world sample_key fresh_session ended_snapshot job_ok
      blank_supervisor blank-Recorded
