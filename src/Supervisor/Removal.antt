-- ===== src/Supervisor/Removal.antt =====
-- claude_supervisor.py, _refresh_root_records: when the refresh of a session drops it.
use agent_keepalive.Claude.Jobs.{read_job_state}
use agent_keepalive.Claude.Status.{JobStateResult}
use agent_keepalive.Json.{Fields}
use agent_keepalive.Prelude.{
  Bool, Bool-cases, Dict, String, arith, beq_refl, false, if◌then◌else◌, inl, inr, int_eq, lookup,
  lookup-put, nat_eq, none, pair_eq, put, some, string_eq, text_eq, true, ◌||◌, ◌≡◌,
}
use agent_keepalive.Snapshot.{Snapshot}
use agent_keepalive.Supervisor.Frame.{Finds}
use agent_keepalive.Supervisor.Lifecycle.{
  Removal, disappearance_over, note_missing-Removal, note_snapshot-Removal, still_retired,
  terminal_over,
}
use agent_keepalive.Supervisor.Records.{is_there}
use agent_keepalive.Supervisor.Session.{
  is_local, lifecycle_of, note_missing, note_snapshot, refresh_session, session_snapshot,
}
use agent_keepalive.Supervisor.State.{SessionLifecycle, Supervisor, World}
use mathlib.Core.Path.{subst}

module _ (w : World) (root : String) (entries : Dict String Fields) (id : String) where
  -- What the job file says.
  abbrev pub job_of : JobStateResult
  job_of = read_job_state w.py id (w.job_file root id)

  -- The job file or discovery has the session.
  abbrev pub is_seen : Bool
  is_seen = is_local job_of.outcome || is_there (lookup id entries)

  -- What is made of the two sources.
  abbrev pub seen_snapshot : Supervisor → Snapshot
  seen_snapshot s = session_snapshot w root id (lookup id entries) job_of s

  module _ (s : Supervisor) (l : SessionLifecycle) (found : Finds (root, id) (some l) s) where
    abbrev placed : Supervisor
    placed = record s { sessions = put (root, id) l s.sessions }

    lifecycle_of_lem : lifecycle_of w root id s ≡ l
    unfolding lifecycle_of
    lifecycle_of_lem = rw (found, lifecycle_of)

    placed-Finds : Finds (root, id) (some l) placed
    placed-Finds = rw (lookup-put (root, id) (root, id) l s.sessions, beq_refl id, beq_refl root)

    pub refresh_session_unseen :
        (authoritative : Bool)
        → is_seen ≡ false
        → refresh_session w root entries authoritative id s
          ≡ (if authoritative then note_missing w (root, id) l placed else placed)
    unfolding refresh_session
    refresh_session_unseen authoritative h = ground (arith, lifecycle_of_lem)

    refresh_session_seen :
        (authoritative : Bool)
        → is_seen ≡ true
        → refresh_session w root entries authoritative id s
          ≡ note_snapshot w
              (root, id)
              (record l { missing_since = none })
              (seen_snapshot placed)
              job_of.outcome
              placed
    unfolding refresh_session
    refresh_session_seen authoritative h = ground (arith, lifecycle_of_lem)

    -- A reason that holds with the session in its place holds without.
    from_placed :
        (authoritative terminal : Bool)
        → Removal w placed
            (root, id)
            (record l { missing_since = none })
            authoritative
            true
            terminal
        → Removal w s (root, id) l authoritative true terminal
    from_placed authoritative terminal (disappearance_over since a p m g) = cc
    from_placed authoritative terminal (terminal_over since p t m g) = terminal_over since p t m g
    from_placed authoritative terminal (still_retired p t r) = still_retired p t r

    unseen-Removal :
        (authoritative terminal : Bool)
        → is_seen ≡ false
        → Finds
            (root, id)
            none
            (if authoritative then note_missing w (root, id) l placed else placed)
        → Removal w s (root, id) l authoritative false terminal
    unseen-Removal true terminal h q =
        elim (note_missing-Removal w (root, id) l placed terminal placed-Finds q) [
          | disappearance_over since a p m g ↦ disappearance_over since a p m g
          | terminal_over since p t m g ↦ terminal_over since p t m g
          | still_retired p t r ↦ still_retired p t r
        ]
    unseen-Removal false terminal h q = absurd (cc (placed-Finds, q))

    -- The refresh of a known session drops it only for one of three reasons: discovery can be trusted,
    -- no source has the session and it has been missing for the grace; or it has ended and has been
    -- so for the grace; or it has ended and was dropped for that before. So a discovery that failed
    -- drops no session that still runs, and no session is dropped when it is first missed.
    pub refresh_session-Removal :
        (authoritative : Bool)
        → Finds (root, id) none (refresh_session w root entries authoritative id s)
        → Removal w s (root, id) l authoritative is_seen (seen_snapshot s).terminal
    unfolding session_snapshot
    refresh_session-Removal authoritative q = elim (Bool-cases is_seen) [
      | inl h ↦ rw h (
          from_placed authoritative (seen_snapshot s).terminal (
            note_snapshot-Removal w (root, id) (record l { missing_since = none })
              (seen_snapshot placed) job_of.outcome placed authoritative
              (subst (Finds (root, id) none) (refresh_session_seen authoritative h) q)))
      | inr h ↦ rw h (
          unseen-Removal authoritative (seen_snapshot s).terminal h
            (subst (Finds (root, id) none) (refresh_session_unseen authoritative h) q))
    ]
