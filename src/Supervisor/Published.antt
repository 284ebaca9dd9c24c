-- ===== src/Supervisor/Published.antt =====
-- claude_supervisor.py, tick: what the supervisor says of itself in the store.
use agent_keepalive.Claude.Jobs.{read_job_state}
use agent_keepalive.Claude.Status.{JobOutcome, JobStateResult}
use agent_keepalive.Json.{Fields, get, get-set_field_same, int}
use agent_keepalive.Prelude.{
  Bool, Dict, List, Option, Option-cases, String, [], ap, arith, contains, false, if_elim,
  if◌then◌else◌, inl, inr, int_eq, leb, length, lookup, nat_eq, not, pair_eq, pos, put, refl, some,
  string_eq, text_eq, ℕ, ◌&&◌, ◌+◌, ◌==◌, ◌||◌, ◌∙◌, ◌∷◌, ◌≡◌,
}
use agent_keepalive.Record.{KeeperRecord, new_record, touch}
use agent_keepalive.Snapshot.{Snapshot}
use agent_keepalive.Store.{Records, load}
use agent_keepalive.Store.Laws.{load-save_own}
use agent_keepalive.Supervisor.Records.{
  is_there, persist_supervisor, remove_lifecycle, signature_of, write_disappeared_record,
  write_snapshot_record,
}
use agent_keepalive.Supervisor.Root.{
  candidates, discovery_authoritative, discovery_due, live_entries_of, record_discovery,
  refresh_discovery_if_due, refresh_root_records, refresh_sessions,
}
use agent_keepalive.Supervisor.Session.{
  is_local, lifecycle_of, note_missing, note_snapshot, note_terminal, refresh_session, unretire,
}
use agent_keepalive.Supervisor.State.{Key, SessionLifecycle, Supervisor, World, is_known, now_text}
use agent_keepalive.Supervisor.Tick.{
  count_active, is_absent, new_supervisor, note_preflight, refresh_roots, report, run_ticks,
  run_until_stop, tick,
}

-- The refresh of sessions leaves the supervisor's own record alone.
abbrev SameSelf : Supervisor → Supervisor → Type 0
SameSelf s t = t.self_record ≡ s.self_record

module _ (w : World) (key : Key) where
  write_snapshot_record-SameSelf :
      (l : SessionLifecycle) (snapshot : Snapshot) (outcome : JobOutcome) (s : Supervisor)
      → SameSelf s (write_snapshot_record w key l snapshot outcome s)
  unfolding write_snapshot_record
  write_snapshot_record-SameSelf l snapshot outcome s =
      if_elim (SameSelf s) (is_known l.signature (signature_of w snapshot outcome)) _ _ (λ _. refl)
        (λ _. refl)

  write_disappeared_record-SameSelf :
      (l : SessionLifecycle) (s : Supervisor) → SameSelf s (write_disappeared_record w key l s)
  unfolding write_disappeared_record
  write_disappeared_record-SameSelf l s = elim (Option-cases (load "claude" l.target_id s.store)) [
    | inl e ↦ rw (e, write_disappeared_record) refl
    | inr (r, e) ↦ rw (e, write_disappeared_record) refl
  ]

  note_missing-SameSelf :
      (l : SessionLifecycle) (s : Supervisor) → SameSelf s (note_missing w key l s)
  unfolding note_missing remove_lifecycle
  note_missing-SameSelf l s = elim (Option-cases l.missing_since) [
    | inl e ↦ rw (e, note_missing) (write_disappeared_record-SameSelf _ s)
    | inr (since, e) ↦ rw (e, note_missing) (ground arith)
  ]

  note_terminal-SameSelf :
      (l : SessionLifecycle) (snapshot : Snapshot) (outcome : JobOutcome) (s : Supervisor)
      → SameSelf s (note_terminal w key l snapshot outcome s)
  unfolding note_terminal remove_lifecycle
  note_terminal-SameSelf l snapshot outcome s = elim (Option-cases l.terminal_since) [
    | inl e ↦ rw (e, note_terminal) (write_snapshot_record-SameSelf _ snapshot outcome s)
    | inr (since, e) ↦
        rw (e, note_terminal)
          (if_elim (SameSelf s) (leb (since + s.terminal_grace) w.monotonic) _ _ (λ _. refl)
            (λ _. write_snapshot_record-SameSelf l snapshot outcome s))
  ]

  unretire-SameSelf : (s : Supervisor) → SameSelf s (unretire key s)
  unfolding unretire
  unretire-SameSelf s = ground arith

  note_snapshot-SameSelf :
      (l : SessionLifecycle) (snapshot : Snapshot) (outcome : JobOutcome) (s : Supervisor)
      → SameSelf s (note_snapshot w key l snapshot outcome s)
  unfolding note_snapshot
  note_snapshot-SameSelf l snapshot outcome s =
      if_elim (SameSelf s) (contains s.retired_terminal key && snapshot.terminal) _ _ (λ _. refl)
        (λ _.
          if_elim (SameSelf s) snapshot.terminal _ _
            (λ _. note_terminal-SameSelf l snapshot outcome (unretire key s) ∙ unretire-SameSelf s)
            (λ _.
              write_snapshot_record-SameSelf _ snapshot outcome (unretire key s)
              ∙ unretire-SameSelf s))

refresh_session-SameSelf :
    (w : World) (root : String) (entries : Dict String Fields) (authoritative : Bool) (id : String)
    (s : Supervisor)
    → SameSelf s (refresh_session w root entries authoritative id s)
unfolding refresh_session
refresh_session-SameSelf w root entries authoritative id s =
    if_elim (SameSelf s) (not (is_local state.outcome) && not (is_there (lookup id entries))) _ _
      (λ _.
        if_elim (SameSelf s) authoritative _ _
          (λ _. note_missing-SameSelf w (root, id) (lifecycle_of w root id s) s') (λ _. refl))
      (λ _. note_snapshot-SameSelf w (root, id) _ _ state.outcome s')
  where
    s' : Supervisor
    s' = record s { sessions = put (root, id) (lifecycle_of w root id s) s.sessions }

    state : JobStateResult
    state = read_job_state w.py id (w.job_file root id)

refresh_sessions-SameSelf :
    (w : World) (root : String) (entries : Dict String Fields) (authoritative : Bool)
    (ids : List String) (s : Supervisor)
    → SameSelf s (refresh_sessions w root entries authoritative ids s)
unfolding refresh_sessions
refresh_sessions-SameSelf w root entries authoritative [] s = refl
refresh_sessions-SameSelf w root entries authoritative (i ∷ ids) s =
    refresh_sessions-SameSelf w root entries authoritative ids
      (refresh_session w root entries authoritative i s)
    ∙ refresh_session-SameSelf w root entries authoritative i s

-- The supervisor's own record is the one named "all".
abbrev pub IsAll : Supervisor → Type 0
IsAll s = (s.self_record.provider ≡ "claude") × (s.self_record.target_id ≡ "all")

refresh_discovery_if_due-IsAll :
    (w : World) (root : String) (s : Supervisor)
    → IsAll s
    → IsAll (refresh_discovery_if_due w root s)
unfolding refresh_discovery_if_due record_discovery
refresh_discovery_if_due-IsAll w root s h =
    if_elim IsAll (discovery_due w root s) _ _ (λ _. h) (λ _. h)

refresh_roots-IsAll :
    (w : World) (roots : List String) (s : Supervisor) → IsAll s → IsAll (refresh_roots w roots s)
unfolding refresh_roots refresh_root_records
refresh_roots-IsAll w [] s h = h
refresh_roots-IsAll w (root ∷ roots) s h =
    let t : Supervisor = refresh_discovery_if_due w root s in
    let h' : IsAll t = refresh_discovery_if_due-IsAll w root s h in
    let same =
      refresh_sessions-SameSelf w root (live_entries_of root t) (discovery_authoritative root t)
        (candidates w root t) t in
    refresh_roots-IsAll w roots (refresh_root_records w root t) (
      ap (λ (r : KeeperRecord). r.provider) same ∙ h'.0,
      ap (λ (r : KeeperRecord). r.target_id) same ∙ h'.1,
    )

-- Some session is neither missing nor ended.
abbrev pub any_live : Dict Key SessionLifecycle → Bool
any_live [] = false
any_live ((key, l) ∷ sessions) =
    (is_absent l.missing_since && is_absent l.terminal_since) || any_live sessions

count_active-any_live :
    (sessions : Dict Key SessionLifecycle) → (count_active sessions == 0) ≡ not (any_live sessions)
unfolding count_active
count_active-any_live [] = refl
count_active-any_live ((key, l) ∷ sessions) = ground (arith, count_active-any_live sessions)

status_of :
    (sessions : Dict Key SessionLifecycle)
    → ◌≡◌ {A = String}
        (if count_active sessions == 0 then "idle" else "active")
        (if any_live sessions then "active" else "idle")
status_of sessions = ground (arith, count_active-any_live sessions)

-- After a tick the store holds the supervisor's own record as the supervisor has it, and that says
-- "active" if some session is neither missing nor ended and "idle" otherwise, counts as many events
-- as there were transitions, and gives the number of sessions.
pub tick-published :
    (w : World) (s : Supervisor)
    → s.self_record.provider ≡ "claude"
    → s.self_record.target_id ≡ "all"
    → (load "claude" "all" (tick w s).store ≡ some (tick w s).self_record)
      × ((tick w s).self_record.target_status
          ≡ (if any_live (tick w s).sessions then "active" else "idle"))
      × ((tick w s).self_record.event_count ≡ pos (tick w s).transition_count)
      × (get "visible_sessions" (tick w s).self_record.provider_metadata
          ≡ int (pos (length (tick w s).sessions)))
unfolding tick report persist_supervisor touch
tick-published w s p t =
    let refreshed : Supervisor = refresh_roots w s.config_roots s in
    let h = refresh_roots-IsAll w s.config_roots s (p, t) in
    (
      load-save_own (now_text w) "claude" "all" _ refreshed.store h.0 h.1,
      status_of refreshed.sessions,
      refl,
      get-set_field_same "visible_sessions" (int (pos (length refreshed.sessions)))
          refreshed.self_record.provider_metadata,
    )

tick-IsAll : (w : World) (s : Supervisor) → IsAll s → IsAll (tick w s)
unfolding tick report persist_supervisor touch
tick-IsAll w s h = refresh_roots-IsAll w s.config_roots s h

run_ticks-IsAll : (ws : List World) (s : Supervisor) → IsAll s → IsAll (run_ticks ws s)
unfolding run_ticks
run_ticks-IsAll [] s h = h
run_ticks-IsAll (w ∷ ws) s h = run_ticks-IsAll ws (tick w s) (tick-IsAll w s h)

module _ (first : World) (claude_bin found version : String) (roots : List String)
    (cwd : Option String) (log_path : String) (discovery local disappearance terminal : ℕ)
    (records : Records) (ws : List World) where
  -- A supervisor that was made, has passed its preflight and has run for some ticks.
  abbrev pub ran : Supervisor
  ran = run_until_stop first found version ws (
      new_supervisor first claude_bin roots cwd log_path discovery local disappearance terminal
        records)

  -- Of a supervisor that is made, passes its preflight and runs for any number of ticks, the record
  -- in the store is after one more tick the one that the supervisor has, under the name "all", and it
  -- says "active" if some session is neither missing nor ended and "idle" otherwise.
  pub run_until_stop-published :
      (last : World)
      → (load "claude" "all" (tick last ran).store ≡ some (tick last ran).self_record)
        × ((tick last ran).self_record.target_status
            ≡ (if any_live (tick last ran).sessions then "active" else "idle"))
  unfolding run_until_stop note_preflight persist_supervisor new_supervisor new_record touch
  run_until_stop-published last =
      let h : IsAll ran = run_ticks-IsAll ws _ (refl, refl) in
      let published = tick-published last ran h.0 h.1 in (published.0, published.1)
