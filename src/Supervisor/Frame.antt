-- ===== src/Supervisor/Frame.antt =====
-- claude_supervisor.py, _refresh_root_records: what the refresh of one session leaves alone.
use agent_keepalive.Claude.Jobs.{read_job_state}
use agent_keepalive.Claude.Status.{JobOutcome, JobStateResult}
use agent_keepalive.Json.{Fields}
use agent_keepalive.Prelude.{
  Bool, Bool-cases, Dict, Option, Option-cases, String, ap, arith, contains, false, if_elim, inl,
  inr, int_eq, leb, lookup, lookup-put, lookup-remove, nat_eq, not, pair_eq, put, refl, remove,
  string_eq, text_eq, true, ◌&&◌, ◌+◌, ◌==◌, ◌∙◌, ◌≡◌,
}
use agent_keepalive.Snapshot.{Snapshot}
use agent_keepalive.Store.{load}
use agent_keepalive.Supervisor.Records.{
  is_there, remove_lifecycle, signature_of, write_disappeared_record, write_snapshot_record,
}
use agent_keepalive.Supervisor.Session.{
  is_local, lifecycle_of, note_missing, note_snapshot, note_terminal, refresh_session, unretire,
}
use agent_keepalive.Supervisor.State.{Key, SessionLifecycle, Supervisor, World, is_known}

-- What stands under a key.
abbrev pub Finds : Key → Option SessionLifecycle → Supervisor → Type 0
Finds k l s = lookup k s.sessions ≡ l

-- Only the session under `key` may differ.
abbrev pub SameElsewhere : Key → Supervisor → Supervisor → Type 0
SameElsewhere key s t = (k : Key) → (key == k) ≡ false → lookup k t.sessions ≡ lookup k s.sessions

put-elsewhere :
    (key k : Key) (l : SessionLifecycle) (sessions : Dict Key SessionLifecycle)
    → (key == k) ≡ false
    → lookup k (put key l sessions) ≡ lookup k sessions
put-elsewhere key k l sessions h = rw (lookup-put key k l sessions, h)

remove-elsewhere :
    (key k : Key) (sessions : Dict Key SessionLifecycle)
    → (key == k) ≡ false
    → lookup k (remove key sessions) ≡ lookup k sessions
remove-elsewhere key k sessions h = rw (lookup-remove key k sessions, h)

write_snapshot_record-SameElsewhere :
    (w : World) (key : Key) (l : SessionLifecycle) (snapshot : Snapshot) (outcome : JobOutcome)
    (s : Supervisor)
    → SameElsewhere key s (write_snapshot_record w key l snapshot outcome s)
unfolding write_snapshot_record
write_snapshot_record-SameElsewhere w key l snapshot outcome s k h =
    elim (Bool-cases (is_known l.signature (signature_of w snapshot outcome))) [
      | inl e ↦ rw e (put-elsewhere key k _ s.sessions h)
      | inr e ↦ rw e (put-elsewhere key k _ s.sessions h)
    ]

write_disappeared_record-SameElsewhere :
    (w : World) (key : Key) (l : SessionLifecycle) (s : Supervisor)
    → SameElsewhere key s (write_disappeared_record w key l s)
unfolding write_disappeared_record
write_disappeared_record-SameElsewhere w key l s k h =
    elim (Option-cases (load "claude" l.target_id s.store)) [
      | inl e ↦ rw (e, write_disappeared_record) (put-elsewhere key k _ s.sessions h)
      | inr (r, e) ↦ rw (e, write_disappeared_record) (put-elsewhere key k _ s.sessions h)
    ]

remove_lifecycle-SameElsewhere :
    (key : Key) (l : SessionLifecycle) (retire : Bool) (s : Supervisor)
    → SameElsewhere key s (remove_lifecycle key l retire s)
unfolding remove_lifecycle
remove_lifecycle-SameElsewhere key l retire s k h = remove-elsewhere key k s.sessions h

note_missing-SameElsewhere :
    (w : World) (key : Key) (l : SessionLifecycle) (s : Supervisor)
    → SameElsewhere key s (note_missing w key l s)
unfolding note_missing
note_missing-SameElsewhere w key l s k h = elim (Option-cases l.missing_since) [
  | inl e ↦ rw (e, note_missing) (write_disappeared_record-SameElsewhere w key _ s k h)
  | inr (since, e) ↦
      rw (e, note_missing)
        (if_elim (Finds k (lookup k s.sessions)) (leb (since + s.disappearance_grace) w.monotonic) _
          _ (λ _. remove_lifecycle-SameElsewhere key l false s k h) (λ _. refl))
]

note_terminal-SameElsewhere :
    (w : World) (key : Key) (l : SessionLifecycle) (snapshot : Snapshot) (outcome : JobOutcome)
    (s : Supervisor)
    → SameElsewhere key s (note_terminal w key l snapshot outcome s)
unfolding note_terminal
note_terminal-SameElsewhere w key l snapshot outcome s k h = elim (Option-cases l.terminal_since) [
  | inl e ↦
      rw (e, note_terminal) (write_snapshot_record-SameElsewhere w key _ snapshot outcome s k h)
  | inr (since, e) ↦
      rw (e, note_terminal)
        (if_elim (Finds k (lookup k s.sessions)) (leb (since + s.terminal_grace) w.monotonic) _ _
          (λ _. remove_lifecycle-SameElsewhere key l true s k h)
          (λ _. write_snapshot_record-SameElsewhere w key l snapshot outcome s k h))
]

sessions-unretire : (key : Key) (s : Supervisor) → (unretire key s).sessions ≡ s.sessions
unfolding unretire
sessions-unretire key s = ground arith

note_snapshot-SameElsewhere :
    (w : World) (key : Key) (l : SessionLifecycle) (snapshot : Snapshot) (outcome : JobOutcome)
    (s : Supervisor)
    → SameElsewhere key s (note_snapshot w key l snapshot outcome s)
unfolding note_snapshot
note_snapshot-SameElsewhere w key l snapshot outcome s k h =
    if_elim (Finds k (lookup k s.sessions)) (contains s.retired_terminal key && snapshot.terminal) _
      _ (λ _. remove-elsewhere key k s.sessions h)
      (λ _.
        if_elim (Finds k (lookup k s.sessions)) snapshot.terminal _ _
          (λ _. note_terminal-SameElsewhere w key l snapshot outcome (unretire key s) k h ∙ same)
          (λ _.
            write_snapshot_record-SameElsewhere w key _ snapshot outcome (unretire key s) k h
            ∙ same))
  where
    same : lookup k (unretire key s).sessions ≡ lookup k s.sessions
    same = ap (lookup k) (sessions-unretire key s)

-- The refresh of one session leaves every other session's lifecycle as it is.
pub refresh_session-SameElsewhere :
    (w : World) (root : String) (entries : Dict String Fields) (authoritative : Bool) (id : String)
    (s : Supervisor)
    → SameElsewhere (root, id) s (refresh_session w root entries authoritative id s)
unfolding refresh_session
refresh_session-SameElsewhere w root entries authoritative id s k h =
    if_elim here (not (is_local state.outcome) && not (is_there live_entry)) _ _
      (λ _.
        if_elim here authoritative _ _
          (λ _. note_missing-SameElsewhere w (root, id) l s' k h ∙ same) (λ _. same))
      (λ _. note_snapshot-SameElsewhere w (root, id) _ _ state.outcome s' k h ∙ same)
  where
    here : Supervisor → Type 0
    here = Finds k (lookup k s.sessions)

    l : SessionLifecycle
    l = lifecycle_of w root id s

    s' : Supervisor
    s' = record s { sessions = put (root, id) l s.sessions }

    state : JobStateResult
    state = read_job_state w.py id (w.job_file root id)

    live_entry : Option Fields
    live_entry = lookup id entries

    same : lookup k s'.sessions ≡ lookup k s.sessions
    same = put-elsewhere (root, id) k l s.sessions h
