-- ===== src/Supervisor/Shown.antt =====
-- claude_supervisor.py, _write_snapshot_record: the record of a session and what was seen of it.
use agent_keepalive.Claude.Status.{JobOutcome}
use agent_keepalive.Json.{as_str, get, get-set_field_other, get-set_field_same, merge, str}
use agent_keepalive.Prelude.{
  Bool-cases, List, Option, Option-cases, String, [], false, inl, inr, int_eq, int_suc, nat_eq,
  none, pair_eq, refl, some, string_eq, text_eq, ℤ, ◌==◌, ◌∙◌, ◌∷◌, ◌≡◌,
}
use agent_keepalive.Record.{KeeperRecord, new_record, touch}
use agent_keepalive.Snapshot.{Snapshot}
use agent_keepalive.Store.{Records, load}
use agent_keepalive.Store.Laws.{load-save_own}
use agent_keepalive.Supervisor.Lifecycle.{is_known_eq}
use agent_keepalive.Supervisor.Records.{
  is_there, job_outcome_text, signature_of, snapshot_metadata, snapshot_record,
  write_snapshot_record,
}
use agent_keepalive.Supervisor.State.{
  Key, SessionLifecycle, Signature, Supervisor, World, gone, is_known, now_text, observed,
}
use mathlib.Core.Path.{subst}

-- The display name, the session id, the folder and the live status of a record.
abbrev pub shown_names : KeeperRecord → List (Option String)
shown_names r =
    r.display_name
    ∷ as_str (get "session_id" r.provider_metadata)
    ∷ as_str (get "cwd" r.provider_metadata)
    ∷ as_str (get "live_status" r.provider_metadata)
    ∷ []

-- What a signature stands for, in the record.
abbrev pub Shows : Option Signature → KeeperRecord → Type 0
Shows none r = Unit
Shows (some (observed status loaded blocked terminal last_activity_at outcome names)) r =
    (r.target_status ≡ status)
    × (r.loaded ≡ loaded)
    × (r.blocked ≡ blocked)
    × (r.terminal ≡ terminal)
    × (r.last_activity_at ≡ last_activity_at)
    × (get "state_outcome" r.provider_metadata ≡ str (job_outcome_text outcome))
    × (shown_names r ≡ names)
Shows (some (gone last_activity_at)) r =
    (r.target_status ≡ "disappeared")
    × (r.loaded ≡ some false)
    × (r.blocked ≡ false)
    × (r.terminal ≡ false)
    × (r.last_activity_at ≡ last_activity_at)

-- A record under the session's name is the session's own, and shows its signature.
abbrev pub OwnRecord : SessionLifecycle → KeeperRecord → Type 0
OwnRecord l r = (r.provider ≡ "claude") × (r.target_id ≡ l.target_id) × Shows l.signature r

pub record Recorded (l : SessionLifecycle) (records : Records) : Type 0 where
  pub own : (r : KeeperRecord) → load "claude" l.target_id records ≡ some r → OwnRecord l r

touch-Shows :
    (now : String) (o : Option Signature) (r : KeeperRecord) → Shows o r → Shows o (touch now r)
unfolding touch
touch-Shows now none r h = h
touch-Shows now (some (observed _ _ _ _ _ _ _)) r h = h
touch-Shows now (some (gone _)) r h = h

counted-Shows :
    (n : ℤ) (o : Option Signature) (r : KeeperRecord)
    → Shows o r
    → Shows o (record r { event_count = n })
counted-Shows n none r h = h
counted-Shows n (some (observed _ _ _ _ _ _ _)) r h = h
counted-Shows n (some (gone _)) r h = h

module _ (w : World) (log_path : String) (l : SessionLifecycle) (snapshot : Snapshot)
    (outcome : JobOutcome) where
  -- What the supervisor adds to the metadata of a session leaves any other member as it was.
  get-snapshot_metadata :
      (key : String)
      → ("managed_by_supervisor" == key) ≡ false
      → ("supervisor_target" == key) ≡ false
      → ("source_root" == key) ≡ false
      → ("root_fingerprint" == key) ≡ false
      → ("state_outcome" == key) ≡ false
      → get key (snapshot_metadata w l snapshot outcome) ≡ get key snapshot.metadata
  unfolding snapshot_metadata merge
  get-snapshot_metadata key a b c d e =
      get-set_field_other "state_outcome" key _ _ e
      ∙ (get-set_field_other "root_fingerprint" key _ _ d
          ∙ (get-set_field_other "source_root" key _ _ c
              ∙ (get-set_field_other "supervisor_target" key _ _ b
                  ∙ get-set_field_other "managed_by_supervisor" key _ _ a)))

  outcome-snapshot_metadata :
      get "state_outcome" (snapshot_metadata w l snapshot outcome) ≡ str (job_outcome_text outcome)
  unfolding snapshot_metadata merge
  outcome-snapshot_metadata = get-set_field_same "state_outcome" _ _

  names-snapshot_metadata :
      snapshot.display_name
        ∷ as_str (get "session_id" (snapshot_metadata w l snapshot outcome))
        ∷ as_str (get "cwd" (snapshot_metadata w l snapshot outcome))
        ∷ as_str (get "live_status" (snapshot_metadata w l snapshot outcome))
        ∷ []
      ≡ snapshot.display_name
        ∷ as_str (get "session_id" snapshot.metadata)
        ∷ as_str (get "cwd" snapshot.metadata)
        ∷ as_str (get "live_status" snapshot.metadata)
        ∷ []
  names-snapshot_metadata =
      rw
        (
          get-snapshot_metadata "session_id" refl refl refl refl refl,
          get-snapshot_metadata "cwd" refl refl refl refl refl,
          get-snapshot_metadata "live_status" refl refl refl refl refl,
        )
        refl

  snapshot_record-OwnRecord :
      (existing : Option KeeperRecord)
      → ((r : KeeperRecord) → existing ≡ some r → OwnRecord l r)
      → OwnRecord
          (record l { signature = some (signature_of w snapshot outcome) })
          (snapshot_record w log_path l snapshot outcome existing)
  unfolding signature_of snapshot_record new_record
  snapshot_record-OwnRecord none h = (
    refl,
    refl,
    (refl, refl, refl, refl, refl, outcome-snapshot_metadata, names-snapshot_metadata),
  )
  snapshot_record-OwnRecord (some old) h = (
    (h old refl).0,
    (h old refl).1,
    (refl, refl, refl, refl, refl, outcome-snapshot_metadata, names-snapshot_metadata),
  )

module _ (w : World) (key : Key) (l : SessionLifecycle) (snapshot : Snapshot) (outcome : JobOutcome)
    (s : Supervisor) (h : Recorded l s.store) where
  -- Where the record under the session's name, if any, is the session's own and shows its signature,
  -- then after a snapshot, whether or not the record was written, there is a record of the session,
  -- and it has the snapshot's status, loaded, blocked, terminal, last activity, display name, session
  -- id, folder and live status, and the outcome of the job state.
  pub write_snapshot_record-Shows :
      (r : KeeperRecord) × (load "claude" l.target_id
          (write_snapshot_record w key l snapshot outcome s).store
        ≡ some r)
      × OwnRecord (record l { signature = some (signature_of w snapshot outcome) }) r
  unfolding write_snapshot_record touch
  write_snapshot_record-Shows =
      let existing : Option KeeperRecord = load "claude" l.target_id s.store in
      let r : KeeperRecord = snapshot_record w s.log_path l snapshot outcome existing in
      let own = snapshot_record-OwnRecord w s.log_path l snapshot outcome existing h.own in
      elim (Bool-cases (is_known l.signature (signature_of w snapshot outcome))) [
        | inl k ↦ elim (Option-cases existing) [
          | inl e ↦
              let fresh : KeeperRecord = snapshot_record w s.log_path l snapshot outcome none in
              let own_fresh =
                snapshot_record-OwnRecord w s.log_path l snapshot outcome none
                  (λ r q. absurd (cc (q))) in
              (
                touch (now_text w) fresh,
                rw (k, e, is_there)
                    (load-save_own (now_text w) "claude" l.target_id fresh s.store own_fresh.0
                      own_fresh.1),
                (
                  own_fresh.0,
                  own_fresh.1,
                  touch-Shows (now_text w) (some (signature_of w snapshot outcome)) fresh
                      own_fresh.2,
                ),
              )
          | inr (old, e) ↦ (
            old,
            rw (k, e, is_there) e,
            (
              (h.own old e).0,
              (h.own old e).1,
              subst (λ o. Shows o old) (is_known_eq l.signature _ k) (h.own old e).2,
            ),
          )
        ]
        | inr k ↦
            let counted : KeeperRecord = record r { event_count = int_suc r.event_count } in
            (
              touch (now_text w) counted,
              rw k (load-save_own (now_text w) "claude" l.target_id counted s.store own.0 own.1),
              (
                own.0,
                own.1,
                touch-Shows (now_text w) (some (signature_of w snapshot outcome)) counted (
                    counted-Shows (int_suc r.event_count) (some (signature_of w snapshot outcome)) r
                      own.2),
              ),
            )
      ]
