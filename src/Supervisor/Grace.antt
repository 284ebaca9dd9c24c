-- ===== src/Supervisor/Grace.antt =====
-- claude_supervisor.py, _refresh_root_records: the two graces, of a missing session and of an
-- ended one.
use agent_keepalive.Json.{Fields}
use agent_keepalive.Prelude.{
  Bool-cases, Dict, String, ap, beq_refl, false, if◌then◌else◌, inl, inr, int_eq, leb, lookup-put,
  lookup-remove, nat_eq, none, pair_eq, put, refl, some, string_eq, sym, text_eq, true, ℕ, ◌+◌, ◌∙◌,
  ◌≡◌,
}
use agent_keepalive.Store.{load, remove_record}
use agent_keepalive.Store.Laws.{load-remove_record_own}
use agent_keepalive.Supervisor.Frame.{Finds}
use agent_keepalive.Supervisor.Lifecycle.{note_missing_early, note_missing_over}
use agent_keepalive.Supervisor.Records.{remove_lifecycle}
use agent_keepalive.Supervisor.Removal.{is_seen, refresh_session_unseen}
use agent_keepalive.Supervisor.Session.{note_missing, refresh_session}
use agent_keepalive.Supervisor.State.{SessionLifecycle, Supervisor, World}
use mathlib.Core.Path.{subst}

module _ (w : World) (root id : String) (entries : Dict String Fields) (s : Supervisor)
    (l : SessionLifecycle) (unseen : is_seen w root entries id ≡ false)
    (found : Finds (root, id) (some l) s) where
  abbrev here : Supervisor
  here = record s { sessions = put (root, id) l s.sessions }

  step :
      refresh_session w root entries true id s
      ≡ note_missing w (root, id) l (record s { sessions = put (root, id) l s.sessions })
  step = refresh_session_unseen w root entries id s l found true unseen

  -- A session that has been missing, by discoveries that can be trusted, is dropped together with
  -- its record as soon as it has been so for the grace; until then the session and the store stay as
  -- they are.
  pub refresh_session_missing :
      (since : ℕ)
      → l.missing_since ≡ some since
      → Finds
          (root, id)
          (if leb (since + s.disappearance_grace) w.monotonic then none else some l)
          (refresh_session w root entries true id s)
        × ((refresh_session w root entries true id s).store ≡ (
            if leb (since + s.disappearance_grace) w.monotonic
            then remove_record "claude" l.target_id s.store
            else s.store))
        × (load "claude" l.target_id (remove_record "claude" l.target_id s.store) ≡ none)
  unfolding remove_lifecycle
  refresh_session_missing since e =
      elim (Bool-cases (leb (since + s.disappearance_grace) w.monotonic)) [
        | inl over ↦
            let path = step ∙ note_missing_over w (root, id) l here since e over in
            rw over (
              subst (Finds (root, id) none) (sym path) (
                  rw (lookup-remove (root, id) (root, id) here.sessions, beq_refl id, beq_refl root)
                    refl),
              ap (λ (t : Supervisor). t.store) path,
              load-remove_record_own "claude" l.target_id s.store,
            )
        | inr early ↦
            let path = step ∙ note_missing_early w (root, id) l here since e early in
            rw early (
              subst (Finds (root, id) (some l)) (sym path)
                  (rw (lookup-put (root, id) (root, id) l s.sessions, beq_refl id, beq_refl root)),
              ap (λ (t : Supervisor). t.store) path,
              load-remove_record_own "claude" l.target_id s.store,
            )
      ]
