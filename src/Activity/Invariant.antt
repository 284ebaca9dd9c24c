-- ===== src/Activity/Invariant.antt =====
-- src/agent_keepalive/activity.py: what holds of a tracker between two notifications.
use agent_keepalive.Activity.{
  Tracker, active_hint, apply_status, apply_status_value, meaningful, new_tracker, note_active_hint,
  note_closed, note_event, note_method, note_notification, note_status_changed,
  note_thread_snapshot, status_type, with_name,
}
use agent_keepalive.Json.{Fields, Value, str}
use agent_keepalive.Prelude.{
  Bool, Bool-cases, List, Option-cases, String, [], arith, eq_iff, if_elim, inl, inr, int_eq,
  nat_eq, none, not, pair_eq, refl, some, string_eq, text_eq, ◌==◌, ◌∷◌, ◌≡◌, ◌≢◌, ◌⊎◌,
}
use agent_keepalive.TimeParse.{Instant}

pub record IsTracked (t : Tracker) : Type 0 where
  -- An active thread has no idle moment, is loaded, and has been active at some moment.
  pub active_busy : t.status ≡ "active" → t.idle_since ≡ none
  pub active_seen : t.status ≡ "active" → t.last_activity_at ≢ none
  -- A thread with a known status other than active has an idle moment.
  pub idle_known : t.status ≢ "active" → t.status ≢ "unknown" → t.idle_since ≢ none
  -- `loaded` is the status's word on it, once there is one.
  pub loaded_known :
      ((t.status ≡ "unknown") × (t.loaded ≡ none))
      ⊎ (t.loaded ≡ some (not (t.status == "notLoaded")))

new_tracker-IsTracked : (thread_id : String) → IsTracked (new_tracker thread_id)
unfolding new_tracker
new_tracker-IsTracked thread_id = record {
  active_busy = λ e. refl;
  active_seen = λ e. ground (arith, eq_iff "unknown" "active");
  idle_known = λ a b. absurd (b refl);
  loaded_known = inl (refl, refl);
}

apply_status-IsTracked :
    (s : String) (observed_at : Instant) (from_snapshot : Bool) (t : Tracker)
    → IsTracked t
    → IsTracked (apply_status s observed_at from_snapshot t)
unfolding apply_status
apply_status-IsTracked s observed_at from_snapshot t h =
    ground (arith, eq_iff s "active", eq_iff t.status "active")

apply_status_value-IsTracked :
    (v : Value) (observed_at : Instant) (from_snapshot : Bool) (t : Tracker)
    → IsTracked t
    → IsTracked (apply_status_value v observed_at from_snapshot t)
unfolding apply_status_value
apply_status_value-IsTracked v observed_at from_snapshot t h = elim (Option-cases (status_type v)) [
  | inl e ↦ rw (e, apply_status_value) h
  | inr (s, e) ↦
      rw (e, apply_status_value)
        (elim (Bool-cases (s == "")) [
          | inl blank ↦ rw blank h
          | inr word ↦ rw word (apply_status-IsTracked s observed_at from_snapshot t h)
        ])
]

with_name-IsTracked : (v : Value) (t : Tracker) → IsTracked t → IsTracked (with_name v t)
unfolding with_name
with_name-IsTracked (str name) t h = record {
  active_busy = h.active_busy;
  active_seen = h.active_seen;
  idle_known = h.idle_known;
  loaded_known = h.loaded_known;
}
with_name-IsTracked _ t h = h

seen-IsTracked :
    (moment : Instant) (t : Tracker)
    → IsTracked t
    → IsTracked (record t { last_activity_at = some moment })
seen-IsTracked moment t h = record {
  active_busy = h.active_busy;
  active_seen = λ e p. cc;
  idle_known = h.idle_known;
  loaded_known = h.loaded_known;
}

-- A snapshot keeps the invariant, whether or not its time stamp can be read.
note_thread_snapshot-IsTracked :
    (thread : Fields) (observed_at : Instant) (t : Tracker)
    → IsTracked t
    → IsTracked (note_thread_snapshot thread observed_at t).0
unfolding note_thread_snapshot
note_thread_snapshot-IsTracked thread observed_at t h =
    grind (arith, with_name-IsTracked, apply_status_value-IsTracked, seen-IsTracked)

note_status_changed-IsTracked :
    (message : Fields) (observed_at : Instant) (t : Tracker)
    → IsTracked t
    → IsTracked (note_status_changed message observed_at t)
unfolding note_status_changed
note_status_changed-IsTracked message observed_at t h = grind (arith, apply_status_value-IsTracked)

note_closed-IsTracked :
    (observed_at : Instant) (t : Tracker) → IsTracked t → IsTracked (note_closed observed_at t)
unfolding note_closed
note_closed-IsTracked observed_at t h = ground (arith, eq_iff "notLoaded" "active")

note_active_hint-IsTracked :
    (observed_at : Instant) (t : Tracker) → IsTracked t → IsTracked (note_active_hint observed_at t)
unfolding note_active_hint
note_active_hint-IsTracked observed_at t h = ground arith

note_method-IsTracked :
    (method : String) (message : Fields) (observed_at : Instant) (t : Tracker)
    → IsTracked t
    → IsTracked (note_method method message observed_at t)
unfolding note_method
note_method-IsTracked method message observed_at t h =
    if_elim IsTracked (method == "thread/status/changed") _ _
      (λ _. note_status_changed-IsTracked message observed_at t h)
      (λ _.
        if_elim IsTracked (method == "thread/closed") _ _
          (λ _. note_closed-IsTracked observed_at t h)
          (λ _.
            if_elim IsTracked (active_hint method) _ _
              (λ _. note_active_hint-IsTracked observed_at t h)
              (λ _.
                if_elim IsTracked (meaningful method) _ _ (λ _. seen-IsTracked observed_at t h)
                  (λ _. h))))

note_event-IsTracked :
    (method : String) (message : Fields) (observed_at : Instant) (t : Tracker)
    → IsTracked t
    → IsTracked (note_event method message observed_at t)
unfolding note_event
note_event-IsTracked method message observed_at t h =
    note_method-IsTracked method message observed_at _ (record {
      active_busy = h.active_busy;
      active_seen = h.active_seen;
      idle_known = h.idle_known;
      loaded_known = h.loaded_known;
    })

-- Every notification, for this thread or not, keeps the invariant.
note_notification-IsTracked :
    (message : Fields) (observed_at : Instant) (t : Tracker)
    → IsTracked t
    → IsTracked (note_notification message observed_at t).0
unfolding note_notification
note_notification-IsTracked message observed_at t h = grind (arith, note_event-IsTracked)

-- What `CodexSession` does to its tracker: a snapshot on each attach, then notifications.
pub data Observation : Type 0 where
  thread_read : Fields → Instant → Observation
  notified : Fields → Instant → Observation

unfoldable pub observe : Tracker → List Observation → Tracker
observe t [] = t
observe t (thread_read thread at ∷ rest) = observe (note_thread_snapshot thread at t).0 rest
observe t (notified message at ∷ rest) = observe (note_notification message at t).0 rest

observe-IsTracked :
    (seen : List Observation) (t : Tracker) → IsTracked t → IsTracked (observe t seen)
unfolding observe
observe-IsTracked [] t h = h
observe-IsTracked (thread_read thread at ∷ rest) t h =
    observe-IsTracked rest _ (note_thread_snapshot-IsTracked thread at t h)
observe-IsTracked (notified message at ∷ rest) t h =
    observe-IsTracked rest _ (note_notification-IsTracked message at t h)

-- From a new tracker, whatever is observed and in whatever order: an active thread has no idle
-- moment and a last activity, a thread whose status is neither active nor unknown has an idle
-- moment, and `loaded` agrees with the status.
pub tracker_invariant :
    (thread_id : String) (seen : List Observation)
    → IsTracked (observe (new_tracker thread_id) seen)
tracker_invariant thread_id seen = observe-IsTracked seen _ (new_tracker-IsTracked thread_id)
