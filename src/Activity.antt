-- ===== src/Activity.antt =====
-- src/agent_keepalive/activity.py: what a Codex keeper knows of its thread. `observed_at` and `now`
-- are always given here, so the calls of `utc_now` that stand in for them are left out.
pub mod Invariant
pub mod Idle
use agent_keepalive.Json.{Fields, Value, as_number, as_obj, as_str, get, obj, str}
use agent_keepalive.Prelude.{
  Bool, List, Option, Result, String, [], contains, err, false, if◌then◌else◌, int_eq, leb, nat_eq,
  none, not, ok, pair_eq, some, string_eq, sub_ℕ, text_eq, true, ℕ, ℤ, ◌&&◌, ◌*◌, ◌+◌, ◌==◌, ◌||◌,
  ◌∷◌,
}
use agent_keepalive.TimeParse.{Instant, from_timestamp, second}
use text.Mathlib.Text.{starts_with}

unfoldable pub extract_thread_id : Fields → Option String
extract_thread_id message = elim (as_obj (get "params" message)) [
  | none ↦ none
  | some params ↦ elim (as_str (get "threadId" params)) [
    | some thread_id ↦ some thread_id
    | none ↦ elim (as_obj (get "thread" params)) [
      | none ↦ none
      | some thread ↦ as_str (get "id" thread)
    ]
  ]
]

unfoldable pub status_type : Value → Option String
status_type (obj fs) = as_str (get "type" fs)
status_type _ = none

pub record Tracker : Type 0 where
  pub thread_id : String
  pub thread_name : Option String
  pub status : String
  pub loaded : Option Bool
  pub last_activity_at : Option Instant
  pub last_event_at : Option Instant
  pub idle_since : Option Instant
  pub last_notification_method : Option String
  pub event_count : ℕ

-- ThreadActivityTracker(thread_id)
unfoldable pub new_tracker : String → Tracker
new_tracker thread_id = record {
  thread_id = thread_id;
  thread_name = none;
  status = "unknown";
  loaded = none;
  last_activity_at = none;
  last_event_at = none;
  idle_since = none;
  last_notification_method = none;
  event_count = 0;
}

-- The branch of `_apply_status` for a status other than "active".
unfoldable pub apply_idle_status : String → Instant → Bool → Tracker → Tracker
apply_idle_status previous_status observed_at from_snapshot t =
    let last_activity =
      if previous_status == "active" then some observed_at else t.last_activity_at in
    let last_activity' : Option Instant = elim last_activity [
      | none ↦ some observed_at
      | some a ↦ some a
    ] in
    let idle : Bool = elim t.idle_since [ none ↦ true | some _ ↦ false ] in
    record t {
      last_activity_at = last_activity';
      idle_since = if from_snapshot && idle then last_activity' else last_activity';
    }

unfoldable pub apply_status : String → Instant → Bool → Tracker → Tracker
unfolding apply_idle_status
apply_status status_type observed_at from_snapshot self =
    let previous_status = self.status in
    let t = record self {
      status = status_type;
      loaded = some (not (status_type == "notLoaded"));
    } in
    if status_type == "active"
    then record t {
      idle_since = none;
      last_activity_at =
          if previous_status == "active" then t.last_activity_at else some observed_at;
    }
    else apply_idle_status previous_status observed_at from_snapshot t

-- `if status_type: self._apply_status(…)`: an empty text counts as absent.
unfoldable pub apply_status_value : Value → Instant → Bool → Tracker → Tracker
apply_status_value value observed_at from_snapshot t = elim (status_type value) [
  | none ↦ t
  | some s ↦ if s == "" then t else apply_status s observed_at from_snapshot t
]

unfoldable pub with_name : Value → Tracker → Tracker
with_name (str name) t = record t { thread_name = some name }
with_name _ t = t

-- What was written before `fromtimestamp` raises stays written.
unfoldable pub note_thread_snapshot : Fields → Instant → Tracker → Tracker × Result (Unit {0})
note_thread_snapshot thread observed_at self =
    let t = with_name (get "name" thread) self in
    elim (as_number (get "updatedAt" thread)) [
      | none ↦ (apply_status_value (get "status" thread) observed_at true t, ok tt)
      | some updated_at ↦ elim (from_timestamp updated_at) [
        | err e ↦ (t, err e)
        | ok moment ↦ (
          apply_status_value (get "status" thread) observed_at true
              (record t { last_activity_at = some moment }),
          ok tt,
        )
      ]
    ]

abbrev meaningful_prefixes : List String
meaningful_prefixes = "turn/" ∷ "item/" ∷ "hook/" ∷ "process/" ∷ "command/exec/" ∷ []

abbrev ignored_methods : List String
ignored_methods =
    "thread/tokenUsage/updated" ∷ "remoteControl/status/changed" ∷ "mcpServer/startupStatus/updated"
    ∷ []

abbrev active_hint_methods : List String
active_hint_methods = "turn/started" ∷ "item/started" ∷ []

unfoldable pub starts_with_any : String → List String → Bool
starts_with_any s [] = false
starts_with_any s (p ∷ ps) = starts_with s p || starts_with_any s ps

unfoldable pub ignored : String → Bool
ignored method = contains ignored_methods method

unfoldable pub active_hint : String → Bool
active_hint method = contains active_hint_methods method

unfoldable pub meaningful : String → Bool
meaningful method = starts_with_any method meaningful_prefixes

unfoldable pub note_status_changed : Fields → Instant → Tracker → Tracker
note_status_changed message observed_at t = elim (as_obj (get "params" message)) [
  | none ↦ t
  | some params ↦ apply_status_value (get "status" params) observed_at false t
]

unfoldable pub note_closed : Instant → Tracker → Tracker
note_closed observed_at t = record t {
  loaded = some false;
  status = "notLoaded";
  idle_since = elim t.idle_since [ none ↦ some observed_at | some i ↦ some i ];
}

unfoldable pub note_active_hint : Instant → Tracker → Tracker
note_active_hint observed_at t = record t {
  status = "active";
  loaded = some true;
  idle_since = none;
  last_activity_at = some observed_at;
}

-- The method's own effect, once the event is counted.
unfoldable pub note_method : String → Fields → Instant → Tracker → Tracker
note_method method message observed_at t =
    if method == "thread/status/changed"
    then note_status_changed message observed_at t
    else if method == "thread/closed"
    then note_closed observed_at t
    else if active_hint method
    then note_active_hint observed_at t
    else if meaningful method
    then record t { last_activity_at = some observed_at }
    else t

unfoldable pub note_event : String → Fields → Instant → Tracker → Tracker
note_event method message observed_at self = note_method method message observed_at (record self {
  event_count = self.event_count + 1;
  last_event_at = some observed_at;
  last_notification_method = some method;
})

unfoldable pub same_thread : Option String → String → Bool
same_thread none thread_id = false
same_thread (some t) thread_id = t == thread_id

-- The Boolean says whether the message was for this thread and had a method.
unfoldable pub note_notification : Fields → Instant → Tracker → Tracker × Bool
note_notification message observed_at self =
    if same_thread (extract_thread_id message) self.thread_id
    then elim (as_str (get "method" message)) [
      | none ↦ (self, false)
      | some method ↦
          (if ignored method then self else note_event method message observed_at self, true)
    ]
    else (self, false)

-- self.idle_since or self.last_activity_at
abbrev pub either {ℓ} : {A : Type ℓ} → Option A → Option A → Option A
either none y = y
either (some x) y = some x

-- (now - reference).total_seconds() >= idle_timeout_seconds, in microseconds.
abbrev pub elapsed : ℕ → Instant → Instant → Bool
elapsed idle_timeout_seconds reference now = leb (reference + idle_timeout_seconds * second) now

unfoldable pub should_detach : ℕ → Instant → Tracker → Bool
should_detach idle_timeout_seconds now t =
    if t.status == "active" then false else elim (either t.idle_since t.last_activity_at) [
      | none ↦ false
      | some reference ↦ elapsed idle_timeout_seconds reference now
    ]

-- idle_timeout_seconds - (now - reference).total_seconds(), in microseconds.
unfoldable pub seconds_until_detach : ℕ → Instant → Tracker → Option ℤ
seconds_until_detach idle_timeout_seconds now t =
    if t.status == "active" then none else elim (either t.idle_since t.last_activity_at) [
      | none ↦ none
      | some reference ↦ some (sub_ℕ (idle_timeout_seconds * second + reference) now)
    ]
