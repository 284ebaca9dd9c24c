-- ===== src/Codex/Session.antt =====
-- A kept Codex thread (agent_keepalive/providers/codex.py, CodexSession), and which thread or live
-- view the provider gives. What the server answers is an argument.
use agent_keepalive.Activity.{Tracker, new_tracker, note_notification, note_thread_snapshot}
use agent_keepalive.Codex.{snapshot_from_thread, snapshot_from_tracker, thread_status}
use agent_keepalive.Json.{
  Fields, Value, as_obj, as_str, end, field, find, get, get_or, int, null, obj, or_null, str,
}
use agent_keepalive.Prelude.{
  Bool, Dict, Exception, List, Option, Result, Stateful, String, [], attribute_error, contains, err,
  false, go_on, if◌then◌else◌, int_eq, int_ltb, key_error, lookup, nat_eq, none, not, ok,
  option_beq, pair_eq, pos, put, runtime_error, some, string_eq, text_eq, true, type_error, ℤ, ◌++◌,
  ◌==◌, ◌>>=◌, ◌||◌, ◌∷◌,
}
use agent_keepalive.Python.{Python, int_of, str_of}
use agent_keepalive.Record.{KeeperRecord}
use agent_keepalive.Record.Deadline.{snapshot_from_record}
use agent_keepalive.Recovery.Flow.{CodexAppServerState, is_unavailable_socket_error, unavailable_at}
use agent_keepalive.Snapshot.{ResolvedTarget, Snapshot}
use agent_keepalive.TimeParse.{Instant}

pub record CodexSession : Type 0 where
  pub session_thread_id : String
  pub session_socket_path : String
  pub tracker : Tracker
  pub app_server_state : Option CodexAppServerState
  pub last_snapshot : Snapshot

unfoldable pub session_metadata : (socket_path : String) → Option CodexAppServerState → Fields
session_metadata socket_path none = field "socket_path" (str socket_path) end
session_metadata socket_path (some s) = field "socket_path" (str socket_path) (
    field "cli_version" (or_null s.state_cli_version) (
      field "managed_codex_version" (or_null s.state_managed_codex_version) (
        field "app_server_version" (str s.actual_version) (
          field "app_server_expected_version" (str s.expected_version)
            (field "app_server_recovery_action" (str s.recovery_action) end)))))

unfoldable pub new_session : (thread_id socket_path : String) → CodexSession
new_session thread_id socket_path = record {
  session_thread_id = thread_id;
  session_socket_path = socket_path;
  tracker = new_tracker thread_id;
  app_server_state = none;
  last_snapshot =
      snapshot_from_tracker thread_id (new_tracker thread_id) (session_metadata socket_path none);
}

-- The snapshot of the tracker as it is, kept and returned.
unfoldable pub show_session : Stateful CodexSession Snapshot
show_session s =
    let shown =
      snapshot_from_tracker s.session_thread_id s.tracker
        (session_metadata s.session_socket_path s.app_server_state) in
    (ok shown, record s { last_snapshot = shown })

unfoldable pub note_resumed : (now : Instant) → Value → Stateful CodexSession Snapshot
note_resumed now thread s = elim (as_obj thread) [
  | none ↦ (err (type_error "the thread of a resumed session is no object"), s)
  | some members ↦
      (let (after, done) = note_thread_snapshot members now s.tracker in
        go_on (λ _. show_session) (done, record s { tracker = after }))
]

unfoldable pub resume_failed : (socket_path : String) → Exception → Exception
resume_failed socket_path e =
    if is_unavailable_socket_error e then unavailable_at socket_path e else e

-- attach: `ensured` is what ensure_current_codex_app_server comes to, `resumed` what connecting and
-- resuming the thread come to.
unfoldable pub attach_session :
    (ensured : Result CodexAppServerState) (resumed : Result Fields) (now : Instant)
    → Stateful CodexSession Snapshot
attach_session (err e) resumed now s = (err e, s)
attach_session (ok state) (err e) now s =
    (err (resume_failed s.session_socket_path e), record s { app_server_state = some state })
attach_session (ok state) (ok resume) now s = elim (find "thread" resume) [
  | none ↦ (err (key_error "thread"), record s { app_server_state = some state })
  | some thread ↦ note_resumed now thread (record s { app_server_state = some state })
]

-- notification.get("params", {}).get("reason", "connection closed"), as a text.
unfoldable pub closed_reason : Python → Fields → String
closed_reason py notification = elim (as_obj (get "params" notification)) [
  | none ↦ "connection closed"
  | some params ↦ str_of py (get_or "reason" (str "connection closed") params)
]

-- poll: the notification that came in time, if one did.
unfoldable pub poll_session :
    Python → Option Value → (now : Instant) → Stateful CodexSession Snapshot
poll_session py none now s = show_session s
poll_session py (some null) now s = show_session s
poll_session py (some (obj notification)) now s =
    if option_beq (as_str (get "method" notification)) (some "__connection_closed__")
    then (err (runtime_error (closed_reason py notification)), s)
    else show_session (record s { tracker = (note_notification notification now s.tracker).0 })
poll_session py (some _) now s = (err (attribute_error "object has no attribute 'get'"), s)

-- The key by which a recent thread is chosen: loaded ones first, then the latest.
unfoldable pub is_loaded_thread : List String → Fields → Bool
is_loaded_thread loaded_ids thread =
    elim (as_str (get "id" thread)) [ none ↦ false | some id ↦ contains loaded_ids id ]
    || not (thread_status thread == "notLoaded")

unfoldable pub thread_key : Python → List String → Fields → Result (Bool × ℤ)
thread_key py loaded_ids thread = do
  updated_at ← int_of py (get_or "updatedAt" (int (pos 0)) thread)
  ok (is_loaded_thread loaded_ids thread, updated_at)

unfoldable pub key_before : Bool × ℤ → Bool × ℤ → Bool
key_before (false, m) (true, n) = true
key_before (true, m) (false, n) = false
key_before (b, m) (c, n) = int_ltb m n

-- max(threads, key=...): the first of the greatest.
unfoldable pub greatest_thread :
    Python → List String → (best : Fields) → (best_key : Bool × ℤ) → List Fields → Result Fields
greatest_thread py loaded_ids best best_key [] = ok best
greatest_thread py loaded_ids best best_key (thread ∷ threads) = do
  key ← thread_key py loaded_ids thread
  greatest_thread py loaded_ids (if key_before best_key key then thread else best)
      (if key_before best_key key then key else best_key) threads

unfoldable pub select_recent_thread :
    Python → (loaded_ids : List String) → List Fields → Result Fields
select_recent_thread py loaded_ids [] =
    err (runtime_error "no threads were returned by thread/list")
select_recent_thread py loaded_ids (thread ∷ threads) = do
  key ← thread_key py loaded_ids thread
  greatest_thread py loaded_ids thread key threads

-- What resolve makes of the thread that was read or selected.
unfoldable pub resolved_thread :
    Python → (socket_path selected_via : String) → Fields → Result ResolvedTarget
resolved_thread py socket_path selected_via thread = elim (find "id" thread) [
  | none ↦ err (key_error "id")
  | some id ↦ ok (record {
    provider = "codex";
    target_id = str_of py id;
    display_name = as_str (get "name" thread);
    selected_via = selected_via;
    metadata = field "socket_path" (str socket_path) end;
  })
]

-- One server's part of the live view; the client's answers are arguments.
unfoldable pub view_threads :
    Python
    → (read_thread : String → Result Fields) → (loaded : List String) → List KeeperRecord
    → Dict String Snapshot
    → Result (Dict String Snapshot)
view_threads py read_thread loaded [] view = ok view
view_threads py read_thread loaded (r ∷ rs) view = do
  thread ← read_thread r.target_id
  shown ← snapshot_from_thread py thread (contains loaded r.target_id) r
  view_threads py read_thread loaded rs (put r.target_id shown view)

unfoldable pub view_records :
    Python → List KeeperRecord → Dict String Snapshot → Result (Dict String Snapshot)
view_records py [] view = ok view
view_records py (r ∷ rs) view = do
  shown ← snapshot_from_record py r
  view_records py rs (put r.target_id shown view)

-- One server's part: if anything of it fails, every record of the server is shown as it stands.
unfoldable pub view_server :
    Python
    → (loaded : Result (List String)) → (read_thread : String → Result Fields) → List KeeperRecord
    → Dict String Snapshot
    → Result (Dict String Snapshot)
view_server py loaded read_thread records view =
    elim (loaded >>= λ ids. view_threads py read_thread ids records view) [
      | ok shown ↦ ok shown
      | err e ↦ view_records py records view
    ]

unfoldable pub group_by_socket :
    Python
    → (default_path : String) → List KeeperRecord
    → Dict String (List KeeperRecord)
    → Dict String (List KeeperRecord)
group_by_socket py default_path [] groups = groups
group_by_socket py default_path (r ∷ rs) groups =
    let socket_path = str_of py (get_or "socket_path" (str default_path) r.provider_metadata) in
    group_by_socket py default_path rs (
      put socket_path
        (elim (lookup socket_path groups) [ none ↦ r ∷ [] | some others ↦ others ++ r ∷ [] ])
        groups)

unfoldable pub view_servers :
    Python
    → (loaded : String → Result (List String)) → (read_thread : String → String → Result Fields)
    → Dict String (List KeeperRecord)
    → Dict String Snapshot
    → Result (Dict String Snapshot)
view_servers py loaded read_thread [] view = ok view
view_servers py loaded read_thread ((socket_path, records) ∷ groups) view = do
  shown ← view_server py (loaded socket_path) (read_thread socket_path) records view
  view_servers py loaded read_thread groups shown

unfoldable pub codex_live_view :
    Python
    → (default_path : String) → (loaded : String → Result (List String))
    → (read_thread : String → String → Result Fields) → List KeeperRecord
    → Result (Dict String Snapshot)
codex_live_view py default_path loaded read_thread records =
    view_servers py loaded read_thread (group_by_socket py default_path records []) []
