-- ===== src/Record.antt =====
-- src/agent_keepalive/state.py: the record of one keeper, and its JSON form.
pub mod RoundTrip
pub mod Deadline
use agent_keepalive.Json.{
  Fields, Value, as_str, bool, end, field, find, get, get_or, has_key, int, null, obj, or_null,
  set_field, str,
}
use agent_keepalive.Prelude.{
  Bool, Option, Result, String, err, false, if◌then◌else◌, key_error, none, ok, pos, some, ℤ, ◌>>=◌,
}
use agent_keepalive.Python.{Python, int_of, str_of, truthy}

pub record KeeperRecord : Type 0 where
  pub provider : String
  pub target_id : String
  pub pid : ℤ
  pub display_name : Option String
  pub started_at : String
  pub updated_at : String
  pub last_activity_at : Option String
  pub last_event_at : Option String
  pub idle_since : Option String
  pub idle_timeout_seconds : ℤ
  pub target_status : String
  pub loaded : Option Bool
  pub blocked : Bool
  pub terminal : Bool
  pub keeper_status : String
  pub stop_reason : Option String
  pub log_path : String
  pub selected_via : String
  pub last_error : Option String
  pub event_count : ℤ
  pub provider_metadata : Fields

-- KeeperRecord.new, at the moment `now` in ISO form.
unfoldable pub new_record :
    String → String → ℤ → Option String → ℤ → String → String → Fields → String → KeeperRecord
new_record provider target_id pid display_name timeout log_path selected_via metadata now = record {
  provider = provider;
  target_id = target_id;
  pid = pid;
  display_name = display_name;
  started_at = now;
  updated_at = now;
  last_activity_at = none;
  last_event_at = none;
  idle_since = none;
  idle_timeout_seconds = timeout;
  target_status = "unknown";
  loaded = none;
  blocked = false;
  terminal = false;
  keeper_status = "starting";
  stop_reason = none;
  log_path = log_path;
  selected_via = selected_via;
  last_error = none;
  event_count = pos 0;
  provider_metadata = metadata;
}

abbrev pub or_null_bool : Option Bool → Value
or_null_bool none = null
or_null_bool (some b) = bool b

-- asdict(record)
unfoldable pub to_dict : KeeperRecord → Fields
to_dict r = field "provider" (str r.provider) (
    field "target_id" (str r.target_id) (
      field "pid" (int r.pid) (
        field "display_name" (or_null r.display_name) (
          field "started_at" (str r.started_at) (
            field "updated_at" (str r.updated_at) (
              field "last_activity_at" (or_null r.last_activity_at) (
                field "last_event_at" (or_null r.last_event_at) (
                  field "idle_since" (or_null r.idle_since) (
                    field "idle_timeout_seconds" (int r.idle_timeout_seconds) (
                      field "target_status" (str r.target_status) (
                        field "loaded" (or_null_bool r.loaded) (
                          field "blocked" (bool r.blocked) (
                            field "terminal" (bool r.terminal) (
                              field "keeper_status" (str r.keeper_status) (
                                field "stop_reason" (or_null r.stop_reason) (
                                  field "log_path" (str r.log_path) (
                                    field "selected_via" (str r.selected_via) (
                                      field "last_error" (or_null r.last_error) (
                                        field "event_count" (int r.event_count) (
                                          field "provider_metadata" (obj r.provider_metadata)
                                            end))))))))))))))))))))

-- data[key]
unfoldable pub require : String → Fields → Result Value
require key dict = elim (find key dict) [ none ↦ err (key_error key) | some v ↦ ok v ]

-- A legacy record keeps its socket path outside the metadata.
unfoldable pub with_legacy_socket : Value → Fields → Fields
with_legacy_socket (str legacy_socket) metadata =
    if has_key "socket_path" metadata
    then metadata
    else set_field "socket_path" (str legacy_socket) metadata
with_legacy_socket _ metadata = metadata

unfoldable pub dict_or_empty : Value → Fields
dict_or_empty (obj fs) = fs
dict_or_empty _ = end

module _ (py : Python) where
  -- str(data[key]) if data.get(key) is not None else None
  unfoldable pub optional_str : Value → Option String
  optional_str null = none
  optional_str v = some (str_of py v)

  unfoldable pub optional_bool : Value → Option Bool
  optional_bool null = none
  optional_bool v = some (truthy v)

  unfoldable pub from_dict : Fields → Result KeeperRecord
  from_dict dict = do
    pid_value ← require "pid" dict
    pid ← int_of py pid_value
    started_at ← require "started_at" dict
    updated_at ← require "updated_at" dict
    timeout_value ← require "idle_timeout_seconds" dict
    idle_timeout_seconds ← int_of py timeout_value
    event_count ← int_of py (get_or "event_count" (int (pos 0)) dict)
    ok (record {
      provider = str_of py (get_or "provider" (str "codex") dict);
      target_id = str_of py (get_or "target_id" (get_or "thread_id" (str "") dict) dict);
      pid = pid;
      display_name = as_str (get_or "display_name" (get "thread_name" dict) dict);
      started_at = str_of py started_at;
      updated_at = str_of py updated_at;
      last_activity_at = optional_str (get "last_activity_at" dict);
      last_event_at = optional_str (get "last_event_at" dict);
      idle_since = optional_str (get "idle_since" dict);
      idle_timeout_seconds = idle_timeout_seconds;
      target_status =
          str_of py (get_or "target_status" (get_or "thread_status" (str "unknown") dict) dict);
      loaded = optional_bool (get "loaded" dict);
      blocked = truthy (get_or "blocked" (bool false) dict);
      terminal = truthy (get_or "terminal" (bool false) dict);
      keeper_status = str_of py (get_or "keeper_status" (str "unknown") dict);
      stop_reason = optional_str (get "stop_reason" dict);
      log_path = str_of py (get_or "log_path" (str "") dict);
      selected_via = str_of py (get_or "selected_via" (str "target") dict);
      last_error = optional_str (get "last_error" dict);
      event_count = event_count;
      provider_metadata =
          with_legacy_socket (get "socket_path" dict)
            (dict_or_empty (get "provider_metadata" dict));
    })

-- record.touch()
unfoldable pub touch : String → KeeperRecord → KeeperRecord
touch now r = record r { updated_at = now }
