-- ===== src/Rpc/Calls.antt =====
-- The requests of the program (agent_keepalive/app_server.py, AppServerClient): the method, the
-- parameters and the time limit in ms of each, and what is read from its result.
use agent_keepalive.Json.{Fields, Value, arr, bool, cons, end, field, int, nil, obj, str}
use agent_keepalive.Prelude.{
  Option, String, false, if◌then◌else◌, int_eq, nat_eq, none, pair_eq, some, string_eq, text_eq, ℕ,
  ℤ, ◌==◌,
}

pub record Request : Type 0 where
  pub method : String
  pub params : Fields
  pub limit_ms : ℕ

abbrev pub ask : String → Fields → Request
ask method params = record { method = method; params = params; limit_ms = 30000 }

abbrev pub one_member : String → Value → Fields
one_member name value = field name value end

unfoldable pub initialize_request : (name title version : String) → Request
initialize_request name title version = ask "initialize" (
    field "clientInfo"
      (obj
        (field "name" (str name) (field "title" (str title) (field "version" (str version) end))))
      (field "capabilities" (obj (one_member "experimentalApi" (bool false))) end))

unfoldable pub list_threads_request : (limit : ℤ) → Request
list_threads_request limit = ask "thread/list" (
    field "limit" (int limit) (
      field "sortKey" (str "updated_at")
        (field "sortDirection" (str "desc") (field "archived" (bool false) end))))

abbrev pub list_loaded_threads_request : Request
list_loaded_threads_request = ask "thread/loaded/list" end

unfoldable pub read_thread_request : (thread_id : String) → Request
read_thread_request thread_id =
    ask "thread/read" (field "threadId" (str thread_id) (field "includeTurns" (bool false) end))

unfoldable pub resume_thread_request : (thread_id : String) → Request
resume_thread_request thread_id = ask "thread/resume" (one_member "threadId" (str thread_id))

unfoldable pub start_thread_request : (cwd : Option String) → Request
start_thread_request none = ask "thread/start" end
start_thread_request (some cwd) =
    ask "thread/start" (if cwd == "" then end else one_member "cwd" (str cwd))

unfoldable pub start_turn_text_request : (thread_id text : String) → Request
start_turn_text_request thread_id text = record {
  method = "turn/start";
  params = field "threadId" (str thread_id) (
      field "input"
        (arr (
          cons
            (obj (
              field "type" (str "text")
                (field "text" (str text) (field "text_elements" (arr nil) end))))
            nil))
        end);
  limit_ms = 120000;
}

unfoldable pub unsubscribe_request : (thread_id : String) → Request
unsubscribe_request thread_id = ask "thread/unsubscribe" (one_member "threadId" (str thread_id))
