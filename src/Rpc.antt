-- ===== src/Rpc.antt =====
-- The JSON-RPC client of the Codex server (agent_keepalive/rpc.py, JsonRpcClient): the table of
-- requests that wait, what the reader does with an event, and how a request ends. The queue of a
-- request is named by the request's id; `answers` are all that was ever put into one.
pub mod Steps
pub mod Places
pub mod Once
pub mod Closing
pub mod Calls
use agent_keepalive.Json.{
  Fields, Items, Value, arr, as_obj, as_str, cons, end, field, get, get_or, has_key, int, nil, obj,
  str,
}
use agent_keepalive.Prelude.{
  Bool, Exception, List, Option, Result, String, [], codes, contains, err, false, if◌then◌else◌,
  int_eq, json_rpc_error, nat_eq, negsuc, none, ok, pair_eq, pos, rpc_connection_closed, some,
  string_eq, suc, text_append, text_eq, timeout_error, type_error, ℕ, ℤ, ◌&&◌, ◌++◌, ◌-◌, ◌==◌,
  ◌>>=◌, ◌||◌, ◌∷◌,
}
use agent_keepalive.Python.{Python, int_of, str_of}
use agent_keepalive.Recovery.{is_within}
use agent_keepalive.Ws.Events.{Event, close_event, pong_event, text_event}

pub data Answer : Type 0 where
  result_answer : Value → Answer
  error_answer : Value → Answer
  closed_answer : Exception → Answer

-- Callers of `request` on their way to an id: `checked` are past the check; `reading` have read their
-- id; `adding` have, besides, loaded the number that they add one to; the ids of `begun` are returned,
-- but not yet in the table.
pub record Rpc : Type 0 where
  pub next_request_id : ℕ
  pub checked : ℕ
  pub reading : List ℕ
  pub adding : List (ℕ × ℕ)
  pub begun : List ℕ
  pub pending : List ℕ
  pub answers : List (ℕ × Answer)
  pub notifications : List Value
  pub closed_error : Option Exception

abbrev pub new_client : Rpc
new_client = record {
  next_request_id = 1;
  checked = 0;
  reading = [];
  adding = [];
  begun = [];
  pending = [];
  answers = [];
  notifications = [];
  closed_error = none;
}

unfoldable pub drop_id : ℕ → List ℕ → List ℕ
drop_id k [] = []
drop_id k (j ∷ ids) = let rest = drop_id k ids in if j == k then rest else j ∷ rest

-- `if self._closed_error is not None`; the caller that is refused is gone.
unfoldable pub check_open : Rpc → Rpc
check_open r = elim r.closed_error [ some e ↦ r | none ↦ record r { checked = suc r.checked } ]

-- `request_id = self._next_request_id`
unfoldable pub read_id : Rpc → Rpc
read_id r =
    if r.checked == 0
    then r
    else record r { checked = r.checked - 1; reading = r.next_request_id ∷ r.reading }

unfoldable pub drop_first : ℕ → List ℕ → List ℕ
drop_first k [] = []
drop_first k (j ∷ ids) = let rest = drop_first k ids in if j == k then ids else j ∷ rest

unfoldable pub first_adding : ℕ → List (ℕ × ℕ) → Option ℕ
first_adding k [] = none
first_adding k ((j, n) ∷ rows) = let rest = first_adding k rows in if j == k then some n else rest

unfoldable pub drop_adding : ℕ → List (ℕ × ℕ) → List (ℕ × ℕ)
drop_adding k [] = []
drop_adding k ((j, n) ∷ rows) =
    let rest = drop_adding k rows in if j == k then rows else (j, n) ∷ rest

-- `self._next_request_id += 1`, which no lock guards: the number is loaded, and later one more than
-- it is stored.
unfoldable pub load_next : ℕ → Rpc → Rpc
load_next k r =
    if contains r.reading k
    then record r { reading = drop_first k r.reading; adding = (k, r.next_request_id) ∷ r.adding }
    else r

unfoldable pub store_next : ℕ → Rpc → Rpc
store_next k r = elim (first_adding k r.adding) [
  | none ↦ r
  | some n ↦ record r {
    next_request_id = suc n;
    adding = drop_adding k r.adding;
    begun = k ∷ r.begun;
  }
]

-- `self._pending[request_id] = response_queue`
unfoldable pub register : ℕ → Rpc → Rpc
register k r =
    if contains r.begun k
    then record r { begun = drop_id k r.begun; pending = k ∷ drop_id k r.pending }
    else r

-- `self._pending.pop(request_id, None)` of a request that has waited its time.
unfoldable pub give_up : ℕ → Rpc → Rpc
give_up k r = record r { pending = drop_id k r.pending }

-- Popping a request from the table, and putting the answer into its queue.
unfoldable pub deliver_answer : ℕ → Answer → Rpc → Rpc
deliver_answer k a r =
    if contains r.pending k
    then record r { pending = drop_id k r.pending; answers = (k, a) ∷ r.answers }
    else r

unfoldable pub close_all : Exception → List ℕ → List (ℕ × Answer) → List (ℕ × Answer)
close_all e [] answers = answers
close_all e (k ∷ ids) answers = (k, closed_answer e) ∷ close_all e ids answers

unfoldable pub fail_pending : Exception → Rpc → Rpc
fail_pending e r = record r { pending = []; answers = close_all e r.pending r.answers }

-- The libraries: `json.loads` of a message, `int` and `str`.
pub record RpcLibrary : Type 0 where
  pub rpc_python : Python
  pub load_message : String → Result Value
  pub exception_text : Exception → String

-- The number of an id; a negative one is in no table.
unfoldable pub deliver_to : ℤ → Answer → Rpc → Rpc
deliver_to (pos k) a r = deliver_answer k a r
deliver_to (negsuc k) a r = r

unfoldable pub is_response : Fields → Bool
is_response message = has_key "id" message && (has_key "result" message || has_key "error" message)

unfoldable pub answer_of : Fields → Answer
answer_of message =
    if has_key "result" message
    then result_answer (get "result" message)
    else error_answer (get "error" message)

unfoldable pub dispatch_message : RpcLibrary → Fields → Rpc → Result Rpc
dispatch_message lib message r =
    if is_response message
    then (do
      request_id ← int_of lib.rpc_python (get "id" message)
      ok (deliver_to request_id (answer_of message) r))
    else ok (record r { notifications = r.notifications ++ obj message ∷ [] })

-- `key in message`, of a list and of a text.
unfoldable pub has_item : Items → String → Bool
has_item nil key = false
has_item (cons item items) key =
    (elim (as_str item) [ none ↦ false | some s ↦ s == key ]) || has_item items key

unfoldable pub has_part : String → String → Bool
has_part s key = is_within (codes key) (codes s)

-- A message that is no object: `message["id"]` raises, and so does `in` of a number or a constant.
unfoldable pub dispatch_other : Value → (String → Bool) → Rpc → Result Rpc
dispatch_other message has r =
    if has "id" && (has "result" || has "error")
    then err (type_error "indices must be integers or slices, not str")
    else ok (record r { notifications = r.notifications ++ message ∷ [] })

unfoldable pub dispatch_value : RpcLibrary → Value → Rpc → Result Rpc
dispatch_value lib (obj message) r = dispatch_message lib message r
dispatch_value lib (arr items) r = dispatch_other (arr items) (has_item items) r
dispatch_value lib (str s) r = dispatch_other (str s) (has_part s) r
dispatch_value lib _ r = err (type_error "argument is not iterable")

unfoldable pub connection_closed : String → Fields
connection_closed reason =
    field "method" (str "__connection_closed__")
      (field "params" (obj (field "reason" (str reason) end)) end)

-- `except BaseException`: the reader's end.
unfoldable pub reader_failed : RpcLibrary → Exception → Rpc → Rpc
reader_failed lib e r =
    let failed = fail_pending e (record r { closed_error = some e }) in
    record failed {
      notifications = failed.notifications ++ obj (connection_closed (lib.exception_text e)) ∷ [];
    }

-- One turn of `_reader_loop`, from what `recv_event` came to.
unfoldable pub turn_of : RpcLibrary → Result (Option Event) → Rpc → Result Rpc
turn_of lib (err e) r = err e
turn_of lib (ok none) r = ok r
turn_of lib (ok (some (pong_event bytes))) r = ok r
turn_of lib (ok (some (close_event bytes))) r =
    err (rpc_connection_closed "app-server closed the websocket")
turn_of lib (ok (some (text_event text))) r = do
  message ← lib.load_message text
  dispatch_value lib message r

-- The reader as a whole, and one of its turns with its end.
unfoldable pub after_turn : RpcLibrary → Result Rpc → Rpc → Rpc
after_turn lib (ok next) r = next
after_turn lib (err e) r = reader_failed lib e r

unfoldable pub reader_loop : RpcLibrary → List (Result (Option Event)) → Rpc → Rpc
reader_loop lib [] r = r
reader_loop lib (event ∷ events) r = elim (turn_of lib event r) [
  | ok next ↦ reader_loop lib events next
  | err e ↦ reader_failed lib e r
]

-- How `request` ends: with what its queue gives, or with `none` in time.
unfoldable pub request_outcome : RpcLibrary → (method : String) → Option Answer → Result Value
request_outcome lib method none =
    err (timeout_error (text_append "timed out waiting for response to " method))
request_outcome lib method (some (result_answer payload)) = ok payload
request_outcome lib method (some (closed_answer e)) =
    err (rpc_connection_closed (lib.exception_text e))
request_outcome lib method (some (error_answer payload)) = elim (as_obj payload) [
  | none ↦ err (type_error "the error of a response is no object")
  | some members ↦ (do
    code_of ← int_of lib.rpc_python (get_or "code" (int (negsuc 31999)) members)
    err (
        json_rpc_error code_of
          (str_of lib.rpc_python (get_or "message" (str "JSON-RPC request failed") members))))
]
