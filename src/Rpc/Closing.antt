-- ===== src/Rpc/Closing.antt =====
-- The requests that wait when the reader ends (agent_keepalive/rpc.py, _reader_loop and _fail_pending).
use agent_keepalive.Json.{Fields, Value, arr, get, obj, str}
use agent_keepalive.Prelude.{
  Bool, Exception, List, Option, Result, Result-cases, String, [], arith, contains, err, if_elim,
  inl, inr, int_eq, nat_eq, negsuc, none, ok, pair_eq, pos, refl, some, string_eq, text_eq, true, ℕ,
  ℤ, ◌&&◌, ◌++◌, ◌+◌, ◌||◌, ◌∷◌, ◌≡◌, ◌≤◌,
}
use agent_keepalive.Python.{int_of}
use agent_keepalive.Rpc.{
  Answer, Rpc, RpcLibrary, answer_of, deliver_answer, deliver_to, dispatch_message, dispatch_other,
  dispatch_value, fail_pending, has_item, has_part, is_response, reader_failed, reader_loop,
  turn_of,
}
use agent_keepalive.Rpc.Places.{answered-close_all, contains-occurs, occurs-drop_id}
use agent_keepalive.Rpc.Steps.{answered, occurs}
use agent_keepalive.Ws.Events.{Event, close_event, pong_event, text_event}

-- The request waits or has been answered.
abbrev Held : ℕ → Rpc → Type 0
Held k r = 1 ≤ occurs k r.pending + occurs k (answered r.answers)

deliver_answer-Held : (k j : ℕ) (a : Answer) (r : Rpc) → Held k r → Held k (deliver_answer j a r)
unfolding deliver_answer occurs answered
deliver_answer-Held k j a r h =
    if_elim {A = Rpc} (Held k) (contains r.pending j) _ r
      (λ _. let left_pending = occurs-drop_id k j r.pending in ground arith) (λ _. h)

deliver_to-Held : (k : ℕ) (n : ℤ) (a : Answer) (r : Rpc) → Held k r → Held k (deliver_to n a r)
unfolding deliver_to
deliver_to-Held k (pos j) a r h = deliver_answer-Held k j a r h
deliver_to-Held k (negsuc j) a r h = h

Holding : ℕ → Result Rpc → Type 0
Holding k (ok s) = Held k s
Holding k (err e) = Unit

dispatch_message-Holding :
    (k : ℕ) (lib : RpcLibrary) (message : Fields) (r : Rpc)
    → Held k r
    → Holding k (dispatch_message lib message r)
unfolding dispatch_message Holding
dispatch_message-Holding k lib message r h =
    if_elim {A = Result Rpc} (Holding k) (is_response message) _ _
      (λ _. elim (Result-cases (int_of lib.rpc_python (get "id" message))) [
        | inl (n, is_int) ↦ rw is_int (deliver_to-Held k n (answer_of message) r h)
        | inr (e, is_err) ↦ rw is_err tt
      ])
      (λ _. h)

dispatch_other-Holding :
    (k : ℕ) (message : Value) (has : String → Bool) (r : Rpc)
    → Held k r
    → Holding k (dispatch_other message has r)
unfolding dispatch_other Holding
dispatch_other-Holding k message has r h =
    if_elim {A = Result Rpc} (Holding k) (has "id" && (has "result" || has "error")) _ _ (λ _. tt)
      (λ _. h)

dispatch_value-Holding :
    (k : ℕ) (lib : RpcLibrary) (message : Value) (r : Rpc)
    → Held k r
    → Holding k (dispatch_value lib message r)
unfolding dispatch_value Holding
dispatch_value-Holding k lib (obj message) r h = dispatch_message-Holding k lib message r h
dispatch_value-Holding k lib (arr items) r h =
    dispatch_other-Holding k (arr items) (has_item items) r h
dispatch_value-Holding k lib (str s) r h = dispatch_other-Holding k (str s) (has_part s) r h
dispatch_value-Holding k lib _ r h = tt

turn_of-Holding :
    (k : ℕ) (lib : RpcLibrary) (event : Result (Option Event)) (r : Rpc)
    → Held k r
    → Holding k (turn_of lib event r)
unfolding turn_of Holding
turn_of-Holding k lib (err e) r h = tt
turn_of-Holding k lib (ok none) r h = h
turn_of-Holding k lib (ok (some (pong_event bytes))) r h = h
turn_of-Holding k lib (ok (some (close_event bytes))) r h = tt
turn_of-Holding k lib (ok (some (text_event text))) r h =
    elim (Result-cases (lib.load_message text)) [
      | inl (message, loads) ↦ rw loads (dispatch_value-Holding k lib message r h)
      | inr (e, raises) ↦ rw raises tt
    ]

-- Nobody waits, and this request has its answer.
abbrev pub Settled : ℕ → Rpc → Type 0
Settled k r = (r.pending ≡ []) × (1 ≤ occurs k (answered r.answers))

reader_failed-Settled :
    (k : ℕ) (lib : RpcLibrary) (e : Exception) (r : Rpc)
    → Held k r
    → Settled k (reader_failed lib e r)
unfolding reader_failed fail_pending
reader_failed-Settled k lib e r h =
    let all_closed = answered-close_all k e r.pending r.answers in (refl, omega arith)

turn_settles :
    (k : ℕ) (lib : RpcLibrary) (turned : Result Rpc) (events : List (Result (Option Event)))
    (r : Rpc)
    → Holding k turned
    → Held k r
    → ((s : Rpc) → Held k s → Settled k (reader_loop lib events s))
    → Settled k
        (elim turned [ ok next ↦ reader_loop lib events next | err e ↦ reader_failed lib e r ])
unfolding Holding
turn_settles k lib (ok s) events r holding h next = next s holding
turn_settles k lib (err e) events r holding h next = reader_failed-Settled k lib e r h

loop_settles :
    (k : ℕ) (lib : RpcLibrary) (e : Exception) (events : List (Result (Option Event))) (r : Rpc)
    → Held k r
    → Settled k (reader_loop lib (events ++ err e ∷ []) r)
unfolding reader_loop turn_of
loop_settles k lib e [] r h = reader_failed-Settled k lib e r h
loop_settles k lib e (event ∷ events) r h =
    turn_settles k lib (turn_of lib event r) (events ++ err e ∷ []) r
      (turn_of-Holding k lib event r h) h (λ s held. loop_settles k lib e events s held)

-- However many events the reader takes before an exception ends it, a request that waits when it
-- starts has been answered when it ends, and no request is left in the table.
pub reader_loop-Settled :
    (lib : RpcLibrary) (events : List (Result (Option Event))) (e : Exception) (r : Rpc) (k : ℕ)
    → contains r.pending k ≡ true
    → Settled k (reader_loop lib (events ++ err e ∷ []) r)
reader_loop-Settled lib events e r k waits =
    let there = contains-occurs k r.pending waits in loop_settles k lib e events r (omega arith)
