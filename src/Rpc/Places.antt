-- ===== src/Rpc/Places.antt =====
-- Where a request is, before and after a turn of a caller or of the reader (agent_keepalive/rpc.py);
-- the queue of a request holds one answer.
use agent_keepalive.Json.{Fields, Value, arr, get, obj, str}
use agent_keepalive.Prelude.{
  Bool, Exception, List, Option, Result, Result-cases, String, [], arith, contains, err, if_elim,
  if◌then◌else◌, inl, inr, int_eq, nat_eq, negsuc, none, ok, pair_eq, pos, refl, some, string_eq,
  text_eq, true, ℕ, ℤ, ◌&&◌, ◌+◌, ◌==◌, ◌||◌, ◌∷◌, ◌≡◌, ◌≤◌,
}
use agent_keepalive.Python.{int_of}
use agent_keepalive.Rpc.{
  Answer, Rpc, RpcLibrary, after_turn, answer_of, close_all, deliver_answer, deliver_to,
  dispatch_message, dispatch_other, dispatch_value, drop_id, fail_pending, give_up, has_item,
  has_part, is_response, reader_failed, register, turn_of,
}
use agent_keepalive.Rpc.Steps.{answered, occurs, places}
use agent_keepalive.Ws.Events.{Event, close_event, pong_event, text_event}

pub occurs-drop_id :
    (k j : ℕ) (ids : List ℕ) → occurs k (drop_id j ids) ≡ (if j == k then 0 else occurs k ids)
unfolding occurs drop_id
occurs-drop_id k j [] = ground arith
occurs-drop_id k j (i ∷ ids) = ground (arith, occurs-drop_id k j ids)

pub contains-occurs : (k : ℕ) (ids : List ℕ) → contains ids k ≡ true → 1 ≤ occurs k ids
unfolding occurs
contains-occurs k [] h = cc
contains-occurs k (i ∷ ids) h = ground (arith, contains-occurs k ids)

pub answered-close_all :
    (k : ℕ) (e : Exception) (ids : List ℕ) (answers : List (ℕ × Answer))
    → occurs k (answered (close_all e ids answers)) ≡ occurs k ids + occurs k (answered answers)
unfolding close_all answered occurs
answered-close_all k e [] answers = omega arith
answered-close_all k e (j ∷ ids) answers =
    let ih = answered-close_all k e ids answers in omega arith

-- The callers that are allocating an id are the same, and no request is in more places.
abbrev pub NoMore : ℕ → Rpc → Rpc → Type 0
NoMore k r s =
    (s.next_request_id ≡ r.next_request_id)
    × (s.reading ≡ r.reading)
    × (s.adding ≡ r.adding)
    × (places k s ≤ places k r)

pub NoMore-refl : (k : ℕ) (r : Rpc) → NoMore k r r
NoMore-refl k r = (refl, refl, refl, omega arith)

pub register-NoMore : (k j : ℕ) (r : Rpc) → NoMore k r (register j r)
unfolding register places occurs
register-NoMore k j r =
    if_elim {A = Rpc} (NoMore k r) (contains r.begun j) _ r
      (λ there.
        let left_begun = occurs-drop_id k j r.begun in
        let left_pending = occurs-drop_id k j r.pending in
        let seen = contains-occurs j r.begun there in (refl, refl, refl, ground arith))
      (λ _. NoMore-refl k r)

pub give_up-NoMore : (k j : ℕ) (r : Rpc) → NoMore k r (give_up j r)
unfolding give_up places
give_up-NoMore k j r =
    let left_pending = occurs-drop_id k j r.pending in (refl, refl, refl, ground arith)

deliver_answer-NoMore : (k j : ℕ) (a : Answer) (r : Rpc) → NoMore k r (deliver_answer j a r)
unfolding deliver_answer places occurs answered
deliver_answer-NoMore k j a r =
    if_elim {A = Rpc} (NoMore k r) (contains r.pending j) _ r
      (λ there.
        let left_pending = occurs-drop_id k j r.pending in
        let seen = contains-occurs j r.pending there in (refl, refl, refl, ground arith))
      (λ _. NoMore-refl k r)

reader_failed-NoMore :
    (k : ℕ) (lib : RpcLibrary) (e : Exception) (r : Rpc) → NoMore k r (reader_failed lib e r)
unfolding reader_failed fail_pending places occurs
reader_failed-NoMore k lib e r =
    let all_closed = answered-close_all k e r.pending r.answers in (refl, refl, refl, omega arith)

deliver_to-NoMore : (k : ℕ) (n : ℤ) (a : Answer) (r : Rpc) → NoMore k r (deliver_to n a r)
unfolding deliver_to
deliver_to-NoMore k (pos j) a r = deliver_answer-NoMore k j a r
deliver_to-NoMore k (negsuc j) a r = NoMore-refl k r

-- What holds of a turn that does not raise.
pub Turned : ℕ → Rpc → Result Rpc → Type 0
Turned k r (ok s) = NoMore k r s
Turned k r (err e) = Unit

dispatch_message-Turned :
    (k : ℕ) (lib : RpcLibrary) (message : Fields) (r : Rpc)
    → Turned k r (dispatch_message lib message r)
unfolding dispatch_message Turned places
dispatch_message-Turned k lib message r =
    if_elim {A = Result Rpc} (Turned k r) (is_response message) _ _
      (λ _. elim (Result-cases (int_of lib.rpc_python (get "id" message))) [
        | inl (n, is_int) ↦ rw is_int (deliver_to-NoMore k n (answer_of message) r)
        | inr (e, is_err) ↦ rw is_err tt
      ])
      (λ _. NoMore-refl k r)

dispatch_other-Turned :
    (k : ℕ) (message : Value) (has : String → Bool) (r : Rpc)
    → Turned k r (dispatch_other message has r)
unfolding dispatch_other Turned places
dispatch_other-Turned k message has r =
    if_elim {A = Result Rpc} (Turned k r) (has "id" && (has "result" || has "error")) _ _ (λ _. tt)
      (λ _. NoMore-refl k r)

dispatch_value-Turned :
    (k : ℕ) (lib : RpcLibrary) (message : Value) (r : Rpc)
    → Turned k r (dispatch_value lib message r)
unfolding dispatch_value Turned
dispatch_value-Turned k lib (obj message) r = dispatch_message-Turned k lib message r
dispatch_value-Turned k lib (arr items) r = dispatch_other-Turned k (arr items) (has_item items) r
dispatch_value-Turned k lib (str s) r = dispatch_other-Turned k (str s) (has_part s) r
dispatch_value-Turned k lib _ r = tt

pub turn_of-Turned :
    (k : ℕ) (lib : RpcLibrary) (event : Result (Option Event)) (r : Rpc)
    → Turned k r (turn_of lib event r)
unfolding turn_of Turned
turn_of-Turned k lib (err e) r = tt
turn_of-Turned k lib (ok none) r = NoMore-refl k r
turn_of-Turned k lib (ok (some (pong_event bytes))) r = NoMore-refl k r
turn_of-Turned k lib (ok (some (close_event bytes))) r = tt
turn_of-Turned k lib (ok (some (text_event text))) r = elim (Result-cases (lib.load_message text)) [
  | inl (message, loads) ↦ rw loads (dispatch_value-Turned k lib message r)
  | inr (e, raises) ↦ rw raises tt
]

pub after_turn-NoMore :
    (k : ℕ) (lib : RpcLibrary) (t : Result Rpc) (r : Rpc)
    → Turned k r t
    → NoMore k r (after_turn lib t r)
unfolding after_turn Turned
after_turn-NoMore k lib (ok s) r h = h
after_turn-NoMore k lib (err e) r h = reader_failed-NoMore k lib e r
