-- ===== src/Ws/Events.antt =====
-- The next event of the socket (agent_keepalive/ws.py, recv_event): pings are answered on the way,
-- the fragments of a message are put together, other frames are passed over.
use agent_keepalive.Prelude.{
  Bool, Bytes, List, Option, String, [], code, err, false, give, if◌then◌else◌, int_eq, length,
  nat_eq, no_fuel, none, not, ok, pair_eq, raise, runtime_error, some, string_eq, suc, text_eq,
  true, unicode_error, websocket_closed, zero, ℕ, ◌++◌, ◌+◌, ◌==◌, ◌>>>◌, ◌||◌, ◌∷◌,
}
use agent_keepalive.Ws.{
  Arrival, Socketed, WsLibrary, arrived, hung_up, quiet, read_failed, require_socket, send_frame,
}
use agent_keepalive.Ws.Frames.{Frame, recv_frame}
use mathlib.Core.List.{flatten}

pub data Event : Type 0 where
  text_event : String → Event
  pong_event : Bytes → Event
  close_event : Bytes → Event

-- What the loop over the fragments of a message comes to: all its parts, or a close frame.
pub data Gathered : Type 0 where
  all_parts : List Bytes → Gathered
  closed_by : Bytes → Gathered

unfoldable pub next_part :
    WsLibrary
    → (again : List Bytes → (finished : Bool) → Socketed Gathered) (parts : List Bytes)
    → Option Frame
    → Socketed Gathered
next_part lib again parts none =
    raise (websocket_closed "socket closed while reading fragmented frame")
next_part lib again parts (some f) =
    if f.opcode == 9
    then (send_frame lib 10 (f.payload) >>> λ _. again parts (f.finished))
    else (if f.opcode == 8
        then give (closed_by (f.payload))
        else (if not (f.opcode == 0)
            then raise (runtime_error "unexpected websocket continuation opcode")
            else again (parts ++ f.payload ∷ []) (f.finished)))

unfoldable pub fragments :
    WsLibrary → (fuel : ℕ) → List Bytes → (finished : Bool) → Socketed Gathered
fragments lib fuel parts true w = (ok (all_parts parts), w)
fragments lib zero parts false w = (err no_fuel, w)
fragments lib (suc fuel) parts false w = (recv_frame >>> next_part lib (fragments lib fuel) parts) w

-- The bytes that have not been read: each frame takes at least two of them.
unfoldable pub unread : List Arrival → ℕ
unread [] = 0
unread (arrived b bs ∷ later) = suc (length bs) + unread later
unread (quiet d ∷ later) = unread later
unread (read_failed errno text ∷ later) = unread later
unread (hung_up ∷ later) = 0

unfoldable pub text_of : Option String → Socketed (Option Event)
text_of none = raise unicode_error
text_of (some text) = give (some (text_event text))

unfoldable pub assembled :
    WsLibrary → (again : Socketed (Option Event)) (opcode : ℕ) → Gathered → Socketed (Option Event)
assembled lib again code (closed_by bytes) = give (some (close_event bytes))
assembled lib again code (all_parts parts) =
    if not (code == 1) then again else text_of (lib.utf8_decode (flatten parts))

unfoldable pub next_event :
    WsLibrary → (again : Socketed (Option Event)) → Option Frame → Socketed (Option Event)
next_event lib again none = give none
next_event lib again (some f) =
    if f.opcode == 8
    then give (some (close_event (f.payload)))
    else (if f.opcode == 9
        then (send_frame lib 10 (f.payload) >>> λ _. again)
        else (if f.opcode == 10
            then give (some (pong_event (f.payload)))
            else (if not (f.opcode == 0 || f.opcode == 1)
                then again
                else ((λ w.
                      fragments lib (suc (unread (w.arrivals))) (f.payload ∷ []) (f.finished) w)
                    >>> assembled lib again (f.opcode)))))

unfoldable pub event_loop : WsLibrary → (fuel : ℕ) → Socketed (Option Event)
event_loop lib zero w = (err no_fuel, w)
event_loop lib (suc fuel) w = (recv_frame >>> next_event lib (event_loop lib fuel)) w

unfoldable pub recv_event : WsLibrary → (limit : Option ℕ) → Socketed (Option Event)
recv_event lib limit =
    require_socket λ w. event_loop lib (suc (unread (w.arrivals))) (record w { time_limit = limit })
