-- ===== src/Ws/Handshake.antt =====
-- Opening a websocket (agent_keepalive/ws.py, connect, _read_http_response and _extract_header). A
-- text in latin1 has its bytes as code points; letters are compared in lower case within ASCII.
use agent_keepalive.Prelude.{
  Bytes, List, Nothing, Option, Result, String, Text, [], codes, drop, err, if◌then◌else◌, int_eq,
  nat_eq, no_fuel, none, not, ok, pair_eq, runtime_error, some, string_eq, suc, text_append,
  text_eq, true, zero, ℕ, ◌&&◌, ◌++◌, ◌==◌, ◌>>=◌, ◌∷◌,
}
use agent_keepalive.Recovery.{fstring, has_prefix, is_within}
use agent_keepalive.TimeParse.{is_space, skip_spaces, to_lower}
use agent_keepalive.Ws.{Arrival, Socketed, WebSocket, recv}
use agent_keepalive.Ws.Events.{unread}

-- The blank line that ends the head of a response.
abbrev pub head_end : Text
head_end = 13 ∷ 10 ∷ 13 ∷ 10 ∷ []

-- One turn of `_read_http_response`, from what `recv` came to.
unfoldable pub response_read :
    (again : Bytes → List Arrival → Result Bytes × List Arrival) (response : Bytes)
    → Result Bytes × List Arrival
    → Result Bytes × List Arrival
response_read again response (err e, later) = (err e, later)
response_read again response (ok [], later) = (ok response, later)
response_read again response (ok (b ∷ bs), later) = again (response ++ b ∷ bs) later

-- The loop; every turn but the last takes bytes of the peer's.
unfoldable pub response_loop :
    (fuel : ℕ) → Option ℕ → (response : Bytes) → List Arrival → Result Bytes × List Arrival
response_loop zero limit response inbox = (err no_fuel, inbox)
response_loop (suc fuel) limit response inbox =
    if is_within head_end response
    then (ok response, inbox)
    else response_read (response_loop fuel limit) response (recv limit 4096 inbox)

unfoldable pub read_http_response : Option ℕ → List Arrival → Result Bytes × List Arrival
read_http_response limit inbox = response_loop (suc (suc (unread inbox))) limit [] inbox

-- text.split("\r\n")
unfoldable pub split_lines : Text → List Text
split_lines [] = [] ∷ []
split_lines (c ∷ []) = (c ∷ []) ∷ []
split_lines (c ∷ d ∷ s) = elim (split_lines (d ∷ s)) [
  | [] ↦ []
  | line ∷ lines ↦ if c == 13 && d == 10 then [] ∷ drop 1 line ∷ lines else (c ∷ line) ∷ lines
]

unfoldable pub lower : Text → Text
lower [] = []
lower (c ∷ s) = to_lower c ∷ lower s

unfoldable pub trim_end : Text → Text
trim_end [] = []
trim_end (c ∷ s) = elim (trim_end s) [
  | [] ↦ if is_space c then [] else c ∷ []
  | d ∷ rest ↦ c ∷ d ∷ rest
]

-- line.split(":", 1)[1]
unfoldable pub after_colon : Text → Text
after_colon [] = []
after_colon (c ∷ s) = let rest = after_colon s in if c == b':' then s else rest

unfoldable pub find_header : (name : String) → List Text → Result Text
find_header name [] =
    err
      (runtime_error (fstring ("missing " ∷ name ∷ " header in websocket handshake response" ∷ [])))
find_header name (line ∷ lines) =
    let rest = find_header name lines in
    if has_prefix (lower (codes name) ++ b':' ∷ []) (lower line)
    then ok (trim_end (skip_spaces (after_colon line)))
    else rest

unfoldable pub extract_header : Bytes → (name : String) → Result Text
extract_header response name = find_header name (split_lines response)

-- The checks of the response; `expected` is the accept value that the key calls for.
unfoldable pub check_response :
    (shown : Bytes → String) → (expected : Text) → Bytes → Result Nothing
check_response shown expected response =
    if not (is_within (codes "101 Switching Protocols") response)
    then err (runtime_error (text_append "websocket handshake failed: " (shown response)))
    else (do
      accept ← extract_header response "Sec-WebSocket-Accept"
      if not (accept == expected)
          then err (runtime_error "websocket accept header did not match request key")
          else ok tt)

unfoldable pub opened : List Arrival → Result Nothing → WebSocket → Result Nothing × WebSocket
opened later (err e) w = (err e, w)
opened later (ok u) w = (ok tt, record w { is_open = true; time_limit = none; arrivals = later })

-- connect: `connecting` is what opening the socket and sending the request come to, `inbox` what the
-- peer then does. When it raises, the socket is closed and not kept.
unfoldable pub connect_socket :
    (shown : Bytes → String) (expected : Text) (limit : ℕ) (connecting : Result Nothing)
    (inbox : List Arrival)
    → Socketed Nothing
connect_socket shown expected limit (err e) inbox w = (err e, w)
connect_socket shown expected limit (ok u) inbox w =
    let (response, later) = read_http_response (some limit) inbox in
    opened later (response >>= check_response shown expected) w
