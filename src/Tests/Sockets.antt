-- ===== src/Tests/Sockets.antt =====
-- Runs of the websocket on concrete bytes.
use agent_keepalive.Prelude.{List, [], arith, codes, none, ok, refl, some, true, ◌∷◌, ◌≡◌}
use agent_keepalive.Recovery.{has_prefix}
use agent_keepalive.TimeParse.{is_space, skip_spaces, to_lower}
use agent_keepalive.Ws.{Arrival, WebSocket, WsLibrary, arrived, quiet, waits_through}
use agent_keepalive.Ws.Events.{recv_event, text_event}
use agent_keepalive.Ws.Frames.{recv_frame}
use agent_keepalive.Ws.Handshake.{
  after_colon, extract_header, find_header, lower, split_lines, trim_end,
}
use agent_keepalive.Ws.Messages.{continuation, is_last, message_wire, recv_event-message}
use agent_keepalive.Ws.Packed.{extended_length, first_byte, second_byte, short_length}
use agent_keepalive.Ws.Pieces.{Receives, stream}
use agent_keepalive.Ws.Pings.{ponged, recv_event-ping_inside}
use agent_keepalive.Ws.Received.{IsKey, body, is_masked, key_bytes, wire}
use agent_keepalive.Ws.Waiting.{EndsOrWaits, recv_event-ends}
use agent_keepalive.Ws.Whole.{recv_frame-wire}

abbrev sample_library : WsLibrary
sample_library = record {
  token_bytes = λ n. 1 ∷ 2 ∷ 3 ∷ 4 ∷ [];
  utf8_encode = λ s. codes s;
  utf8_decode = λ bytes. some "hi";
}

abbrev socket_with : List Arrival → WebSocket
socket_with inbox = record {
  is_open = true;
  time_limit = none;
  arrivals = inbox;
  sent = [];
  drawn = 0;
  send_error = none;
}

-- "hi" in one frame, in three pieces.
abbrev greeting : List Arrival
greeting = arrived 129 [] ∷ arrived 2 (104 ∷ []) ∷ quiet 10 ∷ arrived 105 [] ∷ []

-- "h" and "i" in two frames.
abbrev fragmented : List Arrival
fragmented = arrived 1 (1 ∷ 104 ∷ 128 ∷ []) ∷ arrived 1 (105 ∷ []) ∷ []

-- The same with a ping between them.
abbrev interrupted : List Arrival
interrupted = arrived 1 (1 ∷ 104 ∷ []) ∷ arrived 137 (1 ∷ 7 ∷ []) ∷ arrived 128 (1 ∷ 105 ∷ []) ∷ []

recv_frame-wire_example :
    Receives
      (recv_frame (socket_with greeting))
      (socket_with greeting)
      (some (record { opcode = 1; payload = 104 ∷ 105 ∷ []; finished = true }))
      []
unfolding IsKey wire stream first_byte second_byte extended_length is_masked key_bytes short_length
    body waits_through
recv_frame-wire_example =
    recv_frame-wire true 1 none (104 ∷ 105 ∷ []) [] (socket_with greeting) (omega arith) tt
      (omega arith, (omega arith, tt)) (omega arith) refl refl

recv_event-message_example :
    Receives
      (recv_event sample_library (some 1000) (socket_with fragmented))
      (record (socket_with fragmented) { time_limit = some 1000 })
      (some (text_event "hi"))
      []
unfolding IsKey message_wire stream wire first_byte second_byte extended_length is_last is_masked
    key_bytes short_length body continuation
recv_event-message_example =
    recv_event-message sample_library (some 1000) none (104 ∷ []) ((105 ∷ []) ∷ []) [] "hi"
      (socket_with fragmented) tt ((omega arith, tt), omega arith)
      (((omega arith, tt), omega arith), tt) refl refl refl

recv_event-ping_inside_example :
    Receives
      (recv_event sample_library none (socket_with interrupted))
      (ponged sample_library (7 ∷ []) (socket_with interrupted))
      (some (text_event "hi"))
      (128 ∷ 1 ∷ 105 ∷ [])
unfolding IsKey wire stream first_byte second_byte extended_length is_masked key_bytes short_length
    body
recv_event-ping_inside_example =
    recv_event-ping_inside sample_library none none (104 ∷ []) (7 ∷ []) (128 ∷ 1 ∷ 105 ∷ []) "hi"
      (socket_with interrupted) tt ((omega arith, tt), omega arith) ((omega arith, tt), omega arith)
      refl refl refl refl refl

recv_event-ends_example : EndsOrWaits (recv_event sample_library (some 5) (socket_with interrupted))
recv_event-ends_example = recv_event-ends sample_library (some 5) (socket_with interrupted)

-- A header is found in its line whatever the case of its name, without the spaces around its value.
header_found :
    extract_header
      (codes "HTTP/1.1 101 Switching Protocols\r\nsec-websocket-ACCEPT:  abc \r\n\r\n")
      "Sec-WebSocket-Accept"
    ≡ ok (codes "abc")
unfolding extract_header find_header split_lines lower to_lower trim_end after_colon skip_spaces
    is_space has_prefix
header_found = refl
