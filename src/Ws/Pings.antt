-- ===== src/Ws/Pings.antt =====
-- A ping between the fragments of a message (agent_keepalive/ws.py, recv_event, lines 99 to 106), whose
-- FIN flag the loop assigns to the message's.
use agent_keepalive.Prelude.{
  Bytes, List, Option, String, [], ap, arith, false, go_on, length, none, some, suc, sym, true, ℕ,
  ◌++◌, ◌∙◌, ◌∷◌, ◌≡◌,
}
use agent_keepalive.Ws.{WebSocket, WsLibrary}
use agent_keepalive.Ws.Events.{
  all_parts, assembled, event_loop, fragments, next_event, next_part, recv_event, text_event,
  text_of, unread,
}
use agent_keepalive.Ws.Exact.{read_then}
use agent_keepalive.Ws.Frames.{Frame, recv_frame}
use agent_keepalive.Ws.Messages.{IsPart, recv_event_open}
use agent_keepalive.Ws.Pieces.{Receives, stream, with_arrivals}
use agent_keepalive.Ws.Received.{IsKey, wire}
use agent_keepalive.Ws.Sent.{send_frame-wire}
use agent_keepalive.Ws.Whole.{recv_frame-wire}
use mathlib.Core.List.{append-nil}
use mathlib.Core.Path.{subst}

-- The socket once a ping has been answered.
unfoldable pub ponged : WsLibrary → Bytes → WebSocket → WebSocket
ponged lib bytes w = record w {
  sent = w.sent ++ wire true 10 (some (lib.token_bytes w.drawn)) bytes;
  drawn = suc w.drawn;
}

ping_inside :
    (lib : WsLibrary) (fuel : ℕ) (done : List Bytes) (key : Option Bytes) (bytes rest : Bytes)
    (w : WebSocket)
    → IsKey key
    → IsPart bytes
    → w.is_open ≡ true
    → w.send_error ≡ none
    → length (lib.token_bytes w.drawn) ≡ 4
    → stream w.time_limit w.arrivals ≡ wire true 9 key bytes ++ rest
    → Receives (fragments lib (suc fuel) done false w) (ponged lib bytes w) (all_parts done) rest
unfolding fragments next_part ponged with_arrivals
ping_inside lib fuel done key bytes rest w hk hb ho he hm hs =
    let pinged : Frame = record { opcode = 9; payload = bytes; finished = true } in
    read_then recv_frame (next_part lib (fragments lib fuel) done) w (ponged lib bytes w)
      (some pinged) (all_parts done) rest rest
      (recv_frame-wire true 9 key bytes rest w (omega arith) hk hb.0 hb.1 ho hs)
      (λ inbox left. (
        inbox,
        ap (λ r. go_on (λ _. fragments lib fuel done true) r)
            (send_frame-wire lib 10 bytes (with_arrivals w inbox) (omega arith) hm ho he),
        left,
      ))

-- A finished ping that arrives between a message's first fragment and the others ends the message:
-- the ping is answered, what is delivered is the text of the first fragment alone, and the frames
-- that continue the message are left.
pub recv_event-ping_inside :
    (lib : WsLibrary) (limit : Option ℕ) (key : Option Bytes) (bytes ping rest : Bytes)
    (text : String) (w : WebSocket)
    → IsKey key
    → IsPart bytes
    → IsPart ping
    → w.is_open ≡ true
    → w.send_error ≡ none
    → length (lib.token_bytes w.drawn) ≡ 4
    → stream limit w.arrivals ≡ wire false 1 key bytes ++ (wire true 9 key ping ++ rest)
    → lib.utf8_decode bytes ≡ some text
    → Receives
        (recv_event lib limit w)
        (ponged lib ping (record w { time_limit = limit }))
        (some (text_event text))
        rest
unfolding with_arrivals next_event assembled text_of ponged mathlib.Core.List.flatten
recv_event-ping_inside lib limit key bytes ping rest text w hk hb hp ho he hm hs ht =
    let waiting = record w { time_limit = limit } in
    let begun : Frame = record { opcode = 1; payload = bytes; finished = false } in
    subst (λ r. Receives r (ponged lib ping waiting) (some (text_event text)) rest)
      (sym (recv_event_open lib limit w ho))
      (read_then recv_frame (next_event lib (event_loop lib (unread w.arrivals))) waiting
        (ponged lib ping waiting) (some begun) (some (text_event text))
        (wire true 9 key ping ++ rest) rest
        (recv_frame-wire false 1 key bytes (wire true 9 key ping ++ rest) waiting (omega arith) hk
          hb.0 hb.1 ho hs)
        (λ inbox left.
          let (final, run, still) =
            ping_inside lib (unread inbox) (bytes ∷ []) key ping rest (with_arrivals waiting inbox)
              hk hp ho he hm left in
          (
            final,
            ap (λ r. go_on (assembled lib (event_loop lib (unread w.arrivals)) 1) r) run
                ∙ ap (λ t. text_of t (with_arrivals (ponged lib ping waiting) final))
                    (ap lib.utf8_decode (append-nil bytes) ∙ ht),
            still,
          )))
