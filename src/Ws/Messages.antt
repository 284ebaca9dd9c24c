-- ===== src/Ws/Messages.antt =====
-- Text messages in one frame or in fragments (agent_keepalive/ws.py, recv_event).
use agent_keepalive.Prelude.{
  All, Bool, Bytes, IsByte, List, Option, String, [], ap, arith, false, go_on, if_elim, length, ok,
  refl, some, suc, sym, true, zero, ℕ, ◌++◌, ◌<◌, ◌>>>◌, ◌^◌, ◌∙◌, ◌∷◌, ◌≡◌, ◌≤◌,
}
use agent_keepalive.Ws.{
  Arrival, WebSocket, WsLibrary, arrived, hung_up, quiet, read_failed, time_left, waits_through,
}
use agent_keepalive.Ws.Events.{
  Gathered, all_parts, assembled, event_loop, fragments, next_event, next_part, recv_event,
  text_event, text_of, unread,
}
use agent_keepalive.Ws.Exact.{length-append, read_then, require_open}
use agent_keepalive.Ws.Frames.{recv_frame}
use agent_keepalive.Ws.Pieces.{Receives, stream, stream_within, with_arrivals}
use agent_keepalive.Ws.Received.{IsKey, wire}
use agent_keepalive.Ws.Whole.{recv_frame-wire}
use mathlib.Core.List.{append-nil, append_assoc, flatten}
use mathlib.Core.Path.{subst}

-- The frames that continue a message: the last one has the FIN flag, and there may be none.
unfoldable pub continuation : Option Bytes → List Bytes → Bytes
continuation key [] = []
continuation key (bytes ∷ []) = wire true 0 key bytes
continuation key (bytes ∷ next ∷ parts) = wire false 0 key bytes ++ continuation key (next ∷ parts)

unfoldable pub is_last : List Bytes → Bool
is_last [] = true
is_last (bytes ∷ parts) = false

unfoldable pub message_wire : Option Bytes → Bytes → List Bytes → Bytes
message_wire key bytes parts = wire (is_last parts) 1 key bytes ++ continuation key parts

-- Bytes that one frame can carry.
abbrev pub IsPart : Bytes → Type 0
IsPart bytes = All IsByte bytes × (length bytes < 2 ^ 64)

nothing_le : (n : ℕ) → 0 ≤ n
nothing_le n = omega arith

length-stream_within_le :
    (limit left : Option ℕ) (inbox : List Arrival)
    → length (stream_within limit left inbox) ≤ unread inbox
unfolding stream_within unread
length-stream_within_le limit left [] = omega arith
length-stream_within_le limit left (hung_up ∷ later) = omega arith
length-stream_within_le limit left (read_failed errno text ∷ later) = nothing_le (unread later)
length-stream_within_le limit left (arrived b bs ∷ later) =
    let ih = length-stream_within_le limit limit later in
    let whole = length-append bs (stream_within limit limit later) in omega arith
length-stream_within_le limit left (quiet d ∷ later) =
    let ih = length-stream_within_le limit (time_left left d) later in
    if_elim (λ s. length s ≤ unread later) (waits_through left d)
      (stream_within limit (time_left left d) later) [] (λ _. ih) (λ _. nothing_le (unread later))

length-stream_le :
    (limit : Option ℕ) (inbox : List Arrival) → length (stream limit inbox) ≤ unread inbox
unfolding stream
length-stream_le limit inbox = length-stream_within_le limit limit inbox

length-continuation :
    (key : Option Bytes) (parts : List Bytes) → length parts ≤ length (continuation key parts)
unfolding continuation wire
length-continuation key [] = omega arith
length-continuation key (bytes ∷ []) = omega arith
length-continuation key (bytes ∷ next ∷ parts) =
    let ih = length-continuation key (next ∷ parts) in
    let whole = length-append (wire false 0 key bytes) (continuation key (next ∷ parts)) in
    omega arith

part_lem :
    (lib : WsLibrary) (fuel : ℕ) (done : List Bytes) (fin : Bool) (key : Option Bytes)
    (bytes rest : Bytes) (w : WebSocket)
    → IsKey key
    → IsPart bytes
    → w.is_open ≡ true
    → stream w.time_limit w.arrivals ≡ wire fin 0 key bytes ++ rest
    → (a : Gathered) (after : Bytes)
    → ((inbox : List Arrival)
        → stream w.time_limit inbox ≡ rest
        → Receives (fragments lib fuel (done ++ bytes ∷ []) fin (with_arrivals w inbox)) w a after)
    → Receives (fragments lib (suc fuel) done false w) w a after
unfolding fragments next_part
part_lem lib fuel done fin key bytes rest w hk hb ho hs a after next =
    read_then recv_frame (next_part lib (fragments lib fuel) done) w w
      (some (record { opcode = 0; payload = bytes; finished = fin })) a rest after
      (recv_frame-wire fin 0 key bytes rest w (omega arith) hk hb.0 hb.1 ho hs) next

fragments_lem :
    (lib : WsLibrary) (fuel : ℕ) (done parts : List Bytes) (key : Option Bytes) (rest : Bytes)
    (w : WebSocket)
    → IsKey key
    → All IsPart parts
    → w.is_open ≡ true
    → length parts ≤ fuel
    → stream w.time_limit w.arrivals ≡ continuation key parts ++ rest
    → Receives (fragments lib fuel done (is_last parts) w) w (all_parts (done ++ parts)) rest
unfolding fragments is_last continuation with_arrivals
fragments_lem lib fuel done [] key rest w hk hp ho hf hs =
    (w.arrivals, ap (λ ps. (ok (all_parts ps), w)) (sym (append-nil done)), hs)
fragments_lem lib zero done (bytes ∷ parts) key rest w hk hp ho hf hs = absurd (omega arith)
fragments_lem lib (suc fuel) done (bytes ∷ []) key rest w hk hp ho hf hs =
    part_lem lib fuel done true key bytes rest w hk hp.0 ho hs (all_parts (done ++ bytes ∷ [])) rest
      (λ inbox left. (inbox, refl, left))
fragments_lem lib (suc fuel) done (bytes ∷ next ∷ parts) key rest w hk hp ho hf hs =
    part_lem lib fuel done false key bytes (continuation key (next ∷ parts) ++ rest) w hk hp.0 ho
      (hs ∙ append_assoc (wire false 0 key bytes) (continuation key (next ∷ parts)) rest)
      (all_parts (done ++ bytes ∷ next ∷ parts)) rest
      (λ inbox left.
        subst
          (λ ps.
            Receives (fragments lib fuel (done ++ bytes ∷ []) false (with_arrivals w inbox)) w
              (all_parts ps) rest)
          (append_assoc done (bytes ∷ []) (next ∷ parts))
          (fragments_lem lib fuel (done ++ bytes ∷ []) (next ∷ parts) key rest
            (with_arrivals w inbox) hk hp.1 ho (omega arith) left))

pub recv_event_open :
    (lib : WsLibrary) (limit : Option ℕ) (w : WebSocket)
    → w.is_open ≡ true
    → recv_event lib limit w
      ≡ (recv_frame >>> next_event lib (event_loop lib (unread w.arrivals)))
          (record w { time_limit = limit })
unfolding recv_event event_loop
recv_event_open lib limit w ho =
    require_open (λ v. event_loop lib (suc (unread v.arrivals)) (record v { time_limit = limit })) w
      ho

pub after_first :
    (lib : WsLibrary) (fuel : ℕ) (key : Option Bytes) (bytes : Bytes) (parts : List Bytes)
    (rest : Bytes) (text : String) (w : WebSocket)
    → IsKey key
    → All IsPart parts
    → w.is_open ≡ true
    → stream w.time_limit w.arrivals ≡ continuation key parts ++ rest
    → lib.utf8_decode (flatten (bytes ∷ parts)) ≡ some text
    → Receives
        (next_event lib
          (event_loop lib fuel)
          (some (record { opcode = 1; payload = bytes; finished = is_last parts }))
          w)
        w
        (some (text_event text))
        rest
unfolding next_event with_arrivals assembled text_of
after_first lib fuel key bytes parts rest text w hk hp ho hs ht =
    let many = length-continuation key parts in
    let whole = length-append (continuation key parts) rest in
    let all = ap length hs in
    let fits = length-stream_le w.time_limit w.arrivals in
    let enough : length parts ≤ suc (unread w.arrivals) = omega arith in
    let (final, run, left) =
      fragments_lem lib (suc (unread w.arrivals)) (bytes ∷ []) parts key rest w hk hp ho enough
        hs in
    (
      final,
      ap (λ r. go_on (assembled lib (event_loop lib fuel) 1) r) run
          ∙ ap (λ t. text_of t (with_arrivals w final)) ht,
      left,
    )

-- A text message in one frame or in any number of fragments, masked or not, and in whatever pieces
-- its bytes arrive, is received as the text that its parts put together stand for; the peer's bytes
-- after it are left, and nothing is sent.
pub recv_event-message :
    (lib : WsLibrary) (limit : Option ℕ) (key : Option Bytes) (bytes : Bytes) (parts : List Bytes)
    (rest : Bytes) (text : String) (w : WebSocket)
    → IsKey key
    → IsPart bytes
    → All IsPart parts
    → w.is_open ≡ true
    → stream limit w.arrivals ≡ message_wire key bytes parts ++ rest
    → lib.utf8_decode (flatten (bytes ∷ parts)) ≡ some text
    → Receives
        (recv_event lib limit w)
        (record w { time_limit = limit })
        (some (text_event text))
        rest
unfolding message_wire with_arrivals
recv_event-message lib limit key bytes parts rest text w hk hb hp ho hs ht =
    let waiting = record w { time_limit = limit } in
    subst (λ r. Receives r waiting (some (text_event text)) rest)
      (sym (recv_event_open lib limit w ho))
      (read_then recv_frame (next_event lib (event_loop lib (unread w.arrivals))) waiting waiting
        (some (record { opcode = 1; payload = bytes; finished = is_last parts }))
        (some (text_event text)) (continuation key parts ++ rest) rest
        (recv_frame-wire (is_last parts) 1 key bytes (continuation key parts ++ rest) waiting
          (omega arith) hk hb.0 hb.1 ho
          (hs ∙ append_assoc (wire (is_last parts) 1 key bytes) (continuation key parts) rest))
        (λ inbox left.
          after_first lib (unread w.arrivals) key bytes parts rest text
            (with_arrivals waiting inbox) hk hp ho left ht))
