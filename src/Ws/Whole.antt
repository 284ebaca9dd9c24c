-- ===== src/Ws/Whole.antt =====
-- One frame read whole, and what is sent for one (agent_keepalive/ws.py, _recv_frame and
-- _send_frame).
use agent_keepalive.Prelude.{
  All, Bool, Bytes, IsByte, Option, [], code, length, some, sym, true, ℕ, ◌++◌, ◌<◌, ◌>>>◌, ◌^◌,
  ◌∙◌, ◌∷◌, ◌≡◌,
}
use agent_keepalive.Ws.{WebSocket, recv_exact}
use agent_keepalive.Ws.Exact.{read_then, recv_exact_lem}
use agent_keepalive.Ws.Frames.{
  high_bit, read_header, read_payload, recv_frame, recv_key, recv_length,
}
use agent_keepalive.Ws.Packed.{
  extended_length, first_byte, second_byte, second_byte-short, short_length,
}
use agent_keepalive.Ws.Pieces.{Receives, stream, with_arrivals}
use agent_keepalive.Ws.Received.{IsKey, body, is_masked, key_bytes, length-body, wire}
use agent_keepalive.Ws.Stages.{key_stage, length_stage, second_byte-flag, short_length_lt, unmasked}
use mathlib.Core.List.{append_assoc}
use mathlib.Core.Path.{subst}

payload_stage :
    (fin : Bool) (code : ℕ) (key : Option Bytes) (bytes rest : Bytes) (w : WebSocket)
    → code < 16
    → IsKey key
    → All IsByte bytes
    → w.is_open ≡ true
    → stream w.time_limit w.arrivals ≡ body key bytes ++ rest
    → Receives
        ((recv_exact (length bytes)
            >>> read_payload
                (first_byte fin code)
                (second_byte (is_masked key) (short_length (length bytes)))
                (key_bytes key))
          w)
        w
        (some (record { opcode = code; payload = bytes; finished = fin }))
        rest
payload_stage fin code key bytes rest w hc hk hb ho hs =
    read_then (recv_exact (length bytes))
      (read_payload (first_byte fin code)
        (second_byte (is_masked key) (short_length (length bytes))) (key_bytes key))
      w w (some (body key bytes)) (some (record { opcode = code; payload = bytes; finished = fin }))
      rest rest
      (subst (λ n. Receives (recv_exact n w) w (some (body key bytes)) rest) (length-body key bytes)
        (recv_exact_lem (body key bytes) rest w ho hs))
      (λ inbox left. (inbox, unmasked fin code key bytes (with_arrivals w inbox) hc hk hb, left))

tail_stage :
    (fin : Bool) (code : ℕ) (key : Option Bytes) (bytes rest : Bytes) (w : WebSocket)
    → code < 16
    → IsKey key
    → All IsByte bytes
    → length bytes < 2 ^ 64
    → w.is_open ≡ true
    → stream w.time_limit w.arrivals
      ≡ extended_length (length bytes) ++ (key_bytes key ++ (body key bytes ++ rest))
    → Receives
        ((recv_length (short_length (length bytes)) >>> λ size. recv_key (is_masked key) >>> λ k.
            recv_exact size
            >>> read_payload
                (first_byte fin code)
                (second_byte (is_masked key) (short_length (length bytes)))
                k)
          w)
        w
        (some (record { opcode = code; payload = bytes; finished = fin }))
        rest
unfolding with_arrivals
tail_stage fin code key bytes rest w hc hk hb hn ho hs =
    let frame = some (record { opcode = code; payload = bytes; finished = fin }) in
    let use_key =
      read_payload (first_byte fin code)
        (second_byte (is_masked key) (short_length (length bytes))) in
    read_then (recv_length (short_length (length bytes)))
      (λ size. recv_key (is_masked key) >>> λ k. recv_exact size >>> use_key k) w w (length bytes)
      frame (key_bytes key ++ (body key bytes ++ rest)) rest
      (length_stage (length bytes) (key_bytes key ++ (body key bytes ++ rest)) w hn ho hs)
      (λ inbox left.
        read_then (recv_key (is_masked key)) (λ k. recv_exact (length bytes) >>> use_key k)
          (with_arrivals w inbox) w (key_bytes key) frame (body key bytes ++ rest) rest
          (key_stage key (body key bytes ++ rest) (with_arrivals w inbox) hk ho left)
          (λ later still.
            payload_stage fin code key bytes rest (with_arrivals w later) hc hk hb ho still))

header_stage :
    (fin : Bool) (code : ℕ) (key : Option Bytes) (bytes rest : Bytes) (w : WebSocket)
    → code < 16
    → IsKey key
    → All IsByte bytes
    → length bytes < 2 ^ 64
    → w.is_open ≡ true
    → stream w.time_limit w.arrivals
      ≡ extended_length (length bytes) ++ (key_bytes key ++ (body key bytes ++ rest))
    → Receives
        (read_header
          (some
            (first_byte fin code ∷ second_byte (is_masked key) (short_length (length bytes)) ∷ []))
          w)
        w
        (some (record { opcode = code; payload = bytes; finished = fin }))
        rest
unfolding read_header with_arrivals
header_stage fin code key bytes rest w hc hk hb hn ho hs =
    subst
      (λ short.
        Receives
          ((recv_length short >>> λ size.
              recv_key (high_bit (second_byte (is_masked key) (short_length (length bytes))))
              >>> λ k.
                  recv_exact size
                  >>> read_payload (first_byte fin code)
                      (second_byte (is_masked key) (short_length (length bytes))) k)
            w)
          w (some (record { opcode = code; payload = bytes; finished = fin })) rest)
      (sym (
        second_byte-short (is_masked key) (short_length (length bytes))
          (short_length_lt (length bytes))))
      (subst
        (λ flag.
          Receives
            ((recv_length (short_length (length bytes)) >>> λ size. recv_key flag >>> λ k.
                recv_exact size
                >>> read_payload (first_byte fin code)
                    (second_byte (is_masked key) (short_length (length bytes))) k)
              w)
            w (some (record { opcode = code; payload = bytes; finished = fin })) rest)
        (sym (second_byte-flag (is_masked key) (length bytes)))
        (tail_stage fin code key bytes rest w hc hk hb hn ho hs))

-- A frame of RFC 6455 with an opcode, a payload of bytes, and a masking key or none, is read as what
-- it says, and the peer's bytes after it are left, in whatever pieces the bytes arrive.
pub recv_frame-wire :
    (fin : Bool) (code : ℕ) (key : Option Bytes) (bytes rest : Bytes) (w : WebSocket)
    → code < 16
    → IsKey key
    → All IsByte bytes
    → length bytes < 2 ^ 64
    → w.is_open ≡ true
    → stream w.time_limit w.arrivals ≡ wire fin code key bytes ++ rest
    → Receives
        (recv_frame w)
        w
        (some (record { opcode = code; payload = bytes; finished = fin }))
        rest
unfolding recv_frame wire with_arrivals
recv_frame-wire fin code key bytes rest w hc hk hb hn ho hs =
    read_then (recv_exact 2) read_header w w
      (some (first_byte fin code ∷ second_byte (is_masked key) (short_length (length bytes)) ∷ []))
      (some (record { opcode = code; payload = bytes; finished = fin }))
      (extended_length (length bytes) ++ (key_bytes key ++ (body key bytes ++ rest))) rest
      (recv_exact_lem
        (first_byte fin code ∷ second_byte (is_masked key) (short_length (length bytes)) ∷ [])
        (extended_length (length bytes) ++ (key_bytes key ++ (body key bytes ++ rest))) w ho
        (hs ∙ simp append_assoc))
      (λ inbox left.
        header_stage fin code key bytes rest (with_arrivals w inbox) hc hk hb hn ho left)
