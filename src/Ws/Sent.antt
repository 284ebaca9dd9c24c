-- ===== src/Ws/Sent.antt =====
-- What is sent for a frame (agent_keepalive/ws.py, _send_frame).
use Prim.Native.Nat.{bit_or}
use agent_keepalive.Prelude.{
  Bytes, ap, arith, code, go_on, inl, inr, length, none, ok, some, suc, true, ℕ, ◌++◌, ◌<◌, ◌∙◌,
  ◌∷◌, ◌≡◌,
}
use agent_keepalive.Ws.{
  WebSocket, WsLibrary, apply_mask, length_bytes, mask_from, send_frame, sendall,
}
use agent_keepalive.Ws.Exact.{require_open}
use agent_keepalive.Ws.Packed.{
  extended_length, first_byte-bit_or, second_byte, second_byte-bit_or, short_length,
}
use agent_keepalive.Ws.Received.{apply_mask_lem, body, is_masked, key_bytes, wire}
use agent_keepalive.Ws.Stages.{length_long, length_middle, length_short, split_at}
use mathlib.Core.Path.{ap₂}

length_bytes_lem : (n : ℕ) → length_bytes n ≡ second_byte true (short_length n) ∷ extended_length n
unfolding length_bytes second_byte
length_bytes_lem n = elim (split_at 126 n) [
  | inl short ↦
      (let (code_is, more_is) = length_short n short in
        let or_is = second_byte-bit_or n (omega arith) in ground arith)
  | inr not_short ↦ elim (split_at 65536 n) [
    | inl middle ↦ (let (code_is, more_is) = length_middle n not_short middle in ground arith)
    | inr long ↦ (let (code_is, more_is) = length_long n long in ground arith)
  ]
]

sendall_lem :
    (bytes : Bytes) (w : WebSocket)
    → w.send_error ≡ none
    → sendall bytes w ≡ (ok tt, record w { sent = w.sent ++ bytes })
unfolding sendall
sendall_lem bytes w he = rw he

-- What is sent for a frame on an open socket that takes it: the frame of RFC 6455, finished and
-- masked with the key drawn for it.
pub send_frame-wire :
    (lib : WsLibrary) (code : ℕ) (bytes : Bytes) (w : WebSocket)
    → code < 16
    → length (lib.token_bytes w.drawn) ≡ 4
    → w.is_open ≡ true
    → w.send_error ≡ none
    → send_frame lib code bytes w ≡ (
      ok tt,
      record w {
        sent = w.sent ++ wire true code (some (lib.token_bytes w.drawn)) bytes;
        drawn = suc w.drawn;
      },
    )
unfolding send_frame wire is_masked key_bytes body sendall
send_frame-wire lib code bytes w hc hk ho he =
    require_open
      (λ v.
        go_on
          (λ masked_payload. sendall (
            bit_or 128 code ∷ length_bytes (length bytes)
            ++ lib.token_bytes v.drawn
            ++ masked_payload))
          (apply_mask (lib.token_bytes v.drawn) bytes, record v { drawn = suc v.drawn }))
      w ho
    ∙ ap
        (λ r.
          go_on
            (λ masked_payload. sendall (
              bit_or 128 code ∷ length_bytes (length bytes)
              ++ lib.token_bytes w.drawn
              ++ masked_payload))
            (r, record w { drawn = suc w.drawn }))
        (apply_mask_lem (lib.token_bytes w.drawn) bytes hk)
    ∙ sendall_lem
        (bit_or 128 code ∷ length_bytes (length bytes)
          ++ lib.token_bytes w.drawn
          ++ mask_from (lib.token_bytes w.drawn) 0 bytes)
        (record w { drawn = suc w.drawn }) he
    ∙ ap
        (λ header. (
          ok tt,
          record w {
            sent =
                w.sent
                ++ (header
                    ++ lib.token_bytes w.drawn
                    ++ mask_from (lib.token_bytes w.drawn) 0 bytes);
            drawn = suc w.drawn;
          },
        ))
        (ap₂ (λ x xs. x ∷ xs) (first_byte-bit_or code hc) (length_bytes_lem (length bytes)))
