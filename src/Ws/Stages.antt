-- ===== src/Ws/Stages.antt =====
-- The stages of reading a frame: its length, its key, its payload (agent_keepalive/ws.py,
-- _recv_frame).
use Prim.Native.Nat.{bit_and}
use agent_keepalive.Prelude.{
  All, Bool, Bool-cases, Bytes, IsByte, Option, [], ap, arith, beq_of_ne, code, give, go_on,
  if◌then◌else◌, inl, inr, int_eq, length, ltb, nat_eq, none, ok, pair_eq, refl, some, string_eq,
  sym, text_eq, true, ℕ, ◌++◌, ◌<◌, ◌==◌, ◌>>>◌, ◌^◌, ◌∙◌, ◌≡◌, ◌≤◌, ◌⊎◌,
}
use agent_keepalive.Ws.{WebSocket, apply_mask, mask_from, pack, recv_exact}
use agent_keepalive.Ws.Exact.{recv_exact_lem}
use agent_keepalive.Ws.Frames.{high_bit, key_read, length_read, read_payload, recv_key, recv_length}
use agent_keepalive.Ws.Packed.{
  extended_length, first_byte, first_byte-fin, first_byte-opcode, high_bit-flag, length-pack,
  second_byte, short_length, unpack-pack,
}
use agent_keepalive.Ws.Pieces.{Receives, stream, with_arrivals}
use agent_keepalive.Ws.Received.{
  IsKey, apply_mask_lem, body, is_masked, key_bytes, mask_from-mask_from,
}
use mathlib.Core.Path.{ap₂, subst}

pub split_at : (bound n : ℕ) → (n < bound) ⊎ (bound ≤ n)
split_at bound n = elim (Bool-cases (ltb n bound)) [
  | inl below ↦ inl (ground arith)
  | inr not_below ↦ inr (ground arith)
]

pub length_short : (n : ℕ) → n < 126 → (short_length n ≡ n) × (extended_length n ≡ [])
unfolding short_length extended_length
length_short n h = (ground arith, ground arith)

pub length_middle :
    (n : ℕ) → 126 ≤ n → n < 65536 → (short_length n ≡ 126) × (extended_length n ≡ pack 2 n)
unfolding short_length extended_length
length_middle n h k = (ground arith, ground arith)

pub length_long : (n : ℕ) → 65536 ≤ n → (short_length n ≡ 127) × (extended_length n ≡ pack 8 n)
unfolding short_length extended_length
length_long n h = (ground arith, ground arith)

read_extended :
    (size n : ℕ) (rest : Bytes) (w : WebSocket)
    → n < 256 ^ size
    → w.is_open ≡ true
    → stream w.time_limit w.arrivals ≡ pack size n ++ rest
    → Receives ((recv_exact size >>> length_read) w) w n rest
unfolding length_read
read_extended size n rest w hn ho hs =
    subst (λ k. Receives ((recv_exact k >>> length_read) w) w n rest) (length-pack size n)
      (let (final, run, left) = recv_exact_lem (pack size n) rest w ho hs in
        (
          final,
          ap (λ r. go_on length_read r) run
              ∙ ap (λ k. (ok k, with_arrivals w final)) (unpack-pack size n hn),
          left,
        ))

recv_length_short : (n : ℕ) (w : WebSocket) → n < 126 → recv_length n w ≡ (ok n, w)
unfolding recv_length
recv_length_short n w h =
    ap
      (λ b.
        (if b
            then (recv_exact 2 >>> length_read)
            else (if n == 127 then (recv_exact 8 >>> length_read) else give n))
          w)
      (beq_of_ne n 126 (λ e. absurd (omega arith)))
    ∙ ap (λ b. (if b then (recv_exact 8 >>> length_read) else give n) w)
        (beq_of_ne n 127 (λ e. absurd (omega arith)))

-- The length of the payload is read back, whichever of its three forms it has.
pub length_stage :
    (n : ℕ) (rest : Bytes) (w : WebSocket)
    → n < 2 ^ 64
    → w.is_open ≡ true
    → stream w.time_limit w.arrivals ≡ extended_length n ++ rest
    → Receives (recv_length (short_length n) w) w n rest
unfolding with_arrivals recv_length
length_stage n rest w hn ho hs = elim (split_at 126 n) [
  | inl short ↦
      (let (code_is, more_is) = length_short n short in
        (
          w.arrivals,
          ap (λ k. recv_length k w) code_is ∙ recv_length_short n w short,
          hs ∙ ap (λ ys. ys ++ rest) more_is,
        ))
  | inr not_short ↦ elim (split_at 65536 n) [
    | inl middle ↦
        (let (code_is, more_is) = length_middle n not_short middle in
          subst (λ k. Receives (recv_length k w) w n rest) (sym code_is)
            (read_extended 2 n rest w (omega arith) ho (hs ∙ ap (λ ys. ys ++ rest) more_is)))
    | inr long ↦
        (let (code_is, more_is) = length_long n long in
          subst (λ k. Receives (recv_length k w) w n rest) (sym code_is)
            (read_extended 8 n rest w (omega arith) ho (hs ∙ ap (λ ys. ys ++ rest) more_is)))
  ]
]

pub short_length_lt : (n : ℕ) → short_length n < 128
unfolding short_length
short_length_lt n = ground arith

pub key_stage :
    (key : Option Bytes) (rest : Bytes) (w : WebSocket)
    → IsKey key
    → w.is_open ≡ true
    → stream w.time_limit w.arrivals ≡ key_bytes key ++ rest
    → Receives (recv_key (is_masked key) w) w (key_bytes key) rest
unfolding recv_key key_bytes is_masked key_read with_arrivals IsKey
key_stage none rest w hk ho hs = (w.arrivals, refl, hs)
key_stage (some key) rest w hk ho hs =
    subst (λ n. Receives ((recv_exact n >>> λ k. give (key_read k)) w) w key rest) hk.0
      (let (final, run, left) = recv_exact_lem key rest w ho hs in
        (final, ap (λ r. go_on (λ k. give (key_read k)) r) run, left))

plain_lem :
    (key : Option Bytes) (bytes : Bytes)
    → IsKey key
    → All IsByte bytes
    → (if is_masked key then apply_mask (key_bytes key) (body key bytes) else ok (body key bytes))
      ≡ ok bytes
unfolding is_masked key_bytes body IsKey
plain_lem none bytes hk hb = refl
plain_lem (some key) bytes hk hb =
    apply_mask_lem key (mask_from key 0 bytes) hk.0
    ∙ ap ok (mask_from-mask_from key 0 bytes hk.1 hb)

pub second_byte-flag :
    (masked : Bool) (n : ℕ) → high_bit (second_byte masked (short_length n)) ≡ masked
unfolding second_byte
second_byte-flag masked n = high_bit-flag masked (short_length n) (short_length_lt n)

pub unmasked :
    (fin : Bool) (code : ℕ) (key : Option Bytes) (bytes : Bytes) (w : WebSocket)
    → code < 16
    → IsKey key
    → All IsByte bytes
    → read_payload
        (first_byte fin code)
        (second_byte (is_masked key) (short_length (length bytes)))
        (key_bytes key)
        (some (body key bytes))
        w
      ≡ (ok (some (record { opcode = code; payload = bytes; finished = fin })), w)
unfolding read_payload
unmasked fin code key bytes w hc hk hb =
    ap
      (λ b.
        go_on
          (λ plain. give (
            some (record {
              opcode = bit_and (first_byte fin code) 15;
              payload = plain;
              finished = high_bit (first_byte fin code);
            })))
          (if b then apply_mask (key_bytes key) (body key bytes) else ok (body key bytes), w))
      (second_byte-flag (is_masked key) (length bytes))
    ∙ ap
        (λ r.
          go_on
            (λ plain. give (
              some (record {
                opcode = bit_and (first_byte fin code) 15;
                payload = plain;
                finished = high_bit (first_byte fin code);
              })))
            (r, w))
        (plain_lem key bytes hk hb)
    ∙ ap₂ (λ c f. (ok (some (record { opcode = c; payload = bytes; finished = f })), w))
        (first_byte-opcode fin code hc) (first_byte-fin fin code hc)
