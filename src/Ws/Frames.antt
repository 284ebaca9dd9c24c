-- ===== src/Ws/Frames.antt =====
-- One frame off the socket (agent_keepalive/ws.py, _recv_frame).
use Prim.Native.Nat.{bit_and}
use agent_keepalive.Prelude.{
  Bool, Bytes, Option, [], give, if◌then◌else◌, int_eq, lift, nat_eq, none, not, ok, pair_eq, raise,
  some, string_eq, text_eq, value_error, websocket_closed, ℕ, ◌==◌, ◌>>>◌, ◌∷◌,
}
use agent_keepalive.Ws.{Socketed, apply_mask, recv_exact, unpack}

pub record Frame : Type 0 where
  pub opcode : ℕ
  pub payload : Bytes
  pub finished : Bool

-- `bool(byte & 0x80)`.
unfoldable pub high_bit : ℕ → Bool
high_bit byte = not (bit_and byte 128 == 0)

unfoldable pub length_read : Option Bytes → Socketed ℕ
length_read none = raise (websocket_closed "socket closed while reading frame length")
length_read (some extended) = give (unpack extended)

unfoldable pub recv_length : (short : ℕ) → Socketed ℕ
recv_length short =
    if short == 126
    then (recv_exact 2 >>> length_read)
    else (if short == 127 then (recv_exact 8 >>> length_read) else give short)

-- `self._recv_exact(4) or b""`.
unfoldable pub key_read : Option Bytes → Bytes
key_read none = []
key_read (some key) = key

unfoldable pub recv_key : (masked : Bool) → Socketed Bytes
recv_key masked = if masked then (recv_exact 4 >>> λ key. give (key_read key)) else give []

unfoldable pub read_payload :
    (byte1 byte2 : ℕ) (key : Bytes) → Option Bytes → Socketed (Option Frame)
read_payload byte1 byte2 key none =
    raise (websocket_closed "socket closed while reading frame payload")
read_payload byte1 byte2 key (some bytes) =
    lift (if high_bit byte2 then apply_mask key bytes else ok bytes) >>> λ plain.
    give (some (record { opcode = bit_and byte1 15; payload = plain; finished = high_bit byte1 }))

unfoldable pub read_header : Option Bytes → Socketed (Option Frame)
read_header none = give none
read_header (some (byte1 ∷ byte2 ∷ [])) = recv_length (bit_and byte2 127) >>> λ size.
    recv_key (high_bit byte2) >>> λ key. recv_exact size >>> read_payload byte1 byte2 key
read_header (some _) = raise (value_error "not enough values to unpack (expected 2)")

unfoldable pub recv_frame : Socketed (Option Frame)
recv_frame = recv_exact 2 >>> read_header
