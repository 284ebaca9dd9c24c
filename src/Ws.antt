-- ===== src/Ws.antt =====
-- A websocket over a Unix socket (agent_keepalive/ws.py, UnixWebSocket): the bytes of a frame,
-- sending, and reading exactly so many bytes. The socket is what its peer will do, in order, and
-- the bytes sent; the bytes of the peer come in pieces of any size.
pub mod Frames
pub mod Events
pub mod Pieces
pub mod Exact
pub mod Packed
pub mod Received
pub mod Stages
pub mod Whole
pub mod Sent
pub mod Messages
pub mod Pings
pub mod Bounded
pub mod Ends
pub mod Waiting
pub mod Handshake
pub mod Opening
use Prim.Native.Nat.{bit_or, bit_xor}
use agent_keepalive.Prelude.{
  Bool, Bytes, Exception, List, Nothing, Option, Result, Stateful, String, [], drop, err, false,
  give, go_on, if◌then◌else◌, int_eq, length, ltb, nat_eq, no_fuel, none, ok, os_error, pair_eq,
  runtime_error, some, still_waiting, string_eq, suc, take, text_eq, timeout_error, true,
  websocket_closed, zero, zero_division_error, ℕ, ◌%◌, ◌*◌, ◌++◌, ◌+◌, ◌-◌, ◌/◌, ◌==◌, ◌∷◌,
}

-- What happens next: a piece of at least one byte arrives, nothing does for so long (in ms), reading
-- raises an OSError such as ECONNRESET, or the peer has closed.
pub data Arrival : Type 0 where
  arrived : (first : ℕ) → (others : Bytes) → Arrival
  quiet : (duration : ℕ) → Arrival
  read_failed : (errno : ℕ) → (text : String) → Arrival
  hung_up : Arrival

-- The socket. `arrivals` are what happens up to some moment, at any point of an endless run: once they
-- are used up, what reads is still waiting. `drawn` counts the masks.
pub record WebSocket : Type 0 where
  pub is_open : Bool
  pub time_limit : Option ℕ
  pub arrivals : List Arrival
  pub sent : Bytes
  pub drawn : ℕ
  pub send_error : Option String

-- The libraries a websocket calls: `secrets.token_bytes(4)` by its number, UTF-8 both ways.
pub record WsLibrary : Type 0 where
  pub token_bytes : ℕ → Bytes
  pub utf8_encode : String → Bytes
  pub utf8_decode : Bytes → Option String

-- A method of the socket: a value or an exception, and the socket after it.
abbrev pub Socketed {ℓ} : Type ℓ → Type ℓ
Socketed A = Stateful WebSocket A

-- `_require_socket`, ahead of what needs the socket.
unfoldable pub require_socket {ℓ} : {A : Type ℓ} → Socketed A → Socketed A
require_socket m w =
    if w.is_open then m w else (err (runtime_error "websocket is not connected"), w)

-- Sending.
unfoldable pub mask_byte : Bytes → ℕ → ℕ
mask_byte [] n = 0
mask_byte (b ∷ bs) zero = b
mask_byte (b ∷ bs) (suc n) = mask_byte bs n

unfoldable pub mask_from : Bytes → ℕ → Bytes → Bytes
mask_from key index [] = []
mask_from key index (b ∷ bs) =
    bit_xor b (mask_byte key (index % length key)) ∷ mask_from key (suc index) bs

-- The payload under the key; the index is taken modulo the key's length.
unfoldable pub apply_mask : Bytes → Bytes → Result Bytes
apply_mask key [] = ok []
apply_mask [] (b ∷ bs) = err zero_division_error
apply_mask (k ∷ ks) (b ∷ bs) = ok (mask_from (k ∷ ks) 0 (b ∷ bs))

-- `struct.pack("!H", n)` and `struct.pack("!Q", n)`: so many bytes, the highest first.
unfoldable pub pack : (size : ℕ) → ℕ → Bytes
pack zero n = []
pack (suc size) n = pack size (n / 256) ++ n % 256 ∷ []

unfoldable pub unpack_from : ℕ → Bytes → ℕ
unpack_from n [] = n
unpack_from n (b ∷ bs) = unpack_from (n * 256 + b) bs

unfoldable pub unpack : Bytes → ℕ
unpack bytes = unpack_from 0 bytes

unfoldable pub length_bytes : ℕ → Bytes
length_bytes n =
    if ltb n 126
    then bit_or 128 n ∷ []
    else (if ltb n 65536 then bit_or 128 126 ∷ pack 2 n else bit_or 128 127 ∷ pack 8 n)

unfoldable pub sendall : Bytes → Socketed Nothing
sendall bytes w = elim w.send_error [
  | none ↦ (ok tt, record w { sent = w.sent ++ bytes })
  | some text ↦ (err (os_error none text), w)
]

unfoldable pub send_frame : WsLibrary → (opcode : ℕ) → Bytes → Socketed Nothing
send_frame lib opcode payload = require_socket λ w.
    let mask = lib.token_bytes (w.drawn) in
    go_on
      (λ masked_payload.
        sendall (bit_or 128 opcode ∷ length_bytes (length payload) ++ mask ++ masked_payload))
      (apply_mask mask payload, record w { drawn = suc (w.drawn) })

unfoldable pub send_text : WsLibrary → String → Socketed Nothing
send_text lib message = send_frame lib 1 (lib.utf8_encode message)

unfoldable pub send_ping : WsLibrary → Bytes → Socketed Nothing
send_ping lib payload = send_frame lib 9 payload

-- `except OSError: return`, which no other exception meets.
unfoldable pub quiet_os_error : Result Nothing × WebSocket → Result Nothing × WebSocket
quiet_os_error (ok u, w) = (ok u, w)
quiet_os_error (err (os_error n text), w) = (ok tt, w)
quiet_os_error (err (timeout_error text), w) = (ok tt, w)
quiet_os_error (err e, w) = (err e, w)

unfoldable pub send_close : WsLibrary → Bytes → Socketed Nothing
send_close lib payload w = quiet_os_error (send_frame lib 8 payload w)

-- The socket is gone whatever sending the last frame came to.
unfoldable pub close : WsLibrary → Socketed Nothing
close lib w =
    if w.is_open
    then (let (result, after) = quiet_os_error (send_frame lib 8 [] w) in
        (result, record after { is_open = false }))
    else (ok tt, w)

-- Receiving. A pause is waited through when no limit is set or the limit is longer.
unfoldable pub waits_through : Option ℕ → ℕ → Bool
waits_through none d = true
waits_through (some limit) d = ltb d limit

unfoldable pub leftover : Bytes → List Arrival → List Arrival
leftover [] later = later
leftover (b ∷ bs) later = arrived b bs ∷ later

-- What a pause leaves of the time, and what a limit leaves of a pause.
unfoldable pub time_left : Option ℕ → (duration : ℕ) → Option ℕ
time_left none d = none
time_left (some limit) d = some (limit - d)

unfoldable pub pause_left : Option ℕ → (duration : ℕ) → ℕ
pause_left none d = 0
pause_left (some limit) d = d - limit

-- `sock.recv(size)`, for a size of at least one: no bytes when the peer has closed. Pauses in a row
-- add up.
unfoldable pub recv : Option ℕ → (size : ℕ) → List Arrival → Result Bytes × List Arrival
recv limit size [] = (err still_waiting, [])
recv limit size (hung_up ∷ later) = (ok [], hung_up ∷ later)
recv limit size (read_failed errno text ∷ later) = (err (os_error (some errno) text), later)
recv limit size (arrived b bs ∷ later) =
    (ok (b ∷ take (size - 1) bs), leftover (drop (size - 1) bs) later)
recv limit size (quiet d ∷ later) =
    let rest = recv (time_left limit d) size later in
    if waits_through limit d
    then rest
    else (err (timeout_error "timed out"), quiet (pause_left limit d) ∷ later)

-- except socket.timeout
unfoldable pub is_timeout : Exception → Bool
is_timeout (timeout_error text) = true
is_timeout _ = false

-- One turn of the loop of `_recv_exact`, from what `recv` came to.
unfoldable pub received :
    (again : Bytes → Socketed (Option Bytes)) (buffer : Bytes)
    → Result Bytes × List Arrival
    → Socketed (Option Bytes)
received again [] (err e, later) w =
    if is_timeout e
    then (ok none, record w { arrivals = later })
    else (err e, record w { arrivals = later })
received again (b ∷ bs) (err e, later) w = (err e, record w { arrivals = later })
received again [] (ok [], later) w = (ok none, record w { arrivals = later })
received again (b ∷ bs) (ok [], later) w = (
  err (websocket_closed "socket closed before expected bytes arrived"),
  record w { arrivals = later },
)
received again buffer (ok (c ∷ cs), later) w =
    again (buffer ++ c ∷ cs) (record w { arrivals = later })

unfoldable pub recv_loop : (fuel size : ℕ) → Bytes → Socketed (Option Bytes)
recv_loop zero size buffer w =
    if ltb (length buffer) size then (err no_fuel, w) else (ok (some buffer), w)
recv_loop (suc fuel) size buffer w =
    if ltb (length buffer) size
    then received (recv_loop fuel size) buffer
        (recv (w.time_limit) (size - length buffer) (w.arrivals)) w
    else (ok (some buffer), w)

-- Every turn adds at least a byte, so `size` turns are enough.
unfoldable pub recv_exact : (size : ℕ) → Socketed (Option Bytes)
recv_exact size = require_socket (if size == 0 then give (some []) else recv_loop size size [])
