-- ===== src/Ws/Ends.antt =====
-- The bound of reading a frame (agent_keepalive/ws.py, _recv_frame), which is the bytes unread.
use Prim.Native.Nat.{bit_and}
use agent_keepalive.Prelude.{
  Bool, Bytes, Option, Result, [], arith, err, false, give, go_on, if_elim, if◌then◌else◌, int_eq,
  nat_eq, none, ok, pair_eq, some, string_eq, text_eq, true, ℕ, ◌==◌, ◌>>>◌, ◌∷◌, ◌≤◌,
}
use agent_keepalive.Ws.{Socketed, WebSocket, apply_mask, recv_exact}
use agent_keepalive.Ws.Bounded.{
  Bounded, Bounded-Taking, Taking, recv_exact-Bounded, recv_exact-Taking, within_then,
}
use agent_keepalive.Ws.Events.{unread}
use agent_keepalive.Ws.Frames.{
  Frame, high_bit, key_read, length_read, read_header, read_payload, recv_frame, recv_key,
  recv_length,
}

length_read-Bounded :
    (o : Option Bytes) (w : WebSocket) (most : ℕ)
    → unread w.arrivals ≤ most
    → Bounded (length_read o w) most
unfolding length_read Bounded
length_read-Bounded none w most h = (((λ e. cc), (λ e. cc)), h)
length_read-Bounded (some extended) w most h = h

recv_length-Bounded :
    (short : ℕ) (w : WebSocket) (most : ℕ)
    → unread w.arrivals ≤ most
    → Bounded (recv_length short w) most
unfolding recv_length Bounded
recv_length-Bounded short w most h =
    if_elim (λ m. Bounded (m w) most) (short == 126) (recv_exact 2 >>> length_read)
      (if short == 127 then (recv_exact 8 >>> length_read) else give short)
      (λ _.
        within_then (recv_exact 2 w) length_read most (recv_exact-Bounded 2 w most h)
          (λ o v. length_read-Bounded o v most))
      (λ _.
        if_elim (λ m. Bounded (m w) most) (short == 127) (recv_exact 8 >>> length_read) (give short)
          (λ _.
            within_then (recv_exact 8 w) length_read most (recv_exact-Bounded 8 w most h)
              (λ o v. length_read-Bounded o v most))
          (λ _. h))

recv_key-Bounded :
    (masked : Bool) (w : WebSocket) (most : ℕ)
    → unread w.arrivals ≤ most
    → Bounded (recv_key masked w) most
unfolding recv_key Bounded
recv_key-Bounded true w most h =
    within_then (recv_exact 4 w) (λ key. give (key_read key)) most (recv_exact-Bounded 4 w most h)
      (λ o v k. k)
recv_key-Bounded false w most h = h

pub apply_mask-Bounded :
    (key bytes : Bytes) (w : WebSocket) (most : ℕ)
    → unread w.arrivals ≤ most
    → Bounded (apply_mask key bytes, w) most
unfolding apply_mask Bounded
apply_mask-Bounded key [] w most h = h
apply_mask-Bounded [] (b ∷ bytes) w most h = (((λ e. cc), (λ e. cc)), h)
apply_mask-Bounded (k ∷ key) (b ∷ bytes) w most h = h

read_payload-Bounded :
    (byte1 byte2 : ℕ) (key : Bytes) (o : Option Bytes) (w : WebSocket) (most : ℕ)
    → unread w.arrivals ≤ most
    → Bounded (read_payload byte1 byte2 key o w) most
unfolding read_payload Bounded
read_payload-Bounded byte1 byte2 key none w most h = (((λ e. cc), (λ e. cc)), h)
read_payload-Bounded byte1 byte2 key (some bytes) w most h =
    let framed : Bytes → Socketed (Option Frame) = λ plain.
      give
        (some (record { opcode = bit_and byte1 15; payload = plain; finished = high_bit byte1 })) in
    if_elim {A = Result Bytes} (λ r. Bounded (go_on framed (r, w)) most) (high_bit byte2)
      (apply_mask key bytes) (ok bytes)
      (λ _.
        within_then (apply_mask key bytes, w) framed most (apply_mask-Bounded key bytes w most h)
          (λ plain v k. k))
      (λ _. h)

read_header-Bounded :
    (bytes : Bytes) (w : WebSocket) (most : ℕ)
    → unread w.arrivals ≤ most
    → Bounded (read_header (some bytes) w) most
unfolding read_header Bounded
read_header-Bounded [] w most h = (((λ e. cc), (λ e. cc)), h)
read_header-Bounded (a ∷ []) w most h = (((λ e. cc), (λ e. cc)), h)
read_header-Bounded (a ∷ b ∷ []) w most h =
    within_then (recv_length (bit_and b 127) w)
      (λ size. recv_key (high_bit b) >>> λ key. recv_exact size >>> read_payload a b key) most
      (recv_length-Bounded (bit_and b 127) w most h)
      (λ size v k.
        within_then (recv_key (high_bit b) v) (λ key. recv_exact size >>> read_payload a b key) most
          (recv_key-Bounded (high_bit b) v most k)
          (λ key u l.
            within_then (recv_exact size u) (read_payload a b key) most
              (recv_exact-Bounded size u most l) (λ o t. read_payload-Bounded a b key o t most)))
read_header-Bounded (a ∷ b ∷ c ∷ bytes) w most h = (((λ e. cc), (λ e. cc)), h)

header-Taking :
    (r : Result (Option Bytes) × WebSocket) (most : ℕ)
    → Taking r most
    → Taking (go_on read_header r) most
unfolding Taking read_header
header-Taking (ok none, w) most t = t
header-Taking (ok (some bytes), w) most t =
    Bounded-Taking (read_header (some bytes) w) (unread w.arrivals) most
      (read_header-Bounded bytes w (unread w.arrivals) (omega arith)) t
header-Taking (err e, w) most t = t

pub recv_frame-Taking : (w : WebSocket) → Taking (recv_frame w) (unread w.arrivals)
unfolding recv_frame
recv_frame-Taking w =
    header-Taking (recv_exact 2 w) (unread w.arrivals) (recv_exact-Taking 2 w (omega arith))
