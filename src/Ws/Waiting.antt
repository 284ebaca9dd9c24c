-- ===== src/Ws/Waiting.antt =====
-- The bound of waiting for an event (agent_keepalive/ws.py, recv_event), which is the bytes unread.
use Prim.Native.Nat.{bit_or}
use agent_keepalive.Prelude.{
  Bool, Bool-cases, Bytes, Exception, List, Nothing, Option, Option-cases, Result, String, [], ap,
  arith, code, err, false, go_on, if_elim, inl, inr, int_eq, length, nat_eq, no_fuel, none, not, ok,
  pair_eq, refl, runtime_error, some, still_waiting, string_eq, suc, sym, text_eq, true, zero, ℕ,
  ◌++◌, ◌<◌, ◌==◌, ◌>>>◌, ◌||◌, ◌∙◌, ◌∷◌, ◌≡◌, ◌≢◌, ◌≤◌, ◌⊎◌,
}
use agent_keepalive.Ws.{
  Socketed, WebSocket, WsLibrary, apply_mask, length_bytes, require_socket, send_frame, sendall,
}
use agent_keepalive.Ws.Bounded.{Bounded, Bounded-weaken, Taking, within_then}
use agent_keepalive.Ws.Ends.{apply_mask-Bounded, recv_frame-Taking}
use agent_keepalive.Ws.Events.{
  Event, Gathered, all_parts, assembled, closed_by, event_loop, fragments, next_event, next_part,
  recv_event, text_of, unread,
}
use agent_keepalive.Ws.Frames.{Frame, recv_frame}
use mathlib.Core.List.{flatten}

sendall-Bounded :
    (bytes : Bytes) (w : WebSocket) (most : ℕ)
    → unread w.arrivals ≤ most
    → Bounded (sendall bytes w) most
unfolding sendall Bounded
sendall-Bounded bytes w most h = elim (Option-cases w.send_error) [
  | inl fine ↦ rw fine h
  | inr (text, not_sent) ↦ rw not_sent (((λ e. cc), (λ e. cc)), h)
]

-- Sending leaves what is unread.
send_frame-Bounded :
    (lib : WsLibrary) (code : ℕ) (bytes : Bytes) (w : WebSocket) (most : ℕ)
    → unread w.arrivals ≤ most
    → Bounded (send_frame lib code bytes w) most
unfolding send_frame require_socket Bounded
send_frame-Bounded lib code bytes w most h =
    let mask = lib.token_bytes w.drawn in
    let send : Bytes → Socketed Nothing =
      λ masked. sendall (bit_or 128 code ∷ length_bytes (length bytes) ++ mask ++ masked) in
    if_elim {A = Result Nothing × WebSocket} (λ r. Bounded r most) w.is_open
      (go_on send (apply_mask mask bytes, record w { drawn = suc w.drawn }))
      (err (runtime_error "websocket is not connected"), w)
      (λ _.
        within_then (apply_mask mask bytes, record w { drawn = suc w.drawn }) send most
          (apply_mask-Bounded mask bytes (record w { drawn = suc w.drawn }) most h)
          (λ masked v.
            sendall-Bounded (bit_or 128 code ∷ length_bytes (length bytes) ++ mask ++ masked) v
              most))
      (λ _. (((λ e. cc), (λ e. cc)), h))

frame_then {ℓ} :
    {A : Type ℓ} (r : Result (Option Frame) × WebSocket) (f : Option Frame → Socketed A) (most : ℕ)
    → Taking r most
    → ((w : WebSocket) → unread w.arrivals ≤ most → Bounded (f none w) most)
    → ((frame : Frame) (w : WebSocket) → unread w.arrivals < most → Bounded (f (some frame) w) most)
    → Bounded (go_on f r) most
unfolding Taking Bounded
frame_then (ok none, w) f most t ended more = ended w t
frame_then (ok (some frame), w) f most t ended more = more frame w t
frame_then (err e, w) f most t ended more = t

pong-Bounded {ℓ} :
    {A : Type ℓ} (lib : WsLibrary) (bytes : Bytes) (next : Socketed A) (w : WebSocket) (most : ℕ)
    → unread w.arrivals ≤ most
    → ((v : WebSocket) → unread v.arrivals ≤ most → Bounded (next v) most)
    → Bounded ((send_frame lib 10 bytes >>> λ _. next) w) most
pong-Bounded lib bytes next w most h after =
    within_then (send_frame lib 10 bytes w) (λ _. next) most
      (send_frame-Bounded lib 10 bytes w most h) (λ _ v k. after v k)

next_part-Bounded :
    (lib : WsLibrary) (again : List Bytes → Bool → Socketed Gathered) (parts : List Bytes)
    (f : Frame) (w : WebSocket) (most : ℕ)
    → unread w.arrivals ≤ most
    → ((parts : List Bytes) (fin : Bool) (v : WebSocket)
        → unread v.arrivals ≤ most
        → Bounded (again parts fin v) most)
    → Bounded (next_part lib again parts (some f) w) most
unfolding next_part Bounded
next_part-Bounded lib again parts f w most h rec =
    let P : Socketed Gathered → Type 0 = λ m. Bounded (m w) most in
    if_elim P (f.opcode == 9) _ _
      (λ _. pong-Bounded lib f.payload (again parts f.finished) w most h (rec parts f.finished))
      (λ _.
        if_elim P (f.opcode == 8) _ _ (λ _. h)
          (λ _.
            if_elim P (not (f.opcode == 0)) _ _ (λ _. (((λ e. cc), (λ e. cc)), h))
              (λ _. rec (parts ++ f.payload ∷ []) f.finished w h)))

fragments-Bounded :
    (lib : WsLibrary) (fuel : ℕ) (parts : List Bytes) (fin : Bool) (w : WebSocket)
    → unread w.arrivals < fuel
    → Bounded (fragments lib fuel parts fin w) (unread w.arrivals)
unfolding fragments Bounded next_part
fragments-Bounded lib fuel parts true w h = omega arith
fragments-Bounded lib zero parts false w h = absurd (omega arith)
fragments-Bounded lib (suc fuel) parts false w h =
    frame_then (recv_frame w) (next_part lib (fragments lib fuel) parts) (unread w.arrivals)
      (recv_frame-Taking w) (λ v k. (((λ e. cc), (λ e. cc)), k))
      (λ f v k.
        Bounded-weaken (next_part lib (fragments lib fuel) parts (some f) v) (unread v.arrivals)
          (unread w.arrivals) (omega arith)
          (next_part-Bounded lib (fragments lib fuel) parts f v (unread v.arrivals) (omega arith)
            (λ ps fin u l.
              Bounded-weaken (fragments lib fuel ps fin u) (unread u.arrivals) (unread v.arrivals) l
                (fragments-Bounded lib fuel ps fin u (omega arith)))))

same_le : (n : ℕ) → n ≤ n
same_le n = omega arith

text_of-Bounded :
    (o : Option String) (w : WebSocket) (most : ℕ)
    → unread w.arrivals ≤ most
    → Bounded (text_of o w) most
unfolding text_of Bounded
text_of-Bounded none w most h = (((λ e. cc), (λ e. cc)), h)
text_of-Bounded (some text) w most h = h

assembled-Bounded :
    (lib : WsLibrary) (again : Socketed (Option Event)) (code : ℕ) (g : Gathered) (w : WebSocket)
    (most : ℕ)
    → unread w.arrivals ≤ most
    → ((v : WebSocket) → unread v.arrivals ≤ most → Bounded (again v) most)
    → Bounded (assembled lib again code g w) most
unfolding assembled Bounded
assembled-Bounded lib again code (closed_by bytes) w most h rec = h
assembled-Bounded lib again code (all_parts parts) w most h rec =
    let P : Socketed (Option Event) → Type 0 = λ m. Bounded (m w) most in
    if_elim P (not (code == 1)) again (text_of (lib.utf8_decode (flatten parts))) (λ _. rec w h)
      (λ _. text_of-Bounded (lib.utf8_decode (flatten parts)) w most h)

next_event-Bounded :
    (lib : WsLibrary) (again : Socketed (Option Event)) (f : Frame) (w : WebSocket)
    → ((v : WebSocket)
        → unread v.arrivals ≤ unread w.arrivals
        → Bounded (again v) (unread w.arrivals))
    → Bounded (next_event lib again (some f) w) (unread w.arrivals)
unfolding next_event Bounded
next_event-Bounded lib again f w rec =
    let P : Socketed (Option Event) → Type 0 = λ m. Bounded (m w) (unread w.arrivals) in
    if_elim P (f.opcode == 8) _ _ (λ _. same_le (unread w.arrivals))
      (λ _.
        if_elim P (f.opcode == 9) _ _
          (λ _.
            pong-Bounded lib f.payload again w (unread w.arrivals) (same_le (unread w.arrivals))
              rec)
          (λ _.
            if_elim P (f.opcode == 10) _ _ (λ _. same_le (unread w.arrivals))
              (λ _.
                if_elim P (not (f.opcode == 0 || f.opcode == 1)) _ _
                  (λ _. rec w (same_le (unread w.arrivals)))
                  (λ _.
                    within_then
                      (fragments lib (suc (unread w.arrivals)) (f.payload ∷ []) f.finished w)
                      (assembled lib again f.opcode) (unread w.arrivals)
                      (fragments-Bounded lib (suc (unread w.arrivals)) (f.payload ∷ []) f.finished w
                        (omega arith))
                      (λ g v k.
                        assembled-Bounded lib again f.opcode g v (unread w.arrivals) k rec)))))

event_loop-Bounded :
    (lib : WsLibrary) (fuel : ℕ) (w : WebSocket)
    → unread w.arrivals < fuel
    → Bounded (event_loop lib fuel w) (unread w.arrivals)
unfolding event_loop next_event Bounded
event_loop-Bounded lib zero w h = absurd (omega arith)
event_loop-Bounded lib (suc fuel) w h =
    frame_then (recv_frame w) (next_event lib (event_loop lib fuel)) (unread w.arrivals)
      (recv_frame-Taking w) (λ v k. k)
      (λ f v k.
        Bounded-weaken (next_event lib (event_loop lib fuel) (some f) v) (unread v.arrivals)
          (unread w.arrivals) (omega arith)
          (next_event-Bounded lib (event_loop lib fuel) f v (λ u l.
            Bounded-weaken (event_loop lib fuel u) (unread u.arrivals) (unread v.arrivals) l
              (event_loop-Bounded lib fuel u (omega arith)))))

recv_event-Bounded :
    (lib : WsLibrary) (limit : Option ℕ) (w : WebSocket)
    → Bounded (recv_event lib limit w) (unread w.arrivals)
unfolding recv_event require_socket Bounded
recv_event-Bounded lib limit w =
    if_elim {A = Result (Option Event) × WebSocket} (λ r. Bounded r (unread w.arrivals)) w.is_open
      (event_loop lib (suc (unread w.arrivals)) (record w { time_limit = limit }))
      (err (runtime_error "websocket is not connected"), w)
      (λ _.
        event_loop-Bounded lib (suc (unread w.arrivals)) (record w { time_limit = limit })
          (omega arith))
      (λ _. (((λ e. cc), (λ e. cc)), same_le (unread w.arrivals)))

true_ne_false : ◌≢◌ {A = Bool} true false
true_ne_false e = cc

abbrev is_waiting : Exception → Bool
is_waiting still_waiting = true
is_waiting _ = false

is_waiting_sound : (e : Exception) → is_waiting e ≡ true → e ≡ still_waiting
is_waiting_sound still_waiting h = refl
is_waiting_sound _ h = absurd cc

waiting_not : (e : Exception) → is_waiting e ≡ false → e ≢ still_waiting
waiting_not e h same = absurd (true_ne_false (sym (ap is_waiting same) ∙ h))

-- The call has come back, with a value or an exception of the program's; or it is still waiting, and
-- then nothing of what has happened is left to be read.
abbrev pub EndsOrWaits {ℓ} : {A : Type ℓ} → Result A × WebSocket → Type 0
EndsOrWaits (ok a, w) = Unit
EndsOrWaits (err e, w) =
    ((e ≢ no_fuel) × (e ≢ still_waiting)) ⊎ ((e ≡ still_waiting) × (w.arrivals ≡ []))

ends_or_waits {ℓ} :
    {A : Type ℓ} (r : Result A × WebSocket) (most : ℕ) → Bounded r most → EndsOrWaits r
unfolding Bounded
ends_or_waits (ok a, w) most b = tt
ends_or_waits (err e, w) most b = elim (Bool-cases (is_waiting e)) [
  | inl yes_w ↦ let same = is_waiting_sound e yes_w in inr (same, b.0.1 same)
  | inr no_w ↦ inl (b.0.0, waiting_not e no_w)
]

-- Whatever has happened so far on a socket, recv_event does one of two things after turns that are
-- bounded by the bytes unread: it comes back, with an event, with nothing or with an exception of the
-- program's; or it has read everything and still waits for what happens next.
pub recv_event-ends :
    (lib : WsLibrary) (limit : Option ℕ) (w : WebSocket) → EndsOrWaits (recv_event lib limit w)
recv_event-ends lib limit w =
    ends_or_waits (recv_event lib limit w) (unread w.arrivals) (recv_event-Bounded lib limit w)
