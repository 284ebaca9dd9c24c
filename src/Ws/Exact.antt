-- ===== src/Ws/Exact.antt =====
-- The loop of _recv_exact (agent_keepalive/ws.py), one piece after the other.
use agent_keepalive.Prelude.{
  Bytes, List, Option, [], ap, arith, beq_of_ne, err, give, go_on, if◌then◌else◌, int_eq, length,
  nat_eq, ok, pair_eq, refl, runtime_error, some, string_eq, suc, sym, text_eq, true, zero, ℕ, ◌++◌,
  ◌+◌, ◌-◌, ◌<◌, ◌==◌, ◌>>>◌, ◌∙◌, ◌∷◌, ◌≡◌, ◌≤◌,
}
use agent_keepalive.Ws.{
  Arrival, Socketed, WebSocket, received, recv, recv_exact, recv_loop, require_socket,
}
use agent_keepalive.Ws.Pieces.{
  Receives, chunk_lem, cons_ne, ltb_of_lt, prefix_of, stream, with_arrivals,
}
use mathlib.Core.List.{append-nil, append_assoc}

received_lem :
    (again : Bytes → Socketed (Option Bytes)) (buffer : Bytes) (c : ℕ) (cs : Bytes)
    (later : List Arrival) (w : WebSocket)
    → received again buffer (ok (c ∷ cs), later) w
      ≡ again (buffer ++ c ∷ cs) (record w { arrivals = later })
unfolding received
received_lem again [] c cs later w = refl
received_lem again (b ∷ bs) c cs later w = refl

pub length-append : (xs ys : Bytes) → length (xs ++ ys) ≡ length xs + length ys
length-append [] ys = omega arith
length-append (x ∷ xs) ys = let ih = length-append xs ys in omega arith

recv_loop_done :
    (fuel size : ℕ) (buffer : Bytes) (w : WebSocket)
    → length buffer ≡ size
    → recv_loop fuel size buffer w ≡ (ok (some buffer), w)
unfolding recv_loop
recv_loop_done zero size buffer w h = ground arith
recv_loop_done (suc fuel) size buffer w h = ground arith

recv_loop_more :
    (fuel size : ℕ) (buffer : Bytes) (w : WebSocket) (c : ℕ) (cs : Bytes) (later : List Arrival)
    → length buffer < size
    → recv w.time_limit (size - length buffer) w.arrivals ≡ (ok (c ∷ cs), later)
    → recv_loop (suc fuel) size buffer w
      ≡ recv_loop fuel size (buffer ++ c ∷ cs) (with_arrivals w later)
unfolding recv_loop with_arrivals
recv_loop_more fuel size buffer w c cs later short got =
    ap
      (λ b.
        if b
        then received (recv_loop fuel size) buffer
            (recv w.time_limit (size - length buffer) w.arrivals) w
        else (ok (some buffer), w))
      (ltb_of_lt short)
    ∙ ap (λ r. received (recv_loop fuel size) buffer r w) got
    ∙ received_lem (recv_loop fuel size) buffer c cs later w

recv_loop_lem :
    (fuel size : ℕ) (buffer used rest : Bytes) (w : WebSocket)
    → stream w.time_limit w.arrivals ≡ used ++ rest
    → length buffer + length used ≡ size
    → length used ≤ fuel
    → Receives (recv_loop fuel size buffer w) w (some (buffer ++ used)) rest
unfolding with_arrivals
recv_loop_lem fuel size buffer [] rest w hs hl hf = (
  w.arrivals,
  recv_loop_done fuel size buffer w (omega arith)
      ∙ ap (λ b. (ok (some b), w)) (sym (append-nil buffer)),
  hs,
)
recv_loop_lem zero size buffer (u ∷ used) rest w hs hl hf = absurd (omega arith)
recv_loop_lem (suc fuel) size buffer (u ∷ used) rest w hs hl hf =
    let wanted : length buffer < size = omega arith in
    let positive : 0 < size - length buffer = omega arith in
    let (c, cs, later, got, whole, small) =
      chunk_lem w.time_limit (size - length buffer) w.arrivals positive
        (λ e. cons_ne (sym hs ∙ e)) in
    let fits : length (c ∷ cs) ≤ length (u ∷ used) = omega arith in
    let (vs, here, there) =
      prefix_of (c ∷ cs) (stream w.time_limit later) (u ∷ used) rest (whole ∙ hs) fits in
    let long = length-append buffer (c ∷ cs) in
    let long_vs = ap length here ∙ length-append (c ∷ cs) vs in
    let total : length (buffer ++ c ∷ cs) + length vs ≡ size = omega arith in
    let bounded : length vs ≤ fuel = omega arith in
    let (final, run, left) =
      recv_loop_lem fuel size (buffer ++ c ∷ cs) vs rest (with_arrivals w later) there total
        bounded in
    (
      final,
      recv_loop_more fuel size buffer w c cs later wanted got
          ∙ run
          ∙ ap (λ b. (ok (some b), with_arrivals w final))
              (append_assoc buffer (c ∷ cs) vs ∙ ap (λ ys. buffer ++ ys) (sym here)),
      left,
    )

pub require_open {ℓ} :
    {A : Type ℓ} (m : Socketed A) (w : WebSocket) → w.is_open ≡ true → require_socket m w ≡ m w
unfolding require_socket
require_open m w ho =
    ap (λ b. if b then m w else (err (runtime_error "websocket is not connected"), w)) ho

recv_exact_none : (w : WebSocket) → w.is_open ≡ true → recv_exact 0 w ≡ (ok (some []), w)
unfolding recv_exact
recv_exact_none w ho = require_open (give (some [])) w ho

recv_exact_some :
    (n : ℕ) (w : WebSocket)
    → w.is_open ≡ true
    → recv_exact (suc n) w ≡ recv_loop (suc n) (suc n) [] w
unfolding recv_exact
recv_exact_some n w ho =
    require_open (if suc n == 0 then give (some []) else recv_loop (suc n) (suc n) []) w ho
    ∙ ap (λ b. (if b then give (some []) else recv_loop (suc n) (suc n) []) w)
        (beq_of_ne (suc n) 0 (λ e. absurd (omega arith)))

-- However the peer's bytes are cut into pieces, as many as are asked for are read, and no more.
pub recv_exact_lem :
    (used rest : Bytes) (w : WebSocket)
    → w.is_open ≡ true
    → stream w.time_limit w.arrivals ≡ used ++ rest
    → Receives (recv_exact (length used) w) w (some used) rest
unfolding with_arrivals
recv_exact_lem [] rest w ho hs = (w.arrivals, recv_exact_none w ho, hs)
recv_exact_lem (u ∷ used) rest w ho hs =
    let n = suc (length used) in
    let (final, run, left) =
      recv_loop_lem n n [] (u ∷ used) rest w hs (omega arith) (omega arith) in
    (final, recv_exact_some (length used) w ho ∙ run, left)

-- One method after another.
pub read_then {ℓ κ} :
    {A : Type ℓ} {B : Type κ} (m : Socketed A) (f : A → Socketed B) (w u : WebSocket) (a : A)
    (b : B) (mid rest : Bytes)
    → Receives (m w) w a mid
    → ((inbox : List Arrival)
        → stream w.time_limit inbox ≡ mid
        → Receives (f a (with_arrivals w inbox)) u b rest)
    → Receives ((m >>> f) w) u b rest
read_then m f w u a b mid rest (inbox, run, left) next =
    let (final, runs, lefts) = next inbox left in (final, ap (λ r. go_on f r) run ∙ runs, lefts)
