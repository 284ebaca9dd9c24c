-- ===== src/Ws/Bounded.antt =====
-- The bound of the loop that reads exactly so many bytes (agent_keepalive/ws.py, _recv_exact), and how
-- much a call leaves unread.
use agent_keepalive.Prelude.{
  Bytes, Exception, List, Option, Result, [], arith, drop, err, give, go_on, if_elim, if◌then◌else◌,
  inl, inr, int_eq, length, ltb, nat_eq, no_fuel, none, ok, pair_eq, refl, runtime_error, some,
  still_waiting, string_eq, suc, text_eq, timeout_error, zero, ℕ, ◌++◌, ◌+◌, ◌-◌, ◌<◌, ◌==◌, ◌∷◌,
  ◌≡◌, ◌≢◌, ◌≤◌, ◌⊎◌,
}
use agent_keepalive.Ws.{
  Arrival, Socketed, WebSocket, arrived, hung_up, is_timeout, leftover, pause_left, quiet,
  read_failed, received, recv, recv_exact, recv_loop, require_socket, time_left, waits_through,
}
use agent_keepalive.Ws.Events.{unread}
use agent_keepalive.Ws.Exact.{length-append}

-- What may be raised: never the end of the model's fuel, and a call that is still waiting has nothing
-- left to read.
abbrev pub IsEnd : Exception → List Arrival → Type 0
IsEnd e inbox = (e ≢ no_fuel) × (e ≡ still_waiting → inbox ≡ [])

-- What a method leaves unread is at most `most`, and it has not run out of a loop's bound.
unfoldable pub Bounded {ℓ} : {A : Type ℓ} → Result A × WebSocket → ℕ → Type 0
Bounded (ok a, w) most = unread w.arrivals ≤ most
Bounded (err e, w) most = IsEnd e w.arrivals × (unread w.arrivals ≤ most)

-- The same, and with a value something has been taken.
unfoldable pub Taking {ℓ} : {A : Type ℓ} → Result (Option A) × WebSocket → ℕ → Type 0
Taking (ok none, w) most = unread w.arrivals ≤ most
Taking (ok (some a), w) most = unread w.arrivals < most
Taking (err e, w) most = IsEnd e w.arrivals × (unread w.arrivals ≤ most)

unfoldable pub Took : Result Bytes × List Arrival → ℕ → Type 0
Took (ok [], later) most = unread later ≤ most
Took (ok (c ∷ cs), later) most = unread later < most
Took (err e, later) most = IsEnd e later × (unread later ≤ most)

unread-leftover :
    (bs : Bytes) (later : List Arrival) → unread (leftover bs later) ≡ length bs + unread later
unfolding leftover unread
unread-leftover [] later = omega arith
unread-leftover (b ∷ bs) later = refl

length-drop_le : (n : ℕ) (xs : Bytes) → length (drop n xs) ≤ length xs
length-drop_le zero xs = omega arith
length-drop_le (suc n) [] = omega arith
length-drop_le (suc n) (x ∷ xs) = let ih = length-drop_le n xs in omega arith

pub recv-Took :
    (limit : Option ℕ) (n : ℕ) (inbox : List Arrival) → Took (recv limit n inbox) (unread inbox)
unfolding Took recv unread
recv-Took limit n [] = (((λ e. cc), (λ e. refl)), (omega arith))
recv-Took limit n (hung_up ∷ later) = omega arith
recv-Took limit n (read_failed errno text ∷ later) = (((λ e. cc), (λ e. cc)), (omega arith))
recv-Took limit n (arrived b bs ∷ later) =
    let whole = unread-leftover (drop (n - 1) bs) later in
    let fewer = length-drop_le (n - 1) bs in omega arith
recv-Took limit n (quiet d ∷ later) =
    if_elim (λ r. Took r (unread later)) (waits_through limit d) (recv (time_left limit d) n later)
      (err (timeout_error "timed out"), quiet (pause_left limit d) ∷ later)
      (λ _. recv-Took (time_left limit d) n later) (λ _. (((λ e. cc), (λ e. cc)), (omega arith)))

-- One turn of `_recv_exact`: it goes on with a longer buffer and less unread, or it ends.
received-Bounded :
    (again : Bytes → Socketed (Option Bytes)) (buffer : Bytes) (r : Result Bytes × List Arrival)
    (w : WebSocket) (most : ℕ)
    → Took r most
    → ((c : ℕ) (cs : Bytes) (later : List Arrival)
        → unread later < most
        → Taking (again (buffer ++ c ∷ cs) (record w { arrivals = later })) most)
    → Taking (received again buffer r w) most
unfolding received Took Taking
received-Bounded again [] (ok [], later) w most t next = t
received-Bounded again (b ∷ bs) (ok [], later) w most t next = (((λ e. cc), (λ e. cc)), t)
received-Bounded again [] (ok (c ∷ cs), later) w most t next = next c cs later t
received-Bounded again (b ∷ bs) (ok (c ∷ cs), later) w most t next = next c cs later t
received-Bounded again [] (err e, later) w most t next =
    if_elim {A = Result (Option Bytes) × WebSocket} (λ r. Taking r most) (is_timeout e)
      (ok none, record w { arrivals = later }) (err e, record w { arrivals = later }) (λ _. t.1)
      (λ _. t)
received-Bounded again (b ∷ bs) (err e, later) w most t next = t

le_trans_of : {a b c : ℕ} → a ≤ b → b ≤ c → a ≤ c
le_trans_of h k = omega arith

Taking-weaken {ℓ} :
    {A : Type ℓ} (r : Result (Option A) × WebSocket) (m n : ℕ) → m ≤ n → Taking r m → Taking r n
unfolding Taking
Taking-weaken (ok none, w) m n h t = omega arith
Taking-weaken (ok (some a), w) m n h t = omega arith
Taking-weaken (err e, w) m n h t = (t.0, le_trans_of t.1 h)

recv_loop-Taking :
    (fuel size : ℕ) (buffer : Bytes) (w : WebSocket) (most : ℕ)
    → size ≤ fuel + length buffer
    → unread w.arrivals ≤ most
    → (length buffer < size) ⊎ (unread w.arrivals < most)
    → Taking (recv_loop fuel size buffer w) most
unfolding recv_loop Taking
recv_loop-Taking zero size buffer w most hf hu hc =
    if_elim {A = Result (Option Bytes) × WebSocket} (λ r. Taking r most) (ltb (length buffer) size)
      (err no_fuel, w) (ok (some buffer), w) (λ yes_less. absurd (ground arith))
      (λ no_less. ground arith)
recv_loop-Taking (suc fuel) size buffer w most hf hu hc =
    if_elim {A = Result (Option Bytes) × WebSocket} (λ r. Taking r most) (ltb (length buffer) size)
      (received (recv_loop fuel size) buffer (recv w.time_limit (size - length buffer) w.arrivals)
        w)
      (ok (some buffer), w)
      (λ yes_less.
        Taking-weaken
          (received (recv_loop fuel size) buffer
            (recv w.time_limit (size - length buffer) w.arrivals) w)
          (unread w.arrivals) most hu
          (received-Bounded (recv_loop fuel size) buffer
            (recv w.time_limit (size - length buffer) w.arrivals) w (unread w.arrivals)
            (recv-Took w.time_limit (size - length buffer) w.arrivals)
            (λ c cs later less.
              let longer = length-append buffer (c ∷ cs) in
              recv_loop-Taking fuel size (buffer ++ c ∷ cs) (record w { arrivals = later })
                (unread w.arrivals) (omega arith) (omega arith) (inr less))))
      (λ no_less. ground arith)

pub recv_exact-Taking :
    (n : ℕ) (w : WebSocket) → 0 < n → Taking (recv_exact n w) (unread w.arrivals)
unfolding recv_exact require_socket Taking
recv_exact-Taking zero w h = absurd (omega arith)
recv_exact-Taking (suc n) w h =
    if_elim {A = Result (Option Bytes) × WebSocket} (λ r. Taking r (unread w.arrivals)) w.is_open
      ((if suc n == 0 then give (some []) else recv_loop (suc n) (suc n) []) w)
      (err (runtime_error "websocket is not connected"), w)
      (λ _.
        if_elim (λ m. Taking (m w) (unread w.arrivals)) (suc n == 0) (give (some []))
          (recv_loop (suc n) (suc n) []) (λ e. absurd (ground arith))
          (λ _.
            recv_loop-Taking (suc n) (suc n) [] w (unread w.arrivals) (omega arith) (omega arith)
              (inl (omega arith))))
      (λ _. (((λ e. cc), (λ e. cc)), omega arith))

Taking-Bounded {ℓ} :
    {A : Type ℓ} (r : Result (Option A) × WebSocket) (m : ℕ) → Taking r m → Bounded r m
unfolding Taking Bounded
Taking-Bounded (ok none, w) m t = t
Taking-Bounded (ok (some a), w) m t = omega arith
Taking-Bounded (err e, w) m t = t

pub Bounded-Taking {ℓ} :
    {A : Type ℓ} (r : Result (Option A) × WebSocket) (m n : ℕ) → Bounded r m → m < n → Taking r n
unfolding Taking Bounded
Bounded-Taking (ok none, w) m n b h = omega arith
Bounded-Taking (ok (some a), w) m n b h = omega arith
Bounded-Taking (err e, w) m n b h = (b.0, le_trans_of b.1 (omega arith))

pub within_then {ℓ κ} :
    {A : Type ℓ} {B : Type κ} (r : Result A × WebSocket) (f : A → Socketed B) (most : ℕ)
    → Bounded r most
    → ((a : A) (w : WebSocket) → unread w.arrivals ≤ most → Bounded (f a w) most)
    → Bounded (go_on f r) most
unfolding Bounded
within_then (ok a, w) f most b next = next a w b
within_then (err e, w) f most b next = b

pub Bounded-weaken {ℓ} :
    {A : Type ℓ} (r : Result A × WebSocket) (m n : ℕ) → m ≤ n → Bounded r m → Bounded r n
unfolding Bounded
Bounded-weaken (ok a, w) m n h t = omega arith
Bounded-weaken (err e, w) m n h t = (t.0, le_trans_of t.1 h)

pub recv_exact-Bounded :
    (n : ℕ) (w : WebSocket) (most : ℕ) → unread w.arrivals ≤ most → Bounded (recv_exact n w) most
unfolding recv_exact require_socket Bounded
recv_exact-Bounded zero w most h =
    if_elim {A = Result (Option Bytes) × WebSocket} (λ r. Bounded r most) w.is_open
      (ok (some []), w) (err (runtime_error "websocket is not connected"), w) (λ _. h)
      (λ _. (((λ e. cc), (λ e. cc)), h))
recv_exact-Bounded (suc n) w most h =
    Bounded-weaken (recv_exact (suc n) w) (unread w.arrivals) most h (
      Taking-Bounded (recv_exact (suc n) w) (unread w.arrivals)
        (recv_exact-Taking (suc n) w (omega arith)))
