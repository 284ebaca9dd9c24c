-- ===== src/Ws/Opening.antt =====
-- The bound of reading the response of a handshake (agent_keepalive/ws.py, _read_http_response).
use agent_keepalive.Prelude.{
  Bytes, List, Option, Result, [], arith, err, if_elim, no_fuel, ok, suc, zero, ℕ, ◌++◌, ◌<◌, ◌∷◌,
  ◌≢◌,
}
use agent_keepalive.Recovery.{is_within}
use agent_keepalive.Ws.{Arrival, recv}
use agent_keepalive.Ws.Bounded.{Took, recv-Took}
use agent_keepalive.Ws.Events.{unread}
use agent_keepalive.Ws.Handshake.{head_end, response_loop, response_read}

response_read_ends :
    (again : Bytes → List Arrival → Result Bytes × List Arrival) (response : Bytes)
    (r : Result Bytes × List Arrival) (most : ℕ)
    → Took r most
    → ((more : Bytes) (later : List Arrival)
        → unread later < most
        → (again more later).0 ≢ err no_fuel)
    → (response_read again response r).0 ≢ err no_fuel
unfolding response_read Took
response_read_ends again response (err e, later) most t next h = t.0.0 cc
response_read_ends again response (ok [], later) most t next h = cc
response_read_ends again response (ok (b ∷ bs), later) most t next h =
    next (response ++ b ∷ bs) later t h

-- The loop over the response ends without meeting its bound, if that exceeds the bytes unread.
pub response_loop_ends :
    (fuel : ℕ) (limit : Option ℕ) (response : Bytes) (inbox : List Arrival)
    → unread inbox < fuel
    → (response_loop fuel limit response inbox).0 ≢ err no_fuel
unfolding response_loop
response_loop_ends zero limit response inbox h = absurd (omega arith)
response_loop_ends (suc fuel) limit response inbox h =
    if_elim {A = Result Bytes × List Arrival} (λ r. r.0 ≢ err no_fuel) (is_within head_end response)
      _ _ (λ _ e. cc)
      (λ _.
        response_read_ends (response_loop fuel limit) response (recv limit 4096 inbox)
          (unread inbox) (recv-Took limit 4096 inbox)
          (λ more later less. response_loop_ends fuel limit more later (omega arith)))
