-- ===== src/Rpc/Once.antt =====
-- The ids that _allocate_request_id gives out, and where a request is and how often
-- (agent_keepalive/rpc.py).
use agent_keepalive.Prelude.{
  All, List, Option, Option-cases, Result, [], ap, arith, contains, if_elim, inl, inr, int_eq, leb,
  length, nat_eq, none, pair_eq, refl, some, string_eq, suc, sym, text_eq, true, ℕ, ◌+◌, ◌==◌, ◌∷◌,
  ◌≡◌,
}
use agent_keepalive.Rpc.{
  Rpc, RpcLibrary, after_turn, check_open, drop_adding, drop_first, first_adding, give_up,
  load_next, read_id, register, store_next, turn_of,
}
use agent_keepalive.Rpc.Places.{
  NoMore, after_turn-NoMore, give_up-NoMore, register-NoMore, turn_of-Turned,
}
use agent_keepalive.Rpc.Steps.{
  OneAtATime, Step, Tracked, after_step, alone, answered, at_start, occurs, places, step_check,
  step_give_up, step_load, step_read, step_read_id, step_register, step_store,
}
use agent_keepalive.Ws.Events.{Event}
use agent_keepalive.Ws.Handshake.{opened}
use mathlib.Core.Path.{subst}

-- What a caller that is allocating has read and loaded is the number of the next request.
abbrev Aligned : Rpc → Type 0
Aligned r =
    All (λ j. j ≡ r.next_request_id) r.reading
    × All (λ (row : ℕ × ℕ). (row.0 ≡ r.next_request_id) × (row.1 ≡ r.next_request_id)) r.adding

abbrev Kept : ℕ → Rpc → Type 0
Kept k r = Aligned r × Tracked r k

NoMore-Kept : (k : ℕ) (r s : Rpc) → NoMore k r s → Kept k r → Kept k s
unfolding Tracked
NoMore-Kept k r s (same, read, added, fewer) (aligned, h) =
    (rw (same, read, added) aligned, ground arith)

contains-All : (n k : ℕ) (ids : List ℕ) → All (λ j. j ≡ n) ids → contains ids k ≡ true → k ≡ n
contains-All n k [] all h = cc
contains-All n k (j ∷ ids) all h =
    let here = all.0 in let ih = contains-All n k ids all.1 in ground arith

drop_first-All :
    (n k : ℕ) (ids : List ℕ) → All (λ j. j ≡ n) ids → All (λ j. j ≡ n) (drop_first k ids)
unfolding drop_first
drop_first-All n k [] all = tt
drop_first-All n k (j ∷ ids) all =
    if_elim (All (λ i. i ≡ n)) (j == k) ids (j ∷ drop_first k ids) (λ _. all.1)
      (λ _. (all.0, drop_first-All n k ids all.1))

check_open-Kept : (k : ℕ) (r : Rpc) → Kept k r → Kept k (check_open r)
unfolding check_open Tracked places
check_open-Kept k r h = elim (Option-cases r.closed_error) [
  | inl opened ↦ rw opened h
  | inr (e, over) ↦ rw over h
]

read_id-Kept : (k : ℕ) (r : Rpc) → Kept k r → Kept k (read_id r)
unfolding read_id Tracked places
read_id-Kept k r h =
    if_elim {A = Rpc} (Kept k) (r.checked == 0) r _ (λ _. h) (λ _. (((refl, h.0.0), h.0.1), h.1))

load_next-Kept : (k j : ℕ) (r : Rpc) → Kept k r → Kept k (load_next j r)
unfolding load_next Tracked places
load_next-Kept k j r h =
    if_elim {A = Rpc} (Kept k) (contains r.reading j) _ r
      (λ there. (
        (
          drop_first-All r.next_request_id j r.reading h.0.0,
          ((contains-All r.next_request_id j r.reading h.0.0 there, refl), h.0.1),
        ),
        h.1,
      ))
      (λ _. h)

-- The caller that stores is the only one, and stores one more than the number it has read.
alone_adding :
    (next k n : ℕ) (reading : List ℕ) (adding : List (ℕ × ℕ))
    → leb (length reading + length adding) 1 ≡ true
    → All (λ (row : ℕ × ℕ). (row.0 ≡ next) × (row.1 ≡ next)) adding
    → first_adding k adding ≡ some n
    → (reading ≡ []) × (drop_adding k adding ≡ []) × (k ≡ next) × (n ≡ next)
unfolding first_adding drop_adding
alone_adding next k n reading [] few all e = absurd cc
alone_adding next k n [] ((j, m) ∷ []) few all e =
    let here = all.0.0 in let there = all.0.1 in ground arith
alone_adding next k n (i ∷ reading) ((j, m) ∷ []) few all e = absurd (ground arith)
alone_adding next k n reading (row ∷ other ∷ adding) few all e = absurd (ground arith)

stored_Tracked :
    (k j n : ℕ) (r : Rpc)
    → j ≡ r.next_request_id
    → n ≡ r.next_request_id
    → Tracked r k
    → Tracked
        (record r { next_request_id = suc n; adding = drop_adding j r.adding; begun = j ∷ r.begun })
        k
unfolding Tracked places occurs
stored_Tracked k j n r here there h = ground arith

store_next-none : (j : ℕ) (r : Rpc) → first_adding j r.adding ≡ none → store_next j r ≡ r
unfolding store_next
store_next-none j r e =
    ap
      (λ o. elim o as (λ _. Rpc) [
        | none ↦ r
        | some m ↦ record r {
          next_request_id = suc m;
          adding = drop_adding j r.adding;
          begun = j ∷ r.begun;
        }
      ])
      e

stored : ℕ → ℕ → Rpc → Rpc
stored j n r = record r {
  next_request_id = suc n;
  adding = drop_adding j r.adding;
  begun = j ∷ r.begun;
}

store_next-some :
    (j n : ℕ) (r : Rpc) → first_adding j r.adding ≡ some n → store_next j r ≡ stored j n r
unfolding store_next stored
store_next-some j n r e =
    ap
      (λ o. elim o as (λ _. Rpc) [
        | none ↦ r
        | some m ↦ record r {
          next_request_id = suc m;
          adding = drop_adding j r.adding;
          begun = j ∷ r.begun;
        }
      ])
      e

store_next-Kept : (k j : ℕ) (r : Rpc) → alone r ≡ true → Kept k r → Kept k (store_next j r)
unfolding alone stored
store_next-Kept k j r one h = elim (Option-cases (first_adding j r.adding)) [
  | inl none_adding ↦ subst (Kept k) (sym (store_next-none j r none_adding)) h
  | inr (n, e) ↦
      let (no_reading, no_adding, here, there) =
        alone_adding r.next_request_id j n r.reading r.adding one h.0.1 e in
      subst (Kept k) (sym (store_next-some j n r e))
        ((rw no_reading tt, rw no_adding tt), stored_Tracked k j n r here there h.1)
]

turn-Kept :
    (k : ℕ) (lib : RpcLibrary) (event : Result (Option Event)) (r : Rpc)
    → Kept k r
    → Kept k (after_turn lib (turn_of lib event r) r)
turn-Kept k lib event r h =
    NoMore-Kept k r (after_turn lib (turn_of lib event r) r)
      (after_turn-NoMore k lib (turn_of lib event r) r (turn_of-Turned k lib event r)) h

places-Kept :
    {lib : RpcLibrary} {r s : Rpc} (k : ℕ) → Step lib r s → alone r ≡ true → Kept k r → Kept k s
places-Kept {lib} {r} k step_check one h = check_open-Kept k r h
places-Kept {lib} {r} k step_read_id one h = read_id-Kept k r h
places-Kept {lib} {r} k (step_load j) one h = load_next-Kept k j r h
places-Kept {lib} {r} k (step_store j) one h = store_next-Kept k j r one h
places-Kept {lib} {r} k (step_register j) one h =
    NoMore-Kept k r (register j r) (register-NoMore k j r) h
places-Kept {lib} {r} k (step_give_up j) one h =
    NoMore-Kept k r (give_up j r) (give_up-NoMore k j r) h
places-Kept {lib} {r} k (step_read event) one h = turn-Kept k lib event r h

run-Kept : (lib : RpcLibrary) (r : Rpc) (k : ℕ) → OneAtATime lib r → (alone r ≡ true) × Kept k r
unfolding Tracked places occurs answered alone
run-Kept lib r k at_start = (refl, ((tt, tt), omega arith))
run-Kept lib r k (after_step {r = q} before last one) =
    let earlier = run-Kept lib q k before in (one, places-Kept k last earlier.0 earlier.1)

-- As long as two callers never are within _allocate_request_id at once, and however the callers and
-- the reader else take turns, whatever arrives: an id that has been given out is in one place at
-- most, begun, waiting or answered, and there once; any other id is in none. So no request is
-- answered twice, and none is answered while it still waits.
pub answered_once : (lib : RpcLibrary) (r : Rpc) (k : ℕ) → OneAtATime lib r → Tracked r k
answered_once lib r k h = (run-Kept lib r k h).1.1
