-- ===== src/Rpc/Steps.antt =====
-- The client between its threads (agent_keepalive/rpc.py): each step of a caller of `request` and
-- each turn of the reader is one.
use agent_keepalive.Prelude.{
  Bool, List, Option, Result, [], if◌then◌else◌, int_eq, leb, length, ltb, nat_eq, pair_eq,
  string_eq, text_eq, true, ℕ, ◌+◌, ◌==◌, ◌∷◌, ◌≡◌, ◌≤◌,
}
use agent_keepalive.Rpc.{
  Answer, Rpc, RpcLibrary, after_turn, check_open, give_up, load_next, new_client, read_id,
  register, store_next, turn_of,
}
use agent_keepalive.Ws.Events.{Event}

pub data Step : RpcLibrary → Rpc → Rpc → Type 0 where
  step_check : {lib : RpcLibrary} {r : Rpc} → Step lib r (check_open r)
  step_read_id : {lib : RpcLibrary} {r : Rpc} → Step lib r (read_id r)
  step_load : {lib : RpcLibrary} {r : Rpc} (k : ℕ) → Step lib r (load_next k r)
  step_store : {lib : RpcLibrary} {r : Rpc} (k : ℕ) → Step lib r (store_next k r)
  step_register : {lib : RpcLibrary} {r : Rpc} (k : ℕ) → Step lib r (register k r)
  step_give_up : {lib : RpcLibrary} {r : Rpc} (k : ℕ) → Step lib r (give_up k r)
  step_read :
      {lib : RpcLibrary} {r : Rpc} (event : Result (Option Event))
      → Step lib r (after_turn lib (turn_of lib event r) r)

-- At most one caller is within `_allocate_request_id`, between the reading of its id and the storing
-- of the next one.
unfoldable pub alone : Rpc → Bool
alone r = leb (length r.reading + length r.adding) 1

-- The runs in which two callers never are within `_allocate_request_id` at once, as when one thread
-- makes all requests. They may else take turns with each other and with the reader in any way.
pub data OneAtATime : RpcLibrary → Rpc → Type 0 where
  at_start : {lib : RpcLibrary} → OneAtATime lib new_client
  after_step :
      {lib : RpcLibrary} {r s : Rpc}
      → OneAtATime lib r
      → Step lib r s
      → alone s ≡ true
      → OneAtATime lib s

unfoldable pub occurs : ℕ → List ℕ → ℕ
occurs k [] = 0
occurs k (j ∷ ids) = (if j == k then 1 else 0) + occurs k ids

unfoldable pub answered : List (ℕ × Answer) → List ℕ
answered [] = []
answered ((k, a) ∷ answers) = k ∷ answered answers

-- Where a request is: begun, waiting or answered, and how often.
unfoldable pub places : ℕ → Rpc → ℕ
places k r = occurs k r.begun + occurs k r.pending + occurs k (answered r.answers)

-- An id that has been given out is in one place at most, and any other in none.
unfoldable pub Tracked : Rpc → ℕ → Type 0
Tracked r k = places k r ≤ (if ltb k r.next_request_id then 1 else 0)
