-- ===== src/Command/Stop.antt =====
-- `agent-keepalive stop` (agent_keepalive/cli.py, command_stop).
use agent_keepalive.Command.{
  Commanded, Machine, Selection, aliases, ambiguous, check_alive, drop_stale, exact_matches, forget,
  kill_process, selected, sleep,
}
use agent_keepalive.Json.{get}
use agent_keepalive.Prelude.{
  Bool, Dict, List, Nothing, Option, String, [], contains, false, give, if◌then◌else◌, int_eq,
  nat_eq, none, not, ok, pair_eq, put, some, string_eq, suc, text_eq, true, zero, ℕ, ℤ, ◌>>>◌, ◌∷◌,
}
use agent_keepalive.Python.{truthy}
use agent_keepalive.Record.{KeeperRecord}
use agent_keepalive.Recovery.{sigkill, sigterm}
use agent_keepalive.Store.{Records, list_records, load}

-- The arguments; without `--all` there is a target.
pub record StopArgs : Type 0 where
  pub stop_all : Bool
  pub stop_target : String
  pub stop_provider : Option String
  pub force : Bool

unfoldable pub one_alias : List KeeperRecord → Selection
one_alias [] = selected []
one_alias (r ∷ []) = selected (r ∷ [])
one_alias (r ∷ other ∷ rs) = ambiguous

unfoldable pub select_to_stop : StopArgs → Records → Selection
select_to_stop args records =
    if args.stop_all
    then selected (list_records args.stop_provider records)
    else elim args.stop_provider [
      | none ↦ selected (exact_matches args.stop_target (list_records none records))
      | some provider ↦ elim (load provider args.stop_target records) [
        | some r ↦ selected (r ∷ [])
        | none ↦ one_alias (aliases args.stop_target (list_records (some provider) records))
      ]
    ]

-- A session that the shared supervisor observes is stopped by stopping the supervisor.
unfoldable pub or_supervisor : Records → List KeeperRecord → List KeeperRecord
or_supervisor records (r ∷ []) =
    if truthy (get "managed_by_supervisor" r.provider_metadata)
    then elim (load "claude" "all" records) [ some supervisor ↦ supervisor ∷ [] | none ↦ r ∷ [] ]
    else r ∷ []
or_supervisor records targets = targets

-- The loop that sends SIGTERM, with the pids that have had it.
unfoldable pub signal_targets :
    Machine → (signaled : List ℤ) → List KeeperRecord → Commanded Nothing
signal_targets machine signaled [] = give tt
signal_targets machine signaled (r ∷ rs) = check_alive machine r.pid >>> λ alive.
    if not alive
    then (forget r >>> λ _. signal_targets machine signaled rs)
    else (if not (contains signaled r.pid)
        then (kill_process machine r.pid sigterm >>> λ _.
            signal_targets machine (r.pid ∷ signaled) rs)
        else signal_targets machine signaled rs)

abbrev pub Remaining : Type 0
Remaining = Dict (String × String) KeeperRecord

-- The targets that still run.
unfoldable pub still_running : Machine → List KeeperRecord → Remaining → Commanded Remaining
still_running machine [] found = give found
still_running machine (r ∷ rs) found = check_alive machine r.pid >>> λ alive.
    still_running machine rs (if alive then put (r.provider, r.target_id) r found else found)

-- One turn of the wait: those that have ended are forgotten.
unfoldable pub drop_finished : Machine → Remaining → Commanded Remaining
drop_finished machine [] = give []
drop_finished machine ((key, r) ∷ remaining) = check_alive machine r.pid >>> λ alive.
    if not alive
    then (forget r >>> λ _. drop_finished machine remaining)
    else (drop_finished machine remaining >>> λ rest. give ((key, r) ∷ rest))

unfoldable pub pause_for : Remaining → Commanded Nothing
pause_for [] = give tt
pause_for (entry ∷ remaining) = sleep 200

unfoldable pub wait_for : Machine → (turns : ℕ) → Remaining → Commanded Remaining
wait_for machine turns [] = give []
wait_for machine zero (entry ∷ remaining) = give (entry ∷ remaining)
wait_for machine (suc turns) (entry ∷ remaining) =
    drop_finished machine (entry ∷ remaining) >>> λ left.
    pause_for left >>> λ _. wait_for machine turns left

unfoldable pub force_all : Machine → Remaining → Commanded Nothing
force_all machine [] = give tt
force_all machine ((key, r) ∷ remaining) =
    kill_process machine r.pid sigkill >>> λ _. force_all machine remaining

unfoldable pub force_remaining : Machine → (force : Bool) → Remaining → Commanded Remaining
force_remaining machine forced [] = give []
force_remaining machine false (entry ∷ remaining) = give (entry ∷ remaining)
force_remaining machine true (entry ∷ remaining) =
    force_all machine (entry ∷ remaining) >>> λ _. sleep 200 >>> λ _. give []

unfoldable pub stop_code : Remaining → ℕ
stop_code [] = 0
stop_code (entry ∷ remaining) = 1

unfoldable pub stop_targets : Machine → (force : Bool) → List KeeperRecord → Commanded ℕ
stop_targets machine forced targets = signal_targets machine [] targets >>> λ _.
    still_running machine targets [] >>> λ at_work.
    (λ d. wait_for machine (machine.turns_left d.acts) at_work d) >>> λ left.
    force_remaining machine forced left >>> λ over. give (stop_code over)

unfoldable pub stop_selected : Machine → (force : Bool) → Selection → Commanded ℕ
stop_selected machine forced ambiguous d = (ok 2, d)
stop_selected machine forced (selected []) d = (ok 1, d)
stop_selected machine forced (selected (r ∷ rs)) d =
    stop_targets machine forced (or_supervisor d.kept (r ∷ rs)) d

unfoldable pub command_stop : Machine → StopArgs → Commanded ℕ
command_stop machine args =
    drop_stale machine >>> λ _ d. stop_selected machine args.force (select_to_stop args d.kept) d
