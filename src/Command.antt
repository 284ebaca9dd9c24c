-- ===== src/Command.antt =====
-- The commands that read and change the records of all keepers (agent_keepalive/cli.py): what a
-- command asks of the system, and which records it works on. Printing leaves no trace here; a
-- command's result is its exit code. What keepers write to the store at the same time is left out.
pub mod Stop
pub mod Once
pub mod Children
pub mod Allowed
pub mod Service
pub mod Run
use agent_keepalive.Json.{as_str, get}
use agent_keepalive.Prelude.{
  Bool, Dict, List, Nothing, Option, Stateful, String, [], if◌then◌else◌, int_eq, nat_eq, none, ok,
  option_beq, pair_eq, some, string_eq, text_eq, ℕ, ℤ, ◌==◌, ◌∷◌,
}
use agent_keepalive.Record.{KeeperRecord}
use agent_keepalive.Recovery.{KillAnswer, Signal}
use agent_keepalive.Recovery.Listener.{kill_result}
use agent_keepalive.Store.{
  Probe, Records, list_records, process_is_alive, remove_record, remove_stale_records,
}

-- What a command does to a process, asks of one, or does in between.
pub data Act : Type 0 where
  probed_process : (pid : ℤ) → Act
  killed : (pid : ℤ) → Signal → Act
  slept : (duration : ℕ) → Act
  spawned : (command : List String) → (environment : Dict String String) → Act

-- The system: each answer may depend on what has been done, the latest first. `turns_left` is how
-- often `time.monotonic() < deadline` holds in a row.
pub record Machine : Type 0 where
  pub probe : List Act → ℤ → Probe
  pub deliver : List Act → ℤ → Signal → KillAnswer
  pub turns_left : List Act → ℕ

-- The store and what has been done.
pub record Desk : Type 0 where
  pub kept : Records
  pub acts : List Act

abbrev pub Commanded {ℓ} : Type ℓ → Type ℓ
Commanded A = Stateful Desk A

-- process_is_alive(pid)
unfoldable pub check_alive : Machine → ℤ → Commanded Bool
check_alive machine pid d = (
  ok (process_is_alive (machine.probe d.acts) pid),
  record d { acts = probed_process pid ∷ d.acts },
)

-- os.kill(pid, signal)
unfoldable pub kill_process : Machine → ℤ → Signal → Commanded Nothing
kill_process machine pid signal d = (
  kill_result (machine.deliver d.acts pid signal),
  record d { acts = killed pid signal ∷ d.acts },
)

unfoldable pub forget : KeeperRecord → Commanded Nothing
forget r d = (ok tt, record d { kept = remove_record r.provider r.target_id d.kept })

unfoldable pub sleep : ℕ → Commanded Nothing
sleep duration d = (ok tt, record d { acts = slept duration ∷ d.acts })

unfoldable pub drop_stale : Machine → Commanded Nothing
drop_stale machine d =
    (ok tt, record d { kept = remove_stale_records (machine.probe d.acts) d.kept })

-- Records with the target's id, and records whose `short_session_id` it is.
unfoldable pub exact_matches : String → List KeeperRecord → List KeeperRecord
exact_matches target [] = []
exact_matches target (r ∷ rs) =
    let rest = exact_matches target rs in if r.target_id == target then r ∷ rest else rest

unfoldable pub is_alias : String → KeeperRecord → Bool
is_alias target r = option_beq (as_str (get "short_session_id" r.provider_metadata)) (some target)

unfoldable pub aliases : String → List KeeperRecord → List KeeperRecord
aliases target [] = []
aliases target (r ∷ rs) =
    let rest = aliases target rs in if is_alias target r then r ∷ rest else rest

-- The records a command works on, or the refusal of a short id that two config roots share.
pub data Selection : Type 0 where
  ambiguous : Selection
  selected : List KeeperRecord → Selection

-- The records that `status` shows.
unfoldable pub status_matches : (exact short : List KeeperRecord) → Selection
status_matches (r ∷ exact) short = selected (r ∷ exact)
status_matches [] (r ∷ other ∷ short) = ambiguous
status_matches [] short = selected short

unfoldable pub select_for_status : (provider target : Option String) → Records → Selection
select_for_status provider none records = selected (list_records provider records)
select_for_status provider (some target) records =
    if target == ""
    then selected (list_records provider records)
    else status_matches (exact_matches target (list_records provider records))
        (aliases target (list_records provider records))
