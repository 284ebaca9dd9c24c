-- ===== src/Claude/Discovery.antt =====
-- providers/claude.py, discover_claude: one run of `claude agents --json`, and what it says.
pub mod Outcomes
-- How the command ended: `subprocess.run` raised, or it returned a code and its output, which is
-- given here with what `json.loads` makes of it (of "[]" where it is empty); its plain ValueError for
-- an integer of more than 4300 digits, which the source does not catch, is left out.
use agent_keepalive.Claude.Ids.{short_session_id}
use agent_keepalive.Claude.Jobs.{cwd_is_clean, text_or_none}
use agent_keepalive.Claude.Status.{or_text, value_as_str}
use agent_keepalive.Json.{Fields, Items, Value, arr, cons, get, int, nil, obj}
use agent_keepalive.Prelude.{
  Bool, List, Option, Result, String, [], err, false, if◌then◌else◌, is_zero, none, ok, some,
  text_append, true, ℤ, ◌&&◌, ◌∷◌,
}
use agent_keepalive.Python.{Python}

pub data CliResult : Type 0 where
  timed_out not_started undecodable : CliResult
  finished : (returncode : ℤ) (json : Option Value) → CliResult

pub data Outcome : Type 0 where
  success empty failure invalid_json : Outcome

pub record DiscoveryResult : Type 0 where
  pub outcome : Outcome
  pub entries : List Fields
  pub error : Option String

unfoldable pub identity : Fields → Option String
identity entry =
    or_text (value_as_str (some entry) "shortSessionId")
      (or_text (value_as_str (some entry) "daemonShort") (value_as_str (some entry) "sessionId"))

abbrev pub is_ok {ℓ} : {A : Type ℓ} → Result A → Bool
is_ok (ok _) = true
is_ok (err _) = false

unfoldable pub discovery_entry_is_valid : Fields → Bool
discovery_entry_is_valid entry = elim (identity entry) [
  | none ↦ false
  | some identity ↦
      is_ok (short_session_id identity)
      && text_or_none (get "cwd" entry)
      && text_or_none (get "status" entry)
      && cwd_is_clean (get "cwd" entry)
]

-- [entry for entry in entries if isinstance(entry, dict)], and whether that is all of them.
unfoldable pub objects : Items → Option (List Fields)
objects nil = some []
objects (cons (obj entry) items) = elim (objects items) [
  | none ↦ none
  | some entries ↦ some (entry ∷ entries)
]
objects (cons _ items) = none

unfoldable pub all_valid : List Fields → Bool
all_valid [] = true
all_valid (entry ∷ entries) = discovery_entry_is_valid entry && all_valid entries

abbrev pub rejected : Outcome → String → DiscoveryResult
rejected outcome error = record { outcome = outcome; entries = []; error = some error }

unfoldable pub check_entries : List Fields → DiscoveryResult
check_entries [] = record { outcome = empty; entries = []; error = none }
check_entries (entry ∷ entries) =
    if all_valid (entry ∷ entries)
    then record { outcome = success; entries = entry ∷ entries; error = none }
    else rejected invalid_json "Claude discovery array contained malformed session data"

unfoldable pub check_json : Option Value → DiscoveryResult
check_json (some (arr items)) = elim (objects items) [
  | none ↦ rejected invalid_json "Claude discovery array contained invalid entries"
  | some entries ↦ check_entries entries
]
check_json (some _) = rejected invalid_json "Claude discovery JSON was not an array"
check_json none = rejected invalid_json "Claude discovery returned invalid JSON"

module _ (py : Python) where
  unfoldable pub discover_claude : CliResult → DiscoveryResult
  discover_claude timed_out = rejected failure "Claude discovery timed out after 10 seconds"
  discover_claude not_started =
      rejected failure "Claude discovery could not start or read its output"
  discover_claude undecodable = rejected invalid_json "Claude discovery returned undecodable output"
  discover_claude (finished returncode json) =
      if is_zero returncode
      then check_json json
      else rejected failure
          (text_append "Claude discovery failed with exit code " (py.repr (int returncode)))

-- result.outcome in {"success", "empty"}
unfoldable pub is_authoritative : Outcome → Bool
is_authoritative success = true
is_authoritative empty = true
is_authoritative _ = false
