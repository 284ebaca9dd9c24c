-- ===== src/Recovery.antt =====
-- Bringing the Codex server up to date (agent_keepalive/providers/codex_recovery.py): what the
-- program asks of the system and what it is answered, and the texts of its errors.
pub mod Versions
pub mod Listener
pub mod Flow
pub mod Current
pub mod Signals
pub mod Restarts
use agent_keepalive.Json.{Fields, Value, int}
use agent_keepalive.Prelude.{
  Bool, List, Option, Result, Stateful, String, Text, [], code, false, if◌then◌else◌, int_eq,
  nat_eq, none, not, pair_eq, some, string_eq, text_append, text_eq, true, ℕ, ℤ, ◌&&◌, ◌==◌, ◌||◌,
  ◌∷◌,
}
use agent_keepalive.Python.{Python, str_of}
use agent_keepalive.TimeParse.{is_space}

pub data Signal : Type 0 where
  sigterm : Signal
  sigkill : Signal

-- What the program does to the system, or asks of it.
pub data Action : Type 0 where
  connected_to : (path : String) → Action
  ran_command : (args : List String) → Action
  listed_sockets : Action
  listed_processes : Action
  signalled : (pid : ℕ) → Signal → Action
  asked_for : (pid : ℕ) → Action

-- All that has been done, the latest first.
abbrev pub Log : Type 0
Log = List Action

-- subprocess.CompletedProcess
pub record Completed : Type 0 where
  pub returncode : ℤ
  pub stdout : String
  pub stderr : String

-- os.kill(pid, signal): it returns, or raises ProcessLookupError or PermissionError.
pub data KillAnswer : Type 0 where
  kill_done : KillAnswer
  no_such_process : KillAnswer
  kill_refused : KillAnswer

-- A folder of /proc: its name, the targets of its links in fd, `none` for one that cannot be read,
-- and the parts of its command line; `none` for a folder or file that cannot be read.
pub record ProcDir : Type 0 where
  pub proc_name : String
  pub fd_targets : Option (List (Option String))
  pub cmdline : Option (List String)

-- json.loads(raw): a value, or the text of the JSONDecodeError.
pub data Loaded : Type 0 where
  loaded_value : Value → Loaded
  decode_error : String → Loaded

-- The system and the libraries. Each answer may depend on all that has been done. `connect` is what
-- AppServerClient.connect returns or raises, `run` what subprocess.run does; `turns` is how often `time.monotonic() < deadline`
-- holds in a row, for a timeout in ms.
pub record Host : Type 0 where
  pub library : Python
  pub json_loads : String → Loaded
  pub expand_user : String → String
  pub path_name : String → String
  pub connect : Log → String → Result Fields
  pub run : Log → List String → Result Completed
  pub unix_table : Log → List String
  pub processes : Log → List ProcDir
  pub kill : Log → ℕ → Signal → KillAnswer
  pub exists : Log → ℕ → KillAnswer
  pub turns : Log → ℕ → ℕ

abbrev pub Recovering {ℓ} : Type ℓ → Type ℓ
Recovering A = Stateful Log A

-- A text put together from parts.
unfoldable pub fstring : List String → String
fstring [] = ""
fstring (s ∷ parts) = text_append s (fstring parts)

abbrev pub show_int : Host → ℤ → String
show_int host n = str_of host.library (int n)

abbrev pub none_or : Option String → String
none_or none = "None"
none_or (some s) = s

-- text.strip()
unfoldable pub strip_start : String → String
strip_start String.[] = ""
strip_start (String.◌∷◌ c s) =
    let rest = strip_start s in if is_space (code c) then rest else String.◌∷◌ c s

unfoldable pub strip_end : String → String
strip_end String.[] = ""
strip_end (String.◌∷◌ c s) =
    let rest = strip_end s in if is_space (code c) && rest == "" then "" else String.◌∷◌ c rest

unfoldable pub strip : String → String
strip s = strip_end (strip_start s)

-- needle in text
unfoldable pub has_prefix : Text → Text → Bool
has_prefix [] s = true
has_prefix (c ∷ t) [] = false
has_prefix (c ∷ t) (d ∷ s) = c == d && has_prefix t s

unfoldable pub is_within : Text → Text → Bool
is_within needle [] = has_prefix needle []
is_within needle (c ∷ s) = has_prefix needle (c ∷ s) || is_within needle s

unfoldable pub run_codex_command : Host → List String → Recovering Completed
run_codex_command host args log = (host.run log args, ran_command args ∷ log)

-- `result.stderr or result.stdout or ...`
unfoldable pub command_error_text : Host → Completed → String
command_error_text host result = strip (
    if not (result.stderr == "")
    then result.stderr
    else (if not (result.stdout == "")
        then result.stdout
        else fstring ("command failed with exit code " ∷ show_int host result.returncode ∷ [])))
