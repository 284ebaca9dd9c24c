-- ===== src/Claude/Observe.antt =====
-- Observing one Claude session (agent_keepalive/providers/claude.py): the check of the version, the
-- roots and the environment, finding a session's entry and state, and resolving a target.
use agent_keepalive.Claude.Jobs.{JobFile, read_job_state}
use agent_keepalive.Claude.Status.{Preflight, or_text, value_as_str}
use agent_keepalive.Command.Children.{get_env}
use agent_keepalive.Json.{Fields, int, set_field, str}
use agent_keepalive.Prelude.{
  Bool, Dict, List, Option, Result, String, Text, [], code, codes, contains, err, false,
  if◌then◌else◌, int_eq, is_zero, nat_eq, none, not, ok, option_beq, pair_eq, runtime_error, some,
  string_eq, text_append, text_eq, ◌&&◌, ◌==◌, ◌>>=◌, ◌||◌, ◌∷◌,
}
use agent_keepalive.Python.{Python, str_of}
use agent_keepalive.Recovery.{Completed, fstring, has_prefix}
use agent_keepalive.Recovery.Versions.{VersionKey, int_of_digits, key_ltb, search_version}
use agent_keepalive.Store.{text_leb}

-- The file system as far as it is asked: expanduser with resolve, resolve alone, `which`,
-- the folder of a path, whether a path is absolute, the home folder, and the working folder.
pub record Folders : Type 0 where
  pub full_path : String → String
  pub resolve_path : String → String
  pub which : String → Option String
  pub parent : String → String
  pub is_absolute : String → Bool
  pub home_folder : String
  pub working_folder : String

-- Splitting at colons, `os.pathsep`.
unfoldable pub split_path : String → List String
split_path String.[] = "" ∷ []
split_path (String.◌∷◌ c s) = elim (split_path s) [
  | [] ↦ []
  | first ∷ parts ↦ if code c == b':' then "" ∷ first ∷ parts else String.◌∷◌ c first ∷ parts
]

unfoldable pub non_empty : List String → List String
non_empty [] = []
non_empty (s ∷ ss) = let rest = non_empty ss in if s == "" then rest else s ∷ rest

-- list(dict.fromkeys(values)): the first of each.
unfoldable pub first_of_each : (seen : List String) → List String → List String
first_of_each seen [] = []
first_of_each seen (s ∷ ss) =
    let rest = first_of_each (s ∷ seen) ss in if contains seen s then rest else s ∷ rest

unfoldable pub full_paths : Folders → List String → List String
full_paths folders [] = []
full_paths folders (s ∷ ss) = folders.full_path s ∷ full_paths folders ss

-- `a or b` on lists.
unfoldable pub or_list : List String → List String → List String
or_list [] b = b
or_list (s ∷ ss) b = s ∷ ss

unfoldable pub configured_roots : Folders → Dict String String → List String → List String
configured_roots folders environ values = first_of_each [] (
    full_paths folders (
      or_list values (
        or_list (non_empty (split_path (get_env environ "AGENT_KEEPALIVE_CLAUDE_CONFIG_ROOTS" "")))
          (fstring (folders.home_folder ∷ "/.claude" ∷ []) ∷ []))))

unfoldable pub minimal_claude_environment :
    Folders → Dict String String → (config_dir claude_program : String) → Dict String String
minimal_claude_environment folders environ config_dir claude_program =
    let inherited = get_env environ "PATH" "/usr/local/bin:/usr/bin:/bin" in
    let folder = folders.parent claude_program in
    ("HOME", folders.home_folder)
    ∷ (
      "PATH",
      if folders.is_absolute claude_program && not (contains (split_path inherited) folder)
          then fstring (folder ∷ ":" ∷ inherited ∷ [])
          else inherited,
    )
    ∷ ("LANG", get_env environ "LANG" "C.UTF-8")
    ∷ ("CLAUDE_CONFIG_DIR", folders.full_path config_dir)
    ∷ []

-- The three numbers of a version, and MIN_VERSION.
abbrev pub min_version : VersionKey
min_version = (2, 1, 139)

unfoldable pub claude_version : String → Option (String × VersionKey)
claude_version raw = elim (search_version raw) [
  | none ↦ none
  | some (major, minor, patch) ↦ some (
    fstring (major ∷ "." ∷ minor ∷ "." ∷ patch ∷ []),
    (int_of_digits major, int_of_digits minor, int_of_digits patch),
  )
]

-- From what `claude --version` came to: a code, the output and the error output.
unfoldable pub checked_preflight :
    Python → (resolved configured : String) → Completed → Result Preflight
checked_preflight py resolved configured result =
    if not (is_zero result.returncode)
    then err (
        runtime_error (
          text_append "Claude version check failed with exit code "
            (str_of py (int result.returncode))))
    else elim (claude_version (if result.stdout == "" then result.stderr else result.stdout)) [
      | none ↦ err (runtime_error "could not parse Claude Code version output")
      | some (version, key) ↦
          if key_ltb key min_version
          then err (
              runtime_error
                (fstring ("Claude Code " ∷ version ∷ " is too old; require at least 2.1.139" ∷ [])))
          else ok (record { claude_bin = resolved; version = version; config_dir = configured })
    ]

unfoldable pub resolve_program : Folders → String → String
resolve_program folders program = elim (folders.which program) [ none ↦ program | some p ↦ p ]

-- preflight_claude with the config folder given; `version_of` runs a program with an environment.
unfoldable pub preflight_claude :
    Python
    → Folders
    → Dict String String
    → (version_of : String → Dict String String → Result Completed)
    → (claude_program config_dir : String) → Result Preflight
preflight_claude py folders environ version_of claude_program config_dir = do
  result ← version_of (resolve_program folders claude_program) (
      minimal_claude_environment folders environ (folders.full_path config_dir)
        (resolve_program folders claude_program))
  checked_preflight py (resolve_program folders claude_program) (folders.full_path config_dir)
      result

-- entry_session.startswith(short_id) on a known id, which is not empty.
unfoldable pub session_starts : Option String → String → Bool
session_starts none short_id = false
session_starts (some session) short_id =
    not (session == "") && has_prefix (codes short_id) (codes session)

unfoldable pub is_session : Option String → Option String → Bool
is_session none entry = false
is_session (some session_id) entry = not (session_id == "") && option_beq entry (some session_id)

unfoldable pub is_entry_of : (short_id : String) → (session_id : Option String) → Fields → Bool
is_entry_of short_id session_id entry =
    let entry_session = value_as_str (some entry) "sessionId" in
    option_beq
      (or_text (value_as_str (some entry) "shortSessionId")
        (value_as_str (some entry) "daemonShort"))
      (some short_id)
    || (session_starts entry_session short_id || is_session session_id entry_session)

-- find_live_entry, over the entries of one discovery.
unfoldable pub find_live_entry :
    (short_id : String) → (state : Option Fields) → List Fields → Option Fields
find_live_entry short_id state [] = none
find_live_entry short_id state (entry ∷ entries) =
    let rest = find_live_entry short_id state entries in
    if is_entry_of short_id (value_as_str state "sessionId") entry then some entry else rest

-- A state file of a job: the folder's name, and the object in the file, where there is one.
abbrev pub StateFiles : Type 0
StateFiles = List (String × Option Fields)

unfoldable pub states_of : (cwd : String) → StateFiles → List Fields
states_of cwd [] = []
states_of cwd ((folder, none) ∷ files) = states_of cwd files
states_of cwd ((folder, some state) ∷ files) =
    let rest = states_of cwd files in
    if option_beq (value_as_str (some state) "cwd") (some cwd)
    then set_field "short_id" (str folder) state ∷ rest
    else rest

abbrev pub updated_text : Fields → Text
updated_text state = elim (value_as_str (some state) "updatedAt") [ none ↦ [] | some s ↦ codes s ]

-- max(states, key=...): the first of the greatest.
unfoldable pub latest_state : (best : Fields) → List Fields → Fields
latest_state best [] = best
latest_state best (state ∷ states) =
    latest_state (if text_leb (updated_text state) (updated_text best) then best else state) states

unfoldable pub latest_of : List Fields → Option Fields
latest_of [] = none
latest_of (state ∷ states) = some (latest_state state states)

unfoldable pub select_last_state : (cwd : String) → StateFiles → Option Fields
select_last_state cwd files = latest_of (states_of cwd files)

unfoldable pub find_state_by_session_id : (session_id : String) → StateFiles → Option Fields
find_state_by_session_id session_id [] = none
find_state_by_session_id session_id ((folder, none) ∷ files) =
    find_state_by_session_id session_id files
find_state_by_session_id session_id ((folder, some state) ∷ files) =
    let rest = find_state_by_session_id session_id files in
    if option_beq (value_as_str (some state) "sessionId") (some session_id)
    then some (set_field "short_id" (str folder) state)
    else rest

unfoldable pub load_state : Python → (short_id : String) → JobFile → Option Fields
load_state py short_id file = elim (read_job_state py short_id file).payload [
  | none ↦ none
  | some state ↦ some (set_field "short_id" (str short_id) state)
]
