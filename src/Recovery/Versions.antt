-- ===== src/Recovery/Versions.antt =====
-- Versions of Codex (agent_keepalive/providers/codex_recovery.py): the first `x.y.z` of a text, and
-- what the daemon and the server report.
use agent_keepalive.Json.{Fields, as_obj, as_str, get, str}
use agent_keepalive.Prelude.{
  Bool, Nothing, Option, Result, String, [], code, codes, err, false, if◌then◌else◌, int_eq, ltb,
  nat_eq, none, not, ok, option_beq, pair_eq, recovery_error, some, string_eq, text_eq, ℕ, ◌&&◌,
  ◌==◌, ◌>>=◌, ◌||◌, ◌∷◌,
}
use agent_keepalive.Recovery.{Host, decode_error, fstring, loaded_value, none_or}
use agent_keepalive.TimeParse.{is_digit, read_digits}

abbrev pub VersionKey : Type 0
VersionKey = ℕ × ℕ × ℕ

-- `\d*`, and what follows.
unfoldable pub span_digits : String → String × String
span_digits String.[] = ("", "")
span_digits (String.◌∷◌ c s) =
    let (found, rest) = span_digits s in
    if is_digit (code c) then (String.◌∷◌ c found, rest) else ("", String.◌∷◌ c s)

-- `(\d+)`
unfoldable pub match_digits : String → Option (String × String)
match_digits s =
    let (found, rest) = span_digits s in if found == "" then none else some (found, rest)

-- `\.`
unfoldable pub match_dot : String → Option String
match_dot String.[] = none
match_dot (String.◌∷◌ c s) = if code c == b'.' then some s else none

infixr 4 ◌and_then◌
abbrev pub ◌and_then◌ {ℓ κ} : {A : Type ℓ} {B : Type κ} → Option A → (A → Option B) → Option B
none and_then f = none
some a and_then f = f a

-- The three groups of VERSION_RE at the start of a text; no shorter run of digits is before a dot.
unfoldable pub match_version : String → Option (String × String × String)
match_version s = match_digits s and_then λ (major, s1). match_dot s1 and_then λ s2.
    match_digits s2 and_then λ (minor, s3).
    match_dot s3 and_then λ s4. match_digits s4 and_then λ (patch, _). some (major, minor, patch)

-- VERSION_RE.search(text)
unfoldable pub search_version : String → Option (String × String × String)
search_version String.[] = match_version ""
search_version (String.◌∷◌ c s) = elim (match_version (String.◌∷◌ c s)) [
  | some groups ↦ some groups
  | none ↦ search_version s
]

unfoldable pub int_of_digits : String → ℕ
int_of_digits s = (read_digits (codes s) 0).0

unfoldable pub version_key : Host → String → Result VersionKey
version_key host raw = elim (search_version raw) [
  | none ↦ err (
      recovery_error
        (fstring ("could not parse Codex version from " ∷ host.library.repr (str raw) ∷ [])))
  | some (major, minor, patch) ↦ ok (int_of_digits major, int_of_digits minor, int_of_digits patch)
]

unfoldable pub version_key_or_none : Host → Option String → Result (Option VersionKey)
version_key_or_none host none = ok none
version_key_or_none host (some raw) = do key ← version_key host raw; ok (some key)

-- The order of tuples.
unfoldable pub key_ltb : VersionKey → VersionKey → Bool
key_ltb (a, b, c) (d, e, f) = ltb a d || (a == d && (ltb b e || (b == e && ltb c f)))

unfoldable pub key_beq : VersionKey → VersionKey → Bool
key_beq (a, b, c) (d, e, f) = a == d && (b == e && c == f)

pub record CodexDaemonVersion : Type 0 where
  pub daemon_status : Option String
  pub daemon_socket_path : Option String
  pub cli_version : Option String
  pub managed_codex_version : Option String
  pub app_server_version : Option String

unfoldable pub text_member : Fields → String → Option String
text_member payload key = as_str (get key payload)

unfoldable pub parse_daemon_version : Host → String → Result CodexDaemonVersion
parse_daemon_version host raw = elim (host.json_loads raw) [
  | decode_error text ↦ err (
      recovery_error
        (fstring ("could not parse `codex app-server daemon version` output: " ∷ text ∷ [])))
  | loaded_value value ↦ elim (as_obj value) [
    | none ↦ err (recovery_error "`codex app-server daemon version` did not return a JSON object")
    | some payload ↦ ok (record {
      daemon_status = text_member payload "status";
      daemon_socket_path = elim (as_str (get "socketPath" payload)) [
        | none ↦ none
        | some socket_path ↦ some (host.expand_user socket_path)
      ];
      cli_version = text_member payload "cliVersion";
      managed_codex_version = text_member payload "managedCodexVersion";
      app_server_version = text_member payload "appServerVersion";
    })
  ]
]

-- Both versions are known and differ.
unfoldable pub keys_differ : Option VersionKey → Option VersionKey → Bool
keys_differ (some a) (some b) = not (key_beq a b)
keys_differ _ _ = false

-- `a or b` on optional texts.
unfoldable pub or_else : Option String → Option String → Option String
or_else none b = b
or_else (some a) b = if a == "" then b else some a

unfoldable pub checked_version : Host → Option String → Result String
checked_version host none =
    err (recovery_error "`codex app-server daemon version` did not report a Codex version")
checked_version host (some expected) = do _ ← version_key host expected; ok expected

unfoldable pub expected_codex_version : Host → CodexDaemonVersion → Result String
expected_codex_version host daemon = do
  cli_key ← version_key_or_none host daemon.cli_version
  managed_key ← version_key_or_none host daemon.managed_codex_version
  if keys_differ cli_key managed_key
      then err (
          recovery_error (
            fstring (
              "Codex CLI version and managed Codex version differ ("
              ∷ none_or daemon.cli_version
              ∷ " vs "
              ∷ none_or daemon.managed_codex_version
              ∷ "); refusing to guess the current app-server version"
              ∷ [])))
      else checked_version host (or_else daemon.managed_codex_version daemon.cli_version)

-- `serverInfo.version`, and `none` where there is no text of it.
unfoldable pub server_info_version : Fields → Option String
server_info_version payload = elim (as_obj (get "serverInfo" payload)) [
  | none ↦ none
  | some server_info ↦ as_str (get "version" server_info)
]

unfoldable pub user_agent_version : Fields → Option String
user_agent_version payload = elim (as_str (get "userAgent" payload)) [
  | none ↦ none
  | some user_agent ↦ elim (search_version user_agent) [
    | none ↦ none
    | some (major, minor, patch) ↦ some (fstring (major ∷ "." ∷ minor ∷ "." ∷ patch ∷ []))
  ]
]

unfoldable pub parse_initialize_version : Host → Fields → Result (Option String)
parse_initialize_version host payload = elim (server_info_version payload) [
  | some version ↦ (do _ ← version_key host version; ok (some version))
  | none ↦ ok (user_agent_version payload)
]

unfoldable pub validate_daemon_socket_version :
    Host → CodexDaemonVersion → (socket_path version : String) → Result Nothing
validate_daemon_socket_version host daemon socket_path version =
    if not (option_beq daemon.daemon_socket_path (some socket_path))
    then ok tt
    else elim daemon.app_server_version [
      | none ↦ ok tt
      | some reported ↦ (do
        reported_key ← version_key host reported
        actual_key ← version_key host version
        if not (key_beq reported_key actual_key)
            then err (
                recovery_error (
                  fstring (
                    "`codex app-server daemon version` reported appServerVersion=" ∷ reported
                    ∷ ", but socket " ∷ socket_path ∷ " initialized as " ∷ version ∷ [])))
            else ok tt)
    ]

pub data VersionState : Type 0 where
  current : VersionState
  stale : VersionState

unfoldable pub classify_version_state : Host → (actual expected : String) → Result VersionState
classify_version_state host actual expected = do
  actual_key ← version_key host actual
  expected_key ← version_key host expected
  if key_beq actual_key expected_key
      then ok current
      else if key_ltb actual_key expected_key
      then ok stale
      else err (
          recovery_error (
            fstring (
              "Codex app-server version " ∷ actual ∷ " is newer than expected local Codex version "
              ∷ expected ∷ [])))
