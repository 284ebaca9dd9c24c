-- ===== src/Recovery/Flow.antt =====
-- The flow that ends in a current server (agent_keepalive/providers/codex_recovery.py,
-- ensure_current_codex_app_server and recover_stale_socket).
use agent_keepalive.Json.{Fields}
use agent_keepalive.Prelude.{
  Bool, Exception, List, Nothing, Option, Result, String, [], codes, contains, err, false, give,
  if◌then◌else◌, int_eq, is_zero, lift, nat_eq, none, not, ok, os_error, pair_eq, pos, raise,
  recovery_error, server_unavailable, some, string_eq, text_eq, ℕ, ◌==◌, ◌>>=◌, ◌>>>◌, ◌∷◌,
}
use agent_keepalive.Recovery.{
  Completed, Host, Recovering, command_error_text, connected_to, fstring, is_within, none_or,
  run_codex_command, show_int,
}
use agent_keepalive.Recovery.Listener.{find_codex_listener_pid, terminate_process}
use agent_keepalive.Recovery.Versions.{
  CodexDaemonVersion, VersionState, classify_version_state, current, expected_codex_version,
  parse_daemon_version, parse_initialize_version, stale, validate_daemon_socket_version,
}

pub record CodexAppServerState : Type 0 where
  pub state_cli_version : Option String
  pub state_managed_codex_version : Option String
  pub expected_version : String
  pub actual_version : String
  pub recovery_action : String

-- ENOENT, ECONNREFUSED, ECONNRESET, ECONNABORTED, ENOTCONN and EPIPE, as Linux numbers them.
abbrev pub unavailable_socket_errnos : List ℕ
unavailable_socket_errnos = 2 ∷ 111 ∷ 104 ∷ 103 ∷ 107 ∷ 32 ∷ []

unfoldable pub is_unavailable_socket_error : Exception → Bool
is_unavailable_socket_error (os_error (some errno) text) = contains unavailable_socket_errnos errno
is_unavailable_socket_error _ = false

-- The text of an exception; `OSError` where it is empty.
unfoldable pub reason_text : Exception → String
reason_text (os_error errno text) = if text == "" then "OSError" else text
reason_text _ = ""

unfoldable pub unavailable_at : String → Exception → Exception
unavailable_at socket_path e =
    server_unavailable
      (fstring ("Codex app-server unavailable at " ∷ socket_path ∷ ": " ∷ reason_text e ∷ []))

unfoldable pub probed : Host → String → Result Fields → Result String
probed host socket_path (err e) =
    err (if is_unavailable_socket_error e then unavailable_at socket_path e else e)
probed host socket_path (ok initialize_result) = do
  version ← parse_initialize_version host initialize_result
  elim version [
    | some v ↦ ok v
    | none ↦ err (
        recovery_error (
          fstring (
            "could not determine Codex app-server version for socket " ∷ socket_path
            ∷ " from initialize payload" ∷ [])))
  ]

unfoldable pub probe_socket_app_server_version : Host → String → Recovering String
probe_socket_app_server_version host socket_path log =
    (probed host socket_path (host.connect log socket_path), connected_to socket_path ∷ log)

abbrev pub version_args : List String
version_args = "app-server" ∷ "daemon" ∷ "version" ∷ []

abbrev pub restart_args : List String
restart_args = "app-server" ∷ "daemon" ∷ "restart" ∷ []

unfoldable pub read_daemon_version : Host → (codex_bin : String) → Recovering CodexDaemonVersion
read_daemon_version host codex_bin = run_codex_command host version_args >>> λ result. lift (
    if not (is_zero result.returncode)
    then err (
        recovery_error (
          fstring (
            "`"
            ∷ codex_bin
            ∷ " app-server daemon version` failed: "
            ∷ command_error_text host result
            ∷ [])))
    else parse_daemon_version host result.stdout)

-- `UNMANAGED_RESTART_ERROR in restart_error`
unfoldable pub says_unmanaged : Host → Completed → Bool
says_unmanaged host result =
    is_within (codes "app server is running but is not managed by codex app-server daemon")
      (codes (command_error_text host result))

unfoldable pub after_retry :
    Host → (codex_bin : String) → (pid : ℕ) → (termination : String) → Completed → Result String
after_retry host codex_bin pid termination result =
    if not (is_zero result.returncode)
    then err (
        recovery_error (
          fstring (
            "`"
            ∷ codex_bin
            ∷ " app-server daemon restart` still failed after stopping stale listener pid "
            ∷ show_int host (pos pid)
            ∷ ": "
            ∷ command_error_text host result
            ∷ [])))
    else ok (fstring ("stop_unmanaged_listener_" ∷ termination ∷ "_then_daemon_restart" ∷ []))

unfoldable pub stop_and_retry : Host → (codex_bin socket_path : String) → Recovering String
stop_and_retry host codex_bin socket_path = find_codex_listener_pid host socket_path >>> λ pid.
    terminate_process host pid >>> λ termination. run_codex_command host restart_args >>> λ result.
    lift (after_retry host codex_bin pid termination result)

unfoldable pub after_restart :
    Host → (codex_bin socket_path : String) → Completed → Recovering String
after_restart host codex_bin socket_path result =
    if is_zero result.returncode
    then give "daemon_restart"
    else (if not (says_unmanaged host result)
        then raise (
            recovery_error (
              fstring (
                "`"
                ∷ codex_bin
                ∷ " app-server daemon restart` failed: "
                ∷ command_error_text host result
                ∷ [])))
        else stop_and_retry host codex_bin socket_path)

unfoldable pub recover_stale_socket : Host → (codex_bin socket_path : String) → Recovering String
recover_stale_socket host codex_bin socket_path =
    run_codex_command host restart_args >>> after_restart host codex_bin socket_path

unfoldable pub state_of :
    CodexDaemonVersion → (expected actual action : String) → CodexAppServerState
state_of daemon expected actual action = record {
  state_cli_version = daemon.cli_version;
  state_managed_codex_version = daemon.managed_codex_version;
  expected_version = expected;
  actual_version = actual;
  recovery_action = action;
}

-- The daemon answers for a socket that is not this one.
unfoldable pub other_socket : CodexDaemonVersion → String → Bool
other_socket daemon socket_path = elim daemon.daemon_socket_path [
  | none ↦ false
  | some managed ↦ not (managed == socket_path)
]

unfoldable pub still_stale : (socket_path expected actual : String) → VersionState → Result Nothing
still_stale socket_path expected actual current = ok tt
still_stale socket_path expected actual stale = err (
    recovery_error (
      fstring (
        "Codex app-server at " ∷ socket_path ∷ " is still " ∷ actual ∷ " after recovery; expected "
        ∷ expected ∷ [])))

-- What is read again once the server has been restarted.
unfoldable pub refresh_state :
    Host → (codex_bin socket_path action : String) → Recovering CodexAppServerState
refresh_state host codex_bin socket_path action = read_daemon_version host codex_bin >>> λ daemon.
    lift (expected_codex_version host daemon) >>> λ expected.
    probe_socket_app_server_version host socket_path >>> λ actual.
    lift (validate_daemon_socket_version host daemon socket_path actual) >>> λ _.
    lift (classify_version_state host actual expected) >>> λ state.
    lift (still_stale socket_path expected actual state) >>> λ _.
    give (state_of daemon expected actual action)

unfoldable pub act_on :
    Host
    → (codex_bin socket_path : String) → CodexDaemonVersion
    → (expected actual : String) → VersionState
    → Recovering CodexAppServerState
act_on host codex_bin socket_path daemon expected actual current =
    give (state_of daemon expected actual "none")
act_on host codex_bin socket_path daemon expected actual stale =
    if other_socket daemon socket_path
    then raise (
        recovery_error (
          fstring (
            "Codex app-server at "
            ∷ socket_path
            ∷ " is stale ("
            ∷ actual
            ∷ " < "
            ∷ expected
            ∷ "), but codex daemon manages "
            ∷ none_or daemon.daemon_socket_path
            ∷ "; refusing automatic recovery for a different socket"
            ∷ [])))
    else (recover_stale_socket host codex_bin socket_path
        >>> refresh_state host codex_bin socket_path)

unfoldable pub ensure_current_codex_app_server :
    Host → (codex_bin socket_path : String) → Recovering CodexAppServerState
ensure_current_codex_app_server host codex_bin socket_path =
    probe_socket_app_server_version host socket_path >>> λ actual.
    read_daemon_version host codex_bin >>> λ daemon.
    lift (expected_codex_version host daemon) >>> λ expected.
    lift (validate_daemon_socket_version host daemon socket_path actual) >>> λ _.
    lift (classify_version_state host actual expected)
    >>> act_on host codex_bin socket_path daemon expected actual
