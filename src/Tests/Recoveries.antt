-- ===== src/Tests/Recoveries.antt =====
-- Runs of the recovery of the Codex server.
use agent_keepalive.Json.{Fields, end, field, find, get, obj, str}
use agent_keepalive.Prelude.{
  Bool, List, Result, String, [], code, false, if◌then◌else◌, int_eq, nat_eq, none, ok, pair_eq,
  pos, refl, some, string_eq, text_eq, ℤ, ◌==◌, ◌∷◌, ◌≡◌,
}
use agent_keepalive.Python.{str_of}
use agent_keepalive.Recovery.{
  Completed, Host, Log, ProcDir, asked_for, command_error_text, connected_to, fstring, has_prefix,
  is_within, kill_done, listed_processes, listed_sockets, loaded_value, no_such_process,
  ran_command, run_codex_command, signalled, sigterm, strip, strip_end, strip_start,
}
use agent_keepalive.Recovery.Current.{Reported, ensure_current-SameVersion}
use agent_keepalive.Recovery.Flow.{
  CodexAppServerState, act_on, after_restart, after_retry, ensure_current_codex_app_server,
  is_unavailable_socket_error, other_socket, probe_socket_app_server_version, probed,
  read_daemon_version, reason_text, recover_stale_socket, refresh_state, restart_args,
  says_unmanaged, state_of, still_stale, stop_and_retry, unavailable_at, version_args,
}
use agent_keepalive.Recovery.Listener.{
  after_sigterm, all_but_last, all_digits, does_exist, drop_chars, find_codex_listener_pid,
  has_socket_inode, inodes_of, insert_pid, is_listener, is_number, is_socket_of, join_pids,
  kill_at_last, kill_result, listeners, looks_like_codex_listener, match_listener, only_match,
  process_exists, send_signal, socket_inodes, socket_of_parts, sort_pids, split_from,
  terminate_process, wait_for_process_exit, wait_turns,
}
use agent_keepalive.Recovery.Restarts.{ensure_current-AllWarranted}
use agent_keepalive.Recovery.Signals.{AllWarranted}
use agent_keepalive.Recovery.Versions.{
  checked_version, classify_version_state, expected_codex_version, int_of_digits, key_beq, key_ltb,
  keys_differ, match_digits, match_dot, match_version, or_else, parse_daemon_version,
  parse_initialize_version, search_version, server_info_version, span_digits, text_member,
  user_agent_version, validate_daemon_socket_version, version_key, version_key_or_none,
}
use agent_keepalive.Tests.Data.{sample_py}
use agent_keepalive.TimeParse.{is_digit, is_space, read_digits}

abbrev one_process : ProcDir
one_process = record {
  proc_name = "77";
  fd_targets = some (none ∷ some "socket:[4242]" ∷ []);
  cmdline = some ("codex" ∷ "app-server" ∷ "--listen" ∷ "/s" ∷ []);
}

abbrev answered : ℤ → String → String → Completed
answered code out error = record { returncode = code; stdout = out; stderr = error }

abbrev user_agent : String → Fields
user_agent version = field "userAgent" (str version) end

-- A daemon that manages no server; the first server is old, and the one after a signal is new.
unfoldable wants_version : List String → Bool
wants_version (_ ∷ _ ∷ what ∷ []) = what == "version"
wants_version _ = false

unfoldable restarts : Log → Completed
restarts (asked_for pid ∷ log) = answered (pos 0) "" ""
restarts log =
    answered (pos 1) "" "app server is running but is not managed by codex app-server daemon"

unfoldable sample_run : Log → List String → Result Completed
sample_run log args = ok (if wants_version args then answered (pos 0) "{}" "" else restarts log)

unfoldable sample_connect : Log → String → Result Fields
sample_connect [] path = ok (user_agent "codex/1.2.2")
sample_connect (action ∷ log) path = ok (user_agent "codex/1.2.3")

abbrev recovering_host : Host
recovering_host = record {
  library = sample_py;
  json_loads = λ raw. loaded_value (obj (field "cliVersion" (str "codex 1.2.3") end));
  expand_user = λ s. s;
  path_name = λ s. s;
  connect = sample_connect;
  run = sample_run;
  unix_table = λ log. "0: 2 0 10000 1 1 4242 /s" ∷ [];
  processes = λ log. one_process ∷ [];
  kill = λ log pid signal. kill_done;
  exists = λ log pid. no_such_process;
  turns = λ log timeout. 3;
}

abbrev current_state : CodexAppServerState
current_state = record {
  state_cli_version = some "codex 1.2.3";
  state_managed_codex_version = none;
  expected_version = "codex 1.2.3";
  actual_version = "1.2.3";
  recovery_action = "stop_unmanaged_listener_sigterm_then_daemon_restart";
}

ensure_current-SameVersion_example :
    Reported recovering_host "codex" "/s" current_state
      (ensure_current_codex_app_server recovering_host "codex" "/s" []).1
unfolding act_on after_restart after_retry after_sigterm all_but_last all_digits checked_version
    classify_version_state command_error_text does_exist drop_chars ensure_current_codex_app_server
    expected_codex_version find find_codex_listener_pid fstring get has_prefix has_socket_inode
    inodes_of insert_pid int_of_digits is_digit is_listener is_number is_socket_of is_space
    is_unavailable_socket_error is_within join_pids key_beq key_ltb keys_differ kill_at_last
    kill_result listeners looks_like_codex_listener match_digits match_dot match_listener
    match_version only_match or_else other_socket parse_daemon_version parse_initialize_version
    probe_socket_app_server_version probed process_exists read_daemon_version read_digits
    reason_text recover_stale_socket refresh_state restarts run_codex_command sample_connect
    sample_run says_unmanaged search_version send_signal server_info_version socket_inodes
    socket_of_parts sort_pids span_digits split_from state_of still_stale stop_and_retry str_of
    strip strip_end strip_start terminate_process text_member unavailable_at user_agent_version
    validate_daemon_socket_version version_key version_key_or_none wait_for_process_exit wait_turns
    wants_version
ensure_current-SameVersion_example =
    ensure_current-SameVersion recovering_host "codex" "/s" [] current_state refl

ensure_current-AllWarranted_example :
    AllWarranted recovering_host "codex" "/s"
      (ensure_current_codex_app_server recovering_host "codex" "/s" []).1
ensure_current-AllWarranted_example = ensure_current-AllWarranted recovering_host "codex" "/s"

-- The only process with a socket of the path is signalled, and the daemon restarted after it.
recovery_log :
    (ensure_current_codex_app_server recovering_host "codex" "/s" []).1
    ≡ connected_to "/s"
      ∷ ran_command version_args
      ∷ ran_command restart_args
      ∷ asked_for 77
      ∷ signalled 77 sigterm
      ∷ listed_processes
      ∷ listed_sockets
      ∷ ran_command restart_args
      ∷ ran_command version_args
      ∷ connected_to "/s"
      ∷ []
unfolding act_on after_restart after_retry after_sigterm all_but_last all_digits checked_version
    classify_version_state command_error_text does_exist drop_chars ensure_current_codex_app_server
    expected_codex_version find find_codex_listener_pid fstring get has_prefix has_socket_inode
    inodes_of insert_pid int_of_digits is_digit is_listener is_number is_socket_of is_space
    is_unavailable_socket_error is_within join_pids key_beq key_ltb keys_differ kill_at_last
    kill_result listeners looks_like_codex_listener match_digits match_dot match_listener
    match_version only_match or_else other_socket parse_daemon_version parse_initialize_version
    probe_socket_app_server_version probed process_exists read_daemon_version read_digits
    reason_text recover_stale_socket refresh_state restarts run_codex_command sample_connect
    sample_run says_unmanaged search_version send_signal server_info_version socket_inodes
    socket_of_parts sort_pids span_digits split_from state_of still_stale stop_and_retry str_of
    strip strip_end strip_start terminate_process text_member unavailable_at user_agent_version
    validate_daemon_socket_version version_key version_key_or_none wait_for_process_exit wait_turns
    wants_version
recovery_log = refl
