-- ===== src/Tests/Commands.antt =====
-- Runs of the command line.
use agent_keepalive.Claude.Observe.{Folders}
use agent_keepalive.Command.{
  Machine, aliases, check_alive, drop_stale, exact_matches, forget, is_alias, kill_process, sleep,
}
use agent_keepalive.Command.Allowed.{child_environment-claude}
use agent_keepalive.Command.Children.{Install, child_environment}
use agent_keepalive.Command.Once.{Restrained, command_stop-Restrained, sigkills, sigterms}
use agent_keepalive.Command.Run.{keep_target, run_config, run_plan}
use agent_keepalive.Command.Service.{last_lines, run_codex, service_target, split_colon, tail_file}
use agent_keepalive.Command.Stop.{
  StopArgs, command_stop, drop_finished, force_all, force_remaining, one_alias, or_supervisor,
  pause_for, select_to_stop, signal_targets, still_running, stop_code, stop_selected, stop_targets,
  wait_for,
}
use agent_keepalive.Json.{Fields, end, field, find, get, str}
use agent_keepalive.Paths.{is_alnum, is_safe, keeper_log_name, keeper_state_name, safe_target_id}
use agent_keepalive.Prelude.{
  String, [], false, int_eq, lookup, nat_eq, none, ok, pair_eq, pos, put, refl, remove, some,
  string_eq, text_eq, true, ◌∷◌, ◌≡◌,
}
use agent_keepalive.Python.{truthy}
use agent_keepalive.Record.{KeeperRecord, new_record, touch}
use agent_keepalive.Recovery.{fstring, kill_done, strip_end}
use agent_keepalive.Recovery.Listener.{kill_result}
use agent_keepalive.Store.{
  Records, delivered, insert_sorted, is_from, list_files, list_records, load, load_file,
  process_is_alive, read_files, remove_dead, remove_file, remove_record, remove_stale_records, save,
  save_file, select_records, sort_files, text_leb,
}
use agent_keepalive.TimeParse.{
  is_digit, is_space, match_number, match_token, normalize, parse_duration, read_digits, read_unit,
  sum_tokens, timedelta, unit_seconds,
}

abbrev sample_record : String → Fields → KeeperRecord
sample_record id metadata =
    new_record "claude" id (pos 7) none (pos 3600) "/log" "target" metadata "now"

-- Two targets of one process, which goes on in spite of SIGTERM.
abbrev two_targets : Records
two_targets = save "now" (sample_record "a" end) (save "now" (sample_record "b" end) [])

abbrev stubborn : Machine
stubborn = record {
  probe = λ acts pid. delivered;
  deliver = λ acts pid signal. kill_done;
  turns_left = λ acts. 2;
}

abbrev stop_everything : StopArgs
stop_everything = record { stop_all = true; stop_target = ""; stop_provider = none; force = true }

command_stop-Restrained_example :
    Restrained true
      (command_stop stubborn stop_everything (record { kept = two_targets; acts = [] })).1
command_stop-Restrained_example = command_stop-Restrained stubborn stop_everything two_targets

-- One SIGTERM for both targets, and SIGKILL once for each.
stop_signals :
    (sigterms
        (command_stop stubborn stop_everything (record { kept = two_targets; acts = [] })).1.acts
      ≡ pos 7 ∷ [])
    × (sigkills
          (command_stop stubborn stop_everything (record { kept = two_targets; acts = [] })).1.acts
        ≡ pos 7 ∷ pos 7 ∷ [])
unfolding aliases check_alive command_stop drop_finished drop_stale exact_matches find force_all
    force_remaining forget get insert_sorted is_alias is_alnum is_from is_safe keeper_log_name
    keeper_state_name kill_process kill_result list_files list_records load load_file lookup
    new_record one_alias or_supervisor pause_for process_is_alive put read_files remove remove_dead
    remove_file remove_record remove_stale_records safe_target_id save save_file select_records
    select_to_stop sigkills signal_targets sigterms sleep sort_files still_running stop_code
    stop_selected stop_targets text_leb touch truthy wait_for
stop_signals = (refl, refl)

abbrev sample_install : Install
sample_install = record { executable = "python3"; package_root = "/opt"; home = "/home/me" }

child_environment-claude_example :
    child_environment sample_install "claude" (("PATH", "/bin") ∷ ("TOKEN", "secret") ∷ [])
    ≡ child_environment sample_install "claude" (("PYTHONPATH", "/tmp") ∷ ("PATH", "/bin") ∷ [])
unfolding lookup
child_environment-claude_example =
    child_environment-claude sample_install (("PATH", "/bin") ∷ ("TOKEN", "secret") ∷ [])
      (("PYTHONPATH", "/tmp") ∷ ("PATH", "/bin") ∷ []) refl refl refl refl

service_of_all : service_target [] "claude:all" ≡ ("claude", "all")
unfolding service_target split_colon
service_of_all = refl

last_two : tail_file 2 (some ("a" ∷ "b " ∷ "c \n" ∷ [])) ≡ "b c"
unfolding tail_file last_lines strip_end fstring is_space
last_two = refl

abbrev plain_folders : Folders
plain_folders = record {
  full_path = λ s. s;
  resolve_path = λ s. s;
  which = λ s. none;
  parent = λ s. s;
  is_absolute = λ s. false;
  home_folder = "/home/me";
  working_folder = "/work";
}

-- A Codex thread is kept for an hour and a half of idleness.
plan_of_thread :
    run_plan plain_folders [] (λ o. "/s") [] (run_codex "t1" none "1h30m" "target")
    ≡ ok (
        keep_target (record {
          provider = "codex";
          target_id = "t1";
          idle_timeout = pos 5400000000;
          selected_via = "target";
          metadata = field "socket_path" (str "/s") end;
        }))
unfolding run_plan run_config parse_duration normalize is_space sum_tokens match_token match_number
    is_digit read_unit read_digits unit_seconds timedelta
plan_of_thread = refl
