-- ===== src/Command/Run.antt =====
-- What `agent-keepalive run` sets out to do (agent_keepalive/cli.py, command_run): keep one target,
-- or supervise all Claude sessions. The state root is passed on as it is given, and left out here.
use agent_keepalive.Claude.Ids.{short_session_id}
use agent_keepalive.Claude.Observe.{Folders, configured_roots}
use agent_keepalive.Claude.Resolve.{first_root}
use agent_keepalive.Command.Children.{Environ}
use agent_keepalive.Command.Service.{RunRequest, run_claude, run_codex}
use agent_keepalive.Json.{Fields, end, field, str}
use agent_keepalive.Prelude.{
  List, Option, Result, String, codes, if◌then◌else◌, int_eq, nat_eq, none, ok, pair_eq, some,
  string_eq, text_eq, ◌==◌, ◌>>=◌,
}
use agent_keepalive.Snapshot.{RunConfig}
use agent_keepalive.TimeParse.{parse_duration}

pub data RunPlan : Type 0 where
  keep_target : RunConfig → RunPlan
  supervise_all :
      (program : String)
      → (roots : List String) → (folder : Option String) → (timeout_text : String) → RunPlan

abbrev pub text_or_here : Folders → Option String → String
text_or_here folders none = folders.working_folder
text_or_here folders (some cwd) = if cwd == "" then folders.working_folder else cwd

unfoldable pub full_folder : Folders → Option String → Option String
full_folder folders none = none
full_folder folders (some cwd) = if cwd == "" then none else some (folders.full_path cwd)

unfoldable pub run_config :
    (provider target_id : String) → (timeout_text via : String) → Fields → Result RunPlan
run_config provider target_id timeout_text via metadata = do
  timeout ← parse_duration (codes timeout_text)
  ok (
      keep_target (record {
        provider = provider;
        target_id = target_id;
        idle_timeout = timeout;
        selected_via = via;
        metadata = metadata;
      }))

-- `find_socket` is discover_socket_path; `roots` are the values of --config-root.
unfoldable pub run_plan :
    Folders
    → Environ
    → (find_socket : Option String → String) → (roots : List String) → RunRequest
    → Result RunPlan
run_plan folders environ find_socket roots (run_codex thread socket_option timeout_text via) =
    run_config "codex" thread timeout_text via
      (field "socket_path" (str (find_socket socket_option)) end)
run_plan folders environ find_socket roots (run_claude none program folder timeout_text via) = ok (
    supervise_all program (configured_roots folders environ roots) (full_folder folders folder)
      timeout_text)
run_plan folders environ find_socket roots
      (run_claude (some session) program folder timeout_text via) =
    do
      short_id ← short_session_id session
      run_config "claude" short_id timeout_text via (
          field "claude_bin" (str program) (
            field "cwd" (str (folders.resolve_path (text_or_here folders folder)))
              (field "config_dir" (str (first_root (configured_roots folders environ roots))) end)))
