-- ===== src/Claude/Resolve.antt =====
-- Resolving a target of Claude (agent_keepalive/providers/claude.py, ClaudeProvider.resolve).
use agent_keepalive.Claude.Ids.{is_uuid, short_session_id}
use agent_keepalive.Claude.Observe.{
  configured_roots, find_state_by_session_id, load_state, select_last_state,
}
use agent_keepalive.Claude.Provider.{
  ClaudeHost, checked_claude, cwd_or_here, observe_claude, seen_or_raise,
}
use agent_keepalive.Claude.Status.{Preflight}
use agent_keepalive.Json.{Items, arr, cons, end, field, get, merge, nil, null, str}
use agent_keepalive.Prelude.{
  Bool, List, Result, String, [], codes, err, if◌then◌else◌, int_eq, nat_eq, none, ok, pair_eq,
  runtime_error, some, string_eq, text_eq, ◌==◌, ◌>>=◌, ◌∷◌,
}
use agent_keepalive.Python.{str_of}
use agent_keepalive.Recovery.{fstring}
use agent_keepalive.Snapshot.{ResolvedTarget}

-- The arguments of resolve.
pub record ClaudeArgs : Type 0 where
  pub all_sessions : Bool
  pub last_session : Bool
  pub session_arg : String
  pub cwd_arg : String
  pub program_arg : String
  pub roots_arg : List String

unfoldable pub root_items : List String → Items
root_items [] = nil
root_items (s ∷ ss) = cons (str s) (root_items ss)

abbrev pub first_root : List String → String
first_root [] = ""
first_root (root ∷ roots) = root

-- The short id of a session: of the state file that goes by it, or, for a full id without one, of the
-- file that names it.
unfoldable pub known_id : ClaudeHost → ClaudeArgs → Preflight → (short_id : String) → String
known_id host args preflight short_id =
    elim (load_state host.claude_python short_id (host.state_file preflight.config_dir short_id)) [
      | some state ↦ short_id
      | none ↦
          if is_uuid (codes args.session_arg)
          then elim (find_state_by_session_id args.session_arg
              (host.state_files preflight.config_dir)) [
                | none ↦ short_id
                | some state ↦ str_of host.claude_python (get "short_id" state)
              ]
          else short_id
    ]

-- The short id that the state file of a session goes by, and how the target was chosen.
unfoldable pub chosen_session :
    ClaudeHost → ClaudeArgs → Preflight → (cwd : String) → Result (String × String)
chosen_session host args preflight cwd =
    if args.last_session
    then elim (select_last_state cwd (host.state_files preflight.config_dir)) [
      | none ↦ err (
          runtime_error
            (fstring ("no Claude job state found under " ∷ preflight.config_dir ∷ "/jobs" ∷ [])))
      | some state ↦ ok (str_of host.claude_python (get "short_id" state), "last")
    ]
    else (do
      short_id ← short_session_id args.session_arg
      ok (known_id host args preflight short_id, "session"))

unfoldable pub resolved_session :
    ClaudeHost → Preflight → (cwd short_id selected_via : String) → Result ResolvedTarget
resolved_session host preflight cwd short_id selected_via = do
  snapshot ← seen_or_raise short_id (observe_claude host preflight short_id cwd)
  ok (record {
    provider = "claude";
    target_id = short_id;
    display_name = snapshot.display_name;
    selected_via = selected_via;
    metadata =
        merge
          (field "claude_bin" (str preflight.claude_bin) (
            field "claude_version" (str preflight.version) (
              field "auth_method" null (
                field "auth_error" null
                  (field "config_dir" (str preflight.config_dir) (field "cwd" (str cwd) end))))))
          snapshot.metadata;
  })

unfoldable pub resolved_all :
    ClaudeHost → ClaudeArgs → (roots : List String) → Preflight → ResolvedTarget
resolved_all host args roots preflight = record {
  provider = "claude";
  target_id = "all";
  display_name = some "all Claude sessions";
  selected_via = "all";
  metadata = field "mode" (str "all") (
      field "claude_bin" (str preflight.claude_bin) (
        field "claude_version" (str preflight.version) (
          field "config_roots" (arr (root_items roots)) (
            field "cwd"
              (str (if args.cwd_arg == "" then "" else host.folders.full_path args.cwd_arg))
              end))));
}

unfoldable pub resolve_claude : ClaudeHost → ClaudeArgs → Result ResolvedTarget
resolve_claude host args = do
  preflight ←
      checked_claude host args.program_arg
        (first_root (configured_roots host.folders host.environ args.roots_arg))
  (if args.all_sessions
      then ok (
          resolved_all host args (configured_roots host.folders host.environ args.roots_arg)
            preflight)
      else (do
        (short_id, selected_via) ←
            chosen_session host args preflight (cwd_or_here host args.cwd_arg)
        resolved_session host preflight (cwd_or_here host args.cwd_arg) short_id selected_via))
