-- ===== src/Command/Service.antt =====
-- Running under systemd, the views of live targets, and the end of a log (agent_keepalive/cli.py,
-- command_service, query_live_view and tail_file).
use agent_keepalive.Command.Children.{Environ, get_env}
use agent_keepalive.Prelude.{
  Dict, List, Option, String, [], code, drop, if◌then◌else◌, int_eq, length, lookup, nat_eq, none,
  pair_eq, put, some, string_eq, text_eq, ℕ, ◌++◌, ◌-◌, ◌==◌, ◌∷◌,
}
use agent_keepalive.Record.{KeeperRecord}
use agent_keepalive.Recovery.{fstring, strip_end}
use agent_keepalive.Snapshot.{Snapshot}

-- What `run` is told: a thread of Codex, or a session of Claude, `none` for all of them.
pub data RunRequest : Type 0 where
  run_codex :
      (thread : String) → (socket_option : Option String) → (timeout_text via : String) → RunRequest
  run_claude :
      (session : Option String)
      → (program : String) → (folder : Option String) → (timeout_text via : String) → RunRequest

-- instance.split(":", 1), where there is a colon.
unfoldable pub split_colon : String → Option (String × String)
split_colon String.[] = none
split_colon (String.◌∷◌ c s) =
    let rest = split_colon s in
    if code c == b':'
    then some ("", s)
    else elim rest [ none ↦ none | some (before, after) ↦ some (String.◌∷◌ c before, after) ]

-- The provider and the target of an instance.
unfoldable pub service_target : Environ → String → String × String
service_target environ name = elim (split_colon name) [
  | some (provider, target) ↦ (provider, target)
  | none ↦ (get_env environ "AGENT_KEEPALIVE_PROVIDER" "codex", name)
]

-- os.environ.get(name) or None
unfoldable pub set_or_none : Environ → String → Option String
set_or_none environ name =
    if get_env environ name "" == "" then none else some (get_env environ name "")

unfoldable pub service_request : Environ → (provider target : String) → Option RunRequest
service_request environ provider target =
    let timeout_text = get_env environ "AGENT_KEEPALIVE_IDLE_TIMEOUT" "1h" in
    if provider == "claude"
    then some (
        run_claude (if target == "all" then none else some target)
          (get_env environ "AGENT_KEEPALIVE_CLAUDE_BIN" "claude")
          (set_or_none environ "AGENT_KEEPALIVE_CLAUDE_CWD") timeout_text "systemd")
    else (if provider == "codex"
        then some (
            run_codex target (lookup "AGENT_KEEPALIVE_CODEX_SOCKET" environ) timeout_text "systemd")
        else none)

-- command_service, with command_run a parameter; an unknown provider ends with code 2.
unfoldable pub command_service : (RunRequest → ℕ) → Environ → String → ℕ
command_service run_request environ name =
    elim (service_request environ (service_target environ name).0 (service_target environ name).1) [
      | some request ↦ run_request request
      | none ↦ 2
    ]

-- by_provider.setdefault(record.provider, []).append(record)
unfoldable pub group_records :
    List KeeperRecord → Dict String (List KeeperRecord) → Dict String (List KeeperRecord)
group_records [] groups = groups
group_records (r ∷ rs) groups = group_records rs (
    put r.provider
      (elim (lookup r.provider groups) [ none ↦ r ∷ [] | some others ↦ others ++ r ∷ [] ]) groups)

abbrev pub LiveView : Type 0
LiveView = Dict (String × String) Snapshot

unfoldable pub add_views : (provider : String) → Dict String Snapshot → LiveView → LiveView
add_views provider [] view = view
add_views provider ((target_id, snapshot) ∷ views) view =
    add_views provider views (put (provider, target_id) snapshot view)

unfoldable pub view_groups :
    (live_view : String → List KeeperRecord → Dict String Snapshot)
    → Dict String (List KeeperRecord)
    → LiveView
    → LiveView
view_groups live_view [] view = view
view_groups live_view ((provider, records) ∷ groups) view =
    view_groups live_view groups (add_views provider (live_view provider records) view)

unfoldable pub query_live_view :
    (live_view : String → List KeeperRecord → Dict String Snapshot) → List KeeperRecord → LiveView
query_live_view live_view records = view_groups live_view (group_records records []) []

-- content[-lines:]
unfoldable pub last_lines : (lines : ℕ) → List String → List String
last_lines lines content = drop (length content - lines) content

-- The last lines of a log, without spaces at the end; a log that is not there has none.
unfoldable pub tail_file : (lines : ℕ) → Option (List String) → String
tail_file lines none = ""
tail_file lines (some content) = strip_end (fstring (last_lines lines content))
