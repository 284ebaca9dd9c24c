-- ===== src/Command/Children.antt =====
-- The processes that `agent-keepalive` starts (agent_keepalive/cli.py): their command line, their
-- environment, and `agent-keepalive start`.
use agent_keepalive.Command.{Commanded, Machine, check_alive, drop_stale, forget, spawned}
use agent_keepalive.Json.{Fields, Items, arr, cons, find, get, get_or, nil, str}
use agent_keepalive.Prelude.{
  Bool, Dict, List, Nothing, Option, Result, String, [], err, false, give, if◌then◌else◌, int_eq,
  key_error, lift, lookup, nat_eq, none, not, ok, pair_eq, put, some, string_eq, text_eq, ℕ, ℤ,
  ◌&&◌, ◌++◌, ◌==◌, ◌>>=◌, ◌>>>◌, ◌||◌, ◌∷◌,
}
use agent_keepalive.Python.{Python, str_of, truthy}
use agent_keepalive.Record.{KeeperRecord}
use agent_keepalive.Recovery.{fstring}
use agent_keepalive.Snapshot.{ResolvedTarget}
use agent_keepalive.Store.{load}

abbrev pub Environ : Type 0
Environ = Dict String String

-- os.environ.get(name, default), and whether a variable is set and not empty.
unfoldable pub get_env : Environ → String → String → String
get_env environ name default = elim (lookup name environ) [ none ↦ default | some v ↦ v ]

-- Where the program stands: the folder above the package, the home folder that the
-- system has for the user, which `Path.home` gives where HOME is not set.
pub record Install : Type 0 where
  pub executable : String
  pub package_root : String
  pub home : String

unfoldable pub python_path : Install → (provider : String) → Environ → String
python_path install provider environ =
    if not (provider == "claude") && not (get_env environ "PYTHONPATH" "" == "")
    then fstring (install.package_root ∷ ":" ∷ get_env environ "PYTHONPATH" "" ∷ [])
    else install.package_root

unfoldable pub claude_environment : Install → Environ → Environ
claude_environment install environ =
    let base = put "LANG" (get_env environ "LANG" "C.UTF-8") (
      put "PATH" (get_env environ "PATH" "/usr/local/bin:/usr/bin:/bin")
        (("HOME", get_env environ "HOME" install.home) ∷ [])) in
    if not (get_env environ "AGENT_KEEPALIVE_LOG_DEST" "" == "")
    then put "AGENT_KEEPALIVE_LOG_DEST" (get_env environ "AGENT_KEEPALIVE_LOG_DEST" "") base
    else base

unfoldable pub child_environment : Install → (provider : String) → Environ → Environ
child_environment install provider environ =
    put "PYTHONPATH" (python_path install provider environ)
      (if provider == "claude" then claude_environment install environ else environ)

-- What the arguments of `start` say, besides the target.
pub record StartArgs : Type 0 where
  pub start_provider : String
  pub idle_timeout_text : String
  pub state_root : String

unfoldable pub root_options : Python → Items → List String
root_options py nil = []
root_options py (cons root roots) = "--config-root" ∷ str_of py root ∷ root_options py roots

unfoldable pub config_options : Python → Fields → List String
config_options py metadata = elim (get "config_roots" metadata) [
  | arr roots ↦ root_options py roots
  | _ ↦
      if truthy (get "config_dir" metadata)
      then "--config-root" ∷ str_of py (get "config_dir" metadata) ∷ []
      else []
]

unfoldable pub target_options : (target_id : String) → List String
target_options target_id = if target_id == "all" then "--all" ∷ [] else "--session" ∷ target_id ∷ []

unfoldable pub cwd_options : Python → Fields → List String
cwd_options py metadata =
    if truthy (get "cwd" metadata) then "--cwd" ∷ str_of py (get "cwd" metadata) ∷ [] else []

-- `metadata["socket_path"]` raises where there is none.
unfoldable pub provider_options :
    Python → (provider target_id : String) → Fields → Result (List String)
provider_options py provider target_id metadata =
    if provider == "codex"
    then elim (find "socket_path" metadata) [
      | none ↦ err (key_error "socket_path")
      | some path ↦ ok ("--thread" ∷ target_id ∷ "--socket" ∷ str_of py path ∷ [])
    ]
    else ok (
        target_options target_id
        ++ cwd_options py metadata
        ++ ("--claude-bin" ∷ str_of py (get_or "claude_bin" (str "claude") metadata) ∷ [])
        ++ config_options py metadata)

unfoldable pub run_command_for_target :
    Python → Install → StartArgs → (target_id selected_via : String) → Fields → Result (List String)
run_command_for_target py install args target_id selected_via metadata = do
  options ← provider_options py args.start_provider target_id metadata
  ok (
      (install.executable ∷ "-m" ∷ "agent_keepalive" ∷ "run" ∷ args.start_provider ∷ [])
      ++ options
      ++ ("--idle-timeout" ∷ args.idle_timeout_text ∷ "--state-root" ∷ args.state_root
          ∷ "--selected-via" ∷ selected_via ∷ []))

-- One turn of the loop that waits for the child: what the store holds for the target, and whether
-- the child has ended.
pub record Turn : Type 0 where
  pub on_record : Option KeeperRecord
  pub has_ended : Bool

-- A record of the child's that says it has attached, or that it has failed.
unfoldable pub says : (child : ℤ) → (status : String) → Option KeeperRecord → Bool
says child status none = false
says child status (some r) = r.pid == child && r.keeper_status == status

-- The loop, over the turns that the clock leaves it: whether the child became ready.
unfoldable pub wait_ready : (child : ℤ) → List Turn → Bool
wait_ready child [] = false
wait_ready child (t ∷ turns) =
    says child "attached" t.on_record
    || (not (says child "error" t.on_record) && (not t.has_ended && wait_ready child turns))

-- What `start` learns from outside: the provider's target, its child's pid and the turns.
pub record Launch : Type 0 where
  pub resolved : Result ResolvedTarget
  pub child_pid : ℤ
  pub turns : List Turn

unfoldable pub spawn : List String → Environ → Commanded Nothing
spawn command environment d = (ok tt, record d { acts = spawned command environment ∷ d.acts })

unfoldable pub launch_child :
    Python → Install → Environ → StartArgs → Launch → ResolvedTarget → Commanded ℕ
launch_child py install environ args launch target =
    lift
      (run_command_for_target py install args target.target_id target.selected_via target.metadata)
    >>> λ command. spawn command (child_environment install target.provider environ) >>> λ _.
        give (if wait_ready launch.child_pid launch.turns then 0 else 1)

-- A record of a living process ends the command; one of a dead process is removed.
unfoldable pub unless_kept : Machine → Option KeeperRecord → Commanded ℕ → Commanded ℕ
unless_kept machine none next = next
unless_kept machine (some existing) next = check_alive machine existing.pid >>> λ alive.
    if alive
    then give 1
    else (check_alive machine existing.pid >>> λ still.
        (if not still then forget existing else give tt) >>> λ _. next)

unfoldable pub start_resolved :
    Python → Install → Environ → Machine → StartArgs → Launch → Result ResolvedTarget → Commanded ℕ
start_resolved py install environ machine args launch (err e) d = (ok 1, d)
start_resolved py install environ machine args launch (ok target) d =
    unless_kept machine (load target.provider target.target_id d.kept)
      (launch_child py install environ args launch target) d

unfoldable pub command_start :
    Python → Install → Environ → Machine → StartArgs → Launch → Commanded ℕ
command_start py install environ machine args launch = drop_stale machine >>> λ _.
    start_resolved py install environ machine args launch launch.resolved
