-- ===== src/Supervisor/Tick.antt =====
-- claude_supervisor.py: one tick of the supervisor, and the loop and the ends of run.
use agent_keepalive.Json.{Items, arr, cons, end, field, float, get, int, nil, obj, set_field, str}
use agent_keepalive.Prelude.{
  Bool, Dict, List, Option, String, [], contains, false, if◌then◌else◌, int_eq, length, nat_eq,
  none, pair_eq, pos, some, string_eq, text_eq, true, ℕ, ◌&&◌, ◌+◌, ◌==◌, ◌∷◌,
}
use agent_keepalive.Python.{truthy}
use agent_keepalive.Record.{KeeperRecord, new_record}
use agent_keepalive.Store.{Records, list_records, remove_record}
use agent_keepalive.Supervisor.Records.{persist_supervisor, remove_session_records}
use agent_keepalive.Supervisor.Root.{refresh_discovery_if_due, refresh_root_records}
use agent_keepalive.Supervisor.State.{Key, SessionLifecycle, Supervisor, World, now_text}

unfoldable pub refresh_roots : World → List String → Supervisor → Supervisor
refresh_roots w [] s = s
refresh_roots w (root ∷ roots) s =
    refresh_roots w roots (refresh_root_records w root (refresh_discovery_if_due w root s))

abbrev pub is_absent {ℓ} : {A : Type ℓ} → Option A → Bool
is_absent none = true
is_absent (some _) = false

-- `active` of `tick`: how many sessions are neither missing nor terminal.
unfoldable pub count_active : Dict Key SessionLifecycle → ℕ
count_active [] = 0
count_active ((key, lifecycle) ∷ sessions) =
    let rest = count_active sessions in
    if is_absent lifecycle.missing_since && is_absent lifecycle.terminal_since
    then rest + 1
    else rest

unfoldable pub report : Supervisor → Supervisor
report s = record s {
  self_record = record (s.self_record) {
    target_status = if count_active s.sessions == 0 then "idle" else "active";
    event_count = pos s.transition_count;
    provider_metadata =
        set_field "visible_sessions" (int (pos (length s.sessions)))
          s.self_record.provider_metadata;
  };
}

unfoldable pub tick : World → Supervisor → Supervisor
tick w s = persist_supervisor w (report (refresh_roots w s.config_roots s))

-- The `while` loop of `run`, over what the outside answers until the stop signal.
unfoldable pub run_ticks : List World → Supervisor → Supervisor
run_ticks [] s = s
run_ticks (w ∷ ws) s = run_ticks ws (tick w s)

-- list(dict.fromkeys(roots))
unfoldable pub unique : List String → List String → List String
unique seen [] = []
unique seen (root ∷ roots) =
    let rest = unique (root ∷ seen) roots in if contains seen root then rest else root ∷ rest

-- for stale in self.store.list(provider="claude"): those that a supervisor left are removed.
unfoldable pub drop_managed : List KeeperRecord → Records → Records
drop_managed [] records = records
drop_managed (r ∷ rs) records = drop_managed rs (
    if truthy (get "managed_by_supervisor" r.provider_metadata)
    then remove_record r.provider r.target_id records
    else records)

-- The end of `run` after a stop signal, `finally` included.
unfoldable pub stop : World → Supervisor → Supervisor
stop w s =
    let stopping = record s {
      self_record = record (s.self_record) {
        stop_reason = some "signal";
        keeper_status = "stopping";
      };
    } in
    let closed = remove_session_records (persist_supervisor w stopping) in
    record closed { store = remove_record "claude" "all" closed.store }

-- The end of `run` after an exception of the class `name`.
unfoldable pub fail : World → String → Supervisor → Supervisor
fail w name s = remove_session_records (
    persist_supervisor w (record s {
      self_record = record (s.self_record) { keeper_status = "error"; last_error = some name };
    }))

unfoldable pub text_items : List String → Items
text_items [] = nil
text_items (s ∷ rest) = cons (str s) (text_items rest)

-- __init__, with what it is given: resolved config roots, and the intervals and graces.
unfoldable pub new_supervisor :
    World
    → String
    → List String
    → Option String
    → String
    → (discovery local disappearance terminal : ℕ) → Records
    → Supervisor
new_supervisor w claude_bin roots cwd log_path discovery local disappearance terminal records =
    let config_roots = unique [] roots in
    let base =
      new_record "claude" "all" w.pid (some "Claude discovery supervisor") (pos 0) log_path "all"
        (field "mode" (str "all") (
          field "claude_bin" (str claude_bin) (
            field "config_roots" (arr (text_items config_roots)) (
              field "discovery_interval_seconds" (float (pos discovery)) (
                field "local_state_interval_seconds" (float (pos local)) (
                  field "disappearance_grace_seconds" (float (pos disappearance)) (
                    field "terminal_grace_seconds" (float (pos terminal)) (
                      field "persistent_session_children" (int (pos 0))
                        (field "discovery" (obj end) end)))))))))
        (now_text w) in
    record {
      claude_bin = claude_bin;
      config_roots = config_roots;
      cwd = cwd;
      discovery_interval = discovery;
      disappearance_grace = disappearance;
      terminal_grace = terminal;
      log_path = log_path;
      last_discovery_at = [];
      discovery_entries = [];
      discovery_results = [];
      sessions = [];
      retired_terminal = [];
      transition_count = 0;
      store = drop_managed (list_records (some "claude") records) records;
      self_record = record base { target_status = "idle"; loaded = some true };
    }

-- What `run` does after a preflight that found the program `claude_bin` of the given version.
unfoldable pub note_preflight : World → String → String → Supervisor → Supervisor
note_preflight w claude_bin version s = persist_supervisor w (record s {
  claude_bin = claude_bin;
  self_record = record (s.self_record) {
    keeper_status = "attached";
    provider_metadata =
        set_field "claude_version" (str version)
          (set_field "claude_bin" (str claude_bin) s.self_record.provider_metadata);
  };
})

-- The part of `run` before the stop signal: the preflight, and the ticks.
unfoldable pub run_until_stop : World → String → String → List World → Supervisor → Supervisor
run_until_stop w claude_bin version ws s =
    run_ticks ws (note_preflight w claude_bin version (persist_supervisor w s))
