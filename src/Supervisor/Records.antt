-- ===== src/Supervisor/Records.antt =====
-- claude_supervisor.py: what the supervisor writes to the store.
use agent_keepalive.Claude.Status.{JobOutcome, job_invalid, job_missing, job_ok}
use agent_keepalive.Json.{Fields, as_str, bool, end, field, float, get, merge, set_field, str}
use agent_keepalive.Prelude.{
  Bool, List, Option, String, [], contains, false, if◌then◌else◌, int_eq, int_suc, nat_eq, none,
  pair_eq, pos, put, remove, some, string_eq, text_eq, true, ℕ, ◌+◌, ◌==◌, ◌∷◌,
}
use agent_keepalive.Python.{isoformat_or_none}
use agent_keepalive.Record.{KeeperRecord, new_record, touch}
use agent_keepalive.Snapshot.{Snapshot}
use agent_keepalive.Store.{Records, load, remove_record, save}
use agent_keepalive.Supervisor.State.{
  Key, SessionLifecycle, Signature, Supervisor, World, gone, is_known, now_text, observed,
}

-- _persist_supervisor
unfoldable pub persist_supervisor : World → Supervisor → Supervisor
persist_supervisor w s = record s {
  store = save (now_text w) s.self_record s.store;
  self_record = touch (now_text w) s.self_record;
}

-- The value of a JobStateOutcome.
abbrev pub job_outcome_text : JobOutcome → String
job_outcome_text job_ok = "ok"
job_outcome_text job_missing = "missing"
job_outcome_text job_invalid = "invalid"

unfoldable pub snapshot_metadata : World → SessionLifecycle → Snapshot → JobOutcome → Fields
snapshot_metadata w lifecycle snapshot outcome = merge snapshot.metadata (
    field "managed_by_supervisor" (bool true) (
      field "supervisor_target" (str "all") (
        field "source_root" (str lifecycle.config_root) (
          field "root_fingerprint" (str (w.fingerprint lifecycle.config_root))
            (field "state_outcome" (str (job_outcome_text outcome)) end)))))

-- The record that a snapshot gives, from the one in the store or a new one.
unfoldable pub snapshot_record :
    World → String → SessionLifecycle → Snapshot → JobOutcome → Option KeeperRecord → KeeperRecord
snapshot_record w log_path lifecycle snapshot outcome existing =
    let base : KeeperRecord = elim existing [
      | some r ↦ r
      | none ↦
          new_record "claude" lifecycle.target_id w.pid snapshot.display_name (pos 0) log_path "all"
            end (now_text w)
    ] in
    record base {
      pid = w.pid;
      keeper_status = "observed";
      display_name = snapshot.display_name;
      target_status = snapshot.status;
      loaded = snapshot.loaded;
      blocked = snapshot.blocked;
      terminal = snapshot.terminal;
      last_activity_at = isoformat_or_none w.py snapshot.last_activity_at;
      last_event_at = isoformat_or_none w.py snapshot.last_event_at;
      idle_since = isoformat_or_none w.py snapshot.idle_since;
      provider_metadata = snapshot_metadata w lifecycle snapshot outcome;
    }

unfoldable pub signature_of : World → Snapshot → JobOutcome → Signature
signature_of w snapshot outcome =
    observed snapshot.status snapshot.loaded snapshot.blocked snapshot.terminal
      (isoformat_or_none w.py snapshot.last_activity_at) outcome
      (snapshot.display_name
        ∷ as_str (get "session_id" snapshot.metadata)
        ∷ as_str (get "cwd" snapshot.metadata)
        ∷ as_str (get "live_status" snapshot.metadata)
        ∷ [])

abbrev pub is_there {ℓ} : {A : Type ℓ} → Option A → Bool
is_there none = false
is_there (some _) = true

-- _write_snapshot_record, for the lifecycle that stands under `key`.
unfoldable pub write_snapshot_record :
    World → Key → SessionLifecycle → Snapshot → JobOutcome → Supervisor → Supervisor
write_snapshot_record w key lifecycle snapshot outcome s =
    let existing = load "claude" lifecycle.target_id s.store in
    let r = snapshot_record w s.log_path lifecycle snapshot outcome existing in
    let signature = signature_of w snapshot outcome in
    if is_known lifecycle.signature signature
    then record s {
      sessions = put key lifecycle s.sessions;
      store = if is_there existing then s.store else save (now_text w) r s.store;
    }
    else record s {
      sessions = put key (record lifecycle { signature = some signature }) s.sessions;
      transition_count = s.transition_count + 1;
      store = save (now_text w) (record r { event_count = int_suc r.event_count }) s.store;
    }

unfoldable pub disappeared_record : String → ℕ → KeeperRecord → KeeperRecord
disappeared_record root grace r = record r {
  keeper_status = "observed";
  target_status = "disappeared";
  loaded = some false;
  blocked = false;
  terminal = false;
  provider_metadata = set_field "disappearance_grace_seconds" (float (pos grace)) (
      set_field "source_root" (str root)
        (set_field "managed_by_supervisor" (bool true) r.provider_metadata));
  event_count = int_suc r.event_count;
}

-- _write_disappeared_record, for the lifecycle that stands under `key`.
unfoldable pub write_disappeared_record : World → Key → SessionLifecycle → Supervisor → Supervisor
write_disappeared_record w key lifecycle s = elim (load "claude" lifecycle.target_id s.store) [
  | none ↦ record s { sessions = put key lifecycle s.sessions }
  | some r ↦ record s {
    sessions = put key (record lifecycle { signature = some (gone r.last_activity_at) }) s.sessions;
    transition_count = s.transition_count + 1;
    store =
        save (now_text w) (disappeared_record lifecycle.config_root s.disappearance_grace r)
          s.store;
  }
]

-- set.add
unfoldable pub add_key : Key → List Key → List Key
add_key key keys = if contains keys key then keys else key ∷ keys

-- set.remove, of a member
unfoldable pub drop_key : Key → List Key → List Key
drop_key key [] = []
drop_key key (k ∷ keys) = let rest = drop_key key keys in if k == key then rest else k ∷ rest

-- _remove_lifecycle; `retire` says whether the reason is an ended terminal grace.
unfoldable pub remove_lifecycle : Key → SessionLifecycle → Bool → Supervisor → Supervisor
remove_lifecycle key lifecycle retire s = record s {
  store = remove_record "claude" lifecycle.target_id s.store;
  sessions = remove key s.sessions;
  retired_terminal = if retire then add_key key s.retired_terminal else s.retired_terminal;
  transition_count = s.transition_count + 1;
}

unfoldable pub remove_targets : List (Key × SessionLifecycle) → Records → Records
remove_targets [] records = records
remove_targets ((key, lifecycle) ∷ rest) records =
    remove_targets rest (remove_record "claude" lifecycle.target_id records)

-- _remove_session_records
unfoldable pub remove_session_records : Supervisor → Supervisor
unfolding remove_targets
remove_session_records s = record s { store = remove_targets s.sessions s.store; sessions = [] }
