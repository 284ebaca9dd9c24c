-- ===== src/Supervisor/Root.antt =====
-- claude_supervisor.py: one root in one tick, its discovery, if that is due, and its sessions.
use agent_keepalive.Claude.Discovery.{
  DiscoveryResult, Outcome, discover_claude, empty, failure, identity, invalid_json,
  is_authoritative, success,
}
use agent_keepalive.Claude.Ids.{short_session_id}
use agent_keepalive.Claude.Status.{text_or}
use agent_keepalive.Json.{Fields, end, field, get, int, obj, or_null, set_field, str}
use agent_keepalive.Prelude.{
  Bool, Dict, List, Option, String, [], codes, err, false, if◌then◌else◌, int_eq, length, lookup,
  ltb, map, nat_eq, none, not, ok, pair_eq, pos, put, some, string_eq, text_eq, true, ◌+◌, ◌==◌,
  ◌∷◌,
}
use agent_keepalive.Record.{dict_or_empty}
use agent_keepalive.Store.{text_leb}
use agent_keepalive.Supervisor.Session.{refresh_session}
use agent_keepalive.Supervisor.State.{Key, SessionLifecycle, Supervisor, World, now_text}

-- The short id under which `_refresh_discovery_if_due` files an entry, and `none` where
-- `short_session_id` raises.
unfoldable pub entry_short_id : Fields → Option String
entry_short_id entry = elim (short_session_id (text_or "" (identity entry))) [
  | ok short_id ↦ some short_id
  | err _ ↦ none
]

unfoldable pub file_entry : Option String → Fields → Dict String Fields → Dict String Fields
file_entry none entry filed = filed
file_entry (some short_id) entry filed = put short_id entry filed

unfoldable pub file_entries : List Fields → Dict String Fields → Dict String Fields
file_entries [] filed = filed
file_entries (entry ∷ entries) filed =
    file_entries entries (file_entry (entry_short_id entry) entry filed)

unfoldable pub outcome_text : Outcome → String
outcome_text success = "success"
outcome_text empty = "empty"
outcome_text failure = "failure"
outcome_text invalid_json = "invalid_json"

-- self.record.provider_metadata["discovery"][str(config_root)] = …
unfoldable pub discovery_metadata : World → String → DiscoveryResult → Fields → Fields
discovery_metadata w root result metadata =
    set_field "discovery"
      (obj (
        set_field root
          (obj (
            field "outcome" (str (outcome_text result.outcome)) (
              field "entry_count" (int (pos (length result.entries))) (
                field "error" (or_null result.error) (field "checked_at" (str (now_text w)) end)))))
          (dict_or_empty (get "discovery" metadata))))
      metadata

-- `last is not None and now_mono - last < self.discovery_interval`, negated.
unfoldable pub discovery_due : World → String → Supervisor → Bool
discovery_due w root s = elim (lookup root s.last_discovery_at) [
  | none ↦ true
  | some last ↦ not (ltb w.monotonic (last + s.discovery_interval))
]

unfoldable pub record_discovery : World → String → DiscoveryResult → Supervisor → Supervisor
record_discovery w root result s = record s {
  last_discovery_at = put root w.monotonic s.last_discovery_at;
  discovery_results = put root result s.discovery_results;
  discovery_entries =
      if is_authoritative result.outcome
      then put root (file_entries result.entries []) s.discovery_entries
      else s.discovery_entries;
  self_record = record (s.self_record) {
    provider_metadata = discovery_metadata w root result s.self_record.provider_metadata;
  };
}

-- _refresh_discovery_if_due
unfoldable pub refresh_discovery_if_due : World → String → Supervisor → Supervisor
refresh_discovery_if_due w root s =
    if discovery_due w root s
    then record_discovery w root (discover_claude w.py (w.run_discovery root)) s
    else s

-- A set of short ids, kept in the order in which `sorted` visits it.
unfoldable pub insert_id : String → List String → List String
insert_id id [] = id ∷ []
insert_id id (x ∷ xs) =
    let rest = insert_id id xs in
    if id == x then x ∷ xs else if text_leb (codes id) (codes x) then id ∷ x ∷ xs else x ∷ rest

unfoldable pub insert_ids : List String → List String → List String
insert_ids [] ids = ids
insert_ids (id ∷ rest) ids = insert_id id (insert_ids rest ids)

-- _local_job_ids
unfoldable pub folder_ids : List String → List String
folder_ids [] = []
folder_ids (name ∷ names) = elim (short_session_id name) [
  | ok short_id ↦ short_id ∷ folder_ids names
  | err _ ↦ folder_ids names
]

unfoldable pub local_job_ids : World → String → List String
unfolding folder_ids
local_job_ids w root = elim (w.job_folders root) [ none ↦ [] | some names ↦ folder_ids names ]

-- {short_id for root, short_id in self._sessions if root == config_root}
unfoldable pub known_ids : String → Dict Key SessionLifecycle → List String
known_ids root [] = []
known_ids root (((r, short_id), lifecycle) ∷ sessions) =
    let rest = known_ids root sessions in if r == root then short_id ∷ rest else rest

unfoldable pub live_entries_of : String → Supervisor → Dict String Fields
live_entries_of root s = elim (lookup root s.discovery_entries) [
  | none ↦ []
  | some entries ↦ entries
]

unfoldable pub candidates : World → String → Supervisor → List String
candidates w root s = insert_ids (local_job_ids w root) (
    insert_ids (map (λ e. e.0) (live_entries_of root s))
      (insert_ids (known_ids root s.sessions) []))

unfoldable pub discovery_authoritative : String → Supervisor → Bool
discovery_authoritative root s = elim (lookup root s.discovery_results) [
  | none ↦ false
  | some result ↦ is_authoritative result.outcome
]

unfoldable pub refresh_sessions :
    World → String → Dict String Fields → Bool → List String → Supervisor → Supervisor
refresh_sessions w root entries authoritative [] s = s
refresh_sessions w root entries authoritative (id ∷ ids) s =
    refresh_sessions w root entries authoritative ids
      (refresh_session w root entries authoritative id s)

-- _refresh_root_records
unfoldable pub refresh_root_records : World → String → Supervisor → Supervisor
refresh_root_records w root s =
    refresh_sessions w root (live_entries_of root s) (discovery_authoritative root s)
      (candidates w root s) s
