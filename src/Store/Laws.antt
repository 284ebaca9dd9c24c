-- ===== src/Store/Laws.antt =====
-- src/agent_keepalive/state.py: what a read of the store gives after a write.
use agent_keepalive.Paths.{keeper_state_name}
use agent_keepalive.Prelude.{
  String, beq_refl, if◌then◌else◌, int_eq, lookup-put, lookup-remove, nat_eq, none, pair_eq, some,
  string_eq, text_eq, ◌==◌, ◌≡◌,
}
use agent_keepalive.Record.{KeeperRecord, touch}
use agent_keepalive.Store.{Records, load, remove_record, save}

pub load-save :
    (now provider target_id : String) (r : KeeperRecord) (records : Records)
    → load provider target_id (save now r records) ≡ (
        if keeper_state_name r.provider r.target_id == keeper_state_name provider target_id
        then some (touch now r)
        else load provider target_id records)
unfolding load save
load-save now provider target_id r records = lookup-put _ _ _ records

pub load-remove_record :
    (provider target_id provider' target_id' : String) (records : Records)
    → load provider' target_id' (remove_record provider target_id records) ≡ (
        if keeper_state_name provider target_id == keeper_state_name provider' target_id'
        then none
        else load provider' target_id' records)
unfolding load remove_record
load-remove_record provider target_id provider' target_id' records = lookup-remove _ _ records

-- A record that was just saved is found under its name, and one just removed is not.
pub load-save_own :
    (now provider target_id : String) (r : KeeperRecord) (records : Records)
    → r.provider ≡ provider
    → r.target_id ≡ target_id
    → load provider target_id (save now r records) ≡ some (touch now r)
load-save_own now provider target_id r records p t = rw (
  load-save now provider target_id r records,
  p,
  t,
  beq_refl (keeper_state_name provider target_id),
)

pub load-remove_record_own :
    (provider target_id : String) (records : Records)
    → load provider target_id (remove_record provider target_id records) ≡ none
load-remove_record_own provider target_id records = rw (
  load-remove_record provider target_id provider target_id records,
  beq_refl (keeper_state_name provider target_id),
)
