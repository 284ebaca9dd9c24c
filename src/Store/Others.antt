-- ===== src/Store/Others.antt =====
-- src/agent_keepalive/state.py: what a write of the store leaves alone.
use agent_keepalive.Paths.{keeper_state_name}
use agent_keepalive.Paths.Names.{SafeId, keeper_state_name-injective}
use agent_keepalive.Prelude.{
  String, beq_of_ne, false, int_eq, nat_eq, pair_eq, refl, string_eq, text_eq, ◌==◌, ◌≡◌, ◌≢◌,
}
use agent_keepalive.Record.{KeeperRecord}
use agent_keepalive.Store.{Records, load, remove_record, save}
use agent_keepalive.Store.Laws.{load-remove_record, load-save}

module _ (provider s t : String) (safe : SafeId s) (other_safe : SafeId t) (differ : s ≢ t) where
  names-differ : keeper_state_name provider s == keeper_state_name provider t ≡ false
  names-differ =
      beq_of_ne (keeper_state_name provider s) (keeper_state_name provider t)
        (λ e. differ (keeper_state_name-injective provider s t safe other_safe e))

  -- For two targets of one provider, whose ids have no character that a file name replaces: saving
  -- or removing the record of one leaves what is loaded for the other as it was.
  pub load_other :
      (now : String) (r : KeeperRecord) (records : Records)
      → r.provider ≡ provider
      → r.target_id ≡ s
      → (load provider t (save now r records) ≡ load provider t records)
        × (load provider t (remove_record provider s records) ≡ load provider t records)
  load_other now r records p q = (
    rw (load-save now provider t r records, p, q, names-differ) refl,
    rw (load-remove_record provider s provider t records, names-differ) refl,
  )
