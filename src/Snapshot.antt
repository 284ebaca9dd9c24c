-- ===== src/Snapshot.antt =====
-- src/agent_keepalive/providers/base.py: what a provider reports of a target.
use agent_keepalive.Activity.{either, elapsed}
use agent_keepalive.Json.{Fields}
use agent_keepalive.Prelude.{
  Bool, Option, String, false, if◌then◌else◌, int_eq, nat_eq, none, pair_eq, some, string_eq,
  text_eq, true, ℕ, ℤ, ◌==◌,
}
use agent_keepalive.TimeParse.{Instant, Timedelta}

pub record Snapshot : Type 0 where
  pub target_id : String
  pub display_name : Option String
  pub status : String
  pub loaded : Option Bool
  pub blocked : Bool
  pub terminal : Bool
  pub last_activity_at : Option Instant
  pub last_event_at : Option Instant
  pub idle_since : Option Instant
  pub event_count : ℤ
  pub metadata : Fields

pub record ResolvedTarget : Type 0 where
  pub provider : String
  pub target_id : String
  pub display_name : Option String
  pub selected_via : String
  pub metadata : Fields

pub record RunConfig : Type 0 where
  pub provider : String
  pub target_id : String
  pub idle_timeout : Timedelta
  pub selected_via : String
  pub metadata : Fields

-- The module-level `should_detach`, which the keeper loop calls.
unfoldable pub snapshot_should_detach : ℕ → Instant → Snapshot → Bool
snapshot_should_detach idle_timeout_seconds now snapshot =
    if snapshot.status == "active"
    then false
    else if snapshot.terminal
    then true
    else elim (either snapshot.idle_since snapshot.last_activity_at) [
      | none ↦ false
      | some reference ↦ elapsed idle_timeout_seconds reference now
    ]
