-- ===== src/Codex/Detach.antt =====
-- providers/codex.py and base.py: the two tests by which a keeper detaches.
use agent_keepalive.Activity.{Tracker, should_detach}
use agent_keepalive.Codex.{snapshot_from_tracker}
use agent_keepalive.Json.{Fields}
use agent_keepalive.Prelude.{
  String, arith, eq_iff, int_eq, nat_eq, pair_eq, string_eq, text_eq, ℕ, ◌==◌, ◌||◌, ◌≡◌,
}
use agent_keepalive.Snapshot.{snapshot_should_detach}
use agent_keepalive.TimeParse.{Instant}

-- On a tracker's snapshot the keeper loop's `should_detach` is the tracker's, but that a thread
-- that is not loaded is let go at once.
pub snapshot_should_detach-snapshot_from_tracker :
    (k : ℕ) (now : Instant) (thread_id : String) (t : Tracker) (metadata : Fields)
    → snapshot_should_detach k now (snapshot_from_tracker thread_id t metadata)
      ≡ t.status == "notLoaded" || should_detach k now t
unfolding snapshot_should_detach snapshot_from_tracker should_detach
snapshot_should_detach-snapshot_from_tracker k now thread_id t metadata =
    ground
      (arith, eq_iff t.status "active", eq_iff t.status "notLoaded", eq_iff "active" "notLoaded")
