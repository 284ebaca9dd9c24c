-- ===== src/Claude/Status/Cases.antt =====
-- providers/claude.py, status_from_payload: how the sources of a status rank.
use agent_keepalive.Claude.Status.{ends_run, status_from_payload, value_as_str}
use agent_keepalive.Json.{Fields}
use agent_keepalive.Prelude.{Option, String, arith, some, true, ◌≡◌}

-- A job file that says that the run ended, or that it is blocked, wins over everything else.
status_from_payload_ended :
    (state live_entry : Option Fields) (s : String)
    → value_as_str state "state" ≡ some s
    → ends_run s ≡ true
    → status_from_payload state live_entry ≡ s
unfolding status_from_payload
status_from_payload_ended state live_entry s e h = ground arith
