-- ===== src/Activity/Idle.antt =====
-- src/agent_keepalive/activity.py: the idle time of a tracker.
use agent_keepalive.Activity.{Tracker, apply_status, seconds_until_detach, should_detach}
use agent_keepalive.Prelude.{
  Bool, Option, String, arith, false, int_eq, nat_eq, negsuc, none, pair_eq, pos, some, string_eq,
  text_eq, true, ℕ, ℤ, ◌==◌, ◌≡◌,
}
use agent_keepalive.TimeParse.{Instant}

-- What `seconds_until_detach` returns is 0 or less.
abbrev pub nothing_left : Option ℤ → Bool
nothing_left none = false
nothing_left (some (pos n)) = n == 0
nothing_left (some (negsuc n)) = true

-- The two methods of a tracker agree: `should_detach` holds exactly when `seconds_until_detach` gives
-- a time and that is 0 or less.
pub should_detach-seconds_until_detach :
    (k : ℕ) (now : Instant) (t : Tracker)
    → should_detach k now t ≡ nothing_left (seconds_until_detach k now t)
unfolding should_detach seconds_until_detach
should_detach-seconds_until_detach k now t = ground arith

-- `from_snapshot` makes no difference to `_apply_status`.
pub apply_status_from_snapshot :
    (s : String) (observed_at : Instant) (t : Tracker)
    → apply_status s observed_at true t ≡ apply_status s observed_at false t
unfolding apply_status
apply_status_from_snapshot s observed_at t = ground arith
