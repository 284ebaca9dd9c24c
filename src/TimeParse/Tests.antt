-- ===== src/TimeParse/Tests.antt =====
-- src/agent_keepalive/timeparse.py: runs of the duration parser and printer.
use agent_keepalive.Prelude.{codes, ok, pos, refl, ◌*◌, ◌+◌, ◌≡◌}
use agent_keepalive.TimeParse.{
  is_digit, is_space, match_number, match_token, normalize, parse_duration, power_within,
  read_digits, read_unit, rounds_up, second, sum_tokens, timedelta, unit_seconds, whole_seconds,
}

parse_mixed : parse_duration (codes " 2H 30m ") ≡ ok (pos (9000 * second))
unfolding parse_duration normalize is_space sum_tokens match_token match_number is_digit read_unit
    read_digits unit_seconds timedelta
parse_mixed = refl

-- A second too many is printed of 200000 days less a microsecond and a second.
print_rounded : whole_seconds (pos (200000 * 86400 * second + 999999)) ≡ 200000 * 86400 + 1
unfolding whole_seconds rounds_up power_within
print_rounded = refl
