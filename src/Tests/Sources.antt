-- ===== src/Tests/Sources.antt =====
-- Runs of the sources of a Claude session.
use agent_keepalive.Claude.Discovery.{CliResult, discover_claude, finished}
use agent_keepalive.Claude.Discovery.Outcomes.{Coherent, discover_claude-Coherent}
use agent_keepalive.Claude.Ids.{first_chars, is_hex, is_short, is_uuid, short_session_id, skip_hex}
use agent_keepalive.Claude.Ids.Shape.{short_session_id-is_short}
use agent_keepalive.Claude.Jobs.{
  JobFile, check_payload, cwd_is_clean, in_flight_is_valid, max_job_state_bytes, payload_is_valid,
  read_job_state, readable, text_or_none, updated_at_is_valid,
}
use agent_keepalive.Claude.Jobs.Valid.{IsUsable, read_job_state-IsUsable}
use agent_keepalive.Claude.Observe.{checked_preflight, claude_version}
use agent_keepalive.Claude.Status.{safe_parse_timestamp}
use agent_keepalive.Json.{Fields, Value, arr, cons, end, field, find, get, nil, obj, set_field, str}
use agent_keepalive.Prelude.{
  Option, String, codes, err, ok, pos, refl, runtime_error, some, true, ℕ, ◌≡◌, ◌≤◌,
}
use agent_keepalive.Recovery.{Completed, fstring}
use agent_keepalive.Recovery.Versions.{
  int_of_digits, key_ltb, match_digits, match_dot, match_version, search_version, span_digits,
}
use agent_keepalive.Tests.Data.{sample_from_isoformat, sample_py}
use agent_keepalive.TimeParse.{is_digit, read_digits}

abbrev running_payload : Fields
running_payload =
    field "state" (str "running") (field "updatedAt" (str "0001-01-01T00:00:05+00:00") end)

abbrev running_job : JobFile
running_job = readable 60 60 (some (obj running_payload))

read_job_state-IsUsable_example :
    (size : ℕ) × (characters : ℕ) × (json : Option Value) × (running_job
      ≡ readable size characters json)
    × (size ≤ max_job_state_bytes)
    × (characters ≤ max_job_state_bytes)
    × IsUsable sample_py "0123abcd" (set_field "short_id" (str "0123abcd") running_payload)
unfolding read_job_state check_payload payload_is_valid text_or_none get find updated_at_is_valid
    safe_parse_timestamp sample_from_isoformat in_flight_is_valid cwd_is_clean
read_job_state-IsUsable_example =
    read_job_state-IsUsable sample_py "0123abcd" running_job
      (set_field "short_id" (str "0123abcd") running_payload) refl

abbrev one_session : CliResult
one_session = finished (pos 0) (
    some
      (arr (cons (obj (field "sessionId" (str "0123abcd-0123-0123-0123-0123456789ab") end)) nil)))

discover_claude-Coherent_example :
    Coherent (discover_claude sample_py one_session) (discover_claude sample_py one_session).outcome
discover_claude-Coherent_example = discover_claude-Coherent sample_py one_session

short_session_id-is_short_example : is_short (codes "0123abcd") ≡ true
unfolding short_session_id is_uuid skip_hex is_hex first_chars
short_session_id-is_short_example =
    short_session_id-is_short "0123abcd-0123-0123-0123-0123456789ab" "0123abcd" refl

-- The version is read off the text around it, and compared number by number.
abbrev version_output : String → Completed
version_output text = record { returncode = pos 0; stdout = text; stderr = "" }

version_accepted :
    checked_preflight sample_py "/bin/claude" "/root" (version_output "2.1.139 (Claude Code)")
    ≡ ok (record { claude_bin = "/bin/claude"; version = "2.1.139"; config_dir = "/root" })
unfolding checked_preflight claude_version search_version match_version match_digits match_dot
    span_digits is_digit fstring int_of_digits read_digits key_ltb
version_accepted = refl

version_refused :
    checked_preflight sample_py "/bin/claude" "/root" (version_output "2.0.200")
    ≡ err (runtime_error "Claude Code 2.0.200 is too old; require at least 2.1.139")
unfolding checked_preflight claude_version search_version match_version match_digits match_dot
    span_digits is_digit fstring int_of_digits read_digits key_ltb
version_refused = refl
