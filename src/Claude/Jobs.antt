-- ===== src/Claude/Jobs.antt =====
-- providers/claude.py, read_job_state: reading the state file of a job.
pub mod Valid
-- What the file system answers: the size from `stat`, then the characters read and what
-- `json.loads` makes of them; its plain ValueError for an integer of more than 4300 digits, which
-- the source does not catch, is left out.
use agent_keepalive.Claude.Status.{
  JobStateResult, job_invalid, job_missing, job_ok, safe_parse_timestamp, task_count,
}
use agent_keepalive.Json.{Fields, Value, get, get_or, int, null, obj, set_field, str}
use agent_keepalive.Prelude.{
  Bool, Option, String, Text, [], codes, false, if◌then◌else◌, int_eq, ltb, nat_eq, none, not,
  pair_eq, pos, some, string_eq, text_eq, true, ℕ, ◌&&◌, ◌*◌, ◌==◌, ◌||◌, ◌∷◌,
}
use agent_keepalive.Python.{Python}

pub data JobFile : Type 0 where
  not_found unreadable : JobFile
  readable : (size : ℕ) (characters : ℕ) (json : Option Value) → JobFile

abbrev pub max_job_state_bytes : ℕ
max_job_state_bytes = 1024 * 1024

abbrev pub invalid_job : JobStateResult
invalid_job = record { outcome = job_invalid; payload = none }

-- `key in payload and payload[key] is not None and not isinstance(payload[key], str)`, negated.
unfoldable pub text_or_none : Value → Bool
text_or_none null = true
text_or_none (str s) = true
text_or_none _ = false

unfoldable pub has_nul : Text → Bool
has_nul [] = false
has_nul (c ∷ s) = c == 0 || has_nul s

unfoldable pub cwd_is_clean : Value → Bool
cwd_is_clean (str cwd) = not (has_nul (codes cwd))
cwd_is_clean _ = true

unfoldable pub in_flight_is_valid : Value → Bool
in_flight_is_valid null = true
in_flight_is_valid (obj in_flight) = elim (task_count (get_or "tasks" (int (pos 0)) in_flight)) [
  | none ↦ false
  | some _ ↦ true
]
in_flight_is_valid _ = false

module _ (py : Python) where
  unfoldable pub updated_at_is_valid : Value → Bool
  updated_at_is_valid (str updated_at) = elim (safe_parse_timestamp py (some updated_at)) [
    | none ↦ false
    | some _ ↦ true
  ]
  updated_at_is_valid _ = true

  -- The checks between `json.loads` and the return, in their order.
  unfoldable pub payload_is_valid : Fields → Bool
  payload_is_valid payload =
      text_or_none (get "state" payload)
      && text_or_none (get "updatedAt" payload)
      && text_or_none (get "sessionId" payload)
      && text_or_none (get "cwd" payload)
      && updated_at_is_valid (get "updatedAt" payload)
      && in_flight_is_valid (get "inFlight" payload)
      && cwd_is_clean (get "cwd" payload)

  unfoldable pub check_payload : String → Option Value → JobStateResult
  check_payload short_id (some (obj payload)) =
      if payload_is_valid payload
      then record { outcome = job_ok; payload = some (set_field "short_id" (str short_id) payload) }
      else invalid_job
  check_payload short_id _ = invalid_job

  unfoldable pub read_job_state : String → JobFile → JobStateResult
  read_job_state short_id not_found = record { outcome = job_missing; payload = none }
  read_job_state short_id unreadable = invalid_job
  read_job_state short_id (readable size characters json) =
      if ltb max_job_state_bytes size
      then invalid_job
      else if ltb max_job_state_bytes characters
      then invalid_job
      else check_payload short_id json
